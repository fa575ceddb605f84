-- ===== src/Pools/Spec.antt =====
-- What the availability promises: which addresses of which pools it offers.
use plenuslb.Base.{Bool, ◌&&◌, List, String, ◌==◌, ◌≡◌, ◌≤◌}
use plenuslb.Base.{is_empty, any, count}
use plenuslb.Api.{PersistentPool}

-- The pool has the name and the address.
abbrev pub has : String → String → PersistentPool → Bool
has name address pool = pool.name == name && any (λ a. a == address) pool.addresses

-- The address is available in the pool of that name.
abbrev pub offers : String → String → List PersistentPool → Bool
offers name address avail = any (has name address) avail

-- No two entries have one name, and no entry is without addresses.
pub record IsValid (avail : List PersistentPool) : Type 0 where
  pub distinct : (name : String) → count (λ p. p.name == name) avail ≤ 1
  pub inhabited : count (λ p. is_empty p.addresses) avail ≡ 0
