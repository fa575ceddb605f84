-- ===== src/Pools/Race.antt =====
-- `EnsureAddressIsNotAvailable` of pkg/controller/persistentips/poolsManager.go takes no lock: what a call of
-- `UseIP` does between its reads and its writes.
use plenuslb.Base.{
  true, false, Option, none, some, List, [], ◌∷◌, String, ◌==◌, eq_iff, ◌≡◌, refl, inl, inr, arith,
}
use plenuslb.Base.{if◌then◌else◌, Option-cases, is_empty, any, find, find_pass, update_first}
use plenuslb.Base.Text.{eq_refl}
use plenuslb.Api.{PersistentPool}
use plenuslb.Pools.{
  used, named, use_ip, without, with_addresses, remove_available_pool, remove_ip_from_pool,
  search_availability_pool_by_name, ensure_address_is_not_available,
}
use plenuslb.Pools.Spec.{offers, IsValid}
use plenuslb.Pools.Use.{use_ip-offers}

-- What `EnsureAddressIsNotAvailable` reads: the pool that it finds, with the addresses that
-- `removeIPFromPool` collects.
unfoldable pub ensure_reads : String → String → List PersistentPool → Option PersistentPool
unfolding search_availability_pool_by_name
ensure_reads pool_name address avail = elim (search_availability_pool_by_name pool_name avail) [
  | none ↦ none
  | some pool ↦ some (with_addresses pool (without address pool.addresses))
]

-- What it then writes: the addresses, and an empty pool is removed.
unfoldable pub ensure_writes : String → PersistentPool → List PersistentPool → List PersistentPool
unfolding remove_available_pool
ensure_writes pool_name pool avail =
    let avail' = update_first (named pool_name) pool avail in
    if is_empty pool.addresses then (remove_available_pool pool.name avail').1 else avail'

-- With nothing in between, the two are the call.
pub ensure_address_is_not_available-halves :
    (pool_name address : String) (avail : List PersistentPool)
    → ensure_address_is_not_available pool_name address avail
      ≡ (elim (ensure_reads pool_name address avail) [
        | none ↦ avail
        | some pool ↦ ensure_writes pool_name pool avail
      ])
unfolding ensure_address_is_not_available ensure_reads ensure_writes remove_ip_from_pool
ensure_address_is_not_available-halves pool_name address avail =
    elim (Option-cases (search_availability_pool_by_name pool_name avail)) [
      | inl e ↦ ground arith
      | inr (pool, e) ↦ ground arith
    ]

reads-named :
    (name address : String) (avail : List PersistentPool) (read : PersistentPool)
    → ensure_reads name address avail ≡ some read
    → read.name ≡ name
unfolding ensure_reads search_availability_pool_by_name
reads-named name address avail read h = elim (Option-cases (find (named name) avail)) [
  | inl e ↦ absurd (ground arith)
  | inr (pool, e) ↦ ground (arith, find_pass (named name) avail pool e, eq_iff pool.name name)
]

offers-update_first :
    (name address : String) (pool : PersistentPool) (avail : List PersistentPool)
    → pool.name ≡ name
    → any (λ a. a == address) pool.addresses ≡ true
    → any (named name) avail ≡ true
    → offers name address (update_first (named name) pool avail) ≡ true
offers-update_first name address pool [] same holds listed = ground arith
offers-update_first name address pool (p ∷ avail) same holds listed =
    ground (arith, eq_iff pool.name name, offers-update_first name address pool avail same holds)

offers-named :
    (name address : String) (avail : List PersistentPool)
    → offers name address avail ≡ true
    → any (named name) avail ≡ true
offers-named name address [] h = ground arith
offers-named name address (p ∷ avail) h = ground (arith, offers-named name address avail)

inhabited : (l : List String) (a : String) → any (λ b. b == a) l ≡ true → is_empty l ≡ false
inhabited [] a h = ground arith
inhabited (x ∷ l) a h = refl

-- Suppose that on a well-formed availability EnsureAddressIsNotAvailable has read a pool that has another
-- address, that UseIP then takes this other address out of the pool of that name, and that the pool
-- is still listed, since the first address is on offer. Then the other address is no longer on
-- offer, and what EnsureAddressIsNotAvailable writes puts it on offer again.
pub use_ip_undone :
    (name address namespace other : String) (avail : List PersistentPool)
    (read taken : PersistentPool)
    → IsValid avail
    → ensure_reads name address avail ≡ some read
    → any (λ a. a == other) read.addresses ≡ true
    → (use_ip namespace other avail).0 ≡ used taken
    → taken.name ≡ name
    → offers name address (use_ip namespace other avail).1 ≡ true
    → (offers name other (use_ip namespace other avail).1 ≡ false)
      × (offers name other (ensure_writes name read (use_ip namespace other avail).1) ≡ true)
unfolding ensure_reads ensure_writes
use_ip_undone name address namespace other avail read taken v reads holds takes same listed =
    let avail' = (use_ip namespace other avail).1 in
    (
      ground (
        arith,
        (use_ip-offers namespace other avail taken v takes).2 name other,
        eq_refl other,
        eq_iff taken.name name,
      ),
      ground (
        arith,
        inhabited read.addresses other holds,
        offers-update_first name other read avail' (reads-named name address avail read reads) holds
            (offers-named name address avail' listed),
      ),
    )
