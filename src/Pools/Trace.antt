-- ===== src/Pools/Trace.antt =====
-- Sequences of calls on the availability: an address that was handed out is not handed out again
-- before it is given back.
use plenuslb.Base.{
  Bool, true, false, not, ◌&&◌, List, [], ◌∷◌, String, ◌==◌, eq_iff, ◌≡◌, ◌≢◌, inl, inr, ap, ◌∙◌,
  arith,
}
use plenuslb.Base.Text.{eq_refl}
use plenuslb.Api.{PersistentPool}
use plenuslb.Pools.{used, use_ip, release_ip, ensure_address_is_not_available}
use plenuslb.Pools.Spec.{offers, IsValid}
use plenuslb.Pools.Invariant.{use_ip-IsValid, ensure_address_is_not_available-IsValid}
use plenuslb.Pools.Use.{use_ip-offers, use_ip_complete, ensure_address_is_not_available-offers}
use plenuslb.Pools.Release.{BelongsTo, release_ip-IsValid, release_ip-offers}

-- The calls that the allocators make. Each is one step: `UseIP` and `ReleaseIP` hold the lock, but
-- `EnsureAddressIsNotAvailable`, which is `withdraw`, holds none, so that these are the runs in which
-- no other call overlaps it; Race is about one that does.
pub data Call : Type 0 where
  take : String → String → Call
  withdraw : String → String → Call
  give_back : String → String → String → Call

module _ (store : List PersistentPool) where
  unfoldable pub step : Call → List PersistentPool → List PersistentPool
  step (take namespace address) avail = (use_ip namespace address avail).1
  step (withdraw name address) avail = ensure_address_is_not_available name address avail
  step (give_back name namespace address) avail = release_ip store name namespace address avail

  unfoldable pub run : List Call → List PersistentPool → List PersistentPool
  run [] avail = avail
  run (c ∷ calls) avail = run calls (step c avail)

  -- An address is given back to the pool of the store that has it.
  abbrev pub Proper : Call → Type 0
  Proper (take namespace address) = Unit
  Proper (withdraw name address) = Unit
  Proper (give_back name namespace address) = BelongsTo store name namespace address

  abbrev pub AllProper : List Call → Type 0
  AllProper [] = Unit
  AllProper (c ∷ calls) = Proper c × AllProper calls

-- The call gives the address back to the pool of that name.
abbrev pub returns : String → String → Call → Bool
returns n a (take namespace address) = false
returns n a (withdraw name address) = false
returns n a (give_back name namespace address) = name == n && address == a

abbrev pub none_returns : String → String → List Call → Bool
none_returns n a [] = true
none_returns n a (c ∷ calls) = not (returns n a c) && none_returns n a calls

module _ (store : List PersistentPool) where
  step-IsValid :
      (c : Call) (avail : List PersistentPool)
      → Proper store c
      → IsValid avail
      → IsValid (step store c avail)
  unfolding step
  step-IsValid (take namespace address) avail ok v = use_ip-IsValid namespace address avail v
  step-IsValid (withdraw name address) avail ok v =
      ensure_address_is_not_available-IsValid name address avail v
  step-IsValid (give_back name namespace address) avail ok v =
      release_ip-IsValid store name namespace address avail ok v

  use_ip-withdrawn :
      (namespace address n a : String) (avail : List PersistentPool)
      → IsValid avail
      → offers n a avail ≡ false
      → offers n a (use_ip namespace address avail).1 ≡ false
  use_ip-withdrawn namespace address n a avail v gone =
      elim (use_ip_complete namespace address avail) [
        | inl (_, pool, e) ↦ ground (arith, (use_ip-offers namespace address avail pool v e).2 n a)
        | inr (_, e) ↦ rw e gone
      ]

  step-withdrawn :
      (c : Call) (n a : String) (avail : List PersistentPool)
      → Proper store c
      → returns n a c ≡ false
      → IsValid avail
      → offers n a avail ≡ false
      → offers n a (step store c avail) ≡ false
  unfolding step
  step-withdrawn (take namespace address) n a avail ok r v gone =
      use_ip-withdrawn namespace address n a avail v gone
  step-withdrawn (withdraw name address) n a avail ok r v gone =
      ground (arith, ensure_address_is_not_available-offers name address n a avail v)
  step-withdrawn (give_back name namespace address) n a avail ok r v gone = ground (
    arith,
    release_ip-offers store name namespace address n a avail ok v,
    eq_iff a address,
    eq_iff address a,
  )

  -- Any sequence of calls keeps the availability well formed, if addresses are given back only to
  -- the pool of the store that has them, and no call overlaps one of `EnsureAddressIsNotAvailable`.
  pub run-IsValid :
      (calls : List Call) (avail : List PersistentPool)
      → AllProper store calls
      → IsValid avail
      → IsValid (run store calls avail)
  unfolding run
  run-IsValid [] avail ok v = v
  run-IsValid (c ∷ calls) avail ok v =
      run-IsValid calls (step store c avail) ok.1 (step-IsValid c avail ok.0 v)

  run-withdrawn :
      (calls : List Call) (n a : String) (avail : List PersistentPool)
      → AllProper store calls
      → none_returns n a calls ≡ true
      → IsValid avail
      → offers n a avail ≡ false
      → offers n a (run store calls avail) ≡ false
  unfolding run
  run-withdrawn [] n a avail ok r v gone = gone
  run-withdrawn (c ∷ calls) n a avail ok r v gone =
      run-withdrawn calls n a (step store c avail) ok.1 (ground arith) (step-IsValid c avail ok.0 v)
        (step-withdrawn c n a avail ok.0 (ground arith) v gone)

  -- On a well-formed availability: after `UseIP` has handed an address out of a pool, and any
  -- calls none of which gives it back to that pool, every later `UseIP` of the address that
  -- succeeds takes it from a pool of another name. Addresses are given back only to the pool of
  -- the store that has them, and no call overlaps one of `EnsureAddressIsNotAvailable`.
  pub no_double_use :
      (avail : List PersistentPool) (first second address : String) (calls : List Call)
      (pool later : PersistentPool)
      → IsValid avail
      → AllProper store calls
      → none_returns pool.name address calls ≡ true
      → (use_ip first address avail).0 ≡ used pool
      → (use_ip second address (run store calls (use_ip first address avail).1)).0 ≡ used later
      → later.name ≢ pool.name
  no_double_use avail first second address calls pool later v ok r h k same =
      let avail' = (use_ip first address avail).1 in
      let v' = use_ip-IsValid first address avail v in
      ground (
        arith,
        eq_refl pool.name,
        eq_refl address,
        ap (λ n. offers n address (run store calls avail')) same,
        (use_ip-offers first address avail pool v h).2 pool.name address,
        (use_ip-offers second address (run store calls avail') later
            (run-IsValid calls avail' ok v') k).1,
        run-withdrawn calls pool.name address avail' ok r v' (
            (use_ip-offers first address avail pool v h).2 pool.name address
            ∙ ground (arith, eq_refl pool.name, eq_refl address)),
      )
