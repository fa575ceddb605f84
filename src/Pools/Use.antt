-- ===== src/Pools/Use.antt =====
-- What `UseIP` and `EnsureAddressIsNotAvailable` do to the addresses on offer.
use plenuslb.Base.{
  Bool, true, false, not, ◌&&◌, none, some, List, [], ◌∷◌, String, ◌==◌, eq_iff, ◌≡◌, refl, ◌⊎◌,
  inl, inr, arith,
}
use plenuslb.Base.{
  if◌then◌else◌, Option-cases, Bool-cases, is_empty, any, find, find_pass, any-find, any-of_find,
  count-of_no_find, any-count,
}
use plenuslb.Base.Text.{eq_refl}
use plenuslb.Api.{PersistentPool, allows}
use plenuslb.Pools.{
  no_ip_available, used, refused, named, serves, remove_ip_from_pool, use_ip,
  ensure_address_is_not_available,
}
use plenuslb.Pools.Spec.{has, offers, IsValid}
use plenuslb.Pools.Lemmas.{rest, remove_ip_from_pool-offers}

-- A pool that has an address is not empty.
any-inhabited : (q : String → Bool) (l : List String) → any q l ≡ true → is_empty l ≡ false
any-inhabited q [] h = ground arith
any-inhabited q (x ∷ l) h = refl

-- Where a pool serves the address, `UseIP` takes it from the first one that does.
pub use_ip_found :
    (namespace address : String) (avail : List PersistentPool) (pool : PersistentPool)
    → find (serves namespace address) avail ≡ some pool
    → use_ip namespace address avail ≡ (
      used (rest pool address),
      remove_ip_from_pool (serves namespace address) pool address avail,
    )
unfolding use_ip
use_ip_found namespace address [] pool e = ground arith
use_ip_found namespace address (p ∷ ps) pool e =
    rw (e, use_ip)
      (rw (
        any-inhabited (λ a. a == address) pool.addresses
            (ground (arith, find_pass (serves namespace address) (p ∷ ps) pool e)),
        if◌then◌else◌,
      ))

pub use_ip_missed :
    (namespace address : String) (avail : List PersistentPool)
    → find (serves namespace address) avail ≡ none
    → use_ip namespace address avail ≡ (refused no_ip_available, avail)
unfolding use_ip
use_ip_missed namespace address [] e = refl
use_ip_missed namespace address (p ∷ ps) e = rw (e, use_ip)

-- On a well-formed availability a successful `UseIP` returns a pool that allows the namespace and
-- offered the address; afterwards that pool's offer of the address is gone, and every other pair
-- of a pool's name and an address is on offer exactly if it was.
pub use_ip-offers :
    (namespace address : String) (avail : List PersistentPool) (pool : PersistentPool)
    → IsValid avail
    → (use_ip namespace address avail).0 ≡ used pool
    → (allows pool.allowed_namespaces namespace ≡ true)
      × (offers pool.name address avail ≡ true)
      × ((n a : String)
          → offers n a (use_ip namespace address avail).1
            ≡ (offers n a avail && not (pool.name == n && a == address)))
use_ip-offers namespace address avail pool v h =
    elim (Option-cases (find (serves namespace address) avail)) [
      | inl e ↦ absurd (ground (arith, use_ip_missed namespace address avail e))
      | inr (p, e) ↦
          let step = use_ip_found namespace address avail p e in
          let same : rest p address ≡ pool = ground (arith, step) in
          let serving = find_pass (serves namespace address) avail p e in
          rw (← same) (
            ground arith,
            offered p e serving,
            λ n a. rw step (
                remove_ip_from_pool-offers (serves namespace address) p address n a avail e
                  (v.distinct p.name)),
          )
    ]
  where
    offered-list :
        (p : PersistentPool) (l : List PersistentPool)
        → find (serves namespace address) l ≡ some p
        → offers p.name address l ≡ true
    offered-list p [] e = ground arith
    offered-list p (x ∷ l) e = ground (arith, offered-list p l, eq_refl p.name)

    offered :
        (p : PersistentPool)
        → find (serves namespace address) avail ≡ some p
        → serves namespace address p ≡ true
        → offers p.name address avail ≡ true
    offered p e s = offered-list p avail e

-- `UseIP` succeeds exactly if some listed pool allows the namespace and has the address; otherwise
-- it reports that no address is available and changes nothing.
pub use_ip_complete :
    (namespace address : String) (avail : List PersistentPool)
    → ((any (serves namespace address) avail ≡ true)
        × (pool : PersistentPool) × ((use_ip namespace address avail).0 ≡ used pool))
      ⊎ ((any (serves namespace address) avail ≡ false)
          × (use_ip namespace address avail ≡ (refused no_ip_available, avail)))
use_ip_complete namespace address avail = elim (Bool-cases (any (serves namespace address) avail)) [
  | inl e ↦
      let (p, found) = any-find (serves namespace address) avail e in
      inl (e, rest p address, ground (arith, use_ip_found namespace address avail p found))
  | inr e ↦ elim (Option-cases (find (serves namespace address) avail)) [
    | inl n ↦ inr (e, use_ip_missed namespace address avail n)
    | inr (p, found) ↦ absurd (ground (arith, any-of_find (serves namespace address) avail p found))
  ]
]

-- `EnsureAddressIsNotAvailable` withdraws the address from the pool of the name that it is given,
-- and nothing else.
pub ensure_address_is_not_available-offers :
    (name address n a : String) (avail : List PersistentPool)
    → IsValid avail
    → offers n a (ensure_address_is_not_available name address avail)
      ≡ (offers n a avail && not (name == n && a == address))
unfolding ensure_address_is_not_available
ensure_address_is_not_available-offers name address n a avail v =
    elim (Option-cases (find (named name) avail)) [
      | inl e ↦
          rw (e, ensure_address_is_not_available)
            (ground (
              arith,
              eq_iff name n,
              any-count (has n a) avail,
              count-of_no_find (named name) (has name a) avail e (λ x h. ground arith),
            ))
      | inr (pool, e) ↦
          rw (e, ensure_address_is_not_available)
            (ground (
              arith,
              eq_iff pool.name name,
              find_pass (named name) avail pool e,
              remove_ip_from_pool-offers (named name) pool address n a avail e
                  (v.distinct pool.name),
            ))
    ]
