-- ===== src/Pools/Process.antt =====
-- What the recomputation of a pool's availability offers, and what the warm-up leaves on offer.
use plenuslb.Base.{
  Bool, true, false, not, ◌&&◌, none, some, List, [], ◌∷◌, String, ◌==◌, eq_iff, ◌≡◌, refl, inl,
  inr, arith,
}
use plenuslb.Base.{
  if◌then◌else◌, Option-cases, Bool-cases, is_empty, any, find, keep, any-count, any-append,
  count-update_first, count-of_no_find, update_first, find_pass,
}
use plenuslb.Base.Text.{eq_refl}
use plenuslb.Api.{PersistentPool, IpAllocation, pool_has_address}
use plenuslb.Pools.{
  named, check_if_ip_is_allocated, search_availability_pool_by_name,
  add_or_replace_availability_pool, free_pool, process_ip_availability, add_pool,
  warmup_ip_availability,
}
use plenuslb.Pools.Spec.{has, offers, IsValid}
use plenuslb.Pools.Lemmas.{count-has}

-- A pool with addresses replaces what its name offered by its own addresses.
pub add_or_replace_availability_pool-offers :
    (pool : PersistentPool) (n a : String) (avail : List PersistentPool)
    → is_empty pool.addresses ≡ false
    → IsValid avail
    → offers n a (add_or_replace_availability_pool pool avail)
      ≡ (if pool.name == n then any (λ x. x == a) pool.addresses else offers n a avail)
unfolding add_or_replace_availability_pool
add_or_replace_availability_pool-offers pool n a avail h v =
    rw (h, if◌then◌else◌)
      (elim (Option-cases (find (named pool.name) avail)) [
        | inl e ↦
            rw (e, search_availability_pool_by_name)
              (rw any-append (
                ground (
                  arith,
                  eq_iff pool.name n,
                  any-count (has n a) avail,
                  count-of_no_find (named pool.name) (has pool.name a) avail e
                      (λ x h. ground arith),
                )))
        | inr (old, e) ↦
            rw (e, search_availability_pool_by_name)
              (ground (
                arith,
                eq_iff pool.name n,
                eq_iff old.name pool.name,
                eq_iff old.name n,
                find_pass (named pool.name) avail old e,
                any-count (has n a) avail,
                any-count (has n a) (update_first (named pool.name) pool avail),
                count-update_first (named pool.name) (has n a) pool old avail e,
                count-has (named pool.name) old a avail e (v.distinct old.name),
              ))
      ])

any-keep :
    (p : String → Bool) (a : String) (l : List String)
    → any (λ x. x == a) (keep p l) ≡ (any (λ x. x == a) l && p a)
any-keep p a [] = refl
any-keep p a (x ∷ l) = elim (Bool-cases (x == a)) [
  | inl e ↦
      let same : x ≡ a = (eq_iff x a).0 e in rw same (ground (arith, eq_refl a, any-keep p a l))
  | inr e ↦ rw e (ground (arith, any-keep p a l))
]

abbrev pub free : PersistentPool → List IpAllocation → String → Bool
free pool allocations a = pool_has_address pool a && not (check_if_ip_is_allocated a allocations)

pub free_pool_lem :
    (pool : PersistentPool) (allocations : List IpAllocation) (a : String)
    → any (λ x. x == a) (free_pool pool allocations).addresses ≡ free pool allocations a
unfolding free_pool pool_has_address
free_pool_lem pool allocations a =
    any-keep (λ ip. not (check_if_ip_is_allocated ip allocations)) a pool.addresses

-- Where some address of the pool is free, the recomputation makes the pool's name offer exactly
-- the addresses that the pool has and no allocation uses, and leaves the other names as they were.
pub process_ip_availability-offers :
    (pool : PersistentPool) (allocations : List IpAllocation) (n a : String)
    (avail : List PersistentPool)
    → is_empty (free_pool pool allocations).addresses ≡ false
    → IsValid avail
    → offers n a (process_ip_availability pool allocations avail)
      ≡ (if pool.name == n then free pool allocations a else offers n a avail)
unfolding process_ip_availability
process_ip_availability-offers pool allocations n a avail h v = ground (
  arith,
  free_pool_lem pool allocations a,
  free_pool_name pool allocations,
  add_or_replace_availability_pool-offers (free_pool pool allocations) n a avail h v,
)
  where
    free_pool_name :
        (pool : PersistentPool) (allocations : List IpAllocation)
        → (free_pool pool allocations).name ≡ pool.name
    free_pool_name pool allocations = refl

abbrev pub has_free : List IpAllocation → PersistentPool → Bool
has_free allocations pool = not (is_empty (free_pool pool allocations).addresses)

abbrev pub expected : List PersistentPool → List IpAllocation → String → String → Bool → Bool
expected pools allocations n a before = elim (find (named n) pools) [
  | none ↦ before
  | some pool ↦ free pool allocations a
]

-- Where no address of the pool is free, the recomputation changes nothing: what the pool's name
-- offered before, used addresses included, stays on offer.
pub process_ip_availability_exhausted :
    (pool : PersistentPool) (allocations : List IpAllocation) (avail : List PersistentPool)
    → is_empty (free_pool pool allocations).addresses ≡ true
    → process_ip_availability pool allocations avail ≡ avail
unfolding process_ip_availability
process_ip_availability_exhausted pool allocations avail h = rw (h, if◌then◌else◌)

-- On a well-formed availability, if a pool has addresses and every one of them is used by an
-- allocation, then the warm-up of that pool leaves on offer, under the pool's name, exactly the
-- addresses of the pool.
pub warmup_offers_used :
    (pool : PersistentPool) (allocations : List IpAllocation) (a : String)
    (avail : List PersistentPool)
    → is_empty pool.addresses ≡ false
    → is_empty (free_pool pool allocations).addresses ≡ true
    → IsValid avail
    → offers pool.name a (warmup_ip_availability (pool ∷ []) allocations avail)
      ≡ pool_has_address pool a
unfolding warmup_ip_availability pool_has_address
warmup_offers_used pool allocations a avail some_address exhausted v =
    rw (process_ip_availability_exhausted pool allocations (add_pool pool avail) exhausted) (
      ground (
        arith,
        eq_refl pool.name,
        add_or_replace_availability_pool-offers pool pool.name a avail some_address v,
      ))
