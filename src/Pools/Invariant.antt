-- ===== src/Pools/Invariant.antt =====
-- The well-formedness of the availability under every operation of Pools.antt.
use plenuslb.Base.{
  Bool, true, false, none, some, List, [], ◌∷◌, ◌++◌, String, eq_iff, ◌≡◌, refl, inl, inr, arith,
}
use plenuslb.Base.{
  if◌then◌else◌, Option-cases, is_empty, find, update_first, count-append, count-update_first,
  count-of_no_find, find_pass, any-of_no_find, any-of_find,
}
use plenuslb.Api.{PersistentPool, IpAllocation}
use plenuslb.Pools.{
  named, serves, with_addresses, remove_ip_from_pool, use_ip, ensure_address_is_not_available,
  search_availability_pool_by_name, add_or_replace_availability_pool, process_ip_availability,
  free_pool, warmup_ip_availability, add_pool, update_pool_availability,
}
use plenuslb.Pools.Spec.{IsValid}
use plenuslb.Pools.Lemmas.{count-remove_ip_from_pool}

pub remove_ip_from_pool-IsValid :
    (chosen : PersistentPool → Bool) (pool : PersistentPool) (address : String)
    (avail : List PersistentPool)
    → find chosen avail ≡ some pool
    → IsValid avail
    → IsValid (remove_ip_from_pool chosen pool address avail)
remove_ip_from_pool-IsValid chosen pool address avail found v = record {
  distinct = λ name. ground (
    arith,
    v.distinct name,
    count-remove_ip_from_pool chosen (named name) pool address avail found (v.distinct pool.name),
  );
  inhabited = ground (
    arith,
    count-remove_ip_from_pool chosen (λ p. is_empty p.addresses) pool address avail found
        (v.distinct pool.name),
  );
}

-- Taking an address keeps the availability well formed, whether it succeeds or not.
pub use_ip-IsValid :
    (namespace address : String) (avail : List PersistentPool)
    → IsValid avail
    → IsValid (use_ip namespace address avail).1
unfolding use_ip
use_ip-IsValid namespace address [] v = v
use_ip-IsValid namespace address (p ∷ ps) v =
    elim (Option-cases (find (serves namespace address) (p ∷ ps))) [
      | inl e ↦ rw (e, use_ip) v
      | inr (pool, e) ↦ go pool e (is_empty pool.addresses) refl
    ]
  where
    go :
        (pool : PersistentPool)
        → find (serves namespace address) (p ∷ ps) ≡ some pool
        → (b : Bool) → is_empty pool.addresses ≡ b
        → IsValid (use_ip namespace address (p ∷ ps)).1
    go pool e true h = rw (e, use_ip) (rw (h, if◌then◌else◌) v)
    go pool e false h =
        rw (e, use_ip)
          (rw (h, if◌then◌else◌)
            (remove_ip_from_pool-IsValid (serves namespace address) pool address (p ∷ ps) e v))

pub ensure_address_is_not_available-IsValid :
    (name address : String) (avail : List PersistentPool)
    → IsValid avail
    → IsValid (ensure_address_is_not_available name address avail)
unfolding ensure_address_is_not_available
ensure_address_is_not_available-IsValid name address avail v =
    elim (Option-cases (find (named name) avail)) [
      | inl e ↦ rw (e, ensure_address_is_not_available) v
      | inr (pool, e) ↦
          rw (e, ensure_address_is_not_available)
            (remove_ip_from_pool-IsValid (named name) pool address avail e v)
    ]

-- A pool whose name is not listed can be appended.
pub append-IsValid :
    (pool : PersistentPool) (avail : List PersistentPool)
    → find (named pool.name) avail ≡ none
    → is_empty pool.addresses ≡ false
    → IsValid avail
    → IsValid (avail ++ pool ∷ [])
append-IsValid pool avail absent some_address v = record {
  distinct = λ name. ground (
    arith,
    v.distinct name,
    count-append (named name) avail (pool ∷ []),
    eq_iff pool.name name,
    count-of_no_find (named pool.name) (named pool.name) avail absent (λ x h. h),
  );
  inhabited = ground (arith, count-append (λ p. is_empty p.addresses) avail (pool ∷ []));
}

-- The entry of a pool can be replaced by one of the same name.
pub update-IsValid :
    (name : String) (old pool : PersistentPool) (avail : List PersistentPool)
    → pool.name ≡ name
    → find (named name) avail ≡ some old
    → is_empty pool.addresses ≡ false
    → IsValid avail
    → IsValid (update_first (named name) pool avail)
update-IsValid name old pool avail same found some_address v = record {
  distinct = λ other. ground (
    arith,
    v.distinct other,
    count-update_first (named name) (named other) pool old avail found,
    find_pass (named name) avail old found,
    eq_iff old.name name,
  );
  inhabited =
      ground
        (arith, count-update_first (named name) (λ p. is_empty p.addresses) pool old avail found);
}

pub add_or_replace_availability_pool-IsValid :
    (pool : PersistentPool) (avail : List PersistentPool)
    → IsValid avail
    → IsValid (add_or_replace_availability_pool pool avail)
unfolding add_or_replace_availability_pool
add_or_replace_availability_pool-IsValid pool avail v = go (is_empty pool.addresses) refl
  where
    go :
        (b : Bool)
        → is_empty pool.addresses ≡ b
        → IsValid (add_or_replace_availability_pool pool avail)
    go true h = rw (h, if◌then◌else◌) v
    go false h =
        rw (h, if◌then◌else◌)
          (elim (Option-cases (find (named pool.name) avail)) [
            | inl e ↦ rw (e, search_availability_pool_by_name) (append-IsValid pool avail e h v)
            | inr (old, e) ↦
                rw (e, search_availability_pool_by_name)
                  (update-IsValid pool.name old pool avail refl e h v)
          ])

-- Adding or replacing the free addresses of a pool keeps the availability well formed.
pub process_ip_availability-IsValid :
    (pool : PersistentPool) (allocations : List IpAllocation) (avail : List PersistentPool)
    → IsValid avail
    → IsValid (process_ip_availability pool allocations avail)
unfolding process_ip_availability
process_ip_availability-IsValid pool allocations avail v =
    add_or_replace_availability_pool-IsValid (free_pool pool allocations) avail v

-- The warm-up keeps the availability well formed.
pub warmup_ip_availability-IsValid :
    (pools : List PersistentPool) (allocations : List IpAllocation) (avail : List PersistentPool)
    → IsValid avail
    → IsValid (warmup_ip_availability pools allocations avail)
unfolding warmup_ip_availability
warmup_ip_availability-IsValid [] allocations avail v = v
warmup_ip_availability-IsValid (pool ∷ pools) allocations avail v =
    warmup_ip_availability-IsValid pools allocations
      (process_ip_availability pool allocations (add_pool pool avail))
      (process_ip_availability-IsValid pool allocations (add_pool pool avail)
        (add_or_replace_availability_pool-IsValid pool avail v))

-- `UpdatePoolAvailability` keeps the availability well formed.
pub update_pool_availability-IsValid :
    (pool : PersistentPool) (addresses : List String) (avail : List PersistentPool)
    → IsValid avail
    → IsValid (update_pool_availability pool addresses avail)
unfolding update_pool_availability
update_pool_availability-IsValid pool [] avail v = v
update_pool_availability-IsValid pool (a ∷ l) avail v =
    elim (Option-cases (find (named pool.name) avail)) [
      | inl e ↦
          rw (any-of_no_find (named pool.name) avail e)
            (append-IsValid (with_addresses pool (a ∷ l)) avail e refl v)
      | inr (old, e) ↦
          rw (any-of_find (named pool.name) avail old e)
            (update-IsValid pool.name old (with_addresses pool (a ∷ l)) avail refl e refl v)
    ]
