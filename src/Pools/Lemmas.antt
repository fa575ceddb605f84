-- ===== src/Pools/Lemmas.antt =====
-- `removeAvailablePool` and `removeIPFromPool` by what they do to the count of the entries that
-- pass a test.
use plenuslb.Base.{
  Bool, true, false, not, ◌&&◌, some, List, [], ◌∷◌, String, ◌==◌, eq_iff, ◌+◌, ◌≤◌, ◌≡◌, refl,
  arith,
}
use plenuslb.Base.{
  if◌then◌else◌, is_empty, any, find, bit, count, update_first, count-update_first,
  count-swap_remove, find_index-find, find-update_first, any-count, count-le-of_find,
}
use plenuslb.Base.Text.{eq_refl}
use plenuslb.Api.{PersistentPool}
use plenuslb.Pools.{named, with_addresses, without, remove_available_pool, remove_ip_from_pool}
use plenuslb.Pools.Spec.{has, offers}

count-remove_available_pool :
    (name : String) (q : PersistentPool → Bool) (avail : List PersistentPool) (p : PersistentPool)
    → find (named name) avail ≡ some p
    → count q (remove_available_pool name avail).1 + bit (q p) ≡ count q avail
unfolding remove_available_pool
count-remove_available_pool name q avail p h =
    let (i, stops, at) = find_index-find (named name) avail p h in
    rw (stops, remove_available_pool) (count-swap_remove q avail i p at)

-- What is left of a pool after the removal of an address.
abbrev pub rest : PersistentPool → String → PersistentPool
rest pool address = with_addresses pool (without address pool.addresses)

-- The entry found gives way to what is left of it, and to nothing if that is empty.
pub count-remove_ip_from_pool :
    (chosen q : PersistentPool → Bool) (pool : PersistentPool) (address : String)
    (avail : List PersistentPool)
    → find chosen avail ≡ some pool
    → count (named pool.name) avail ≤ 1
    → count q (remove_ip_from_pool chosen pool address avail) + bit (q pool)
      ≡ count q avail
        + (if is_empty (without address pool.addresses) then 0 else bit (q (rest pool address)))
unfolding remove_ip_from_pool
count-remove_ip_from_pool chosen q pool address avail found one =
    let pool' = rest pool address in
    let avail' = update_first chosen pool' avail in
    ground (
      arith,
      count-update_first chosen q pool' pool avail found,
      count-remove_available_pool pool.name q avail' pool' (
          find-update_first chosen (named pool.name) pool' pool avail found (eq_refl pool.name)
            (eq_refl pool.name) one),
    )

-- An address is in what is left exactly if it was there and is another one.
pub any-without :
    (a b : String) (l : List String)
    → any (λ x. x == a) (without b l) ≡ (any (λ x. x == a) l && not (a == b))
any-without a b [] = refl
any-without a b (x ∷ l) = ground (arith, any-without a b l, eq_iff x b, eq_iff x a, eq_iff a b)

empty-any : (a : String) (l : List String) → is_empty l ≡ true → any (λ x. x == a) l ≡ false
empty-any a [] h = refl
empty-any a (x ∷ l) h = ground arith

-- With one entry to a name, the entry found says all that its name offers.
pub count-has :
    (chosen : PersistentPool → Bool) (pool : PersistentPool) (a : String)
    (avail : List PersistentPool)
    → find chosen avail ≡ some pool
    → count (named pool.name) avail ≤ 1
    → count (has pool.name a) avail ≡ bit (has pool.name a pool)
count-has chosen pool a avail found one = ground (
  arith,
  eq_refl pool.name,
  count-le-of_find chosen (has pool.name a) (named pool.name) pool avail found (eq_refl pool.name)
      (λ x h. ground arith),
  count-ge chosen (has pool.name a) pool avail found,
)
  where
    count-ge :
        (chosen q : PersistentPool → Bool) (pool : PersistentPool) (avail : List PersistentPool)
        → find chosen avail ≡ some pool
        → bit (q pool) ≤ count q avail
    count-ge chosen q pool [] found = ground arith
    count-ge chosen q pool (x ∷ avail) found = ground (arith, count-ge chosen q pool avail)

-- The removal takes the address from the pool found, and from no other pool, and takes no other.
pub remove_ip_from_pool-offers :
    (chosen : PersistentPool → Bool) (pool : PersistentPool) (address n a : String)
    (avail : List PersistentPool)
    → find chosen avail ≡ some pool
    → count (named pool.name) avail ≤ 1
    → offers n a (remove_ip_from_pool chosen pool address avail)
      ≡ (offers n a avail && not (pool.name == n && a == address))
remove_ip_from_pool-offers chosen pool address n a avail found one =
    let avail' = remove_ip_from_pool chosen pool address avail in
    ground (
      arith,
      any-count (has n a) avail,
      any-count (has n a) avail',
      count-remove_ip_from_pool chosen (has n a) pool address avail found one,
      any-without a address pool.addresses,
      empty-any a (without address pool.addresses),
      eq_iff pool.name n,
      count-has chosen pool a avail found one,
    )
