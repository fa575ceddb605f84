-- ===== src/Pools.antt =====
-- The availability of persistent addresses: pkg/controller/persistentips/poolsManager.go, and
-- `addPool` and the loop of `warmupIPAvailabilityOrDie` of watcher.go beside it.
--
-- `availablesPools` is a list of pointers to pools that nothing else holds, so it is the list of
-- the pools; a write through the pointer that a search returned is a write at the first match.
-- `store` stands for `ippoolsStore.List()`. Log lines are left out. `UseIP`, `ReleaseIP`,
-- `UpdatePoolAvailability` and the two that process a pool hold the lock for their whole body.
-- `EnsureAddressIsNotAvailable` and `addPool` take no lock: the functions below say what such a call
-- does when no other overlaps it, and Race has `EnsureAddressIsNotAvailable` in two steps.
pub mod Lemmas
pub mod Invariant
pub mod Use
pub mod Race
pub mod Choice
pub mod Release
pub mod Process
pub mod Trace
pub mod Spec
use plenuslb.Base.{
  Bool, true, false, not, ◌&&◌, Option, none, some, List, [], ◌∷◌, ◌++◌, String, ◌==◌, ℕ,
}
use plenuslb.Base.{if◌then◌else◌, is_empty, any, find, find_index, keep, update_first, swap_remove}
use plenuslb.Api.{PersistentPool, AddressAllocation, IpAllocation, allows, pool_has_address}

pub data PoolError : Type 0 where
  no_ip_available pool_not_found : PoolError

pub data UseResult : Type 0 where
  used : PersistentPool → UseResult
  refused : PoolError → UseResult

abbrev pub with_addresses : PersistentPool → List String → PersistentPool
with_addresses pool addresses = record pool { addresses = addresses }

-- `existingPool.GetName() == name`
abbrev pub named : String → PersistentPool → Bool
named name pool = pool.name == name

-- The test of `getAvailabilityPoolOfAddress` and `GetPoolOfAddress` on one pool.
abbrev pub serves : String → String → PersistentPool → Bool
serves namespace address pool =
    allows pool.allowed_namespaces namespace && any (λ a. a == address) pool.addresses

-- `recreatePoolAvailability`
unfoldable pub recreate_pool_availability :
    PersistentPool → List String → List PersistentPool → List PersistentPool
recreate_pool_availability original addresses avail =
    avail ++ with_addresses original addresses ∷ []

-- `UpdatePoolAvailability`
unfoldable pub update_pool_availability :
    PersistentPool → List String → List PersistentPool → List PersistentPool
unfolding recreate_pool_availability
update_pool_availability pool addresses avail =
    if is_empty addresses
    then avail
    else (if any (named pool.name) avail
        then update_first (named pool.name) (with_addresses pool addresses) avail
        else recreate_pool_availability pool addresses avail)

-- `removeAvailablePool`: whether a pool was removed, and the list.
unfoldable pub remove_available_pool : String → List PersistentPool → Bool × List PersistentPool
remove_available_pool name avail = elim (find_index (named name) avail) [
  | none ↦ (false, avail)
  | some i ↦ (true, swap_remove i avail)
]

abbrev pub without : String → List String → List String
without address = keep (λ a. not (a == address))

-- `removeIPFromPool` at the pool `pool`, which the test `chosen` finds in the list.
unfoldable pub remove_ip_from_pool :
    (PersistentPool → Bool) → PersistentPool → String → List PersistentPool → List PersistentPool
unfolding remove_available_pool
remove_ip_from_pool chosen pool address avail =
    let pool' = with_addresses pool (without address pool.addresses) in
    let avail' = update_first chosen pool' avail in
    if is_empty pool'.addresses then (remove_available_pool pool.name avail').1 else avail'

-- `getAvailabilityPoolOfAddress`
unfoldable pub get_availability_pool_of_address :
    String → String → List PersistentPool → Option PersistentPool
get_availability_pool_of_address namespace address avail = find (serves namespace address) avail

-- `UseIP`. The pool that it returns is the one in the list, without the address.
unfoldable pub use_ip : String → String → List PersistentPool → UseResult × List PersistentPool
unfolding get_availability_pool_of_address remove_ip_from_pool
use_ip namespace address avail =
    if is_empty avail
    then (refused no_ip_available, avail)
    else (elim (get_availability_pool_of_address namespace address avail) [
      | none ↦ (refused no_ip_available, avail)
      | some pool ↦ if is_empty pool.addresses then (refused no_ip_available, avail) else (
        used (with_addresses pool (without address pool.addresses)),
        remove_ip_from_pool (serves namespace address) pool address avail,
      )
    ])

-- `searchAvailabilityPoolByName`
unfoldable pub search_availability_pool_by_name :
    String → List PersistentPool → Option PersistentPool
search_availability_pool_by_name name avail = find (named name) avail

-- `SearchPoolByName`
unfoldable pub search_pool_by_name : String → List PersistentPool → Option PersistentPool
search_pool_by_name name store = find (named name) store

-- `GetPoolOfAddress`
unfoldable pub get_pool_of_address : String → String → List PersistentPool → Option PersistentPool
get_pool_of_address namespace address store = find (serves namespace address) store

-- `checkIfIPIsAllocated` and `checkIfIPIsAllocatedByCache`, which differ in the list's type.
unfoldable pub check_if_ip_is_allocated : String → List IpAllocation → Bool
check_if_ip_is_allocated ip allocations =
    any (λ allocation. any (λ a. a.address == ip) allocation.allocations) allocations

-- `addOrReplaceAvailabilityPool`
unfoldable pub add_or_replace_availability_pool :
    PersistentPool → List PersistentPool → List PersistentPool
unfolding search_availability_pool_by_name
add_or_replace_availability_pool pool avail =
    if is_empty pool.addresses
    then avail
    else (elim (search_availability_pool_by_name pool.name avail) [
      | none ↦ avail ++ pool ∷ []
      | some _ ↦ update_first (named pool.name) pool avail
    ])

-- The pool that `processIPAvailability` builds: the addresses that no allocation has.
unfoldable pub free_pool : PersistentPool → List IpAllocation → PersistentPool
unfolding check_if_ip_is_allocated
free_pool pool allocations =
    with_addresses pool (keep (λ ip. not (check_if_ip_is_allocated ip allocations)) pool.addresses)

-- `processIPAvailability` and `ProcessIPAvailabilityFromCacheList`
unfoldable pub process_ip_availability :
    PersistentPool → List IpAllocation → List PersistentPool → List PersistentPool
unfolding free_pool add_or_replace_availability_pool
process_ip_availability pool allocations avail =
    add_or_replace_availability_pool (free_pool pool allocations) avail

-- `EnsureAddressIsNotAvailable`. Where no availability has the name it only logs.
unfoldable pub ensure_address_is_not_available :
    String → String → List PersistentPool → List PersistentPool
unfolding search_availability_pool_by_name remove_ip_from_pool
ensure_address_is_not_available pool_name address avail =
    elim (search_availability_pool_by_name pool_name avail) [
      | none ↦ avail
      | some pool ↦ remove_ip_from_pool (named pool_name) pool address avail
    ]

-- `ReleaseIP`
unfoldable pub release_ip :
    List PersistentPool → String → String → String → List PersistentPool → List PersistentPool
unfolding search_availability_pool_by_name get_pool_of_address recreate_pool_availability
release_ip store pool_name namespace address avail =
    elim (search_availability_pool_by_name pool_name avail) [
      | none ↦ elim (get_pool_of_address namespace address store) [
        | none ↦ avail
        | some pool ↦ recreate_pool_availability pool (address ∷ []) avail
      ]
      | some available ↦
          if any (λ a. a == address) available.addresses
          then avail
          else (elim (get_pool_of_address namespace address store) [
            | none ↦ avail
            | some _ ↦
                update_first (named pool_name)
                  (with_addresses available (available.addresses ++ address ∷ [])) avail
          ])
    ]

-- `addPool`, but for the deployment of the operator.
unfoldable pub add_pool : PersistentPool → List PersistentPool → List PersistentPool
unfolding add_or_replace_availability_pool
add_pool pool avail = add_or_replace_availability_pool pool avail

-- The loop of `warmupIPAvailabilityOrDie` over the store.
unfoldable pub warmup_ip_availability :
    List PersistentPool → List IpAllocation → List PersistentPool → List PersistentPool
unfolding add_pool process_ip_availability
warmup_ip_availability [] allocations avail = avail
warmup_ip_availability (pool ∷ pools) allocations avail =
    warmup_ip_availability pools allocations
      (process_ip_availability pool allocations (add_pool pool avail))
