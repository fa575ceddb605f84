-- ===== src/Lock.antt =====
-- pkg/controller/allocationsLock/lock.go: the table of locked allocations and the list of the
-- allocations in error that are being processed.
--
-- `lockedObjects` is an association list from an allocation's key to its holder, `Store` puts an
-- entry in front, and `Delete` takes every entry of the key away.
pub mod Table
pub mod Race
pub mod Processing
use plenuslb.Base.{
  Bool, true, false, not, Option, none, some, List, [], ◌∷◌, ◌++◌, String, ◌==◌, ◌≡◌,
}
use plenuslb.Base.{if◌then◌else◌, any, find, find_index, keep, swap_remove}
use plenuslb.Base.Text.{sprint}
use plenuslb.Api.{IpAllocation}
use plenuslb.Errors.{Err, object_locked}

-- `fmt.Sprintf("%s/%s", allocation.GetNamespace(), allocation.GetName())`
abbrev pub lock_key : IpAllocation → String
lock_key allocation = sprint (allocation.namespace ∷ "/" ∷ allocation.name ∷ [])

abbrev pub LockTable : Type 0
LockTable = List (String × String)

abbrev pub load : String → LockTable → Option String
load key [] = none
load key ((k, by_who) ∷ table) = if k == key then some by_who else load key table

abbrev pub delete : String → LockTable → LockTable
delete key [] = []
delete key ((k, by_who) ∷ table) =
    if k == key then delete key table else (k, by_who) ∷ delete key table

-- `addToLock`
unfoldable pub add_to_lock : IpAllocation → String → LockTable → LockTable
add_to_lock allocation by_who table = (lock_key allocation, by_who) ∷ table

-- `isLocked`: the holder, if there is one.
unfoldable pub is_locked : IpAllocation → LockTable → Option String
is_locked allocation table = load (lock_key allocation) table

-- `RemoveFromLock`
unfoldable pub remove_from_lock : IpAllocation → LockTable → LockTable
remove_from_lock allocation table = delete (lock_key allocation) table

-- `errIsObjectLocked`
unfoldable pub err_is_object_locked : Err → Bool
err_is_object_locked object_locked = true
err_is_object_locked _ = false

-- The closure that `AcquireAllocationLock` retries.
unfoldable pub try_lock : IpAllocation → String → LockTable → Option Err × LockTable
unfolding is_locked add_to_lock
try_lock allocation called_by table = elim (is_locked allocation table) [
  | none ↦ (none, add_to_lock allocation called_by table)
  | some by_who ↦ (some object_locked, table)
]

-- `retry.OnError` of k8s.io/client-go over the table. It calls the function at least once, and the
-- table may change between two calls; it returns what some call of the function returned, and it
-- stops at a first call that succeeds.
pub record RetryOnError : Type 0 where
  pub on_error :
      (Err → Bool) → (LockTable → Option Err × LockTable) → LockTable → Option Err × LockTable
  pub some_call :
      (retriable : Err → Bool) (fn : LockTable → Option Err × LockTable) (table : LockTable)
      → (seen : LockTable) × (on_error retriable fn table ≡ fn seen)
  pub first_call :
      (retriable : Err → Bool) (fn : LockTable → Option Err × LockTable) (table : LockTable)
      → (fn table).0 ≡ none
      → on_error retriable fn table ≡ fn table

-- `AcquireAllocationLock`, for a caller that `trace` names.
unfoldable pub acquire_allocation_lock :
    RetryOnError → IpAllocation → String → LockTable → Option Err × LockTable
unfolding err_is_object_locked try_lock
acquire_allocation_lock retry allocation called_by table =
    retry.on_error err_is_object_locked (try_lock allocation called_by) table

-- `isErrorAllocationAlreadyProcessing`
unfoldable pub is_error_allocation_already_processing : IpAllocation → List String → Bool
is_error_allocation_already_processing allocation dict = any (λ e. e == lock_key allocation) dict

-- `AddErrorAllocationToProcessingList`
unfoldable pub add_error_allocation_to_processing_list : IpAllocation → List String → List String
unfolding is_error_allocation_already_processing
add_error_allocation_to_processing_list allocation dict =
    if is_error_allocation_already_processing allocation dict
    then dict
    else dict ++ lock_key allocation ∷ []

-- `RemoveErrorAllocationFromProcessingList`: the first entry goes, the last one takes its place.
unfoldable pub remove_error_allocation_from_processing_list :
    IpAllocation → List String → List String
remove_error_allocation_from_processing_list allocation dict =
    elim (find_index (λ e. e == lock_key allocation) dict) [
      | none ↦ dict
      | some i ↦ swap_remove i dict
    ]
