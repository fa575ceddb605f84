-- ===== src/Manager.antt =====
-- pkg/controller/ipallocations/manager.go: the operations on `IPAllocation` objects.
--
-- `DeepCopy` is the identity on values. The labels of a new object are constant and left out.
pub mod Laws
use plenuslb.Base.{
  Bool, true, false, not, ◌&&◌, Option, none, some, List, [], ◌∷◌, String, ◌==◌, ◌≡◌,
}
use plenuslb.Base.{if◌then◌else◌, length, ltb, nat_eq, keep}
use plenuslb.Base.Text.{sprint}
use plenuslb.Api.{
  IpType, ephemeral_ip, IpAllocation, AddressAllocation, AllocationStatus, unset, success, error,
  failed, node_error, pending, addr_deleted, type_eq,
}
use plenuslb.Errors.{Err, Result, ok, err, more_than_one_ephemeral_ip, error_text}
use plenuslb.World.{World, Api, M, pure, ◌>>=◌, call}

module _ {E : Type 0} (api : Api E) where
  -- `CreateAllocation`
  unfoldable pub create_allocation :
      String → String → IpType → List AddressAllocation → M E (Result IpAllocation)
  create_allocation namespace name allocation_type allocations =
      if type_eq allocation_type ephemeral_ip && ltb 1 (length allocations)
      then pure (err more_than_one_ephemeral_ip)
      else call (
          api.retry_on_conflict (
            api.create (record {
              namespace = namespace;
              name = name;
              ip_type = allocation_type;
              allocations = allocations;
              state = unset;
              message = "";
            })))

  -- `UpdateAllocation`
  unfoldable pub update_allocation : IpAllocation → M E (Result IpAllocation)
  update_allocation allocation = call (api.retry_on_conflict (api.update allocation))

  -- What the `SetAllocationStatus…` functions share.
  abbrev pub set_status : IpAllocation → AllocationStatus → String → M E (Result IpAllocation)
  set_status allocation state message =
      call (api.update_status (record allocation { state = state; message = message }))

  -- `SetAllocationStatusSuccess`
  unfoldable pub set_allocation_status_success : IpAllocation → M E (Result IpAllocation)
  set_allocation_status_success allocation = set_status allocation success "Allocated"

  -- `SetAllocationStatusError`
  unfoldable pub set_allocation_status_error : IpAllocation → Err → M E (Result IpAllocation)
  set_allocation_status_error allocation reason = set_status allocation error (error_text reason)

  -- `SetAllocationStatusNodeError`
  unfoldable pub set_allocation_status_node_error : IpAllocation → Err → M E (Result IpAllocation)
  set_allocation_status_node_error allocation reason =
      set_status allocation node_error (error_text reason)

  -- `SetAllocationStatusFailed`
  unfoldable pub set_allocation_status_failed : IpAllocation → Err → M E (Result IpAllocation)
  set_allocation_status_failed allocation reason = set_status allocation failed (error_text reason)

  -- `SetAllocationStatusAddrDeleted`
  unfoldable pub set_allocation_status_addr_deleted :
      IpAllocation → String → M E (Result IpAllocation)
  set_allocation_status_addr_deleted allocation addr =
      set_status allocation addr_deleted (sprint ("Address " ∷ addr ∷ " removed from pool" ∷ []))

  -- `SetAllocationStatusPending`
  unfoldable pub set_allocation_status_pending : IpAllocation → M E (Result IpAllocation)
  set_allocation_status_pending allocation = set_status allocation pending "Waiting for allocator"

  -- `RemoveAddressFromAllocation`
  unfoldable pub remove_address_from_allocation : IpAllocation → String → M E (Result IpAllocation)
  unfolding set_allocation_status_addr_deleted
  remove_address_from_allocation allocation removed =
      let kept = keep (λ a. not (a.address == removed)) allocation.allocations in
      if nat_eq (length kept) (length allocation.allocations) then pure (ok allocation) else (do
        updated ← call (api.update (record allocation { allocations = kept }))
        elim updated [
          | err e ↦ pure (err e)
          | ok object ↦ set_allocation_status_addr_deleted object removed
        ])

  -- `DeleteAllocationByName`
  unfoldable pub delete_allocation_by_name : String → String → M E (Option Err)
  delete_allocation_by_name namespace name = do
    deleted ← call (api.delete namespace name)
    elim deleted [
      | none ↦ pure none
      | some e ↦ if api.is_not_found e then pure none else pure (some e)
    ]

  -- `FindAllocation`: no allocation and no error where there is none.
  unfoldable pub find_allocation : String → String → M E (Result (Option IpAllocation))
  find_allocation namespace name = do
    found ← call (api.get namespace name)
    elim found [
      | ok allocation ↦ pure (ok (some allocation))
      | err e ↦ if api.is_not_found e then pure (ok none) else pure (err e)
    ]
