-- ===== src/Persistent/Node.antt =====
-- The second half of pkg/controller/persistentips/allocator.go: the change of nodes, and the calls
-- that put addresses on nodes and cloud and take them off.
use plenuslb.Base.{Option, none, some, List, [], ◌∷◌, String, ◌==◌}
use plenuslb.Base.{if◌then◌else◌}
use plenuslb.Api.{
  AddressAllocation, IpAllocation, CloudIntegrations, host_network, cloud_option, interface_name,
}
use plenuslb.Errors.{Err, Result, ok, err, pool_not_found}
use plenuslb.Manager.{update_allocation}
use plenuslb.Operators.{remove_address_from_node}
use plenuslb.Persistent.{release, settle}
use plenuslb.Placement.{later, choose_node, allocate_with}
use plenuslb.Pools.{search_pool_by_name}
use plenuslb.World.{Api, M, pure, panic, ◌>>=◌, ◌>>◌, call, read}

module _ {E : Type 0} (api : Api E) where
  -- The loop of `ChangeAllocationNode`. A missing pool ends it, and the later entries stay.
  unfoldable pub relocate : List AddressAllocation → M E (List AddressAllocation × Option Err)
  relocate [] = pure ([], none)
  relocate (a ∷ l) =
      let others = relocate l in
      do
        store ← read (λ w. w.persistent_store)
        elim (search_pool_by_name a.pool store) [
          | none ↦ pure (a ∷ l, some pool_not_found)
          | some pool ↦ do
            (net_interface, node, e) ← choose_node api pool.options pool.cloud_integration
            (rest, e') ← others
            pure (
              record a { network_interface = net_interface; node_name = node } ∷ rest,
              later e e',
            )
        ]

  -- `ChangeAllocationNode`. Where the update fails there is no object, and the write of the error
  -- status to it panics.
  unfoldable pub change_allocation_node : IpAllocation → M E (Result IpAllocation)
  unfolding relocate
  change_allocation_node allocation = do
    (entries, allocation_error) ← relocate allocation.allocations
    updated ← update_allocation api (record allocation { allocations = entries })
    elim updated [ err e ↦ panic | ok object ↦ settle api object allocation_error ]

  -- `AllocateAddress`
  unfoldable pub allocate_address : AddressAllocation → M E (Option Err)
  allocate_address a = do
    store ← read (λ w. w.persistent_store)
    elim (search_pool_by_name a.pool store) [
      | none ↦ pure (some pool_not_found)
      | some pool ↦ allocate_with api pool.options pool.cloud_integration a
    ]

  -- `deallocateAddressFromCloud`
  unfoldable pub deallocate_address_from_cloud :
      Option CloudIntegrations → String → M E (Option Err)
  deallocate_address_from_cloud none address = pure none
  deallocate_address_from_cloud (some c) address =
      if api.cloud_known c then call (api.unassign_ip c address) else pure none

  -- `DeallocateAddress`
  unfoldable pub deallocate_address : AddressAllocation → M E (Option Err)
  unfolding deallocate_address_from_cloud
  deallocate_address a = do
    store ← read (λ w. w.persistent_store)
    elim (search_pool_by_name a.pool store) [
      | none ↦ pure (some pool_not_found)
      | some pool ↦ do
        on_node ←
            (if host_network pool.options
              then remove_address_from_node api a.node_name (interface_name pool.options) a.address
              else pure none)
        elim on_node [
          | some e ↦ pure (some e)
          | none ↦
              if (cloud_option pool.cloud_integration).0
              then deallocate_address_from_cloud pool.cloud_integration a.address
              else pure none
        ]
    ]

  -- The cloud's part of a round of `DeallocateAllocation`.
  unfoldable pub unassign_entry : AddressAllocation → M E (Option Err)
  unfolding deallocate_address_from_cloud
  unassign_entry a = do
    store ← read (λ w. w.persistent_store)
    elim (search_pool_by_name a.pool store) [
      | none ↦ pure none
      | some pool ↦ deallocate_address_from_cloud pool.cloud_integration a.address
    ]

  -- The loop of `DeallocateAllocation`; errors are only logged.
  unfoldable pub deallocate_entries : String → List AddressAllocation → M E (Unit {0})
  unfolding unassign_entry release
  deallocate_entries namespace [] = pure tt
  deallocate_entries namespace (a ∷ l) =
      let others = deallocate_entries namespace l in
      do
        _ ←
            (if a.network_interface == ""
              then pure none
              else remove_address_from_node api a.node_name a.network_interface a.address)
        release api a.pool namespace a.address
        _ ← unassign_entry a
        others

  -- `DeallocateAllocation`
  unfoldable pub deallocate_allocation : IpAllocation → M E (Unit {0})
  unfolding deallocate_entries
  deallocate_allocation allocation = deallocate_entries allocation.namespace allocation.allocations
