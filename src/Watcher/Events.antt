-- ===== src/Watcher/Events.antt =====
-- The handlers of pkg/controller/allocationswatcher/allocationswatcher.go for deleted allocations,
-- nodes and pools, and those of pkg/controller/servicewatcher/servicewatcher.go for services.
--
-- A call that a handler starts with `go` runs here when the handler has returned. An object of
-- another type cannot be in the stores of this model.
use plenuslb.Base.{
  Bool, true, not, ◌&&◌, Option, none, some, List, [], ◌∷◌, ◌++◌, String, ◌==◌, any,
}
use plenuslb.Base.{if◌then◌else◌}
use plenuslb.Base.Text.{sprint}
use plenuslb.Api.{
  IpType, persistent_ip, ephemeral_ip, unknown_type, AddressAllocation, IpAllocation,
  PersistentPool, EphemeralPool, Service, contains_string, pool_has_address,
  service_is_load_balancer,
}
use plenuslb.Allocator.{is_persistent}
use plenuslb.Ephemeral.Node as EphemeralNode
use plenuslb.Errors.{Err, ok, err, errorf}
use plenuslb.Manager.{
  delete_allocation_by_name, find_allocation, remove_address_from_allocation,
  set_allocation_status_node_error,
}
use plenuslb.Operators.{do_cleanup}
use plenuslb.Persistent.Node as PersistentNode
use plenuslb.Pools.{process_ip_availability}
use plenuslb.Reconciler.{create_allocation_for_service, reconcile_allocation}
use plenuslb.Services.{find_service, remove_service_ingress_ips}
use plenuslb.Watcher.{locked, lock, unlock}
use plenuslb.World.{AddressInfo, Api, M, pure, ◌>>=◌, ◌>>◌, change_avail, read}

abbrev pub lost : String → Err
lost node_name = errorf (sprint ("Cluster node " ∷ node_name ∷ " lost" ∷ []))

-- Whether an entry of the allocation is on the node.
abbrev pub is_on_node : String → IpAllocation → Bool
is_on_node node_name allocation = any (λ a. a.node_name == node_name) allocation.allocations

abbrev pub entries_to_keep : String → List AddressAllocation → List AddressInfo
entries_to_keep node_name [] = []
entries_to_keep node_name (a ∷ l) =
    if a.node_name == node_name
    then (record { interface_name = a.network_interface; address = a.address })
      ∷ entries_to_keep node_name l
    else entries_to_keep node_name l

-- The list `toKeep` of `newOperatorNode`.
unfoldable pub to_keep : String → List IpAllocation → List AddressInfo
to_keep node_name [] = []
to_keep node_name (a ∷ l) = entries_to_keep node_name a.allocations ++ to_keep node_name l

module _ {E : Type 0} (api : Api E) where
  -- The two calls of `allocationDeleted` for each type of allocation.
  abbrev pub deallocate : IpAllocation → IpType → M E (Unit {0})
  deallocate a persistent_ip = PersistentNode.deallocate_allocation api a
  deallocate a ephemeral_ip = do
    EphemeralNode.deallocate_address api a
    _ ← remove_service_ingress_ips api a.namespace a.name
    pure tt
  deallocate a (unknown_type t) = pure tt

  -- The end of `allocationDeleted`: a service that still is a load balancer gets a new allocation.
  unfoldable pub recreate : IpAllocation → M E (Option Err)
  recreate a = do
    service ← find_service api a.namespace a.name
    elim service [
      | err e ↦ pure none
      | ok s ↦
          if service_is_load_balancer (some s)
          then (do _ ← create_allocation_for_service api s; pure none)
          else pure none
    ]

  -- `allocationDeleted`. The result is nil unless the lock was refused.
  unfoldable pub allocation_deleted : IpAllocation → M E (Option Err)
  unfolding recreate
  allocation_deleted a = locked api a (do deallocate a a.ip_type; recreate a)

  -- The loop of `operatorNodeLost`.
  unfoldable pub mark_lost : String → List IpAllocation → M E (Unit {0})
  mark_lost node_name [] = pure tt
  mark_lost node_name (a ∷ l) =
      let others = mark_lost node_name l in
      if is_on_node node_name a
      then (do _ ← set_allocation_status_node_error api a (lost node_name); others)
      else others

  -- `operatorNodeLost`
  unfoldable pub operator_node_lost : String → M E (Unit {0})
  unfolding mark_lost
  operator_node_lost node_name w = mark_lost node_name w.allocation_store w

  -- `newOperatorNode`
  unfoldable pub new_operator_node : String → M E (Option Err)
  unfolding to_keep
  new_operator_node node_name w = do_cleanup api node_name (to_keep node_name w.allocation_store) w

  -- The inner loops over the entries of an allocation: those that pass the test are removed from
  -- it, each from what the last removal returned.
  unfoldable pub remove_entries :
      (AddressAllocation → Bool) → List AddressAllocation → IpAllocation → M E (Unit {0})
  remove_entries test [] allocation = pure tt
  remove_entries test (a ∷ l) allocation =
      let unchanged = remove_entries test l allocation in
      let others = remove_entries test l in
      if test a
      then (do
        result ← remove_address_from_allocation api allocation a.address
        elim result [ err e ↦ unchanged | ok r ↦ others r ])
      else unchanged

  abbrev pub remove_from_all :
      (IpAllocation → Bool) → (AddressAllocation → Bool) → List IpAllocation → M E (Unit {0})
  remove_from_all chosen test [] = pure tt
  remove_from_all chosen test (a ∷ l) =
      let others = remove_from_all chosen test l in
      if chosen a then (do remove_entries test a.allocations a; others) else others

  -- `deallocateDeletedAddresses`
  unfoldable pub deallocate_deleted_addresses : List String → M E (Unit {0})
  unfolding remove_entries
  deallocate_deleted_addresses addresses w =
      remove_from_all (λ a. true) (λ a. contains_string addresses a.address) w.allocation_store w

  -- `deallocateAddressesOfPool`
  unfoldable pub deallocate_addresses_of_pool : String → M E (Unit {0})
  unfolding remove_entries
  deallocate_addresses_of_pool pool_name w =
      remove_from_all (λ a. true) (λ a. a.pool == pool_name) w.allocation_store w

  -- `persistentPoolModified`
  unfoldable pub persistent_pool_modified : PersistentPool → M E (Unit {0})
  unfolding remove_entries
  persistent_pool_modified pool = do
    allocations ← read (λ w. w.allocation_store)
    remove_from_all (λ a. is_persistent a.ip_type)
        (λ a. a.pool == pool.name && not (pool_has_address pool a.address)) allocations
    stored ← read (λ w. w.allocation_store)
    change_avail (process_ip_availability pool stored)

  -- `persistentPoolRemoved` and `ephemeralPoolRemoved`
  unfoldable pub persistent_pool_removed : PersistentPool → M E (Unit {0})
  unfolding deallocate_deleted_addresses
  persistent_pool_removed pool = deallocate_deleted_addresses pool.addresses

  unfoldable pub ephemeral_pool_removed : EphemeralPool → M E (Unit {0})
  unfolding deallocate_addresses_of_pool
  ephemeral_pool_removed pool = deallocate_addresses_of_pool pool.name

  -- `serviceCreated`
  unfoldable pub service_created : Service → M E (Unit {0})
  service_created s =
      if service_is_load_balancer (some s)
      then (do _ ← create_allocation_for_service api s; pure tt)
      else pure tt

  -- `serviceDeleted`
  unfoldable pub service_deleted : Service → M E (Unit {0})
  service_deleted s =
      if service_is_load_balancer (some s)
      then (do _ ← delete_allocation_by_name api s.namespace s.name; pure tt)
      else pure tt

  -- `serviceChanged`. The reconciliation is started with `go` and the lock is given back when the
  -- handler returns, so that it runs here without the lock.
  unfoldable pub service_changed : Service → M E (Unit {0})
  service_changed s = do
    found ← find_allocation api s.namespace s.name
    elim found [
      | err e ↦ pure tt
      | ok none ↦
          if service_is_load_balancer (some s)
          then (do _ ← create_allocation_for_service api s; pure tt)
          else pure tt
      | ok (some a) ↦ do
        e ← lock api a
        elim e [
          | some x ↦ pure tt
          | none ↦ do unlock api a; _ ← reconcile_allocation api s a; pure tt
        ]
    ]
