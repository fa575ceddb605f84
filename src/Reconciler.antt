-- ===== src/Reconciler.antt =====
-- pkg/controller/allocationReconciler/reconciler.go: what an allocation becomes when its service
-- changes.
--
-- A result is the pair that the code returns: an object, or none for nil, and an error, or none.
pub mod Laws
use plenuslb.Base.{
  Bool, true, false, not, ◌&&◌, ◌||◌, Option, none, some, List, [], ◌∷◌, String, ◌==◌,
}
use plenuslb.Base.{if◌then◌else◌, is_empty}
use plenuslb.Base.Text.{sprint}
use plenuslb.Api.{
  IpType, ephemeral_ip, persistent_ip, AddressAllocation, IpAllocation, Service, type_eq, status_eq,
  success, service_is_load_balancer, service_has_external_ips,
}
use plenuslb.Ephemeral
use plenuslb.Errors.{Err, Result, ok, err, errorf}
use plenuslb.Manager.{delete_allocation_by_name}
use plenuslb.Persistent
use plenuslb.Persistent.{Patched, release}
use plenuslb.Persistent.Node.{deallocate_address}
use plenuslb.Services.{remove_service_ingress_ips}
use plenuslb.World.{World, Api, M, pure, ◌>>=◌, ◌>>◌, call}

abbrev pub Reconciled : Type 0
Reconciled = Option IpAllocation × Option Err

-- `expectedAllocationType`
unfoldable pub expected_allocation_type : Service → IpType
unfolding service_has_external_ips
expected_allocation_type service =
    let (has_external_ips, ips) = service_has_external_ips service in
    if has_external_ips && not (is_empty ips) then persistent_ip else ephemeral_ip

abbrev pub in_sync : List String → List AddressAllocation → Bool
in_sync [] entries = true
in_sync (ip ∷ []) (a ∷ []) = ip == a.address
in_sync _ _ = false

abbrev pub wrong_type : Service → String → Err
wrong_type s what =
    errorf (sprint ("Service " ∷ s.namespace ∷ "/" ∷ s.name ∷ " is expected as " ∷ what ∷ []))

module _ {E : Type 0} (api : Api E) where
  -- The cleanup in `reconcilePersistentAllocation` of the addresses that the service gave up.
  unfoldable pub cleanup_removed : String → List AddressAllocation → M E (Unit {0})
  cleanup_removed namespace [] = pure tt
  cleanup_removed namespace (a ∷ l) =
      let others = cleanup_removed namespace l in
      do release api a.pool namespace a.address; _ ← deallocate_address api a; others

  -- `reconcilePersistentAllocation`
  unfoldable pub reconcile_persistent_allocation : Service → IpAllocation → M E Reconciled
  unfolding cleanup_removed service_has_external_ips
  reconcile_persistent_allocation service allocation =
      let (has_external_ips, ips) = service_has_external_ips service in
      if has_external_ips
      then (do
        patched ← Persistent.check_and_patch_allocation api service.namespace ips allocation
        elim patched.error [
          | some e ↦ pure (none, some e)
          | none ↦ do
            _ ←
                (if status_eq allocation.state success
                  then cleanup_removed service.namespace patched.removed
                  else pure tt)
            pure (patched.object, patched.allocation_error)
        ])
      else pure (none, some (wrong_type service "Persistent but hasn't external ips"))

  -- `reconcileEphemeralAllocation`
  unfoldable pub reconcile_ephemeral_allocation : Service → IpAllocation → M E Reconciled
  unfolding service_has_external_ips
  reconcile_ephemeral_allocation service allocation =
      let (has_external_ips, ips) = service_has_external_ips service in
      if has_external_ips
      then pure (none, some (wrong_type service "Ephemeral but has external ips"))
      else (if in_sync service.ingress allocation.allocations
          then Ephemeral.check_and_patch_allocation api allocation
          else (do
            e ← delete_allocation_by_name api allocation.namespace allocation.name
            pure (none, e)))

  -- `changeAllocationType`
  unfoldable pub change_allocation_type : IpAllocation → M E Reconciled
  change_allocation_type allocation = do
    e ← delete_allocation_by_name api allocation.namespace allocation.name
    pure (none, e)

  -- `serviceIsNoLongerALoadBalancer`
  unfoldable pub service_is_no_longer_a_load_balancer : Service → IpAllocation → M E (Option Err)
  service_is_no_longer_a_load_balancer service allocation = do
    e ←
        (if type_eq allocation.ip_type ephemeral_ip
          then remove_service_ingress_ips api service.namespace service.name
          else pure none)
    elim e [
      | some x ↦ pure (some x)
      | none ↦ delete_allocation_by_name api allocation.namespace allocation.name
    ]

  -- `ReconcileAllocation`
  unfoldable pub reconcile_allocation : Service → IpAllocation → M E Reconciled
  unfolding expected_allocation_type reconcile_persistent_allocation reconcile_ephemeral_allocation
      change_allocation_type service_is_no_longer_a_load_balancer
  reconcile_allocation service allocation =
      if service_is_load_balancer (some service)
      then (let expected = expected_allocation_type service in
          if type_eq allocation.ip_type expected
          then (if type_eq expected persistent_ip
              then reconcile_persistent_allocation service allocation
              else (if type_eq expected ephemeral_ip
                  then reconcile_ephemeral_allocation service allocation
                  else pure (none, none)))
          else change_allocation_type allocation)
      else (do e ← service_is_no_longer_a_load_balancer service allocation; pure (none, e))

  -- `CreateAllocationForService`
  unfoldable pub create_allocation_for_service : Service → M E (Result IpAllocation)
  unfolding service_has_external_ips
  create_allocation_for_service service =
      let (has_external_ips, ips) = service_has_external_ips service in
      if has_external_ips && not (is_empty ips)
      then Persistent.ensure_persistent_allocation api service.namespace service.name ips
      else Ephemeral.ensure_ephemeral_allocation api service.namespace service.name
