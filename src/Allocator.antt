-- ===== src/Allocator.antt =====
-- pkg/controller/allocator/allocator.go: `EnsureIPAllocation`, which puts the addresses of an
-- allocation on their nodes and records the outcome in its status.
pub mod Laws
use plenuslb.Base.{
  Bool, true, false, not, ◌&&◌, ◌||◌, Option, none, some, List, [], ◌∷◌, ◌++◌, String, map,
}
use plenuslb.Base.{if◌then◌else◌}
use plenuslb.Base.Text.{sprint}
use plenuslb.Api.{
  IpType, ephemeral_ip, persistent_ip, unknown_type, AddressAllocation, IpAllocation,
  PersistentPool, Service, service_is_load_balancer,
}
use plenuslb.Errors.{
  Err, Result, ok, err, errorf, service_not_found, no_operator_node_available,
  failed_to_dial_with_operator,
}
use plenuslb.Ephemeral.Node as EphemeralNode
use plenuslb.Manager.{
  delete_allocation_by_name, set_allocation_status_success, set_allocation_status_error,
  set_allocation_status_node_error,
}
use plenuslb.Persistent.Node as PersistentNode
use plenuslb.Placement.{error_of}
use plenuslb.Pools.{ensure_address_is_not_available}
use plenuslb.Services.{find_service, update_service_ingress_with_ips}
use plenuslb.World.{World, Api, M, pure, ◌>>=◌, ◌>>◌, call, change_avail}

-- The service that `FindService` returns, which is nil beside an error.
abbrev pub service_of : Result Service → Option Service
service_of (ok s) = some s
service_of (err e) = none

-- `err != nil && err == servicewatcher.ErrServiceNotFound`
abbrev pub is_missing : Result Service → Bool
is_missing (err service_not_found) = true
is_missing _ = false

-- The errors after which an allocation is moved to another node.
abbrev pub is_node_failure : Err → Bool
is_node_failure no_operator_node_available = true
is_node_failure failed_to_dial_with_operator = true
is_node_failure _ = false

abbrev pub is_persistent : IpType → Bool
is_persistent persistent_ip = true
is_persistent _ = false

abbrev pub unreachable : String → Err
unreachable node_name = errorf (sprint ("Cluster node " ∷ node_name ∷ " unreachable" ∷ []))

-- `EnsureAddressIsNotAvailable`, for a persistent address.
abbrev pub withdraw : IpType → AddressAllocation → List PersistentPool → List PersistentPool
withdraw t a avail =
    if is_persistent t then ensure_address_is_not_available a.pool a.address avail else avail

module _ {E : Type 0} (api : Api E) where
  -- `allocateAddress`
  unfoldable pub allocate_address : IpType → AddressAllocation → M E (Option Err)
  allocate_address persistent_ip a = PersistentNode.allocate_address api a
  allocate_address ephemeral_ip a = EphemeralNode.allocate_address api a
  allocate_address (unknown_type t) a =
      pure (some (errorf (sprint ("Unknown allocation type " ∷ t ∷ []))))

  -- The status that a failed address gives the allocation.
  unfoldable pub report_failure : IpAllocation → AddressAllocation → Err → M E (Option Err)
  report_failure allocation a e = do
    _ ←
        (if is_node_failure e
          then set_allocation_status_node_error api allocation (unreachable a.node_name)
          else set_allocation_status_error api allocation e)
    pure (some e)

  -- The loop of `EnsureIPAllocation` over the entries: it stops at the first that fails.
  unfoldable pub allocate_all : IpAllocation → List AddressAllocation → M E (Option Err)
  unfolding allocate_address report_failure
  allocate_all allocation [] = pure none
  allocate_all allocation (a ∷ l) =
      let others = allocate_all allocation l in
      do
        change_avail (withdraw allocation.ip_type a)
        e ← allocate_address allocation.ip_type a
        elim e [ some x ↦ report_failure allocation a x | none ↦ others ]

  -- `updateServiceIngressWithIps`. Where the service is missing, the error that is returned is that
  -- of the deletion of the allocation.
  unfoldable pub update_service_ingress : String → String → List String → M E (Option Err)
  update_service_ingress namespace name ips = do
    e ← update_service_ingress_with_ips api namespace name ips
    elim e [
      | none ↦ pure none
      | some x ↦
          if api.is_not_found x then delete_allocation_by_name api namespace name else pure (some x)
    ]

  -- The end of `EnsureIPAllocation`, after all entries are in place.
  unfoldable pub finish : IpAllocation → M E (Option Err)
  unfolding update_service_ingress
  finish allocation = do
    done ← set_allocation_status_success api allocation
    elim done [
      | err e ↦ pure (some e)
      | ok _ ↦
          if is_persistent allocation.ip_type
          then pure none
          else update_service_ingress allocation.namespace allocation.name
              (map AddressAllocation.address allocation.allocations)
    ]

  -- `EnsureIPAllocation`
  unfoldable pub ensure_ip_allocation : IpAllocation → M E (Option Err)
  unfolding allocate_all finish
  ensure_ip_allocation allocation = do
    service ← find_service api allocation.namespace allocation.name
    (if is_missing service || not (service_is_load_balancer (service_of service))
        then (do _ ← delete_allocation_by_name api allocation.namespace allocation.name; pure none)
        else (elim service [
          | err e ↦ pure (some e)
          | ok _ ↦ do
            e ← allocate_all allocation allocation.allocations
            elim e [ some x ↦ pure (some x) | none ↦ finish allocation ]
        ]))
