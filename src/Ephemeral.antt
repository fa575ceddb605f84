-- ===== src/Ephemeral.antt =====
-- pkg/controller/ephemeralips: poolManager.go and allocator.go, allocations of addresses that are
-- bought from a cloud.
pub mod Node
pub mod Faults
use plenuslb.Base.{
  Bool, true, false, not, ◌&&◌, ◌||◌, Option, none, some, List, [], ◌∷◌, String, ◌==◌,
}
use plenuslb.Base.{if◌then◌else◌, find}
use plenuslb.Base.Text.{sprint}
use plenuslb.Api.{
  EphemeralPool, AddressAllocation, IpAllocation, CloudIntegrations, ephemeral_ip, allows,
  host_network, cloud_option, interface_name, deep_equal,
}
use plenuslb.Errors.{Err, Result, ok, err, pool_not_found, failed_to_dial_with_operator, errorf}
use plenuslb.Manager.{find_allocation, create_allocation, update_allocation}
use plenuslb.Operators.{get_random_operator_node}
use plenuslb.Persistent.{settle}
use plenuslb.Placement.{later, error_of, node_or, get_random_node}
use plenuslb.World.{Operator, World, Api, M, pure, panic, ◌>>=◌, ◌>>◌, call, read}

-- `getPoolForService`
unfoldable pub get_pool_for_service : String → List EphemeralPool → Option EphemeralPool
get_pool_for_service namespace store = find (λ pool. allows pool.allowed_namespaces namespace) store

-- `SearchPoolByName`
unfoldable pub search_pool_by_name : String → List EphemeralPool → Option EphemeralPool
search_pool_by_name name store = find (λ pool. pool.name == name) store

-- The name that a new address has on the cloud.
abbrev pub ip_name : String → String → String → String
ip_name cluster namespace name =
    sprint ("plenuslb-ephemeral-" ∷ cluster ∷ "-" ∷ namespace ∷ "-" ∷ name ∷ [])

abbrev pub value_or : Result String → String
value_or (ok s) = s
value_or (err e) = ""

-- What `CheckAndPatchAllocation` returns: an object, or none, and an error, or none.
abbrev pub Checked : Type 0
Checked = Option IpAllocation × Option Err

abbrev pub checked : Result IpAllocation → Checked
checked (ok a) = (some a, none)
checked (err e) = (none, some e)

module _ {E : Type 0} (api : Api E) where
  -- `getAndAssignAddressOnCloud`
  unfoldable pub get_and_assign_address_on_cloud :
      Option CloudIntegrations → String → String → M E (Result String)
  get_and_assign_address_on_cloud none name node_name = pure (ok "")
  get_and_assign_address_on_cloud (some c) name node_name =
      if api.cloud_known c
      then call (api.get_and_assign_new_address c node_name name)
      else pure (ok "")

  -- The choice of a node in `buildAllocations`: the interface, the node, and the error.
  unfoldable pub choose_new_node : EphemeralPool → M E (String × String × Option Err)
  choose_new_node pool =
      if host_network pool.options
      then (do
        op ← get_random_operator_node api
        pure (interface_name pool.options, node_or Operator.node_name op "", error_of op))
      else (if (cloud_option pool.cloud_integration).0
          then (do
            node ← get_random_node api
            elim node [
              | ok n ↦ pure ("", n, none)
              | err e ↦ pure ("", "", some failed_to_dial_with_operator)
            ])
          else pure ("", "", none))

  -- `buildAllocations`
  unfoldable pub build_allocations : String → String → M E (List AddressAllocation × Option Err)
  unfolding choose_new_node get_and_assign_address_on_cloud
  build_allocations namespace name = do
    store ← read (λ w. w.ephemeral_store)
    elim (get_pool_for_service namespace store) [
      | none ↦ pure ([], some pool_not_found)
      | some pool ↦ do
        (net_interface, node, e) ← choose_new_node pool
        cluster ← call api.cluster_name
        ip ←
            get_and_assign_address_on_cloud pool.cloud_integration (ip_name cluster namespace name)
              node
        pure (
          record {
            address = value_or ip;
            network_interface = net_interface;
            node_name = node;
            cloud_provider = (cloud_option pool.cloud_integration).1;
            pool = pool.name;
          }
              ∷ [],
          later e (error_of ip),
        )
    ]

  -- `createEphemeralAllocation` and `EnsureEphemeralAllocation`
  unfoldable pub ensure_ephemeral_allocation : String → String → M E (Result IpAllocation)
  unfolding build_allocations
  ensure_ephemeral_allocation namespace name = do
    found ← find_allocation api namespace name
    elim found [
      | err e ↦ pure (err e)
      | ok (some a) ↦ pure (ok a)
      | ok none ↦ do
        (allocations, allocation_error) ← build_allocations namespace name
        created ← create_allocation api namespace name ephemeral_ip allocations
        elim created [ err e ↦ pure (err e) | ok a ↦ settle api a allocation_error ]
    ]

  -- The first part of `CheckAndPatchAllocation`: the node of the first entry.
  unfoldable pub patch_node :
      EphemeralPool → AddressAllocation → M E (AddressAllocation × Option Err)
  patch_node pool a =
      let (has_cloud, provider) = cloud_option pool.cloud_integration in
      let wrong_interface = not (a.network_interface == interface_name pool.options) in
      if host_network pool.options
        && (a.node_name == "" || a.network_interface == "" || wrong_interface)
      then (do
        op ← get_random_operator_node api
        pure (
          record a {
            node_name = node_or Operator.node_name op a.node_name;
            network_interface = interface_name pool.options;
          },
          error_of op,
        ))
      else (if has_cloud && (a.node_name == "" || not (a.cloud_provider == provider))
          then (do
            node ← get_random_node api
            pure (
              record a { node_name = node_or (λ n. n) node a.node_name; cloud_provider = provider },
              error_of node,
            ))
          else pure (a, none))

  abbrev pub invalid_address : IpAllocation → String → Err
  invalid_address o address = errorf (
      sprint (
        "Address '" ∷ address ∷ "' of allocation " ∷ o.namespace ∷ "/" ∷ o.name ∷ " is not valid"
        ∷ []))

  -- The end of `CheckAndPatchAllocation`: the update and the status.
  abbrev pub write_back : IpAllocation → IpAllocation → Option Err → M E Checked
  write_back current patched e = if deep_equal current patched then pure (some current, e) else (do
    updated ← update_allocation api patched
    elim updated [
      | err x ↦ pure (none, some x)
      | ok object ↦ do result ← settle api object e; pure (checked result)
    ])

  -- The rest of `CheckAndPatchAllocation`, from the test of the address on. The name of a new
  -- address has the namespace twice.
  unfoldable pub patch_address :
      EphemeralPool
      → IpAllocation
      → List AddressAllocation
      → AddressAllocation
      → Option Err
      → M E Checked
  unfolding get_and_assign_address_on_cloud
  patch_address pool current others a e =
      let with_entry = λ (x : AddressAllocation). record current { allocations = x ∷ others } in
      let invalid = invalid_address current a.address in
      if api.parses_as_ip a.address
      then write_back current (with_entry a) e
      else (if a.node_name == "" then pure (some current, some invalid) else (do
        cluster ← call api.cluster_name
        ip ←
            get_and_assign_address_on_cloud pool.cloud_integration
              (ip_name cluster current.namespace current.namespace) a.node_name
        elim ip [
          | err x ↦ pure (some current, some x)
          | ok address ↦
              write_back current (with_entry (record a { address = address })) (some invalid)
        ]))

  -- `CheckAndPatchAllocation`. `Spec.Allocations[0]` panics on an allocation with no entry.
  unfoldable pub check_and_patch_allocation : IpAllocation → M E Checked
  unfolding patch_node patch_address
  check_and_patch_allocation current = do
    store ← read (λ w. w.ephemeral_store)
    elim (get_pool_for_service current.namespace store) [
      | none ↦ pure (some current, some pool_not_found)
      | some pool ↦ elim current.allocations [
        | [] ↦ panic
        | a ∷ others ↦ do (a', e) ← patch_node pool a; patch_address pool current others a' e
      ]
    ]
