-- ===== src/Persistent.antt =====
-- pkg/controller/persistentips/allocator.go: allocations of addresses that a pool lists.
pub mod Asked
pub mod Build
pub mod Node
use plenuslb.Base.{
  Bool, true, false, not, ◌&&◌, ◌||◌, Option, none, some, List, [], ◌∷◌, ◌++◌, String, ◌==◌,
}
use plenuslb.Base.{if◌then◌else◌}
use plenuslb.Api.{
  PersistentPool, AddressAllocation, IpAllocation, persistent_ip, contains_address, host_network,
  cloud_option, interface_name, deep_equal, CloudIntegrations,
}
use plenuslb.Errors.{Err, Result, ok, err, no_ip_available, pool_not_found}
use plenuslb.Manager.{
  find_allocation, create_allocation, update_allocation, set_allocation_status_error,
  set_allocation_status_pending,
}
use plenuslb.Operators.{get_random_operator_node, remove_address_from_node}
use plenuslb.Placement.{later, error_of, node_or, get_random_node, choose_node, allocate_with}
use plenuslb.Pools
use plenuslb.Pools.{
  UseResult, used, refused, PoolError, search_pool_by_name, get_pool_of_address, use_ip, release_ip,
}
use plenuslb.World.{
  Operator, World, Api, M, pure, panic, ◌>>=◌, ◌>>◌, call, with_avail, change_avail, read, deref,
}

abbrev pub pool_error : PoolError → Err
pool_error PoolError.no_ip_available = no_ip_available
pool_error PoolError.pool_not_found = pool_not_found

abbrev pub append_some {ℓ} : {A : Type ℓ} → Option A → List A → List A
append_some none l = l
append_some (some a) l = a ∷ l

-- What `CheckAndPatchAllocation` returns.
pub record Patched : Type 0 where
  pub object : Option IpAllocation
  pub removed : List AddressAllocation
  pub allocation_error : Option Err
  pub error : Option Err

-- Whether a node has to be chosen on the operators' nodes.
abbrev pub needs_operator : PersistentPool → AddressAllocation → Bool
needs_operator pool a =
    host_network pool.options
    && (a.node_name == ""
        || a.network_interface == ""
        || not (a.network_interface == interface_name pool.options))

module _ {E : Type 0} (api : Api E) where
  -- `ReleaseIP` on the shared list.
  unfoldable pub release : String → String → String → M E (Unit {0})
  release pool_name namespace address w =
      change_avail (release_ip w.persistent_store pool_name namespace address) w

  -- `addOperatorNodeToAllocation`
  unfoldable pub add_operator_node_to_allocation :
      PersistentPool → AddressAllocation → M E (AddressAllocation × Option Err)
  add_operator_node_to_allocation pool a =
      let provider = (cloud_option pool.cloud_integration).1 in
      if needs_operator pool a
      then (do
        op ← get_random_operator_node api
        pure (
          record a {
            node_name = node_or Operator.node_name op a.node_name;
            network_interface = interface_name pool.options;
            cloud_provider = provider;
          },
          error_of op,
        ))
      else (if (cloud_option pool.cloud_integration).0 && a.node_name == ""
          then (do
            node ← get_random_node api
            pure (
              record a { node_name = node_or (λ n. n) node a.node_name; cloud_provider = provider },
              error_of node,
            ))
          else pure (record a { cloud_provider = provider }, none))

  -- The part of a round of `buildAllocations` where the pool is known.
  abbrev pub placed :
      PersistentPool → AddressAllocation → M E (Option AddressAllocation × Option Err)
  placed pool a = do (a', e) ← add_operator_node_to_allocation pool a; pure (some a', e)

  -- One round of the loop of `buildAllocations`: the entry that it appends, and the error that it
  -- assigns. The error of a missing pool is assigned to a variable of an inner scope, and is lost.
  unfoldable pub build_allocation :
      String → List AddressAllocation → String → M E (Option AddressAllocation × Option Err)
  unfolding add_operator_node_to_allocation
  build_allocation namespace actual ip = elim (contains_address actual ip) [
    | some ready ↦ do
      store ← read (λ w. w.persistent_store)
      elim (get_pool_of_address namespace ready.address store) [
        | none ↦ pure (none, none)
        | some pool ↦ placed pool ready
      ]
    | none ↦ do
      taken ← with_avail (use_ip namespace ip)
      elim taken [
        | refused e ↦ pure (none, some (pool_error e))
        | used pool ↦ placed pool (record {
          address = ip;
          network_interface = "";
          node_name = "";
          cloud_provider = "";
          pool = pool.name;
        })
      ]
  ]

  -- `buildAllocations`; a nil allocation is one with no addresses.
  unfoldable pub build_allocations :
      String → List AddressAllocation → List String → M E (List AddressAllocation × Option Err)
  unfolding build_allocation
  build_allocations namespace actual [] = pure ([], none)
  build_allocations namespace actual (ip ∷ ips) = do
    (entry, e) ← build_allocation namespace actual ip
    (rest, e') ← build_allocations namespace actual ips
    pure (append_some entry rest, later e e')

  unfoldable pub release_all : String → List AddressAllocation → M E (Unit {0})
  unfolding release
  release_all namespace [] = pure tt
  release_all namespace (a ∷ l) = do release a.pool namespace a.address; release_all namespace l

  -- `createPersistentAllocation`: the object, the error of the addresses, and the error.
  unfoldable pub create_persistent_allocation :
      String → String → List String → M E (Result IpAllocation × Option Err)
  unfolding build_allocations release_all
  create_persistent_allocation namespace name ips = do
    (allocations, allocation_error) ← build_allocations namespace [] ips
    created ← create_allocation api namespace name persistent_ip allocations
    elim created [
      | ok a ↦ pure (ok a, allocation_error)
      | err e ↦ do release_all namespace allocations; pure (err e, allocation_error)
    ]

  abbrev pub some_object : Result IpAllocation → Result (Option IpAllocation)
  some_object (ok a) = ok (some a)
  some_object (err e) = err e

  -- The status that follows the creation of an object or a change of its nodes.
  abbrev pub settle : IpAllocation → Option Err → M E (Result IpAllocation)
  settle a none = set_allocation_status_pending api a
  settle a (some e) = set_allocation_status_error api a e

  -- `EnsurePersistentAllocation`
  unfoldable pub ensure_persistent_allocation :
      String → String → List String → M E (Result IpAllocation)
  unfolding create_persistent_allocation
  ensure_persistent_allocation namespace name ips = do
    found ← find_allocation api namespace name
    elim found [
      | err e ↦ pure (err e)
      | ok (some a) ↦ pure (ok a)
      | ok none ↦ do
        (created, allocation_error) ← create_persistent_allocation namespace name ips
        elim created [ err e ↦ pure (err e) | ok a ↦ settle a allocation_error ]
    ]

  -- The entries of the allocation that are not among the new ones.
  abbrev pub dropped : List AddressAllocation → List AddressAllocation → List AddressAllocation
  dropped new [] = []
  dropped new (a ∷ l) = elim (contains_address new a.address) [
    | some _ ↦ dropped new l
    | none ↦ a ∷ dropped new l
  ]

  -- `CheckAndPatchAllocation`
  unfoldable pub check_and_patch_allocation : String → List String → IpAllocation → M E Patched
  unfolding build_allocations release_all
  check_and_patch_allocation namespace ips current = do
    (allocations, allocation_error) ← build_allocations namespace current.allocations ips
    let removed = dropped allocations current.allocations
    release_all namespace removed
    let actual = record current { allocations = allocations }
    elim allocation_error [
      | none ↦
          if deep_equal actual current
          then pure (record {
            object = some actual;
            removed = removed;
            allocation_error = none;
            error = none;
          })
          else (do
            updated ← update_allocation api actual
            elim updated [
              | err e ↦
                  pure (record {
                    object = none;
                    removed = [];
                    allocation_error = none;
                    error = some e;
                  })
              | ok object ↦ do
                result ← set_allocation_status_pending api object
                elim result [
                  | err e ↦ pure (record {
                    object = none;
                    removed = removed;
                    allocation_error = none;
                    error = some e;
                  })
                  | ok r ↦ pure (record {
                    object = some r;
                    removed = removed;
                    allocation_error = none;
                    error = none;
                  })
                ]
            ])
      | some x ↦ do
        updated ← update_allocation api actual
        elim updated [
          | err e ↦
              pure
                (record { object = none; removed = []; allocation_error = some x; error = some e })
          | ok object ↦ do
            result ← set_allocation_status_error api object x
            elim result [
              | err e ↦ pure (record {
                object = none;
                removed = removed;
                allocation_error = some x;
                error = some e;
              })
              | ok r ↦ pure (record {
                object = some r;
                removed = removed;
                allocation_error = some x;
                error = none;
              })
            ]
        ]
    ]
