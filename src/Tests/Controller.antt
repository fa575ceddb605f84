-- ===== src/Tests/Controller.antt =====
-- The theorems on allocations, their addresses and their services, at a service with one pool.
use plenuslb.Base.{Option, none, some, List, [], ◌∷◌, ◌≡◌, refl, arith, map}
use plenuslb.Allocator.{ensure_ip_allocation}
use plenuslb.Allocator.Laws.{ensure_deletes_on_error}
use plenuslb.Api.{
  AddressAllocation, IpAllocation, Service, persistent_ip, ephemeral_ip, success, pending,
  addr_deleted, service_is_load_balancer, service_has_external_ips, deep_equal, error,
}
use plenuslb.Ephemeral
use plenuslb.Ephemeral.{get_pool_for_service, choose_new_node, get_and_assign_address_on_cloud}
use plenuslb.Ephemeral.Faults.{no_pool_then_panic}
use plenuslb.Errors.{Err, foreign, pool_not_found, service_not_found}
use plenuslb.Manager.{delete_allocation_by_name}
use plenuslb.Operators.{ensure_ip_allocation_on_node}
use plenuslb.Operators.Ensure.{ensure_ip_allocation_on_node_absent}
use plenuslb.Persistent
use plenuslb.Persistent.{release_all, build_allocation, add_operator_node_to_allocation}
use plenuslb.Persistent.Asked.{
  AllRooted, Withdrawn, build_allocations_loses_error, build_allocations_complete,
  build_allocations-Withdrawn,
}
use plenuslb.Persistent.Node as PersistentNode
use plenuslb.Pools.{get_pool_of_address, use_ip}
use plenuslb.Reconciler.{
  reconcile_allocation, expected_allocation_type, reconcile_persistent_allocation, cleanup_removed,
}
use plenuslb.Services.{find_service}
use plenuslb.Tests.Fixtures.{
  Outside, server, pools, pools-IsValid, pool_a, pool_b, entry, allocation, service, ephemeral_pool,
  world,
}
use plenuslb.World.{World, Operator, AddressInfo, ◌>>=◌, pure}

abbrev two_entries : List AddressAllocation
two_entries = entry "a" "10.0.0.1" "n1" ∷ entry "a" "10.0.0.2" "n2" ∷ []

abbrev held : IpAllocation
held = allocation persistent_ip pending two_entries

abbrev balanced : Service
balanced = service ("10.0.0.1" ∷ "10.0.0.2" ∷ []) []

abbrev start : World Outside
start = world pools (held ∷ []) (balanced ∷ [])

-- One new address.
abbrev fresh : AddressAllocation
fresh = record {
  address = "10.0.0.1";
  network_interface = "";
  node_name = "";
  cloud_provider = "";
  pool = "a";
}

abbrev taken : World Outside
unfolding use_ip
taken = record start { avail = (use_ip "web" "10.0.0.1" pools).1 }

built :
    Persistent.build_allocations server "web" [] ("10.0.0.1" ∷ []) start
    ≡ some ((fresh ∷ [], none), taken)
unfolding Persistent.build_allocations build_allocation use_ip add_operator_node_to_allocation
built = refl

none_held : AllRooted server "web" [] pools
none_held ip ready h = ground arith

build_allocations_complete_example : map AddressAllocation.address (fresh ∷ []) ≡ "10.0.0.1" ∷ []
build_allocations_complete_example =
    build_allocations_complete server "web" [] ("10.0.0.1" ∷ []) start taken (fresh ∷ []) none_held
      built

build_allocations-Withdrawn_example : Withdrawn server [] start taken (fresh ∷ [])
build_allocations-Withdrawn_example =
    build_allocations-Withdrawn server "web" [] ("10.0.0.1" ∷ []) start taken (fresh ∷ []) none
      pools-IsValid built

abbrev orphan : AddressAllocation
orphan = entry "gone" "10.7.0.1" "n1"

build_allocations_loses_error_example :
    Persistent.build_allocations server "web" (orphan ∷ []) ("10.7.0.1" ∷ "10.0.0.1" ∷ []) start
    ≡ Persistent.build_allocations server "web" (orphan ∷ []) ("10.0.0.1" ∷ []) start
unfolding get_pool_of_address
build_allocations_loses_error_example =
    build_allocations_loses_error server "web" "10.7.0.1" (orphan ∷ []) ("10.0.0.1" ∷ []) orphan
      start refl refl

-- After the addresses of the allocation were put in place.
abbrev ensured : World Outside
ensured = record start {
  avail = pool_b ∷ [];
  ext = record start.ext { stored = record held { state = success; message = "Allocated" } ∷ [] };
}

-- The pool of the second entry is gone.
abbrev withdrawn_first : World Outside
withdrawn_first = record start {
  avail = record pool_a { addresses = "10.0.0.2" ∷ [] } ∷ pool_b ∷ [];
}

-- The service was deleted.
abbrev no_service : World Outside
no_service = world pools (held ∷ []) []

ensure_deletes_on_error_example :
    ensure_ip_allocation server held no_service
    ≡ (delete_allocation_by_name server "web" "shop" >>= λ _. pure none) no_service
unfolding find_service
ensure_deletes_on_error_example =
    ensure_deletes_on_error server held no_service no_service service_not_found refl

abbrev in_place : IpAllocation
in_place =
    allocation persistent_ip pending
      (record (entry "a" "10.0.0.1" "") { network_interface = "eth0" } ∷ [])

abbrev one_address : Service
one_address = service ("10.0.0.1" ∷ []) []

keeps : reconcile_allocation server one_address in_place start ≡ some ((some in_place, none), start)
unfolding reconcile_allocation expected_allocation_type service_has_external_ips
    service_is_load_balancer reconcile_persistent_allocation Persistent.check_and_patch_allocation
    Persistent.build_allocations build_allocation add_operator_node_to_allocation
    get_pool_of_address deep_equal release_all cleanup_removed
keeps = refl

-- The address is added by the operator of `n1`.
abbrev added : World Outside
added = record start { ext = record start.ext { placed = ("n1", "10.0.0.1") ∷ [] } }

abbrev failing_add : Operator → AddressInfo → Outside → Option Err × Outside
failing_add node i o = (some (foreign "no such device"), o)

ensure_ip_allocation_on_node_absent_example :
    (w' : World Outside) × (ensure_ip_allocation_on_node server "n2" "eth0" "10.0.0.1" start
      ≡ some (none, w'))
    × (ensure_ip_allocation_on_node
          (record server { add_address = failing_add })
          "n2"
          "eth0"
          "10.0.0.1"
          start
        ≡ some (none, w'))
ensure_ip_allocation_on_node_absent_example =
    ensure_ip_allocation_on_node_absent server "n2" "eth0" "10.0.0.1" failing_add start
      (λ o e. refl) refl

abbrev shortened : IpAllocation
shortened = record held {
  allocations = entry "a" "10.0.0.2" "n2" ∷ [];
  state = addr_deleted;
  message = "Address 10.0.0.1 removed from pool";
}

-- A pool that allows the namespace appears after the allocation was made.
abbrev unserved : IpAllocation
unserved = allocation ephemeral_ip error []

abbrev served : World Outside
served = record start { ephemeral_store = ephemeral_pool ∷ [] }

no_pool_then_panic_example : Ephemeral.check_and_patch_allocation server unserved served ≡ none
unfolding get_pool_for_service Ephemeral.build_allocations
no_pool_then_panic_example =
    no_pool_then_panic server unserved start start served ephemeral_pool (some pool_not_found) refl
      refl refl

abbrev entry_of_pool : AddressAllocation
entry_of_pool = record {
  address = "";
  network_interface = "";
  node_name = "";
  cloud_provider = "";
  pool = "cloud";
}

abbrev no_error : Option Err
no_error = none
