-- ===== src/Api.antt =====
-- The custom resources of pkg/apis/loadbalancing/v1alpha1 and the predicates of
-- pkg/controller/utils on them.
--
-- A pointer that may be nil is an `Option`. The metadata of an object is its namespace and name:
-- nothing else of it is read. A pool's `Spec` is written out in the pool's record.
use plenuslb.Base.{Bool, true, false, ◌&&◌, Option, none, some, List, [], ◌∷◌, String, ◌==◌}
use plenuslb.Base.{if◌then◌else◌, is_empty, any, find}

-- `IPType`
pub data IpType : Type 0 where
  ephemeral_ip : IpType
  persistent_ip : IpType
  unknown_type : String → IpType

-- `AllocationStatus`; `unset` is the empty text.
pub data AllocationStatus : Type 0 where
  unset success error failed node_error pending addr_deleted : AllocationStatus
  unknown_status : String → AllocationStatus

-- `IPAllocationAddresses`
pub record AddressAllocation : Type 0 where
  pub address : String
  pub network_interface : String
  pub node_name : String
  pub cloud_provider : String
  pub pool : String

pub record IpAllocation : Type 0 where
  pub namespace : String
  pub name : String
  pub ip_type : IpType
  pub allocations : List AddressAllocation
  pub state : AllocationStatus
  pub message : String

pub record HostNetworkInterfaceOptions : Type 0 where
  pub add_addresses_to_interface : Bool
  pub interface_name : String

pub record PoolOptions : Type 0 where
  pub host_network_interface : Option HostNetworkInterfaceOptions

pub record HetznerCloud : Type 0 where
  pub token : String

pub record CloudIntegrations : Type 0 where
  pub hetzner : Option HetznerCloud

pub record PersistentPool : Type 0 where
  pub name : String
  pub addresses : List String
  pub allowed_namespaces : List String
  pub cloud_integration : Option CloudIntegrations
  pub options : Option PoolOptions

pub record EphemeralPool : Type 0 where
  pub name : String
  pub allowed_namespaces : List String
  pub cloud_integration : Option CloudIntegrations
  pub options : Option PoolOptions

-- `ContainsString`
abbrev pub contains_string : List String → String → Bool
contains_string a x = any (λ n. x == n) a

-- `PoolHasAddress`
unfoldable pub pool_has_address : PersistentPool → String → Bool
pool_has_address pool address = any (λ a. a == address) pool.addresses

-- `ContainsAddress`: the first entry with the address.
abbrev pub contains_address : List AddressAllocation → String → Option AddressAllocation
contains_address a x = find (λ n. x == n.address) a

-- The nil checks of `PersistentPoolHasHostNetworkOption` and of its twin for ephemeral pools.
abbrev pub host_network : Option PoolOptions → Bool
host_network none = false
host_network (some o) = elim o.host_network_interface [
  | none ↦ false
  | some h ↦ h.add_addresses_to_interface
]

unfoldable pub persistent_pool_has_host_network_option : PersistentPool → Bool
persistent_pool_has_host_network_option pool = host_network pool.options

unfoldable pub ephemeral_pool_has_host_network_option : EphemeralPool → Bool
ephemeral_pool_has_host_network_option pool = host_network pool.options

-- The nil checks of `PersistentPoolHasCloudIntegrationOption` and of its twin.
abbrev pub cloud_option : Option CloudIntegrations → Bool × String
cloud_option none = (false, "")
cloud_option (some c) = elim c.hetzner [ none ↦ (false, "") | some h ↦ (true, "hetzner") ]

unfoldable pub persistent_pool_has_cloud_integration_option : PersistentPool → Bool × String
persistent_pool_has_cloud_integration_option pool = cloud_option pool.cloud_integration

unfoldable pub ephemeral_pool_has_cloud_integration_option : EphemeralPool → Bool × String
ephemeral_pool_has_cloud_integration_option pool = cloud_option pool.cloud_integration

-- `pool.Spec.Options.HostNetworkInterface.InterfaceName`, read only where the option is on.
abbrev pub interface_name : Option PoolOptions → String
interface_name none = ""
interface_name (some o) = elim o.host_network_interface [ none ↦ "" | some h ↦ h.interface_name ]

-- The test on the namespace that every search of a pool makes.
abbrev pub allows : List String → String → Bool
allows allowed namespace = if is_empty allowed then true else contains_string allowed namespace

abbrev pub type_eq : IpType → IpType → Bool
type_eq ephemeral_ip ephemeral_ip = true
type_eq persistent_ip persistent_ip = true
type_eq (unknown_type s) (unknown_type t) = s == t
type_eq _ _ = false

abbrev pub status_eq : AllocationStatus → AllocationStatus → Bool
status_eq unset unset = true
status_eq success success = true
status_eq error error = true
status_eq failed failed = true
status_eq node_error node_error = true
status_eq pending pending = true
status_eq addr_deleted addr_deleted = true
status_eq (unknown_status s) (unknown_status t) = s == t
status_eq _ _ = false

abbrev pub address_eq : AddressAllocation → AddressAllocation → Bool
address_eq a b =
    a.address == b.address
    && a.network_interface == b.network_interface
    && a.node_name == b.node_name
    && a.cloud_provider == b.cloud_provider
    && a.pool == b.pool

abbrev pub addresses_eq : List AddressAllocation → List AddressAllocation → Bool
addresses_eq [] [] = true
addresses_eq (a ∷ l) (b ∷ m) = address_eq a b && addresses_eq l m
addresses_eq _ _ = false

-- `reflect.DeepEqual` of two allocations.
unfoldable pub deep_equal : IpAllocation → IpAllocation → Bool
deep_equal a b =
    a.namespace == b.namespace
    && a.name == b.name
    && type_eq a.ip_type b.ip_type
    && addresses_eq a.allocations b.allocations
    && status_eq a.state b.state
    && a.message == b.message

pub data ServiceType : Type 0 where
  load_balancer : ServiceType
  other_service : ServiceType

-- The fields of `v1.Service` that the controller reads and writes.
pub record Service : Type 0 where
  pub namespace : String
  pub name : String
  pub service_type : ServiceType
  pub external_ips : List String
  pub ingress : List String

abbrev pub is_load_balancer_type : ServiceType → Bool
is_load_balancer_type load_balancer = true
is_load_balancer_type other_service = false

-- `ServiceIsLoadBalancer`; `none` is a nil service.
unfoldable pub service_is_load_balancer : Option Service → Bool
service_is_load_balancer none = false
service_is_load_balancer (some service) = is_load_balancer_type service.service_type

-- `ServiceHasExternalIPs`
unfoldable pub service_has_external_ips : Service → Bool × List String
service_has_external_ips service =
    if is_empty service.external_ips then (false, []) else (true, service.external_ips)

-- The type and the status of a condition of a pod: whether they are `PodReady` and `ConditionTrue`.
pub record PodCondition : Type 0 where
  pub is_ready_type : Bool
  pub is_true : Bool

pub record Pod : Type 0 where
  pub name : String
  pub node_name : String
  pub pod_ip : String
  pub conditions : List PodCondition

-- `IsPodReady`
unfoldable pub is_pod_ready : Pod → Bool
is_pod_ready pod = any (λ c. c.is_ready_type && c.is_true) pod.conditions
