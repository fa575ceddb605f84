-- ===== src/Tests/Fixtures.antt =====
-- Concrete objects, and a small outside world: an API server that stores what it is sent, operators
-- and a cloud that accept every call.
use plenuslb.Base.{
  Bool, true, false, not, ◌&&◌, none, some, List, [], ◌∷◌, String, ◌==◌, ◌≡◌, arith, eq_iff, find,
  keep, bit, refl, ◌+◌, ◌≤◌,
}
use plenuslb.Api.{
  AddressAllocation, IpAllocation, PersistentPool, EphemeralPool, Service, Pod, IpType,
  AllocationStatus, load_balancer,
}
use plenuslb.Errors.{Err, ok, err, foreign, error_text}
use plenuslb.Pools.Spec.{IsValid}
use plenuslb.World.{World, Api}

-- What the outside remembers: the stored objects, and the addresses placed on nodes.
pub record Outside : Type 0 where
  pub stored : List IpAllocation
  pub services : List Service
  pub placed : List (String × String)

abbrev pub is_object : String → String → IpAllocation → Bool
is_object namespace name a = a.namespace == namespace && a.name == name

abbrev pub is_service : String → String → Service → Bool
is_service namespace name s = s.namespace == namespace && s.name == name

abbrev pub store_object : IpAllocation → Outside → Outside
store_object a o = record o {
  stored = a ∷ keep (λ b. not (is_object a.namespace a.name b)) o.stored;
}

abbrev pub missing : Err
missing = foreign "not found"

abbrev pub server : Api Outside
server = record {
  create = λ a o. (ok a, store_object a o);
  update = λ a o. (ok a, store_object a o);
  update_status = λ a o. (ok a, store_object a o);
  get = λ namespace name o. elim (find (is_object namespace name) o.stored) [
    | none ↦ (err missing, o)
    | some a ↦ (ok a, o)
  ];
  delete = λ namespace name o.
      (none, record o { stored = keep (λ b. not (is_object namespace name b)) o.stored });
  is_not_found = λ e. error_text e == "not found";
  retry_on_conflict = λ f o. f o;
  get_service = λ namespace name o. elim (find (is_service namespace name) o.services) [
    | none ↦ (err missing, o)
    | some s ↦ (ok s, o)
  ];
  update_service_status = λ s o. (none, o);
  list_nodes = λ o. (ok ("n1" ∷ "n2" ∷ []), o);
  intn = λ n o. (0, o);
  retry_on_error = λ retriable f o. f o;
  dial = λ node o. (none, o);
  add_address = λ node i o. (none, record o { placed = (node.node_name, i.address) ∷ o.placed });
  remove_address = λ node i o. (none, o);
  cleanup = λ node l o. (none, o);
  is_status_error = λ e. false;
  cloud_known = λ c. true;
  assign_ip_to_server = λ c a n o. (none, o);
  unassign_ip = λ c a o. (none, o);
  get_and_assign_new_address = λ c n name o. (ok "1.1.1.1", o);
  delete_address = λ c a o. (none, o);
  parses_as_ip = λ s. not (s == "");
  cluster_name = λ o. ("cluster", o);
  others = λ w. w;
}

-- A server that refuses every update.
abbrev pub refusing : Api Outside
refusing = record server { update = λ a o. (err (foreign "conflict"), o) }

abbrev pub pool_a : PersistentPool
pool_a = record {
  name = "a";
  addresses = "10.0.0.1" ∷ "10.0.0.2" ∷ [];
  allowed_namespaces = [];
  cloud_integration = none;
  options = none;
}

abbrev pub pool_b : PersistentPool
pool_b = record {
  name = "b";
  addresses = "10.1.0.1" ∷ [];
  allowed_namespaces = "web" ∷ [];
  cloud_integration = none;
  options = none;
}

abbrev pub pools : List PersistentPool
pools = pool_a ∷ pool_b ∷ []

-- A name is one of two different names at most, and one of three.
pub two_names : (x y name : String) → (x == y) ≡ false → bit (x == name) + (bit (y == name) + 0) ≤ 1
two_names x y name ne = ground (arith, eq_iff x name, eq_iff y name, eq_iff x y)

pub three_names :
    (x y z name : String)
    → (x == y) ≡ false
    → (x == z) ≡ false
    → (y == z) ≡ false
    → bit (x == name) + (bit (y == name) + (bit (z == name) + 0)) ≤ 1
three_names x y z name xy xz yz =
    ground (arith, eq_iff x name, eq_iff y name, eq_iff z name, eq_iff x y, eq_iff x z, eq_iff y z)

pub pools-IsValid : IsValid pools
pools-IsValid = record { distinct = λ name. two_names "a" "b" name refl; inhabited = ground arith }

abbrev pub entry : String → String → String → AddressAllocation
entry pool_name address node_name = record {
  address = address;
  network_interface = "eth0";
  node_name = node_name;
  cloud_provider = "";
  pool = pool_name;
}

abbrev pub allocation : IpType → AllocationStatus → List AddressAllocation → IpAllocation
allocation t state entries = record {
  namespace = "web";
  name = "shop";
  ip_type = t;
  allocations = entries;
  state = state;
  message = "";
}

abbrev pub service : List String → List String → Service
service external ingress = record {
  namespace = "web";
  name = "shop";
  service_type = load_balancer;
  external_ips = external;
  ingress = ingress;
}

abbrev pub ready_pod : String → Pod
ready_pod node_name = record {
  name = "operator";
  node_name = node_name;
  pod_ip = "10.9.0.1";
  conditions = record { is_ready_type = true; is_true = true } ∷ [];
}

abbrev pub ephemeral_pool : EphemeralPool
ephemeral_pool = record {
  name = "cloud";
  allowed_namespaces = [];
  cloud_integration = none;
  options = none;
}

abbrev pub outside : List IpAllocation → List Service → Outside
outside stored services = record { stored = stored; services = services; placed = [] }

abbrev pub world : List PersistentPool → List IpAllocation → List Service → World Outside
world avail stored services = record {
  avail = avail;
  persistent_store = pools;
  ephemeral_store = [];
  operator_store = ready_pod "n1" ∷ [];
  allocation_store = stored;
  service_store = [];
  services_synced = false;
  locks = [];
  processing = [];
  ext = outside stored services;
}
