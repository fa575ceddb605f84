-- ===== src/World.antt =====
-- The state that the controller's functions share, what they call outside the repository, and the
-- monad of functions that change the state and may panic.
--
-- `World` holds the package variables: the available pools, the contents of the informers' stores,
-- the table of locks and the list of allocations in error. `ext` stands for everything outside:
-- the API server, the nodes' operators, the cloud, the random source.
-- `Api` is the interface of that outside, one function for each call that the code makes: it takes
-- the outside and returns it changed. Nothing is assumed of it here.
use plenuslb.Base.{Bool, Option, none, some, List, String, ℕ}
use plenuslb.Api.{IpAllocation, PersistentPool, EphemeralPool, CloudIntegrations, Service, Pod}
use plenuslb.Errors.{Err, Result}
use plenuslb.Lock.{LockTable}

-- `Operator` of pkg/controller/operator/operatorslist.go, and `AddressInfo` of the protocol.
pub record Operator : Type 0 where
  pub address : String
  pub port : String
  pub node_name : String

pub record AddressInfo : Type 0 where
  pub interface_name : String
  pub address : String

pub record World (E : Type 0) : Type 0 where
  pub avail : List PersistentPool
  pub persistent_store : List PersistentPool
  pub ephemeral_store : List EphemeralPool
  pub operator_store : List Pod
  pub allocation_store : List IpAllocation
  pub service_store : List Service
  pub services_synced : Bool
  pub locks : LockTable
  pub processing : List String
  pub ext : E

pub record Api (E : Type 0) : Type 0 where
  -- The clientset for `IPAllocation` objects, and `apierrors.IsNotFound`.
  pub create : IpAllocation → E → Result IpAllocation × E
  pub update : IpAllocation → E → Result IpAllocation × E
  pub update_status : IpAllocation → E → Result IpAllocation × E
  pub get : String → String → E → Result IpAllocation × E
  pub delete : String → String → E → Option Err × E
  pub is_not_found : Err → Bool
  pub retry_on_conflict : (E → Result IpAllocation × E) → E → Result IpAllocation × E
  -- The clientset for services and nodes.
  pub get_service : String → String → E → Result Service × E
  pub update_service_status : Service → E → Option Err × E
  pub list_nodes : E → Result (List String) × E
  -- `r.Intn(n)` for a positive `n`, and `retry.OnError` around the choice of a pod.
  pub intn : ℕ → E → ℕ × E
  pub retry_on_error : (Err → Bool) → (E → Option (Result Pod × E)) → E → Option (Result Pod × E)
  -- gRPC: the dial, the calls of the operator, and whether an error is a status error.
  pub dial : Operator → E → Option Err × E
  pub add_address : Operator → AddressInfo → E → Option Err × E
  pub remove_address : Operator → AddressInfo → E → Option Err × E
  pub cleanup : Operator → List AddressInfo → E → Option Err × E
  pub is_status_error : Err → Bool
  -- `cloudsIntegration`: the interface `CloudAPI` behind the options of a pool.
  pub cloud_known : CloudIntegrations → Bool
  pub assign_ip_to_server : CloudIntegrations → String → String → E → Option Err × E
  pub unassign_ip : CloudIntegrations → String → E → Option Err × E
  pub get_and_assign_new_address : CloudIntegrations → String → String → E → Result String × E
  pub delete_address : CloudIntegrations → String → E → Option Err × E
  -- `net.ParseIP(s) != nil`, and the cluster's name.
  pub parses_as_ip : String → Bool
  pub cluster_name : E → String × E
  -- What the other goroutines do to the world while one sleeps before it tries a lock again.
  pub others : World E → World E

-- A function that may change the world; `none` is a panic.
abbrev pub M {ℓ} : Type 0 → Type ℓ → Type ℓ
M E A = World E → Option (A × World E)

abbrev pub pure {ℓ} : {E : Type 0} {A : Type ℓ} → A → M E A
pure a w = some (a, w)

abbrev pub panic {ℓ} : {E : Type 0} {A : Type ℓ} → M E A
panic w = none

infixl 5 ◌>>=◌ ◌>>◌
abbrev pub ◌>>=◌ {ℓ κ} : {E : Type 0} {A : Type ℓ} {B : Type κ} → M E A → (A → M E B) → M E B
◌>>=◌ m f w = elim (m w) [ none ↦ none | some (a, w') ↦ f a w' ]

abbrev pub ◌>>◌ {ℓ} : {E : Type 0} {B : Type ℓ} → M E (Unit {0}) → M E B → M E B
m >> k = m >>= λ _. k

-- A call of the outside.
abbrev pub call {ℓ} : {E : Type 0} {A : Type ℓ} → (E → A × E) → M E A
call f w = let (a, e) = f w.ext in some (a, record w { ext = e })

-- A call of the outside that may panic.
abbrev pub try_call {ℓ} : {E : Type 0} {A : Type ℓ} → (E → Option (A × E)) → M E A
try_call f w = elim (f w.ext) [ none ↦ none | some (a, e) ↦ some (a, record w { ext = e }) ]

-- A step on the available pools.
abbrev pub with_avail {ℓ} :
    {E : Type 0} {A : Type ℓ} → (List PersistentPool → A × List PersistentPool) → M E A
with_avail f w = let (a, avail) = f w.avail in some (a, record w { avail = avail })

abbrev pub change_avail :
    {E : Type 0} → (List PersistentPool → List PersistentPool) → M E (Unit {0})
change_avail f w = some (tt, record w { avail = f w.avail })

abbrev pub read {ℓ} : {E : Type 0} {A : Type ℓ} → (World E → A) → M E A
read f w = some (f w, w)

-- The use of a pointer: nil panics.
abbrev pub deref {ℓ} : {E : Type 0} {A : Type ℓ} → Option A → M E A
deref none = panic
deref (some a) = pure a
