-- ===== src/Daemonset.antt =====
-- The daemon set of operators: pkg/controller/operator/daemonset.go.
--
-- This file has the object that `getDaemonsetSetDefinition` builds, with the fields that it sets, and the
-- test and the merge on such objects. Calls has the calls on the API server, and Nodes the handlers of
-- the operators' pods. `Config` is what is read from the environment: the package variables that
-- `Init` sets, and the text of `HEALTH_PORT`.
pub mod Calls
pub mod Nodes
pub mod Updated
pub mod Lost
use plenuslb.Base.{
  Bool, true, false, not, ◌&&◌, Option, none, some, List, [], ◌∷◌, ℕ, String, ◌==◌, find,
  if◌then◌else◌,
}
use plenuslb.Base.Int.{ℤ, pos, parse_int32, decimal_ℤ}
use plenuslb.Wait.{Labels}

pub record Config : Type 0 where
  pub namespace : String
  pub image : String
  pub pull_secret : String
  pub health_port : String

-- The constants of the API that the definition uses.
pub data PullPolicy : Type 0 where
  pull_always : PullPolicy

pub data Protocol : Type 0 where
  protocol_tcp : Protocol

pub data TaintEffect : Type 0 where
  no_execute : TaintEffect

pub data TolerationOperator : Type 0 where
  exists : TolerationOperator

pub record Port : Type 0 where
  pub name : String
  pub protocol : Protocol
  pub number : ℤ

-- An HTTP probe at the port of a name.
pub record Probe : Type 0 where
  pub path : String
  pub port_name : String
  pub initial_delay_seconds : ℕ
  pub period_seconds : ℕ
  pub failure_threshold : ℕ

pub data EnvSource : Type 0 where
  value : String → EnvSource
  field_path : String → EnvSource

pub record EnvVar : Type 0 where
  pub name : String
  pub source : EnvSource

pub record Container : Type 0 where
  pub name : String
  pub image : String
  pub pull_policy : PullPolicy
  pub privileged : Bool
  pub ports : List Port
  pub liveness : Probe
  pub readiness : Probe
  pub env : List EnvVar
  pub requests : Labels
  pub limits : Labels

pub record Toleration : Type 0 where
  pub key : String
  pub effect : TaintEffect
  pub operator : TolerationOperator
  pub seconds : ℕ

pub record DaemonSet : Type 0 where
  pub name : String
  pub namespace : String
  pub labels : Labels
  pub resource_version : String
  pub match_labels : Labels
  pub template_labels : Labels
  pub image_pull_secrets : List String
  pub host_network : Bool
  pub containers : List Container
  pub tolerations : List Toleration

abbrev pub operator_name : String
operator_name = "plenuslb-operator"

abbrev pub operator_version : String
operator_version = "v1alpha2"

abbrev pub operator_port : ℕ
operator_port = 10000

-- `HealthPort` of the text of the environment; `none` is the end of the process.
unfoldable pub health_port : String → Option ℤ
health_port custom =
    let (port, failed) = parse_int32 custom in
    if not (custom == "") then (if failed then none else some port) else some (pos 8080)

-- `Init` up to the first look at the cluster, of the values in the environment.
unfoldable pub check_config : Config → Option Config
check_config config =
    if config.namespace == "" then none else (if config.image == "" then none else some config)

abbrev pub health_probe : ℕ → Probe
health_probe threshold = record {
  path = "/health";
  port_name = "health";
  initial_delay_seconds = 2;
  period_seconds = 1;
  failure_threshold = threshold;
}

abbrev pub resources : Labels
resources = ("cpu", "50m") ∷ ("memory", "100Mi") ∷ []

abbrev pub selector_labels : Labels
selector_labels =
    ("app.kubernetes.io/instance", "plenuslb-operator")
    ∷ ("app.kubernetes.io/name", "plenuslb-operator")
    ∷ []

abbrev pub operator_container : Config → ℤ → Container
operator_container config port = record {
  name = operator_name;
  image = config.image;
  pull_policy = pull_always;
  privileged = true;
  ports =
      record { name = "health"; protocol = protocol_tcp; number = port }
      ∷ record { name = "grpc"; protocol = protocol_tcp; number = pos operator_port }
      ∷ [];
  liveness = health_probe 10;
  readiness = health_probe 5;
  env =
      record { name = "MY_NODE_NAME"; source = field_path "spec.nodeName" }
      ∷ record { name = "HEALTH_PORT"; source = value (decimal_ℤ port) }
      ∷ [];
  requests = resources;
  limits = resources;
}

abbrev pub toleration : String → Toleration
toleration key = record { key = key; effect = no_execute; operator = exists; seconds = 2 }

-- The object of `getDaemonsetSetDefinition`, given the port.
abbrev pub definition : Config → ℤ → DaemonSet
definition config port = record {
  name = operator_name;
  namespace = config.namespace;
  labels =
      ("app.kubernetes.io/instance", "plenuslb-operator")
      ∷ ("app.kubernetes.io/name", "plenuslb-operator")
      ∷ ("app.kubernetes.io/managed-by", "plenuslb")
      ∷ ("app.kubernetes.io/version", operator_version)
      ∷ [];
  resource_version = "";
  match_labels = selector_labels;
  template_labels = selector_labels;
  image_pull_secrets = if config.pull_secret == "" then [] else config.pull_secret ∷ [];
  host_network = true;
  containers = operator_container config port ∷ [];
  tolerations =
      toleration "node.kubernetes.io/not-ready" ∷ toleration "node.kubernetes.io/unreachable" ∷ [];
}

-- `getDaemonsetSetDefinition`
unfoldable pub get_daemonset_definition : Config → Option DaemonSet
get_daemonset_definition config = elim (health_port config.health_port) [
  | none ↦ none
  | some port ↦ some (definition config port)
]

-- The value of a label, or the empty text.
abbrev pub label : String → Labels → String
label key labels = elim (find (λ (l : String × String). l.0 == key) labels) [
  | none ↦ ""
  | some l ↦ l.1
]

-- `checkIfOperatorIsUpdated`; `none` is the panic at a daemon set without containers.
unfoldable pub check_if_operator_is_updated : Config → DaemonSet → Option Bool
check_if_operator_is_updated config daemonset = elim daemonset.containers [
  | [] ↦ none
  | c ∷ cs ↦ some (
      label "app.kubernetes.io/version" daemonset.labels == operator_version
      && c.image == config.image)
]

-- `mergeOperatorsDefinitions`
unfoldable pub merge_operators_definitions : Config → DaemonSet → Option DaemonSet
merge_operators_definitions config old = elim (get_daemonset_definition config) [
  | none ↦ none
  | some new ↦ some (record new { resource_version = old.resource_version })
]
