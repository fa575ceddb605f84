-- ===== src/Tests/Cluster.antt =====
-- The theorems on the daemon set of operators and on the events, with a cluster that holds one object.
use plenuslb.Base.{
  true, false, Option, none, some, List, [], ◌∷◌, ◌++◌, map, String, ℕ, zero, suc, ◌≤◌, ◌≡◌, ◌≢◌,
  refl, ◌==◌, arith, if◌then◌else◌, length,
}
use plenuslb.Base.Int.{pos, parse_int32}
use plenuslb.Api.{Pod, is_pod_ready}
use plenuslb.Daemonset.{
  Config, Container, DaemonSet, definition, health_port, get_daemonset_definition,
}
use plenuslb.Daemonset.Calls.{cluster, Kube, check_if_operator_is_still_required}
use plenuslb.Daemonset.Lost.{runs_on, informer_leaks}
use plenuslb.Deployment.{Daemon, open_channel, delete}
use plenuslb.Errors.{errorf, error_text, wait_timeout, ok, err}
use plenuslb.Events.{Topic, capacity}
use plenuslb.Events.Order.{
  Move, sending, receiving, stopping, step, run, Delivered, sent, run-Delivered,
}
use plenuslb.Events.Start.{first_events, first_events_block}
use plenuslb.Process.{initial_health, probe_response}
use plenuslb.Process.Probes.{env_text, probe_port, get_daemonset_definition-probes}
use plenuslb.Tests.Fixtures.{ready_pod}
use plenuslb.Wait.{get_pods_from_daemonset, for_resources, resources_condition, pods_ready}

abbrev pub pod_a : Pod
pod_a = ready_pod "node-a"

-- The state is the daemon set that the server holds; no operator is in the informer's store.
abbrev pub kube : Kube (Option DaemonSet)
kube = record {
  wait = record {
    list_pods = λ namespace labels k. (ok (pod_a ∷ []), k);
    get_crd = λ name k. (err (errorf "no definition"), k);
    poll = λ interval timeout condition k.
        (if (condition k).0.done then none else some wait_timeout, (condition k).1);
  };
  create = λ d k. (ok d, some d);
  get = λ name k. elim k [ none ↦ (err (errorf "not found"), none) | some d ↦ (ok d, some d) ];
  update = λ d k. (none, some d);
  delete = λ name k. (none, none);
  is_not_found = λ e. error_text e == "not found";
  retry_on_conflict = λ attempt k. attempt k;
  get_operators_count = λ k. 0;
  add_to_store = λ p k. k;
}

abbrev pub config : Config
config = record {
  namespace = "plenuslb-system";
  image = "plenuslb/operator:v2";
  pull_secret = "";
  health_port = "";
}

abbrev pub current : DaemonSet
current = definition config (pos 8080)

-- A daemon set of an older version.
abbrev pub outdated : DaemonSet
outdated = record current { labels = ("app.kubernetes.io/version", "v1alpha1") ∷ [] }

abbrev held : Option DaemonSet → Option DaemonSet
held k = k

abbrev pub started : Option DaemonSet → Daemon (Option DaemonSet)
started k = record {
  deployed = true;
  stop_watch = open_channel 0;
  channels = 1;
  informers = 0 ∷ [];
  cluster = k;
}

abbrev no_pod : Option DaemonSet
no_pod = none

abbrev on_port : Config
on_port = record config { health_port = "9090" }

get_daemonset_definition-probes_example :
    (c : Container) × (text : String) × ((definition on_port (pos 9090)).containers ≡ c ∷ [])
    × (env_text "HEALTH_PORT" c ≡ some text)
    × (health_port text ≡ probe_port c.liveness c)
    × (health_port text ≡ probe_port c.readiness c)
    × (probe_response initial_health c.liveness.path ≡ some (200, "ok"))
    × (probe_response initial_health c.readiness.path ≡ some (200, "ok"))
unfolding get_daemonset_definition health_port parse_int32
get_daemonset_definition-probes_example =
    get_daemonset_definition-probes on_port (definition on_port (pos 9090)) refl

informer_leaks_example :
    (d' : Daemon (Option DaemonSet)) × (check_if_operator_is_still_required kube config
        (started none)
      ≡ some d')
    × ((new : ℕ) × (new ≢ 0)
        × (d'.stop_watch ≡ open_channel new)
        × (runs_on new d'.informers ≡ true))
    × (runs_on 0 d'.informers ≡ true)
    × ((d'' : Daemon (Option DaemonSet))
        → delete (cluster kube config) d' ≡ some (none, d'')
        → runs_on 0 d''.informers ≡ true)
unfolding get_daemonset_definition health_port for_resources resources_condition pods_ready
    get_pods_from_daemonset is_pod_ready
informer_leaks_example =
    informer_leaks kube config (started none) 0 none (some current) (some current)
      (errorf "not found") current current refl refl (omega arith) refl refl refl refl refl refl
      refl

abbrev append_name : String → List String → Option (List String)
append_name name names = some (names ++ name ∷ [])

abbrev nodes : Topic String (List String)
nodes = record { queue = []; callbacks = append_name ∷ []; listening = true }

-- Two names are sent and one is received before the listener stops.
abbrev moves : List (Move String)
moves = sending "node-a" ∷ sending "node-b" ∷ receiving ∷ stopping ∷ []

abbrev nodes_after : Topic String (List String)
nodes_after = record nodes {
  queue = "node-b" ∷ [];
  callbacks = append_name ∷ append_name ∷ [];
  listening = false;
}

abbrev bare : Topic String (List String)
bare = record nodes { callbacks = [] }

run-Delivered_example :
    (received : List String) × (bare.queue ++ sent moves ≡ received ++ nodes_after.queue)
    × Delivered (append_name ∷ append_name ∷ []) received [] ("node-a" ∷ "node-a" ∷ [])
    × (length nodes_after.queue ≤ capacity)
unfolding step
run-Delivered_example =
    run-Delivered (append_name ∷ append_name ∷ []) moves bare nodes_after []
      ("node-a" ∷ "node-a" ∷ []) refl (omega arith) refl

abbrev many_pods : ℕ → List Pod
many_pods zero = []
many_pods (suc n) = pod_a ∷ many_pods n

first_events_block_example : run (map sending (first_events (many_pods 101))) nodes [] ≡ none
unfolding is_pod_ready
first_events_block_example = first_events_block (many_pods 101) nodes [] refl refl (omega arith)
