-- ===== src/Daemonset/Lost.antt =====
-- What the handlers of pkg/controller/operator/daemonset.go and of
-- pkg/controller/poolsController/poolsController.go do to the operators one after the other.
use plenuslb.Base.{
  Bool, true, false, not, Option, none, some, List, [], ◌∷◌, ◌++◌, ◌+◌, ℕ, ◌<◌, ◌≢◌, any, nat_eq,
  ◌≡◌, refl, inl, inr, arith,
}
use plenuslb.Base.{Option-cases, bit, count, count-append}
use plenuslb.Api.{Pod, is_pod_ready, EphemeralPool, PersistentPool}
use plenuslb.Daemonset.{Config, DaemonSet, check_config, operator_name, get_daemonset_definition}
use plenuslb.Daemonset.Calls.{
  Kube, cluster, check_if_operator_is_deployed, check_if_operator_is_still_required, init,
}
use plenuslb.Daemonset.Nodes.{
  NodeEvent, new_node, node_lost, PodChange, pod_added, pod_updated, events_of, handle_pod,
}
use plenuslb.Deployment.{
  Daemon, open_channel, no_channel, stop, watch, deployed_first, delete, deploy_or_die,
  pool_modified,
}
use plenuslb.Deployment.Required.{is_watched, pool_modified-deployed}
use plenuslb.Wait.{for_resources}
use plenuslb.Errors.{Err, ok, err, Result-cases}

-- A pod was added and then updated to one state after the other: the last state, and the changes that the
-- informer reports.
abbrev pub reported : Pod → List Pod → List PodChange
reported pod [] = []
reported pod (next ∷ rest) = pod_updated pod next ∷ reported next rest

abbrev pub last_of : Pod → List Pod → Pod
last_of pod [] = pod
last_of pod (next ∷ rest) = last_of next rest

abbrev pub sent : List PodChange → List NodeEvent
sent [] = []
sent (c ∷ cs) = events_of c ++ sent cs

abbrev pub is_new : NodeEvent → Bool
is_new (new_node n) = true
is_new (node_lost n) = false

updates_balance :
    (pod : Pod) (later : List Pod)
    → count is_new (sent (reported pod later)) + bit (is_pod_ready pod)
      ≡ count (λ e. not (is_new e)) (sent (reported pod later))
        + bit (is_pod_ready (last_of pod later))
unfolding events_of
updates_balance pod [] = refl
updates_balance pod (next ∷ rest) =
    let rest_sent = sent (reported next rest) in
    ground (
      arith,
      updates_balance next rest,
      count-append is_new (events_of (pod_updated pod next)) rest_sent,
      count-append (λ e. not (is_new e)) (events_of (pod_updated pod next)) rest_sent,
    )

-- Over the addition of a pod and all its later states, the events of a new node are as many as those of
-- a lost one, and one more exactly if the last state is ready.
pub events_balance :
    (pod : Pod) (later : List Pod)
    → count is_new (sent (pod_added pod ∷ reported pod later))
      ≡ count (λ e. not (is_new e)) (sent (pod_added pod ∷ reported pod later))
        + bit (is_pod_ready (last_of pod later))
unfolding events_of
events_balance pod later =
    let later_sent = sent (reported pod later) in
    ground (
      arith,
      updates_balance pod later,
      count-append is_new (events_of (pod_added pod)) later_sent,
      count-append (λ e. not (is_new e)) (events_of (pod_added pod)) later_sent,
    )

-- What the controller hears of: a pod of the operators, or a changed pool with all pools.
pub data Input : Type 0 where
  pod : PodChange → Input
  pools : List EphemeralPool → List PersistentPool → Input

-- An informer waits on the channel of that number.
abbrev pub runs_on : ℕ → List ℕ → Bool
runs_on n l = any (λ m. nat_eq m n) l

module _ {K : Type 0} (kube : Kube K) (config : Config) where
  -- The state after the handler of an input.
  abbrev pub handle : Input → Daemon K → Option (Daemon K)
  handle (pod change) d = elim (handle_pod kube config change d) [ none ↦ none | some r ↦ some r.1 ]
  handle (pools ephemeral persistent) d =
      elim (pool_modified (cluster kube config) ephemeral persistent d) [
        | none ↦ none
        | some r ↦ some r.1
      ]

  abbrev pub handle_all : List Input → Daemon K → Option (Daemon K)
  handle_all [] d = some d
  handle_all (i ∷ is) d = elim (handle i d) [ none ↦ none | some d' ↦ handle_all is d' ]

  check_if_operator_is_deployed-is_open :
      (d d' : Daemon K) (found : Option DaemonSet)
      → check_if_operator_is_deployed kube config d ≡ some (found, d')
      → d'.stop_watch ≡ d.stop_watch
  unfolding check_if_operator_is_deployed
  check_if_operator_is_deployed-is_open d d' found h =
      elim (Result-cases (kube.get operator_name d.cluster).0) [
        | inl (old, r) ↦ ground arith
        | inr (e, r) ↦ ground arith
      ]

  absent-is_not_deployed :
      (d d' : Daemon K)
      → check_if_operator_is_deployed kube config d ≡ some (none, d')
      → d'.deployed ≡ false
  unfolding check_if_operator_is_deployed
  absent-is_not_deployed d d' h = elim (Result-cases (kube.get operator_name d.cluster).0) [
    | inl (old, r) ↦ ground arith
    | inr (e, r) ↦ ground arith
  ]

  still_required-is_watched :
      (d d' : Daemon K)
      → is_watched d ≡ true
      → check_if_operator_is_still_required kube config d ≡ some d'
      → is_watched d' ≡ true
  unfolding check_if_operator_is_still_required deploy_or_die deployed_first watch
  still_required-is_watched d d' watched h =
      elim (Option-cases (check_if_operator_is_deployed kube config d)) [
        | inl n ↦ ground arith
        | inr ((found, d''), c) ↦
            ground (arith, check_if_operator_is_deployed-is_open d d'' found c)
      ]

  pub handle-is_watched :
      (i : Input) (d d' : Daemon K)
      → is_watched d ≡ true
      → handle i d ≡ some d'
      → is_watched d' ≡ true
  unfolding handle_pod
  handle-is_watched (pod change) d d' watched h =
      elim (Option-cases (check_if_operator_is_still_required kube config d)) [
        | inl n ↦ ground arith
        | inr (d'', c) ↦ ground (arith, still_required-is_watched d d'' watched c)
      ]
  handle-is_watched (pools ephemeral persistent) d d' watched h =
      elim (Option-cases (pool_modified (cluster kube config) ephemeral persistent d)) [
        | inl n ↦ ground arith
        | inr ((e, d''), c) ↦ ground (
          arith,
          pool_modified-deployed (cluster kube config) ephemeral persistent d d'' e watched c,
        )
      ]

  handle_all-is_watched :
      (is : List Input) (d d' : Daemon K)
      → is_watched d ≡ true
      → handle_all is d ≡ some d'
      → is_watched d' ≡ true
  handle_all-is_watched [] d d' watched h = ground arith
  handle_all-is_watched (i ∷ is) d d' watched h = elim (Option-cases (handle i d)) [
    | inl n ↦ ground arith
    | inr (d'', c) ↦
        ground (arith, handle-is_watched i d d'' watched c, handle_all-is_watched is d'' d')
  ]

  -- From a start that returned, in any sequence of changes of the operators' pods and of the pools that
  -- the process outlives, the channel of the informer is open while the operators count as
  -- deployed, so that no deletion closes a channel that is not open.
  pub init-is_watched :
      (is : List Input) (k : K) (d d' : Daemon K)
      → init kube config (record {
        deployed = false;
        stop_watch = no_channel;
        channels = 0;
        informers = [];
        cluster = k;
      })
        ≡ some d
      → handle_all is d ≡ some d'
      → is_watched d' ≡ true
  unfolding init watch
  init-is_watched is k d d' h later =
      let fresh : Daemon K = record {
        deployed = false;
        stop_watch = no_channel;
        channels = 0;
        informers = [];
        cluster = k;
      } in
      elim (Option-cases (check_config config)) [
        | inl n ↦ absurd (ground arith)
        | inr (c, checked) ↦ elim (Option-cases (check_if_operator_is_deployed kube config fresh)) [
          | inl n ↦ absurd (ground arith)
          | inr ((none, d''), found) ↦
              handle_all-is_watched is d d' (ground (arith, absent-is_not_deployed fresh d'' found))
                later
          | inr ((some daemonset, d''), found) ↦ handle_all-is_watched is d d' (ground arith) later
        ]
      ]

  runs_on_after_stop :
      (l : List ℕ) (old new : ℕ)
      → old < new
      → runs_on old l ≡ true
      → runs_on old (stop (open_channel new) l) ≡ true
  runs_on_after_stop [] old new older h = ground arith
  runs_on_after_stop (m ∷ l) old new older h = ground (arith, runs_on_after_stop l old new older)

  -- If the operators count as deployed with an informer on the open channel, none of their pods is left, the
  -- daemon set is gone and its deployment succeeds, then after the check that follows a loss
  -- `stopWatch` is another channel, with an informer of its own, and the first informer still runs;
  -- and it still runs after a later deletion of the operators.
  pub informer_leaks :
      (d : Daemon K) (old : ℕ) (k1 k2 k3 : K) (e : Err) (definition created : DaemonSet)
      → d.deployed ≡ true
      → d.stop_watch ≡ open_channel old
      → old < d.channels
      → runs_on old d.informers ≡ true
      → kube.get_operators_count d.cluster ≡ 0
      → kube.get operator_name d.cluster ≡ (err e, k1)
      → kube.is_not_found e ≡ true
      → get_daemonset_definition config ≡ some definition
      → kube.create definition k1 ≡ (ok created, k2)
      → for_resources kube.wait 120 created.namespace created.match_labels k2 ≡ (none, k3)
      → (d' : Daemon K) × (check_if_operator_is_still_required kube config d ≡ some d')
        × ((new : ℕ) × (new ≢ old)
            × (d'.stop_watch ≡ open_channel new)
            × (runs_on new d'.informers ≡ true))
        × (runs_on old d'.informers ≡ true)
        × ((d'' : Daemon K)
            → delete (cluster kube config) d' ≡ some (none, d'')
            → runs_on old d''.informers ≡ true)
  unfolding check_if_operator_is_still_required check_if_operator_is_deployed deploy_or_die
      deployed_first watch delete
  informer_leaks d old k1 k2 k3 e definition created deployed on older runs none_left gone absent
        built create wait =
      let d' : Daemon K = watch (deployed_first k3 (record d { deployed = false; cluster = k1 })) in
      (
        d',
        ground arith,
        (d.channels, (λ same. omega arith), refl, ground arith),
        ground arith,
        λ d'' deletes. ground (
          arith,
          runs_on_after_stop (d.channels ∷ d.informers) old d.channels older (ground arith),
        ),
      )
