-- ===== src/Daemonset/Calls.antt =====
-- The calls of pkg/controller/operator/daemonset.go on the API server: the update of the daemon set, the
-- check whether it is there, the start, and the check after the loss of a node.
--
-- `Kube` has the calls of the API server and the informer's store, over a state `K`. `none` is the end of
-- the process.
use plenuslb.Base.{
  Bool, true, false, ◌&&◌, Option, none, some, List, [], ◌∷◌, ℕ, String, if◌then◌else◌, nat_eq,
}
use plenuslb.Api.{Pod, is_pod_ready}
use plenuslb.Daemonset.{
  Config, DaemonSet, operator_name, check_config, get_daemonset_definition,
  check_if_operator_is_updated, merge_operators_definitions,
}
use plenuslb.Deployment.{Cluster, Daemon, watch, deploy_or_die}
use plenuslb.Errors.{Err, Result, ok, err}
use plenuslb.Wait
use plenuslb.Wait.{get_pods_from_daemonset, for_resources}

pub record Kube (K : Type 0) : Type 0 where
  pub wait : Wait.Cluster K
  pub create : DaemonSet → K → Result DaemonSet × K
  pub get : String → K → Result DaemonSet × K
  pub update : DaemonSet → K → Option Err × K
  pub delete : String → K → Option Err × K
  pub is_not_found : Err → Bool
  pub retry_on_conflict : (K → Option (Option Err × K)) → K → Option (Option Err × K)
  pub get_operators_count : K → ℕ
  pub add_to_store : Pod → K → K

module _ {K : Type 0} (kube : Kube K) (config : Config) where
  -- The calls of `DeployOrDie` and `Delete`; the wait lasts two minutes.
  abbrev pub cluster : Cluster DaemonSet K
  cluster = record {
    create = λ k. elim (get_daemonset_definition config) [
      | none ↦ none
      | some d ↦ some (kube.create d k)
    ];
    wait_for_resources = λ d k. for_resources kube.wait 120 d.namespace d.match_labels k;
    delete = λ k. kube.delete operator_name k;
  }

  -- The closure that `updateOperator` retries.
  unfoldable pub update_attempt : K → Option (Option Err × K)
  update_attempt k =
      let (r, k') = kube.get operator_name k in
      elim r [
        | err e ↦ some (some e, k')
        | ok old ↦ elim (merge_operators_definitions config old) [
          | none ↦ none
          | some new ↦ some (kube.update new k')
        ]
      ]

  -- `updateOperator`
  unfoldable pub update_operator : K → Option (Option Err × K)
  update_operator k = kube.retry_on_conflict update_attempt k

  -- `checkIfOperatorIsDeployedAndUpdatedOrDie`
  unfoldable pub check_if_operator_is_deployed : Daemon K → Option (Option DaemonSet × Daemon K)
  check_if_operator_is_deployed d =
      let (r, k) = kube.get operator_name d.cluster in
      elim r [
        | err e ↦
            if kube.is_not_found e
            then some (none, record d { deployed = false; cluster = k })
            else none
        | ok daemonset ↦ elim (check_if_operator_is_updated config daemonset) [
          | none ↦ none
          | some true ↦ some (some daemonset, record d { deployed = true; cluster = k })
          | some false ↦ elim (update_operator k) [
            | none ↦ none
            | some (some e, k') ↦ none
            | some (none, k') ↦ some (some daemonset, record d { deployed = true; cluster = k' })
          ]
        ]
      ]

  -- The loop of `warmupControllerNodesCacheOrDie`.
  unfoldable pub warmup_pods : List Pod → K → K
  warmup_pods [] k = k
  warmup_pods (pod ∷ pods) k =
      let k' = if is_pod_ready pod then kube.add_to_store pod k else k in warmup_pods pods k'

  -- `warmupControllerNodesCacheOrDie`
  unfoldable pub warmup_controller_nodes_cache : DaemonSet → K → Option Err × K
  warmup_controller_nodes_cache daemonset k =
      let (r, k') =
        get_pods_from_daemonset kube.wait daemonset.namespace daemonset.match_labels k in
      elim r [ err e ↦ (some e, k') | ok pods ↦ (none, warmup_pods pods k') ]

  -- `Init`
  unfoldable pub init : Daemon K → Option (Daemon K)
  init d = elim (check_config config) [
    | none ↦ none
    | some c ↦ elim (check_if_operator_is_deployed d) [
      | none ↦ none
      | some (none, d') ↦ some d'
      | some (some daemonset, d') ↦
          let (e, k) = warmup_controller_nodes_cache daemonset d'.cluster in
          if d'.deployed
          then (elim e [ some x ↦ none | none ↦ some (watch (record d' { cluster = k })) ])
          else some d'
    ]
  ]

  -- `checkIfOperatorIsStillRequiredOrDie`
  unfoldable pub check_if_operator_is_still_required : Daemon K → Option (Daemon K)
  check_if_operator_is_still_required d =
      if nat_eq (kube.get_operators_count d.cluster) 0 && d.deployed
      then (elim (check_if_operator_is_deployed d) [
        | none ↦ none
        | some (some daemonset, d') ↦ some d'
        | some (none, d') ↦ elim (deploy_or_die cluster d') [
          | none ↦ none
          | some (e, d'') ↦ some d''
        ]
      ])
      else some d
