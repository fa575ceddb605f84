-- ===== src/Wait.antt =====
-- The waits of pkg/controller/wait/wait.go for the pods of a daemon set and for a definition of a
-- custom resource.
--
-- `Cluster` has the calls of the API server and `wait.Poll`, with its interval and timeout in
-- seconds, over a state `K`.
pub mod Ready
use plenuslb.Base.{
  Bool, true, false, ◌&&◌, ◌||◌, not, none, some, Option, List, ℕ, String, all, any,
}
use plenuslb.Api.{Pod, is_pod_ready}
use plenuslb.Errors.{Err, Result, ok, err}
use plenuslb.Backoff.{Verdict}

-- Labels, in the order in which the code writes them.
abbrev pub Labels : Type 0
Labels = List (String × String)

-- The types of a definition's conditions that the code tells apart, and their status.
pub data ConditionType : Type 0 where
  established names_accepted other_condition : ConditionType

pub data ConditionStatus : Type 0 where
  condition_true condition_false condition_unknown : ConditionStatus

pub record CrdCondition : Type 0 where
  pub condition_type : ConditionType
  pub status : ConditionStatus

-- What the API server returns of a definition.
pub record DeployedCrd : Type 0 where
  pub name : String
  pub resource_version : String
  pub conditions : List CrdCondition

pub record Cluster (K : Type 0) : Type 0 where
  pub list_pods : String → Labels → K → Result (List Pod) × K
  pub get_crd : String → K → Result DeployedCrd × K
  pub poll : ℕ → ℕ → (K → Verdict × K) → K → Option Err × K

-- `podsReady`
unfoldable pub pods_ready : List Pod → Bool
pods_ready pods = all is_pod_ready pods

-- Whether the loop of `crdReady` returns at a condition.
abbrev pub ends_wait : CrdCondition → Bool
ends_wait c = elim c.condition_type [
  | established ↦ elim c.status [ condition_true ↦ true | _ ↦ false ]
  | names_accepted ↦ elim c.status [ condition_false ↦ true | _ ↦ false ]
  | other_condition ↦ false
]

-- `crdReady`
unfoldable pub crd_ready : DeployedCrd → Bool
crd_ready crd = any ends_wait crd.conditions

module _ {K : Type 0} (api : Cluster K) where
  -- `GetPodsFromDaemonset`
  unfoldable pub get_pods_from_daemonset : String → Labels → K → Result (List Pod) × K
  get_pods_from_daemonset namespace selector k = api.list_pods namespace selector k

  -- The condition that `ForResources` polls.
  unfoldable pub resources_condition : String → Labels → K → Verdict × K
  unfolding get_pods_from_daemonset pods_ready
  resources_condition namespace selector k =
      let (r, k') = get_pods_from_daemonset namespace selector k in
      elim r [
        | err e ↦ (record { done = false; error = some e }, k')
        | ok pods ↦ (record { done = pods_ready pods; error = none }, k')
      ]

  -- `ForResources`, of the namespace and the selector of the daemon set.
  unfoldable pub for_resources : ℕ → String → Labels → K → Option Err × K
  unfolding resources_condition
  for_resources timeout namespace selector k =
      api.poll 2 timeout (resources_condition namespace selector) k

  -- The condition that `ForCRD` polls.
  unfoldable pub crd_condition : String → K → Verdict × K
  unfolding crd_ready
  crd_condition name k =
      let (r, k') = api.get_crd name k in
      elim r [
        | err e ↦ (record { done = false; error = some e }, k')
        | ok crd ↦ (record { done = crd_ready crd; error = none }, k')
      ]

  -- `ForCRD`
  unfoldable pub for_crd : ℕ → DeployedCrd → K → Option Err × K
  unfolding crd_condition
  for_crd timeout crd k = api.poll 2 timeout (crd_condition crd.name) k
