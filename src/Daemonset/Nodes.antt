-- ===== src/Daemonset/Nodes.antt =====
-- The handlers of `buildOperatorNodesWatcher` of pkg/controller/operator/daemonset.go, with
-- `newOperatorNode` and `operatorNodeLost`.
--
-- A handler returns the events that it sends, in their order; Events has the channels.
use plenuslb.Base.{Bool, true, false, not, Option, none, some, List, [], ◌∷◌, String}
use plenuslb.Base.{if◌then◌else◌}
use plenuslb.Api.{Pod, is_pod_ready}
use plenuslb.Daemonset.{Config}
use plenuslb.Daemonset.Calls.{Kube, check_if_operator_is_still_required}
use plenuslb.Deployment.{Daemon}

pub data NodeEvent : Type 0 where
  new_node node_lost : String → NodeEvent

-- What an informer reports of the operators' pods.
pub data PodChange : Type 0 where
  pod_added pod_deleted : Pod → PodChange
  pod_updated : Pod → Pod → PodChange

abbrev pub bool_eq : Bool → Bool → Bool
bool_eq true b = b
bool_eq false b = not b

-- The events that the handlers send.
unfoldable pub events_of : PodChange → List NodeEvent
events_of (pod_added pod) = if is_pod_ready pod then new_node pod.node_name ∷ [] else []
events_of (pod_deleted pod) = node_lost pod.node_name ∷ []
events_of (pod_updated old new) =
    if not (bool_eq (is_pod_ready new) (is_pod_ready old))
    then (if is_pod_ready new then new_node new.node_name ∷ [] else node_lost old.node_name ∷ [])
    else []

-- Whether a handler calls `operatorNodeLost`.
unfoldable pub loses_node : PodChange → Bool
loses_node (pod_added pod) = false
loses_node (pod_deleted pod) = true
loses_node (pod_updated old new) =
    if not (bool_eq (is_pod_ready new) (is_pod_ready old)) then not (is_pod_ready new) else false

module _ {K : Type 0} (kube : Kube K) (config : Config) where
  -- The handlers: the events and the state after them.
  unfoldable pub handle_pod : PodChange → Daemon K → Option (List NodeEvent × Daemon K)
  handle_pod change d =
      if loses_node change
      then (elim (check_if_operator_is_still_required kube config d) [
        | none ↦ none
        | some d' ↦ some (events_of change, d')
      ])
      else some (events_of change, d)
