-- ===== src/Operators.antt =====
-- The controller's side of the operators: pkg/controller/operator/operatorslist.go (the search and
-- the random choice of an operator's pod) and pkg/controller/operatorSpeaker/speaker.go (the calls
-- of the operators).
--
-- `operator_store` is the list of the informer of the operators' pods. Contexts, timeouts and the
-- closing of connections are left out; an expired call is an error of `Api`.
pub mod Ensure
use plenuslb.Base.{Bool, true, false, Option, none, some, List, [], ◌∷◌, String, ℕ, ◌==◌, ◌≡◌}
use plenuslb.Base.{if◌then◌else◌, find, length, get_elem?}
use plenuslb.Base.Text.{sprint}
use plenuslb.Api.{Pod, is_pod_ready}
use plenuslb.Errors.{
  no_operator_node_available, Err, Result, ok, err, operator_not_ready,
  failed_to_dial_with_operator, errorf,
}
use plenuslb.World.{
  Operator, AddressInfo, World, Api, M, pure, panic, ◌>>=◌, ◌>>◌, call, try_call, read, deref,
}

-- `GetNodeFromOperatorPod`
unfoldable pub get_node_from_operator_pod : Pod → Operator
get_node_from_operator_pod pod = record {
  address = pod.pod_ip;
  port = "10000";
  node_name = pod.node_name;
}

-- `SearchOperatorByClusterNodeName`
unfoldable pub search_operator_by_cluster_node_name : String → List Pod → Option Operator
unfolding get_node_from_operator_pod
search_operator_by_cluster_node_name name pods = elim (find (λ pod. pod.node_name == name) pods) [
  | none ↦ none
  | some pod ↦ some (get_node_from_operator_pod pod)
]

-- `GetOperatorByName`
unfoldable pub get_operator_by_name : String → List Pod → Result Operator
get_operator_by_name name pods = elim (find (λ pod. pod.name == name) pods) [
  | none ↦ err no_operator_node_available
  | some pod ↦ ok (get_node_from_operator_pod pod)
]

-- `GetOperatorsCount`
abbrev pub get_operators_count : List Pod → ℕ
get_operators_count pods = length pods

-- The error that `GetRandomOperatorNode` retries.
abbrev pub err_is_not_ready : Err → Bool
err_is_not_ready operator_not_ready = true
err_is_not_ready _ = false

module _ {E : Type 0} (api : Api E) where
  -- The closure of `GetRandomOperatorNode`: `Intn(0)` and an index out of range panic.
  unfoldable pub pick_operator : List Pod → E → Option (Result Pod × E)
  pick_operator [] e = none
  pick_operator (p ∷ pods) e =
      let (i, e') = api.intn (length (p ∷ pods)) e in
      elim (get_elem? (p ∷ pods) i) [
        | none ↦ none
        | some pod ↦
            if is_pod_ready pod then some (ok pod, e') else some (err operator_not_ready, e')
      ]

  -- `GetRandomOperatorNode`
  unfoldable pub get_random_operator_node : M E (Result Operator)
  unfolding pick_operator get_node_from_operator_pod
  get_random_operator_node = do
    pods ← read (λ w. w.operator_store)
    picked ← try_call (api.retry_on_error err_is_not_ready (pick_operator pods))
    elim picked [ ok pod ↦ pure (ok (get_node_from_operator_pod pod)) | err e ↦ pure (err e) ]

  -- `GrpcClientForNode`: a dial that fails ends the process (`log.Fatalf`), so that no error returns.
  abbrev pub grpc_client_for_node : Operator → M E (Option Err)
  grpc_client_for_node node = do
    dialled ← call (api.dial node)
    elim dialled [ some e ↦ panic | none ↦ pure none ]

  -- The error that `EnsureIPAllocationOnNode` returns for an error of `AddAddress`.
  abbrev pub add_error : Err → Err
  add_error e = if api.is_status_error e then failed_to_dial_with_operator else e

  -- The loop of `EnsureIPAllocationOnNode` over the operators' pods.
  unfoldable pub ensure_on_pods : String → String → String → List Pod → M E (Option Err)
  unfolding get_node_from_operator_pod
  ensure_on_pods node_name interface_name address [] = pure none
  ensure_on_pods node_name interface_name address (pod ∷ pods) =
      let rest = ensure_on_pods node_name interface_name address pods in
      let node = get_node_from_operator_pod pod in
      let info : AddressInfo = record { interface_name = interface_name; address = address } in
      do
        dialled ← grpc_client_for_node node
        elim dialled [
          | some _ ↦ pure (some failed_to_dial_with_operator)
          | none ↦
              if node.node_name == node_name
              then (if is_pod_ready pod
                  then (do
                    added ← call (api.add_address node info)
                    elim added [ some e ↦ pure (some (add_error e)) | none ↦ rest ])
                  else pure (some failed_to_dial_with_operator))
              else (if is_pod_ready pod
                  then (do _ ← call (api.remove_address node info); rest)
                  else rest)
        ]

  -- `EnsureIPAllocationOnNode`
  unfoldable pub ensure_ip_allocation_on_node : String → String → String → M E (Option Err)
  unfolding ensure_on_pods
  ensure_ip_allocation_on_node node_name interface_name address = do
    pods ← read (λ w. w.operator_store)
    ensure_on_pods node_name interface_name address pods

  abbrev pub operator_not_found : String → Err
  operator_not_found node_name =
      errorf (sprint ("Operator for node " ∷ node_name ∷ " not found" ∷ []))

  -- The dial and the call that `RemoveAddressFromNode` and `DoCleanup` make on a node's operator.
  abbrev pub on_operator : String → (Operator → E → Option Err × E) → M E (Option Err)
  on_operator node_name request = do
    pods ← read (λ w. w.operator_store)
    elim (search_operator_by_cluster_node_name node_name pods) [
      | none ↦ pure (some (operator_not_found node_name))
      | some node ↦ do
        dialled ← grpc_client_for_node node
        elim dialled [ some e ↦ pure (some e) | none ↦ call (request node) ]
    ]

  -- `RemoveAddressFromNode`
  unfoldable pub remove_address_from_node : String → String → String → M E (Option Err)
  remove_address_from_node node_name interface_name address = on_operator node_name (λ node.
      api.remove_address node (record { interface_name = interface_name; address = address }))

  -- `DoCleanup`
  unfoldable pub do_cleanup : String → List AddressInfo → M E (Option Err)
  do_cleanup node_name to_keep = on_operator node_name (λ node. api.cleanup node to_keep)
