-- ===== src/Operators/Ensure.antt =====
-- What `EnsureIPAllocationOnNode` guarantees, and what it does not.
use plenuslb.Base.{
  Bool, true, false, not, ◌||◌, Option, none, some, List, [], ◌∷◌, String, ◌==◌, ◌≡◌, refl, arith,
  inl, inr,
}
use plenuslb.Base.{any, all, Option-cases, Bool-cases}
use plenuslb.Api.{Pod, is_pod_ready}
use plenuslb.Errors.{Err}
use plenuslb.Operators.{get_node_from_operator_pod, ensure_on_pods, ensure_ip_allocation_on_node}
use plenuslb.World.{Operator, AddressInfo, World, Api}

-- The pod runs on the node.
abbrev pub on_node : String → Pod → Bool
on_node node_name pod = pod.node_name == node_name

module _ {E : Type 0} (api : Api E) (node_name interface_name address : String) where
  ensure_on_pods_ready :
      (pods : List Pod) (w w' : World E)
      → ensure_on_pods api node_name interface_name address pods w ≡ some (none, w')
      → all (λ pod. not (on_node node_name pod) || is_pod_ready pod) pods ≡ true
  unfolding ensure_on_pods get_node_from_operator_pod
  ensure_on_pods_ready [] w w' h = refl
  ensure_on_pods_ready (pod ∷ pods) w w' h =
      let node = get_node_from_operator_pod pod in
      let info : AddressInfo = record { interface_name = interface_name; address = address } in
      let w₁ = record w { ext = (api.dial node w.ext).1 } in
      let added = record w₁ { ext = (api.add_address node info w₁.ext).1 } in
      let removed = record w₁ { ext = (api.remove_address node info w₁.ext).1 } in
      elim (Option-cases (api.dial node w.ext).0) [
        | inl d ↦ elim (Bool-cases (pod.node_name == node_name)) [
          | inl here ↦ elim (Bool-cases (is_pod_ready pod)) [
            | inl ready ↦ elim (Option-cases (api.add_address node info w₁.ext).0) [
              | inl worked ↦ ground (arith, ensure_on_pods_ready pods added w')
              | inr (e, failed) ↦ absurd (ground arith)
            ]
            | inr busy ↦ absurd (ground arith)
          ]
          | inr there ↦ elim (Bool-cases (is_pod_ready pod)) [
            | inl ready ↦ ground (arith, ensure_on_pods_ready pods removed w')
            | inr busy ↦ ground (arith, ensure_on_pods_ready pods w₁ w')
          ]
        ]
        | inr (e, d) ↦ absurd (ground arith)
      ]

  -- If `EnsureIPAllocationOnNode` succeeds, the operators that run on the node are ready, all of
  -- them.
  pub ensure_ip_allocation_on_node_ready :
      (w w' : World E)
      → ensure_ip_allocation_on_node api node_name interface_name address w ≡ some (none, w')
      → all (λ pod. not (on_node node_name pod) || is_pod_ready pod) w.operator_store ≡ true
  unfolding ensure_ip_allocation_on_node
  ensure_ip_allocation_on_node_ready w w' h = ensure_on_pods_ready w.operator_store w w' h

  no_operator_on_pods :
      (pods : List Pod) (add : Operator → AddressInfo → E → Option Err × E) (w : World E)
      → ((o : Operator) (e : E) → (api.dial o e).0 ≡ none)
      → any (on_node node_name) pods ≡ false
      → (w' : World E) × (ensure_on_pods api node_name interface_name address pods w
          ≡ some (none, w'))
        × (ensure_on_pods (record api { add_address = add }) node_name interface_name address pods w
            ≡ some (none, w'))
  unfolding ensure_on_pods get_node_from_operator_pod
  no_operator_on_pods [] add w dials absent = (w, refl, refl)
  no_operator_on_pods (pod ∷ pods) add w dials absent =
      let node = get_node_from_operator_pod pod in
      let info : AddressInfo = record { interface_name = interface_name; address = address } in
      let w₁ = record w { ext = (api.dial node w.ext).1 } in
      let removed = record w₁ { ext = (api.remove_address node info w₁.ext).1 } in
      let dialled = dials node w.ext in
      elim (Bool-cases (is_pod_ready pod)) [
        | inl ready ↦
            let (w', e, e') = no_operator_on_pods pods add removed dials (ground arith) in
            (w', ground arith, ground arith)
        | inr busy ↦
            let (w', e, e') = no_operator_on_pods pods add w₁ dials (ground arith) in
            (w', ground arith, ground arith)
      ]

  -- If no operator runs on the node and every operator can be dialled, the call reports success
  -- without adding the address anywhere: its result and its effect are the same whatever the
  -- operators' `AddAddress` would do.
  pub ensure_ip_allocation_on_node_absent :
      (add : Operator → AddressInfo → E → Option Err × E) (w : World E)
      → ((o : Operator) (e : E) → (api.dial o e).0 ≡ none)
      → any (on_node node_name) w.operator_store ≡ false
      → (w' : World E) × (ensure_ip_allocation_on_node api node_name interface_name address w
          ≡ some (none, w'))
        × (ensure_ip_allocation_on_node
              (record api { add_address = add })
              node_name
              interface_name
              address
              w
            ≡ some (none, w'))
  unfolding ensure_ip_allocation_on_node
  ensure_ip_allocation_on_node_absent add w dials absent =
      no_operator_on_pods w.operator_store add w dials absent
