-- ===== src/Wait/Ready.antt =====
-- When the waits of pkg/controller/wait/wait.go end without an error.
use plenuslb.Base.{true, none, List, String, ℕ, ◌≡◌, inl, inr, arith}
use plenuslb.Base.{all, any}
use plenuslb.Api.{Pod, is_pod_ready}
use plenuslb.Errors.{ok, Result-cases}
use plenuslb.Backoff.{Verdict}
use plenuslb.Wait.{
  Labels, DeployedCrd, Cluster, ends_wait, get_pods_from_daemonset, pods_ready, crd_ready,
  resources_condition, for_resources, crd_condition, for_crd,
}

-- What the documentation of `wait.Poll` promises: it returns no error only after the condition has
-- held, with the state that the condition left.
abbrev pub EndsWithDone : {K : Type 0} → Cluster K → Type 0
EndsWithDone {K = K} api =
    (interval timeout : ℕ) (condition : K → Verdict × K) (k k' : K)
    → api.poll interval timeout condition k ≡ (none, k')
    → (k0 : K) × (condition k0 ≡ (record { done = true; error = none }, k'))

module _ {K : Type 0} (api : Cluster K) where
  -- If wait.Poll returns no error only after its condition held, then a wait for a daemon set that ends
  -- without an error ended with a list of pods, in the namespace and with the labels of the daemon
  -- set, all of which are ready; the list may be empty.
  pub for_resources_ready :
      (timeout : ℕ) (namespace : String) (selector : Labels) (k k' : K)
      → EndsWithDone api
      → for_resources api timeout namespace selector k ≡ (none, k')
      → (k0 : K) × (pods : List Pod) × (api.list_pods namespace selector k0 ≡ (ok pods, k'))
        × (all is_pod_ready pods ≡ true)
  unfolding for_resources resources_condition get_pods_from_daemonset pods_ready
  for_resources_ready timeout namespace selector k k' polled h =
      let (k0, held) = polled 2 timeout (resources_condition api namespace selector) k k' h in
      elim (Result-cases (api.list_pods namespace selector k0).0) [
        | inl (pods, r) ↦ (k0, pods, ground arith, ground arith)
        | inr (e, r) ↦ absurd (ground arith)
      ]

  -- If wait.Poll returns no error only after its condition held, then a wait for a definition that
  -- ends without an error ended with an object of its name that was established, or whose names were
  -- refused.
  pub for_crd_ready :
      (timeout : ℕ) (crd : DeployedCrd) (k k' : K)
      → EndsWithDone api
      → for_crd api timeout crd k ≡ (none, k')
      → (k0 : K) × (found : DeployedCrd) × (api.get_crd crd.name k0 ≡ (ok found, k'))
        × (any ends_wait found.conditions ≡ true)
  unfolding for_crd crd_condition crd_ready
  for_crd_ready timeout crd k k' polled h =
      let (k0, held) = polled 2 timeout (crd_condition api crd.name) k k' h in
      elim (Result-cases (api.get_crd crd.name k0).0) [
        | inl (found, r) ↦ (k0, found, ground arith, ground arith)
        | inr (e, r) ↦ absurd (ground arith)
      ]
