-- ===== src/Reconciler/Laws.antt =====
-- What `ReconcileAllocation` decides: which allocations it keeps, and which it deletes.
use plenuslb.Base.{true, false, Option, none, some, ◌≡◌, ◌⊎◌, inl, inr, arith}
use plenuslb.Base.{is_empty, Bool-cases}
use plenuslb.Api.{
  IpAllocation, Service, ephemeral_ip, type_eq, service_is_load_balancer, service_has_external_ips,
}
use plenuslb.Errors.{Err}
use plenuslb.Manager.{delete_allocation_by_name}
use plenuslb.Reconciler.{
  Reconciled, in_sync, expected_allocation_type, reconcile_allocation, change_allocation_type,
  reconcile_ephemeral_allocation, service_is_no_longer_a_load_balancer,
}
use plenuslb.World.{World, Api, M, pure, ◌>>=◌}

module _ {E : Type 0} (api : Api E) where
  -- The deletion of the allocation, with no object to go on with.
  abbrev pub deletion : IpAllocation → M E Reconciled
  deletion a = do e ← delete_allocation_by_name api a.namespace a.name; pure (none, e)

  -- When the allocation of a service is to go: the service is no load balancer and the allocation is
  -- not ephemeral, or the service expects the other type, or it expects an ephemeral one and its
  -- ingress is not the allocation's address.
  abbrev pub IsObsolete : Service → IpAllocation → Type 0
  IsObsolete s a =
      ((service_is_load_balancer (some s) ≡ false) × (type_eq a.ip_type ephemeral_ip ≡ false))
      ⊎ (((service_is_load_balancer (some s) ≡ true)
            × (type_eq a.ip_type (expected_allocation_type s) ≡ false))
          ⊎ ((service_is_load_balancer (some s) ≡ true)
              × (a.ip_type ≡ ephemeral_ip)
              × (is_empty s.external_ips ≡ true)
              × (in_sync s.ingress a.allocations ≡ false)))

  -- Reconciling an obsolete allocation, one of a type that its service does not expect, or an
  -- ephemeral one whose address is not the ingress of its service, or one that is not ephemeral of
  -- a service that is no load balancer, is its deletion: no other call is made, and no object is
  -- returned.
  pub reconcile_allocation_deletes :
      (s : Service) (a : IpAllocation) (w : World E)
      → IsObsolete s a
      → reconcile_allocation api s a w ≡ deletion a w
  unfolding reconcile_allocation change_allocation_type service_is_no_longer_a_load_balancer
      expected_allocation_type reconcile_ephemeral_allocation service_has_external_ips
  reconcile_allocation_deletes s a w (inl (no_lb, other)) = rw (no_lb, other) (ground arith)
  reconcile_allocation_deletes s a w (inr (inl (lb, other))) = rw (lb, other) (ground arith)
  reconcile_allocation_deletes s a w (inr (inr (lb, t, no_ips, stale))) =
      rw (lb, t, no_ips) (rw stale (ground arith))

  -- If the reconciliation returns an object to go on with, then the service is a load balancer, and
  -- the allocation is of the type that the service expects.
  pub reconcile_allocation_keeps :
      (s : Service) (a object : IpAllocation) (e : Option Err) (w w' : World E)
      → reconcile_allocation api s a w ≡ some ((some object, e), w')
      → (service_is_load_balancer (some s) ≡ true)
        × (type_eq a.ip_type (expected_allocation_type s) ≡ true)
  unfolding reconcile_allocation change_allocation_type service_is_no_longer_a_load_balancer
  reconcile_allocation_keeps s a object e w w' h =
      elim (Bool-cases (service_is_load_balancer (some s))) [
        | inr no_lb ↦ absurd (ground arith)
        | inl lb ↦ elim (Bool-cases (type_eq a.ip_type (expected_allocation_type s))) [
          | inl same ↦ (lb, same)
          | inr other ↦ absurd (ground arith)
        ]
      ]
