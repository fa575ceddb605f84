-- ===== src/Allocator/Laws.antt =====
-- How `EnsureIPAllocation` ends, by what the service lookup and the entries' calls return.
use plenuslb.Base.{none, some, List, [], ◌∷◌, ◌++◌, ◌≡◌, inl, inr, arith}
use plenuslb.Base.{Option-cases, Bool-cases}
use plenuslb.Api.{AddressAllocation, IpAllocation, service_is_load_balancer}
use plenuslb.Allocator.{
  allocate_address, allocate_all, report_failure, ensure_ip_allocation, withdraw, is_node_failure,
}
use plenuslb.Errors.{Err, err}
use plenuslb.Manager.{
  delete_allocation_by_name, set_allocation_status_error, set_allocation_status_node_error,
}
use plenuslb.Services.{find_service}
use plenuslb.World.{World, Api, pure, ◌>>=◌}

module _ {E : Type 0} (api : Api E) where
  -- Whatever error the lookup of the service ends with, not only that it does not exist, the
  -- allocation is deleted and no error is returned.
  pub ensure_deletes_on_error :
      (a : IpAllocation) (w w' : World E) (e : Err)
      → find_service api a.namespace a.name w ≡ some (err e, w')
      → ensure_ip_allocation api a w
        ≡ (delete_allocation_by_name api a.namespace a.name >>= λ _. pure none) w'
  unfolding ensure_ip_allocation service_is_load_balancer
  ensure_deletes_on_error a w w' e h = ground arith

  -- The report of a failure returns the failure.
  report_failure_fails :
      (a : IpAllocation) (entry : AddressAllocation) (x : Err) (w w' : World E)
      → report_failure api a entry x w ≡ some (none, w')
      → ⊥
  unfolding report_failure set_allocation_status_node_error set_allocation_status_error
  report_failure_fails a entry x w w' h = elim (Bool-cases (is_node_failure x)) [
    | inl node ↦ ground arith
    | inr other ↦ ground arith
  ]

  -- The steps of the loop before an entry whose allocation fails succeeded, and those after it are
  -- not made: the result is that of the report of the failure.
  pub allocate_all_stops :
      (a : IpAllocation) (before after : List AddressAllocation) (entry : AddressAllocation)
      (w w₁ w₂ : World E) (x : Err)
      → allocate_all api a before w ≡ some (none, w₁)
      → allocate_address api a.ip_type entry
          (record w₁ { avail = withdraw a.ip_type entry w₁.avail })
        ≡ some (some x, w₂)
      → allocate_all api a (before ++ entry ∷ after) w ≡ report_failure api a entry x w₂
  unfolding allocate_all
  allocate_all_stops a [] after entry w w₁ w₂ x h f = ground arith
  allocate_all_stops a (b ∷ before) after entry w w₁ w₂ x h f =
      elim (Option-cases
        (allocate_address api a.ip_type b (record w { avail = withdraw a.ip_type b w.avail }))) [
          | inl stuck ↦ absurd (ground arith)
          | inr ((none, v), e) ↦ ground (arith, allocate_all_stops a before after entry v w₁ w₂ x)
          | inr ((some y, v), e) ↦ absurd (report_failure_fails a b y v w₁ (ground arith))
        ]

  -- The entries one after the other: each was withdrawn from the availability, its allocation returned no
  -- error, and the next one starts from what that left.
  abbrev pub EachAllocated : IpAllocation → List AddressAllocation → World E → World E → Type 0
  EachAllocated a [] w w' = w ≡ w'
  EachAllocated a (entry ∷ l) w w' =
      (v : World E) × (allocate_address api a.ip_type entry
          (record w { avail = withdraw a.ip_type entry w.avail })
        ≡ some (none, v))
      × EachAllocated a l v w'
