-- ===== src/Watcher/Status.antt =====
-- The handlers of allocation events: which status starts which, what the lock does to them, and
-- where the handler of errors panics.
use plenuslb.Base.{
  ℕ, zero, suc, refl, sym, ◌∙◌, ◌⊎◌, true, false, Option, none, some, ◌≡◌, ◌≢◌, inl, inr, arith,
}
use plenuslb.Base.{Option-cases}
use plenuslb.Base.Text.{eq_refl}
use plenuslb.Api.{error, IpAllocation, Service, type_eq, service_is_load_balancer}
use plenuslb.Errors.{Err, ok, object_locked}
use plenuslb.Lock.{is_locked, try_lock, lock_key}
use plenuslb.Lock.Table.{is_locked-remove_from_lock}
use plenuslb.Manager.{find_allocation, delete_allocation_by_name}
use plenuslb.Reconciler.{expected_allocation_type, reconcile_allocation, change_allocation_type}
use plenuslb.Services.{find_service}
use plenuslb.Watcher.{
  Handler, no_handler, on_success, on_pending, on_node_error, on_error, locked,
  find_allocation_by_name, acquire, success_body, pending_body, node_error_body, error_body,
  reconcile_and_ensure, error_attempt, process_allocation_status_success,
  process_allocation_status_pending, process_allocation_node_error,
}
use plenuslb.Watcher.Events.{service_changed, allocation_deleted, deallocate, recreate}
use plenuslb.World.{◌>>◌, pure, World, Api, M}

-- What an event on an allocation starts: the handler of its status, or that of its deletion.
pub data Task : Type 0 where
  of_status : Handler → Task
  of_deletion : Task

module _ {E : Type 0} (api : Api E) (a : IpAllocation) where
  -- The work of the task: the handler, or one attempt of the handler of errors.
  unfoldable pub work : Task → M E (Option Err)
  work (of_status no_handler) = pure none
  work (of_status on_success) = process_allocation_status_success api a
  work (of_status on_pending) = process_allocation_status_pending api a
  work (of_status on_node_error) = process_allocation_node_error api a
  work (of_status on_error) = error_attempt api a
  work of_deletion = allocation_deleted api a

  -- Every task but the empty one is some body under the lock.
  work-locked :
      (t : Task)
      → (t ≡ of_status no_handler)
        ⊎ ((body : M E (Option Err)) × ((w : World E) → work t w ≡ locked api a body w))
  unfolding work process_allocation_status_success process_allocation_status_pending
      process_allocation_node_error error_attempt allocation_deleted
  work-locked (of_status no_handler) = inl refl
  work-locked (of_status on_success) = inr (success_body api a, λ w. refl)
  work-locked (of_status on_pending) = inr (pending_body api a, λ w. refl)
  work-locked (of_status on_node_error) = inr (node_error_body api a, λ w. refl)
  work-locked (of_status on_error) = inr (error_body api a, λ w. refl)
  work-locked of_deletion = inr ((do deallocate api a a.ip_type; recreate api a), λ w. refl)

  -- The world after so many sleeps, in which only the others run.
  abbrev pub waited : ℕ → World E → World E
  waited zero w = w
  waited (suc n) w = waited n (api.others w)

  -- An attempt on the world, and one after each of so many sleeps, finds the allocation locked.
  abbrev pub StaysLocked : ℕ → World E → Type 0
  StaysLocked zero w = is_locked a w.locks ≢ none
  StaysLocked (suc n) w = (is_locked a w.locks ≢ none) × StaysLocked n (api.others w)

  -- The attempts all find the allocation locked, or one takes the lock.
  acquire-cases :
      (n : ℕ) (w : World E)
      → (StaysLocked n w × (acquire api n a w ≡ some (some object_locked, waited n w)))
        ⊎ ((v : World E) × (acquire api n a w ≡ some (none, v)))
  unfolding acquire try_lock
  acquire-cases zero w = elim (Option-cases (is_locked a w.locks)) [
    | inl free ↦
        inr (record w { locks = (try_lock a "allocationswatcher" w.locks).1 }, ground arith)
    | inr (who, held) ↦ inl ((λ free. ground arith), ground arith)
  ]
  acquire-cases (suc n) w = elim (Option-cases (is_locked a w.locks)) [
    | inl free ↦
        inr (record w { locks = (try_lock a "allocationswatcher" w.locks).1 }, ground arith)
    | inr (who, held) ↦ elim (acquire-cases n (api.others w)) [
      | inl (still, refused) ↦ inl (((λ free. ground arith), still), ground arith)
      | inr (v, taken) ↦ inr (v, ground arith)
    ]
  ]

  acquire_refused :
      (n : ℕ) (w : World E)
      → StaysLocked n w
      → acquire api n a w ≡ some (some object_locked, waited n w)
  unfolding acquire try_lock
  acquire_refused zero w taken = elim (Option-cases (is_locked a w.locks)) [
    | inl free ↦ absurd (taken free)
    | inr (who, held) ↦ ground arith
  ]
  acquire_refused (suc n) w (taken, later) = elim (Option-cases (is_locked a w.locks)) [
    | inl free ↦ absurd (taken free)
    | inr (who, held) ↦ ground (arith, acquire_refused n (api.others w) later)
  ]

  locked_releases :
      (body : M E (Option Err)) (w w' : World E) (r : Option Err)
      → locked api a body w ≡ some (r, w')
      → (is_locked a w'.locks ≡ none)
        ⊎ (StaysLocked 9 w × (r ≡ some object_locked) × (w' ≡ waited 9 w))
  unfolding is_locked
  locked_releases body w w' r h = elim (acquire-cases 9 w) [
    | inl (still, refused) ↦ inr (still, ground arith, ground arith)
    | inr (v, taken) ↦ elim (Option-cases (body v)) [
      | inl stuck ↦ absurd (ground arith)
      | inr ((x, u), e) ↦
          inl (ground (arith, is_locked-remove_from_lock a a u.locks, eq_refl (lock_key a)))
    ]
  ]

  -- While an allocation is locked at each of the ten attempts, whatever the other goroutines do during the
  -- sleeps between them, the work that an event on it starts is refused, and changes nothing itself.
  pub work_refused :
      (t : Task) (w : World E)
      → t ≢ of_status no_handler
      → StaysLocked 9 w
      → work t w ≡ some (some object_locked, waited 9 w)
  work_refused t w some_work taken = elim (work-locked t) [
    | inl empty ↦ absurd (some_work empty)
    | inr (body, same) ↦ same w ∙ ground (arith, acquire_refused 9 w taken)
  ]

  -- When the work that an event on an allocation starts returns, with an error or without, the allocation
  -- is free, unless each of the ten attempts found it locked: then nothing but the others changed
  -- the world, and the error is that of a locked object.
  pub work_releases :
      (t : Task) (w w' : World E) (r : Option Err)
      → t ≢ of_status no_handler
      → work t w ≡ some (r, w')
      → (is_locked a w'.locks ≡ none)
        ⊎ (StaysLocked 9 w × (r ≡ some object_locked) × (w' ≡ waited 9 w))
  work_releases t w w' r some_work ran = elim (work-locked t) [
    | inl empty ↦ absurd (some_work empty)
    | inr (body, same) ↦ locked_releases body w w' r (sym (same w) ∙ ran)
  ]

  -- If the allocation of a changed service is locked at each of the ten attempts, the handler changes
  -- nothing after it has looked the allocation up.
  pub service_changed_refused :
      (s : Service) (w w' : World E)
      → find_allocation api s.namespace s.name w ≡ some (ok (some a), w')
      → StaysLocked 9 w'
      → service_changed api s w ≡ some (tt, waited 9 w')
  unfolding service_changed
  service_changed_refused s w w' h taken = ground (arith, acquire_refused 9 w' taken)

  reconcile_changes_type :
      (s : Service) (b : IpAllocation) (w w' : World E)
      → service_is_load_balancer (some s) ≡ true
      → type_eq b.ip_type (expected_allocation_type s) ≡ false
      → delete_allocation_by_name api b.namespace b.name w ≡ some (none, w')
      → reconcile_allocation api s b w ≡ some ((none, none), w')
  unfolding reconcile_allocation change_allocation_type
  reconcile_changes_type s b w w' lb other deleted = rw (lb, other) (ground arith)

  reconcile_and_ensure_gone :
      (s : Service) (b : IpAllocation) (w w₁ w₂ : World E)
      → find_service api b.namespace b.name w ≡ some (ok s, w₁)
      → reconcile_allocation api s b w₁ ≡ some ((none, none), w₂)
      → reconcile_and_ensure api b w ≡ some (ok none, w₂)
  unfolding reconcile_and_ensure
  reconcile_and_ensure_gone s b w w₁ w₂ found r = ground arith

  -- Suppose that an allocation in error is found, that its service is a load balancer which now
  -- expects an allocation of the other type, and that the deletion of the allocation succeeds. Then
  -- the attempt of `processAllocationStatusError` panics: it reads the status of the object that
  -- the reconciliation no longer returns.
  pub error_body_panics :
      (b : IpAllocation) (s : Service) (w w₁ w₂ w₃ : World E)
      → find_allocation_by_name api a.namespace a.name w ≡ some (ok b, w₁)
      → b.state ≡ error
      → find_service api b.namespace b.name w₁ ≡ some (ok s, w₂)
      → service_is_load_balancer (some s) ≡ true
      → type_eq b.ip_type (expected_allocation_type s) ≡ false
      → delete_allocation_by_name api b.namespace b.name w₂ ≡ some (none, w₃)
      → error_body api a w ≡ none
  unfolding error_body
  error_body_panics b s w w₁ w₂ w₃ found in_error service lb other deleted = ground (
    arith,
    reconcile_and_ensure_gone s b w₁ w₂ w₃ service
        (reconcile_changes_type s b w₂ w₃ lb other deleted),
  )
