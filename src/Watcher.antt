-- ===== src/Watcher.antt =====
-- pkg/controller/allocationswatcher/allocationswatcher.go: what the controller does with each
-- event on an allocation, a node or a pool.
--
-- The work that a handler starts with `go` is modelled as a call of its own: `handler` says which
-- one an event starts. The lock is tried ten times, and what the other goroutines do between two attempts
-- is any function of the world, `others` of `Api`; under the lock a handler runs alone. Lock/Race.antt
-- is about attempts that interleave. `trace` is the name of the caller.
pub mod Events
pub mod Status
pub mod Nodes
use plenuslb.Base.{Bool, true, false, not, Option, none, some, List, [], ◌∷◌, String, ℕ, zero, suc}
use plenuslb.Base.{if◌then◌else◌}
use plenuslb.Api.{
  IpType, AllocationStatus, unset, success, error, failed, node_error, pending, addr_deleted,
  unknown_status, IpAllocation, Service, status_eq, type_eq, persistent_ip, deep_equal,
}
use plenuslb.Allocator.{ensure_ip_allocation, is_persistent}
use plenuslb.Ephemeral.Node as EphemeralNode
use plenuslb.Errors.{Err, Result, ok, err, errorf, allocation_not_found}
use plenuslb.Lock.{
  try_lock, remove_from_lock, is_error_allocation_already_processing,
  add_error_allocation_to_processing_list, remove_error_allocation_from_processing_list,
}
use plenuslb.Manager.{set_allocation_status_failed}
use plenuslb.Persistent.Node as PersistentNode
use plenuslb.Placement.{error_of}
use plenuslb.Reconciler.{reconcile_allocation}
use plenuslb.Services.{find_service}
use plenuslb.World.{World, Api, M, pure, panic, ◌>>=◌, ◌>>◌, call, read, deref}

-- The handler that `allocationCreated` and `allocationsChanged` start for a status.
pub data Handler : Type 0 where
  no_handler : Handler
  on_success : Handler
  on_pending : Handler
  on_node_error : Handler
  on_error : Handler

unfoldable pub handler : AllocationStatus → Handler
handler success = on_success
handler pending = on_pending
handler node_error = on_node_error
handler error = on_error
handler _ = no_handler

module _ {E : Type 0} (api : Api E) where
  -- `FindAllocationByName`
  unfoldable pub find_allocation_by_name : String → String → M E (Result IpAllocation)
  find_allocation_by_name namespace name = do
    found ← call (api.get namespace name)
    elim found [
      | ok a ↦ pure (ok a)
      | err e ↦ if api.is_not_found e then pure (err allocation_not_found) else pure (err e)
    ]

  -- The attempts of `AcquireAllocationLock`, one and so many more: before each of those the goroutine
  -- sleeps, and the others go on. Every error of an attempt is that of a locked object, and is retried.
  unfoldable pub acquire : ℕ → IpAllocation → M E (Option Err)
  acquire zero a w =
      let (e, table) = try_lock a "allocationswatcher" w.locks in
      some (e, record w { locks = table })
  acquire (suc n) a w =
      let (e, table) = try_lock a "allocationswatcher" w.locks in
      let again = acquire n a (api.others w) in
      elim e [ some x ↦ again | none ↦ some (none, record w { locks = table }) ]

  -- `AcquireAllocationLock` with `DefaultObjectBackoff`, which has ten steps.
  abbrev pub lock : IpAllocation → M E (Option Err)
  lock a = acquire 9 a

  abbrev pub unlock : IpAllocation → M E (Unit {0})
  unlock a w = some (tt, record w { locks = remove_from_lock a w.locks })

  -- `AcquireAllocationLock`, the body, and the deferred `RemoveFromLock`.
  abbrev pub locked : IpAllocation → M E (Option Err) → M E (Option Err)
  locked a body = do
    e ← lock a
    elim e [ some x ↦ pure (some x) | none ↦ do r ← body; unlock a; pure r ]

  -- The reconciliation of an allocation with its service, and the allocation of its addresses if
  -- it was not changed. The object is what `ReconcileAllocation` returned.
  unfoldable pub reconcile_and_ensure : IpAllocation → M E (Result (Option IpAllocation))
  reconcile_and_ensure a = do
    service ← find_service api a.namespace a.name
    elim service [
      | err e ↦ pure (err e)
      | ok s ↦ do
        (object, e) ← reconcile_allocation api s a
        elim e [
          | some x ↦ pure (err x)
          | none ↦ elim object [
            | none ↦ pure (ok none)
            | some r ↦
                if deep_equal r a
                then (do
                  ensured ← ensure_ip_allocation api r
                  elim ensured [ some x ↦ pure (err x) | none ↦ pure (ok (some r)) ])
                else pure (ok (some r))
          ]
        ]
    ]

  -- The body of `processAllocationStatusSuccess` under the lock.
  unfoldable pub success_body : IpAllocation → M E (Option Err)
  unfolding find_allocation_by_name reconcile_and_ensure
  success_body ro = do
    found ← find_allocation_by_name ro.namespace ro.name
    elim found [
      | err e ↦ pure (some e)
      | ok a ↦
          if status_eq a.state success
          then (do r ← reconcile_and_ensure a; pure (error_of r))
          else pure none
    ]

  -- `processAllocationStatusSuccess`
  unfoldable pub process_allocation_status_success : IpAllocation → M E (Option Err)
  unfolding success_body
  process_allocation_status_success ro = locked ro (success_body ro)

  -- The body of `processAllocationNodeError` under the lock.
  unfoldable pub node_error_body : IpAllocation → M E (Option Err)
  unfolding find_allocation_by_name
  node_error_body ro = do
    found ← find_allocation_by_name ro.namespace ro.name
    elim found [
      | err e ↦ pure (some e)
      | ok a ↦
          if status_eq a.state node_error
          then (do
            r ←
                (if is_persistent a.ip_type
                  then PersistentNode.change_allocation_node api a
                  else EphemeralNode.change_allocation_node api a)
            pure (error_of r))
          else pure none
    ]

  -- `processAllocationNodeError`
  unfoldable pub process_allocation_node_error : IpAllocation → M E (Option Err)
  unfolding node_error_body
  process_allocation_node_error ro = locked ro (node_error_body ro)

  -- The body of `processAllocationStatusPending` under the lock.
  unfoldable pub pending_body : IpAllocation → M E (Option Err)
  unfolding find_allocation_by_name
  pending_body ro = do
    found ← find_allocation_by_name ro.namespace ro.name
    elim found [
      | err e ↦ pure (some e)
      | ok a ↦ if status_eq a.state pending then ensure_ip_allocation api a else pure none
    ]

  -- `processAllocationStatusPending`
  unfoldable pub process_allocation_status_pending : IpAllocation → M E (Option Err)
  unfolding pending_body
  process_allocation_status_pending ro = locked ro (pending_body ro)

  abbrev pub stop_processing : IpAllocation → M E (Unit {0})
  stop_processing a w =
      some
        (tt, record w { processing = remove_error_allocation_from_processing_list a w.processing })

  -- One attempt of `processAllocationStatusError`, under the lock. `reconciledAllocation` is nil
  -- where the reconciliation deleted the allocation, and its status is read all the same.
  unfoldable pub error_body : IpAllocation → M E (Option Err)
  unfolding find_allocation_by_name reconcile_and_ensure
  error_body ro = do
    found ← find_allocation_by_name ro.namespace ro.name
    elim found [
      | err e ↦ pure (some e)
      | ok a ↦
          if status_eq a.state error
          then (do
            r ← reconcile_and_ensure a
            elim r [
              | err e ↦ pure (some e)
              | ok object ↦ do o ← deref object; pure (some (errorf o.message))
            ])
          else (do stop_processing ro; pure none)
    ]

  -- One attempt of `processAllocationStatusError`.
  unfoldable pub error_attempt : IpAllocation → M E (Option Err)
  unfolding error_body
  error_attempt ro = locked ro (error_body ro)

  -- What `processAllocationStatusError` does when the attempts are used up.
  unfoldable pub give_up : IpAllocation → Err → M E (Option Err)
  unfolding find_allocation_by_name
  give_up ro e = do
    stop_processing ro
    found ← find_allocation_by_name ro.namespace ro.name
    elim found [
      | err x ↦ pure (some x)
      | ok a ↦ do r ← set_allocation_status_failed api a e; pure (error_of r)
    ]

  -- The sleep after an attempt, if more are left.
  abbrev pub sleep : ℕ → M E (Unit {0})
  sleep zero w = some (tt, w)
  sleep (suc n) w = some (tt, api.others w)

  -- The attempts of `OnErrorForever` with `utils.ErrorBackoff`, every error being retried: so many
  -- at most, up to the first that returns no error; the last error otherwise.
  unfoldable pub error_attempts : ℕ → IpAllocation → Option Err → M E (Option Err)
  unfolding error_attempt
  error_attempts zero ro last = pure last
  error_attempts (suc n) ro last =
      let others = error_attempts n ro in
      do e ← error_attempt ro; elim e [ none ↦ pure none | some x ↦ do sleep n; others (some x) ]

  -- `processAllocationStatusError`, for the number of steps of `ErrorBackoff`.
  unfoldable pub process_allocation_status_error : ℕ → IpAllocation → M E (Option Err)
  unfolding error_attempts give_up
  process_allocation_status_error steps ro w =
      if is_error_allocation_already_processing ro w.processing
      then some (none, w)
      else (let w' = record w {
        processing = add_error_allocation_to_processing_list ro w.processing;
      } in
          (do e ← error_attempts steps ro none; elim e [ none ↦ pure none | some x ↦ give_up ro x ])
            w')
