-- ===== src/Tests/Locks.antt =====
-- The theorems on the lock, the list of allocations in error, and the backoff.
use plenuslb.Base.{
  true, false, Option, none, some, [], String, ◌≡◌, ◌≢◌, ◌≤◌, ◌*◌, ◌-◌, ◌+◌, ℕ, zero, suc, refl,
  arith,
}
use plenuslb.Base.{nat_eq}
use plenuslb.Api.{IpAllocation, persistent_ip, success}
use plenuslb.Backoff.{
  ForeverBackoff, Verdict, Ended, exponential_backoff_with_forever_cap, on_error_forever,
}
use plenuslb.Backoff.Retry.{attempts, on_error_forever-attempts}
use plenuslb.Backoff.Total.{IsBounded, exponential_backoff_ends}
use plenuslb.Errors.{Err, foreign}
use plenuslb.Lock.{is_locked, try_lock, RetryOnError}
use plenuslb.Lock.Race.{
  waiting, holding, Goroutines, Reach, AtomicReach, start, then_step, grab, move, both_may_hold,
}
use plenuslb.Tests.Fixtures.{allocation}

abbrev shop : IpAllocation
shop = allocation persistent_ip success []

abbrev blog : IpAllocation
blog = record shop { name = "blog" }

-- A retry that calls the function once.
abbrev once : RetryOnError
once = record {
  on_error = λ retriable fn table. fn table;
  some_call = λ retriable fn table. (table, refl);
  first_call = λ retriable fn table h. refl;
}

abbrev caller : ℕ → String
caller i = "worker"

abbrev idle : Goroutines
idle = record { table = []; phase = λ i. waiting }

abbrev one_holds : Goroutines
one_holds = record { table = (try_lock shop "worker" []).1; phase = move (λ i. waiting) 0 holding }

grabbed : AtomicReach shop caller idle one_holds
unfolding try_lock is_locked
grabbed = then_step start (grab 0 refl refl)

waiting_holds : (k : ℕ) → idle.phase k ≢ holding
waiting_holds k h = ground arith

abbrev worker : ℕ
worker = 0

both_may_hold_example :
    (t : Goroutines) × Reach shop caller idle t × (t.phase 0 ≡ holding) × (t.phase 1 ≡ holding)
unfolding is_locked
both_may_hold_example = both_may_hold shop caller idle 0 1 (λ h. ground arith) refl refl refl

-- A backoff of three steps that doubles its sleep, up to a cap.
abbrev doubling : ForeverBackoff
doubling = record {
  duration = 10;
  factor_set = true;
  grow = λ d. d * 2;
  jitter_set = false;
  draw = λ r d. d;
  steps = 3;
  cap = 40;
}

doubling-IsBounded : IsBounded 40 doubling
doubling-IsBounded = record {
  capped = ground arith;
  within = ground arith;
  short = λ r d h. h;
  plain = ground arith;
}

-- Done at the third call.
abbrev third : ℕ → Verdict × ℕ
third n = (record { done = nat_eq n 2; error = none }, n + 1)

exponential_backoff_ends_example :
    (r : Ended ℕ) × (exponential_backoff_with_forever_cap 4 doubling third 0 ≡ some r)
    × (r.rounds ≤ 3)
    × (r.slept ≤ 40 * (3 - 1))
exponential_backoff_ends_example =
    exponential_backoff_ends third 40 4 doubling 0 (ground arith) doubling-IsBounded

-- Fails twice, then succeeds.
abbrev flaky : ℕ → Option Err × ℕ
flaky zero = (none, 0)
flaky (suc n) = (some (foreign "busy"), n)

on_error_forever-attempts_example :
    on_error_forever 4 doubling (λ e. true) flaky 2 ≡ some (attempts (λ e. true) flaky 3 2 none)
on_error_forever-attempts_example =
    on_error_forever-attempts (λ e. true) flaky 4 doubling 2 (ground arith)
