-- ===== src/Backoff.antt =====
-- The retry loop of pkg/controller/utils/utils.go: `ForeverBackoff`, `Step`,
-- `ExponentialBackoffWithForeverCap` and `OnErrorForever`.
--
-- Durations are natural numbers of nanoseconds. The product with the float `Factor` is the function
-- `grow`, and `wait.Jitter`, a random draw of another library, is the function `draw` of the steps
-- left and the duration; `factor_set` and `jitter_set` are the tests on the two floats. A sleep
-- adds to the time slept. The loop runs on fuel, and `none` means that the fuel ran out.
pub mod Total
pub mod Retry
use plenuslb.Base.{Bool, true, false, ◌&&◌, ◌||◌, Option, none, some, ℕ, zero, suc, ◌+◌, ◌-◌, ◌*◌}
use plenuslb.Base.{if◌then◌else◌, ltb, nat_eq}
use plenuslb.Errors.{Err, wait_timeout}

pub record ForeverBackoff : Type 0 where
  pub duration : ℕ
  pub factor_set : Bool
  pub grow : ℕ → ℕ
  pub jitter_set : Bool
  pub draw : ℕ → ℕ → ℕ
  pub steps : ℕ
  pub cap : ℕ

-- `ErrorBackoff`, with the product by the factor 1.2 and the jitter of 0.2.
abbrev pub error_backoff : (ℕ → ℕ) → (ℕ → ℕ → ℕ) → ForeverBackoff
error_backoff grow draw = record {
  duration = 1000000000;
  factor_set = true;
  grow = grow;
  jitter_set = true;
  draw = draw;
  steps = 552;
  cap = 300000000000;
}

-- The duration after a step.
abbrev pub next_duration : ForeverBackoff → ℕ
next_duration b =
    if b.factor_set
    then (if ltb 0 b.cap && ltb b.cap (b.grow b.duration) then b.cap else b.grow b.duration)
    else b.duration

abbrev pub jittered : ForeverBackoff → ℕ
jittered b = if b.jitter_set then b.draw b.steps b.duration else b.duration

-- `Step`: the time to sleep, and the backoff after it.
unfoldable pub step : ForeverBackoff → ℕ × ForeverBackoff
step b =
    if ltb b.steps 1
    then (jittered b, b)
    else (jittered b, record b { steps = b.steps - 1; duration = next_duration b })

-- What a `wait.ConditionFunc` returns.
pub record Verdict : Type 0 where
  pub done : Bool
  pub error : Option Err

-- How a loop ended: its error, the state that the condition left, the calls of the condition and
-- the time slept.
pub record Ended {ℓ} (S : Type ℓ) : Type ℓ where
  pub error : Option Err
  pub final : S
  pub rounds : ℕ
  pub slept : ℕ

abbrev pub is_some {ℓ} : {A : Type ℓ} → Option A → Bool
is_some none = false
is_some (some a) = true

module _ {ℓ} {S : Type ℓ} where
  -- The loop of `ExponentialBackoffWithForeverCap`.
  unfoldable pub backoff_loop :
      (S → Verdict × S) → ℕ → ForeverBackoff → S → ℕ → ℕ → Option (Ended S)
  unfolding step
  backoff_loop condition zero b s rounds slept = none
  backoff_loop condition (suc fuel) b s rounds slept =
      let (verdict, s') = condition s in
      let (time, b') = step b in
      let again = backoff_loop condition fuel b' s' (rounds + 1) (slept + time) in
      if ltb 0 b.steps
      then (if is_some verdict.error || verdict.done
          then some
              (record { error = verdict.error; final = s'; rounds = rounds + 1; slept = slept })
          else (if nat_eq b.steps 1
              then some (record {
                error = some wait_timeout;
                final = s';
                rounds = rounds + 1;
                slept = slept;
              })
              else again))
      else (some (record { error = some wait_timeout; final = s; rounds = rounds; slept = slept }))

  -- `ExponentialBackoffWithForeverCap`
  unfoldable pub exponential_backoff_with_forever_cap :
      ℕ → ForeverBackoff → (S → Verdict × S) → S → Option (Ended S)
  unfolding backoff_loop
  exponential_backoff_with_forever_cap fuel b condition s = backoff_loop condition fuel b s 0 0

  -- The condition that `OnErrorForever` builds; the state carries `lastConflictErr`.
  unfoldable pub retry_condition :
      (Err → Bool) → (S → Option Err × S) → S × Option Err → Verdict × (S × Option Err)
  retry_condition retriable fn (s, last) =
      let (e, s') = fn s in
      elim e [
        | none ↦ (record { done = true; error = none }, (s', last))
        | some x ↦
            if retriable x
            then (record { done = false; error = none }, (s', some x))
            else (record { done = false; error = some x }, (s', last))
      ]

abbrev pub is_wait_timeout : Option Err → Bool
is_wait_timeout (some wait_timeout) = true
is_wait_timeout _ = false

module _ {ℓ} {S : Type ℓ} where
  -- `OnErrorForever`: the error that it returns, and the state.
  unfoldable pub on_error_forever :
      ℕ → ForeverBackoff → (Err → Bool) → (S → Option Err × S) → S → Option (Option Err × S)
  unfolding exponential_backoff_with_forever_cap retry_condition
  on_error_forever fuel b retriable fn s =
      elim (exponential_backoff_with_forever_cap fuel b (retry_condition retriable fn) (s, none)) [
        | none ↦ none
        | some r ↦ some (if is_wait_timeout r.error then r.final.1 else r.error, r.final.0)
      ]
