-- ===== src/Backoff/Retry.antt =====
-- `OnErrorForever` against a plain loop that has no durations and no timeout error.
use plenuslb.Base.{Bool, Option, none, some, ℕ, zero, suc, ◌+◌, ◌<◌, ◌≡◌, refl, ap, inl, inr, arith}
use plenuslb.Base.{if◌then◌else◌, nat_eq, Bool-cases, Option-cases}
use plenuslb.Errors.{Err, wait_timeout}
use plenuslb.Backoff.{
  ForeverBackoff, step, Ended, backoff_loop, retry_condition, is_wait_timeout, on_error_forever,
}

module _ {ℓ} {S : Type ℓ} (retriable : Err → Bool) (fn : S → Option Err × S) where
  -- At most so many attempts: up to the first that succeeds or fails for good. When they are used
  -- up, the error is the last one that was retried.
  abbrev pub attempts : ℕ → S → Option Err → Option Err × S
  attempts zero s last = (last, s)
  attempts (suc n) s last = elim (fn s).0 [
    | none ↦ (none, (fn s).1)
    | some x ↦
        if retriable x
        then attempts n (fn s).1 (some x)
        else (if is_wait_timeout (some x) then last else some x, (fn s).1)
  ]

  abbrev outcome : Ended (S × Option Err) → Option Err × S
  outcome r = (if is_wait_timeout r.error then r.final.1 else r.error, r.final.0)

  step-steps : (b : ForeverBackoff) (n : ℕ) → b.steps ≡ suc n → (step b).1.steps ≡ n
  unfolding step
  step-steps b n h = ground arith

  loop-attempts :
      (n fuel : ℕ) (b : ForeverBackoff) (s : S) (last : Option Err) (rounds slept : ℕ)
      → b.steps ≡ n
      → n < fuel
      → (r : Ended (S × Option Err)) × (backoff_loop
            (retry_condition retriable fn)
            fuel
            b
            (s, last)
            rounds
            slept
          ≡ some r)
        × (outcome r ≡ attempts n s last)
  unfolding backoff_loop retry_condition
  loop-attempts n zero b s last rounds slept e h = absurd (omega arith)
  loop-attempts zero (suc fuel) b s last rounds slept e h = (
    record { error = some wait_timeout; final = (s, last); rounds = rounds; slept = slept },
    ground arith,
    refl,
  )
  loop-attempts (suc n) (suc fuel) b s last rounds slept e h = elim (Option-cases (fn s).0) [
    | inl won ↦ (
      record { error = none; final = ((fn s).1, last); rounds = rounds + 1; slept = slept },
      ground arith,
      ground arith,
    )
    | inr (x, failed) ↦ elim (Bool-cases (retriable x)) [
      | inl again ↦ elim (Bool-cases (nat_eq b.steps 1)) [
        | inl one ↦ (
          record {
            error = some wait_timeout;
            final = ((fn s).1, some x);
            rounds = rounds + 1;
            slept = slept;
          },
          ground arith,
          rw (failed, attempts) (rw again (last_attempt n x (ground arith))),
        )
        | inr more ↦
            let (r, ends, same) =
              loop-attempts n fuel (step b).1 (fn s).1 (some x) (rounds + 1) (slept + (step b).0)
                (step-steps b n e) (omega arith) in
            (r, ground arith, ground arith)
      ]
      | inr final ↦ (
        record { error = some x; final = ((fn s).1, last); rounds = rounds + 1; slept = slept },
        ground arith,
        ground arith,
      )
    ]
  ]
    where
      last_attempt : (n : ℕ) (x : Err) → n ≡ 0 → (some x, (fn s).1) ≡ attempts n (fn s).1 (some x)
      last_attempt n x z = rw z

  -- With more fuel than steps, `OnErrorForever` makes attempts up to the first that succeeds or
  -- fails with an error that is not retried, and at most `steps` of them; after the last it
  -- returns the last retried error, and no error if there was no step at all. Neither the
  -- durations nor the cap change the result.
  pub on_error_forever-attempts :
      (fuel : ℕ) (b : ForeverBackoff) (s : S)
      → b.steps < fuel
      → on_error_forever fuel b retriable fn s ≡ some (attempts b.steps s none)
  unfolding on_error_forever
  on_error_forever-attempts fuel b s h =
      let (r, ends, same) = loop-attempts b.steps fuel b s none 0 0 refl h in
      rw (ends, on_error_forever) (ap some same)
