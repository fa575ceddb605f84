-- ===== src/Calculator/Same.antt =====
-- The loop of tools/backoffCalculator.go against that of pkg/controller/utils/utils.go.
use plenuslb.Base.{
  inl, inr, Bool-cases, nat_eq, not, ◌&&◌, ◌||◌, List, [], ◌∷◌, if◌then◌else◌, ltb, some, ℕ, zero,
  suc, ◌+◌, ◌≡◌, arith,
}
use plenuslb.Backoff.{Verdict, ForeverBackoff, Ended, is_some, backoff_loop}
use plenuslb.Backoff
use plenuslb.Calculator
use plenuslb.Calculator.{Floats, calculate}

-- The two copies of Step are one function.
step_same : (b : ForeverBackoff) → Calculator.step b ≡ Backoff.step b
unfolding Calculator.step Backoff.step
step_same b = ground arith

-- The durations that the loop sleeps, one after the other.
abbrev pub sleeps {ℓ} : {S : Type ℓ} → (S → Verdict × S) → ℕ → ForeverBackoff → S → List ℕ
sleeps condition zero b s = []
sleeps condition (suc fuel) b s =
    let (verdict, s') = condition s in
    let (time, b') = Backoff.step b in
    let later = sleeps condition fuel b' s' in
    if ltb 1 b.steps && not (is_some verdict.error || verdict.done) then time ∷ later else []

abbrev pub sum : List ℕ → ℕ
sum [] = 0
sum (x ∷ l) = x + sum l

module _ {F : Type 0} (floats : Floats F) where
  -- The seconds of the durations, added up from the first on.
  abbrev pub add_all : F → List ℕ → F
  add_all total [] = total
  add_all total (time ∷ l) = add_all (floats.add total (floats.seconds time)) l

  -- Where the retry loop ends, it has slept the durations of `sleeps`, and on the same fuel the loop of the
  -- tool ends with the same error and the same state, and with the seconds of those durations added
  -- up as floats, in their order.
  pub calculate-backoff_loop :
      {S : Type 0} (condition : S → Verdict × S) (fuel : ℕ) (b : ForeverBackoff) (s : S)
      (rounds slept : ℕ) (total : F) (r : Ended S)
      → backoff_loop condition fuel b s rounds slept ≡ some r
      → (r.slept ≡ slept + sum (sleeps condition fuel b s))
        × (calculate floats condition fuel b s total
            ≡ some (record {
              error = r.error;
              final = r.final;
              max_retry_time = add_all total (sleeps condition fuel b s);
            }))
  unfolding calculate backoff_loop
  calculate-backoff_loop condition zero b s rounds slept total r h = absurd (ground arith)
  calculate-backoff_loop condition (suc fuel) b s rounds slept total r h =
      let (verdict, s') = condition s in
      let time = (Backoff.step b).0 in
      elim (Bool-cases (ltb 0 b.steps)) [
        | inl some_left ↦ elim (Bool-cases (is_some verdict.error || verdict.done)) [
          | inl stop ↦ (ground arith, ground arith)
          | inr go ↦ elim (Bool-cases (nat_eq b.steps 1)) [
            | inl last ↦ (ground arith, ground arith)
            | inr more ↦
                let (slept_later, added) =
                  calculate-backoff_loop condition fuel (Backoff.step b).1 s' (rounds + 1)
                    (slept + time) (floats.add total (floats.seconds time)) r (ground arith) in
                (ground arith, ground (arith, step_same b))
          ]
        ]
        | inr none_left ↦ (ground arith, ground arith)
      ]
