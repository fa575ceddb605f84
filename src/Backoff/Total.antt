-- ===== src/Backoff/Total.antt =====
-- The loop ends, calls the condition no more often than there are steps, and sleeps no longer than
-- the cap allows.
use plenuslb.Base.{some, ℕ, zero, suc, ◌+◌, ◌-◌, ◌*◌, ◌/◌, ◌≤◌, ◌<◌, ◌≡◌, ap, ◌||◌, inl, inr, arith}
use plenuslb.Base.{ltb, nat_eq, Bool-cases}
use plenuslb.Errors.{wait_timeout}
use plenuslb.Backoff.{
  Verdict, ForeverBackoff, error_backoff, step, Ended, is_some, backoff_loop,
  exponential_backoff_with_forever_cap,
}

-- No sleep of a backoff with at most this duration takes longer than the bound.
pub record IsBounded (bound : ℕ) (b : ForeverBackoff) : Type 0 where
  pub capped : 0 < b.cap
  pub within : b.duration ≤ b.cap
  pub short : (r d : ℕ) → d ≤ b.cap → b.draw r d ≤ bound
  pub plain : b.cap ≤ bound

step-IsBounded : (bound : ℕ) (b : ForeverBackoff) → IsBounded bound b → IsBounded bound (step b).1
unfolding step
step-IsBounded bound b h = elim (Bool-cases (ltb b.steps 1)) [
  | inl e ↦ rw e h
  | inr e ↦
      rw e (record { capped = h.capped; within = ground arith; short = h.short; plain = h.plain })
]

step-slept : (bound : ℕ) (b : ForeverBackoff) → IsBounded bound b → (step b).0 ≤ bound
unfolding step
step-slept bound b h = ground (arith, h.short b.steps b.duration)

step-steps : (b : ForeverBackoff) → 0 < b.steps → (step b).1.steps + 1 ≡ b.steps
unfolding step
step-steps b h = ground arith

-- What holds of the end of a loop that began at `b` after some rounds and some time asleep.
pub record EndsWithin {ℓ} {S : Type ℓ} (bound : ℕ) (b : ForeverBackoff) (rounds slept : ℕ)
    (r : Ended S) : Type 0 where
  pub rounds_bound : r.rounds ≤ rounds + b.steps
  pub slept_bound : r.slept ≤ slept + bound * (b.steps - 1)

-- The bound carries over from the rest of the loop to the loop.
EndsWithin-step {ℓ} :
    {S : Type ℓ} (bound : ℕ) (b : ForeverBackoff) (rounds slept : ℕ) (r : Ended S)
    → IsBounded bound b
    → 1 < b.steps
    → EndsWithin bound (step b).1 (rounds + 1) (slept + (step b).0) r
    → EndsWithin bound b rounds slept r
EndsWithin-step bound b rounds slept r i more e =
    let fewer = step-steps b (omega arith) in
    let shift : (step b).1.steps - 1 + 1 ≡ b.steps - 1 = omega (arith, fewer) in
    record {
      rounds_bound = omega (arith, e.rounds_bound, fewer);
      slept_bound =
          omega (arith, e.slept_bound, step-slept bound b i, ap (λ (n : ℕ). bound * n) shift);
    }

module _ {ℓ} {S : Type ℓ} (condition : S → Verdict × S) (bound : ℕ) where
  loop-EndsWithin :
      (fuel : ℕ) (b : ForeverBackoff) (s : S) (rounds slept : ℕ)
      → b.steps < fuel
      → IsBounded bound b
      → (r : Ended S) × (backoff_loop condition fuel b s rounds slept ≡ some r)
        × EndsWithin bound b rounds slept r
  unfolding backoff_loop
  loop-EndsWithin zero b s rounds slept h i = absurd (omega arith)
  loop-EndsWithin (suc fuel) b s rounds slept h i = elim (Bool-cases (ltb 0 b.steps)) [
    | inl e ↦ elim (Bool-cases (is_some (condition s).0.error || (condition s).0.done)) [
      | inl d ↦ (
        record {
          error = (condition s).0.error;
          final = (condition s).1;
          rounds = rounds + 1;
          slept = slept;
        },
        ground arith,
        record { rounds_bound = ground arith; slept_bound = omega arith },
      )
      | inr d ↦ elim (Bool-cases (nat_eq b.steps 1)) [
        | inl one ↦ (
          record {
            error = some wait_timeout;
            final = (condition s).1;
            rounds = rounds + 1;
            slept = slept;
          },
          ground arith,
          record { rounds_bound = ground arith; slept_bound = omega arith },
        )
        | inr more ↦
            let (r, ends, within) =
              loop-EndsWithin fuel (step b).1 (condition s).1 (rounds + 1) (slept + (step b).0)
                (ground (arith, step-steps b)) (step-IsBounded bound b i) in
            (r, ground arith, EndsWithin-step bound b rounds slept r i (ground arith) within)
      ]
    ]
    | inr e ↦ (
      record { error = some wait_timeout; final = s; rounds = rounds; slept = slept },
      ground arith,
      record { rounds_bound = omega arith; slept_bound = omega arith },
    )
  ]

  -- With more fuel than steps the loop ends. It calls the condition at most `steps` times, and it
  -- sleeps at most `steps - 1` times the bound on a single sleep: that is, if the first duration
  -- is at most the cap, and neither the cap nor a jittered duration up to it exceeds the bound.
  pub exponential_backoff_ends :
      (fuel : ℕ) (b : ForeverBackoff) (s : S)
      → b.steps < fuel
      → IsBounded bound b
      → (r : Ended S) × (exponential_backoff_with_forever_cap fuel b condition s ≡ some r)
        × (r.rounds ≤ b.steps)
        × (r.slept ≤ bound * (b.steps - 1))
  unfolding exponential_backoff_with_forever_cap
  exponential_backoff_ends fuel b s h i =
      let (r, ends, within) = loop-EndsWithin fuel b s 0 0 h i in
      (r, ends, omega (arith, within.rounds_bound), omega (arith, within.slept_bound))

-- On more fuel than 552, the retries of an allocation in error end: after at most 552 attempts and at
-- most 551 sleeps of 6 minutes, that is 198360 seconds in all, if a jittered duration is at most the
-- duration and a fifth of it.
pub error_backoff_bounds {ℓ} :
    {S : Type ℓ} (condition : S → Verdict × S) (fuel : ℕ) (grow : ℕ → ℕ) (draw : ℕ → ℕ → ℕ) (s : S)
    → 552 < fuel
    → ((r d : ℕ) → draw r d ≤ d + d / 5)
    → (r : Ended S) × (exponential_backoff_with_forever_cap fuel
          (error_backoff grow draw)
          condition
          s
        ≡ some r)
      × (r.rounds ≤ 552)
      × (r.slept ≤ 198360 * 1000000000)
error_backoff_bounds condition fuel grow draw s h jitter =
    exponential_backoff_ends condition 360000000000 fuel (error_backoff grow draw) s h (record {
      capped = omega arith;
      within = omega arith;
      short = λ r d below. omega (arith, jitter r d);
      plain = omega arith;
    })
