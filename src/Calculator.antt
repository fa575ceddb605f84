-- ===== src/Calculator.antt =====
-- The tool of tools/backoffCalculator.go, which adds up what the retry loop would sleep.
--
-- It has its own copy of the backoff, whose record is that of Backoff. Durations are natural numbers of
-- nanoseconds. The total `maxRetrytime` is a float: the type of floats and what the tool does with them is
-- the interface `Floats`, of which nothing is assumed. The quotients of floats that
-- `secondsToHuman` rounds down are whole quotients, as its input is an integer. Printing a step is
-- left out. The loop runs on fuel, and `none` means that the fuel ran out.
pub mod Human
pub mod Same
use plenuslb.Base.{
  Bool, true, false, ◌&&◌, ◌||◌, Option, none, some, List, ◌∷◌, [], ℕ, zero, suc, ◌+◌, ◌-◌, ◌*◌,
  ◌/◌, ◌%◌, String, if◌then◌else◌, ltb, nat_eq,
}
use plenuslb.Base.Int.{ℤ, pos, negsuc, parse_int, decimal}
use plenuslb.Base.Text.{sprint}
use plenuslb.Errors.{Err, errorf, wait_timeout}
use plenuslb.Backoff.{Verdict, ForeverBackoff, retry_condition, is_wait_timeout, is_some}

-- `Step`
unfoldable pub step : ForeverBackoff → ℕ × ForeverBackoff
step b =
    let drawn = b.draw b.steps b.duration in
    let grown = b.grow b.duration in
    let capped = if ltb 0 b.cap && ltb b.cap grown then b.cap else grown in
    let duration = if b.jitter_set then drawn else b.duration in
    if ltb b.steps 1 then (duration, b) else (
      duration,
      record b { steps = b.steps - 1; duration = if b.factor_set then capped else b.duration },
    )

-- The floats: the initial value, `+`, `Duration.Seconds` of nanoseconds, and `%.0f`.
pub record Floats (F : Type 0) : Type 0 where
  pub initial : F
  pub add : F → F → F
  pub seconds : ℕ → F
  pub print_whole : F → String

-- How the loop ended: its error, the state that the condition left, and the time added up.
pub record Calculated {ℓ} (F : Type 0) (S : Type ℓ) : Type ℓ where
  pub error : Option Err
  pub final : S
  pub max_retry_time : F

module _ {F : Type 0} (floats : Floats F) where
  -- `ExponentialBackoffWithForeverCap`
  unfoldable pub calculate {ℓ} :
      {S : Type ℓ} → (S → Verdict × S) → ℕ → ForeverBackoff → S → F → Option (Calculated F S)
  unfolding step
  calculate condition zero b s total = none
  calculate condition (suc fuel) b s total =
      let (verdict, s') = condition s in
      let (time, b') = step b in
      let again = calculate condition fuel b' s' (floats.add total (floats.seconds time)) in
      if ltb 0 b.steps
      then (if is_some verdict.error || verdict.done
          then some (record { error = verdict.error; final = s'; max_retry_time = total })
          else (if nat_eq b.steps 1
              then some (record { error = some wait_timeout; final = s'; max_retry_time = total })
              else again))
      else some (record { error = some wait_timeout; final = s; max_retry_time = total })

  -- `OnErrorForever`: the error that it returns, and the time added up.
  unfoldable pub calculate_on_error {ℓ} :
      {S : Type ℓ}
      → ℕ
      → ForeverBackoff
      → (Err → Bool)
      → (S → Option Err × S)
      → S
      → F
      → Option (Option Err × F)
  unfolding calculate retry_condition
  calculate_on_error fuel b retriable fn s total =
      elim (calculate (retry_condition retriable fn) fuel b (s, none) total) [
        | none ↦ none
        | some r ↦ some (if is_wait_timeout r.error then r.final.1 else r.error, r.max_retry_time)
      ]

-- `plural`
unfoldable pub plural : ℕ → String → String
unfolding decimal
plural count singular =
    if nat_eq count 1 || nat_eq count 0
    then sprint (decimal count ∷ " " ∷ singular ∷ " " ∷ [])
    else sprint (decimal count ∷ " " ∷ singular ∷ "s " ∷ [])

-- The numbers that `secondsToHuman` computes.
pub record HumanTime : Type 0 where
  pub years : ℕ
  pub months : ℕ
  pub weeks : ℕ
  pub days : ℕ
  pub hours : ℕ
  pub minutes : ℕ
  pub seconds : ℕ

unfoldable pub split_seconds : ℕ → HumanTime
split_seconds input = record {
  years = input / 60 / 60 / 24 / 7 / 30 / 12;
  months = input % 217728000 / 60 / 60 / 24 / 7 / 30;
  weeks = input % 18144000 / 60 / 60 / 24 / 7;
  days = input % 604800 / 60 / 60 / 24;
  hours = input % 86400 / 60 / 60;
  minutes = input % 3600 / 60;
  seconds = input % 60;
}

-- `secondsToHuman`
unfoldable pub seconds_to_human : ℕ → String
unfolding split_seconds plural
seconds_to_human input =
    let h = split_seconds input in
    let second = plural h.seconds "second" in
    let minute = sprint (plural h.minutes "minute" ∷ second ∷ []) in
    let hour = sprint (plural h.hours "hour" ∷ minute ∷ []) in
    let day = sprint (plural h.days "day" ∷ hour ∷ []) in
    let week = sprint (plural h.weeks "week" ∷ day ∷ []) in
    let month = sprint (plural h.months "month" ∷ week ∷ []) in
    let year = sprint (plural h.years "year" ∷ month ∷ []) in
    if ltb 0 h.years
    then year
    else (if ltb 0 h.months
        then month
        else (if ltb 0 h.weeks
            then week
            else (if ltb 0 h.days
                then day
                else (if ltb 0 h.hours
                    then hour
                    else (if ltb 0 h.minutes then minute else second)))))

-- `floatToInt`. A text of a negative number, which no sum of durations has, counts as 0 here.
unfoldable pub float_to_int : {F : Type 0} → Floats F → F → ℕ
float_to_int floats f =
    let (i, failed) = parse_int (floats.print_whole f) in
    if failed then 0 else (elim i [ pos n ↦ n | negsuc n ↦ 0 ])

-- The backoff of `main`, with the product by the factor and the jitter.
abbrev pub calculator_backoff : (ℕ → ℕ) → (ℕ → ℕ → ℕ) → ForeverBackoff
calculator_backoff grow draw = record {
  duration = 1000000000;
  factor_set = true;
  grow = grow;
  jitter_set = true;
  draw = draw;
  steps = 20;
  cap = 300000000000;
}

-- `main`: the text that it prints last.
unfoldable pub main : {F : Type 0} → Floats F → (ℕ → ℕ) → (ℕ → ℕ → ℕ) → Option String
unfolding calculate_on_error seconds_to_human float_to_int
main floats grow draw =
    let always : Unit {0} → Option Err × Unit {0} = λ u. (some (errorf "err"), u) in
    let b = calculator_backoff grow draw in
    elim (calculate_on_error floats 21 b (λ e. true) always tt floats.initial) [
      | none ↦ none
      | some r ↦
          let seconds = seconds_to_human (float_to_int floats r.1) in
          some (sprint ("Total max retry time is " ∷ seconds ∷ "\n" ∷ []))
    ]
