-- ===== src/Calculator/Human.antt =====
-- What `secondsToHuman` of tools/backoffCalculator.go makes of a number of seconds.
use plenuslb.Base.{ℕ, ◌+◌, ◌*◌, ◌<◌, ◌≡◌, arith}
use plenuslb.Calculator.{split_seconds}

-- The numbers of secondsToHuman add up to the seconds given, where a month is 30 weeks and a year 12
-- such months, and each is below the number of its unit that makes the next.
pub split_seconds-sum :
    (input : ℕ)
    → (input
        ≡ (split_seconds input).years * 217728000
          + (split_seconds input).months * 18144000
          + (split_seconds input).weeks * 604800
          + (split_seconds input).days * 86400
          + (split_seconds input).hours * 3600
          + (split_seconds input).minutes * 60
          + (split_seconds input).seconds)
      × ((split_seconds input).months < 12)
      × ((split_seconds input).weeks < 30)
      × ((split_seconds input).days < 7)
      × ((split_seconds input).hours < 24)
      × ((split_seconds input).minutes < 60)
      × ((split_seconds input).seconds < 60)
unfolding split_seconds
split_seconds-sum input = omega arith
