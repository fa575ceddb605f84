-- ===== src/Hetzner/Rate.antt =====
-- `printRateLimit` of pkg/clouds/hetzner/hetzner.go: the level of its message, and its panic.
use plenuslb.Base.{false, Option, none, some, ◌≡◌, refl, zero, suc, ◌<◌, ◌*◌, inl, inr, arith}
use plenuslb.Base.{Bool-cases}
use plenuslb.Base.Int.{ℤ, pos, negsuc, magnitude, half, times, quotient, quotient-times, parse_int}
use plenuslb.Hetzner.{Response, Level, info_level, level, print_rate_limit}

-- If the reset is a number and the limit a number other than zero whose hundredfold fits in an int64,
-- the message is logged at the level of information, however few calls remain.
pub print_rate_limit-level :
    (res : Response)
    → (parse_int res.reset).1 ≡ false
    → 0 < magnitude (parse_int res.limit).0
    → magnitude (parse_int res.limit).0 * 100 < half
    → print_rate_limit res ≡ some (some info_level)
unfolding print_rate_limit
print_rate_limit-level res r some_limit small =
    rw (r, quotient-times (parse_int res.limit).0 some_limit small) refl

quotient_nonzero : (x y : ℤ) → 0 < magnitude y → (z : ℤ) × (quotient x y ≡ some z)
unfolding quotient
quotient_nonzero x (pos zero) h = absurd (omega arith)
quotient_nonzero (pos a) (pos (suc b)) h = (_, refl)
quotient_nonzero (negsuc a) (pos (suc b)) h = (_, refl)
quotient_nonzero (pos a) (negsuc b) h = (_, refl)
quotient_nonzero (negsuc a) (negsuc b) h = (_, refl)

quotient_zero : (x y : ℤ) → magnitude y ≡ 0 → quotient x y ≡ none
unfolding quotient
quotient_zero x (pos zero) h = refl
quotient_zero x (pos (suc b)) h = absurd (omega arith)
quotient_zero x (negsuc b) h = absurd (omega arith)

pub print_rate_limit_total :
    (res : Response)
    → 0 < magnitude (parse_int res.limit).0
    → (l : Option Level) × (print_rate_limit res ≡ some l)
unfolding print_rate_limit
print_rate_limit_total res h =
    let (z, e) = quotient_nonzero (times (parse_int res.limit).0 100) (parse_int res.limit).0 h in
    elim (Bool-cases (parse_int res.reset).1) [
      | inl r ↦ (none, ground arith)
      | inr r ↦ (some (level z), ground arith)
    ]

pub print_rate_limit_panics :
    (res : Response)
    → (parse_int res.reset).1 ≡ false
    → magnitude (parse_int res.limit).0 ≡ 0
    → print_rate_limit res ≡ none
unfolding print_rate_limit
print_rate_limit_panics res r h =
    ground (arith, quotient_zero (times (parse_int res.limit).0 100) (parse_int res.limit).0)
