-- ===== src/Base/Int.antt =====
-- Machine integers of Go: values of type `int` and `int64`, their wrap-around, division, and what
-- `strconv` reads and prints in decimal.
use Prim.Native.Char.{Char, code}
use Prim.Native.Nat.{ℕ, zero, suc, ◌+◌, ◌-◌, ◌*◌, ◌/◌, ◌%◌, ◌<◌}
use Prim.Native.String.{String}
use mathlib.Core.Path.{◌≡◌, refl}
use mathlib.Core.Bool.{Bool, true, false, ◌&&◌}
use mathlib.Core.List.{List, [], ◌∷◌}
use mathlib.Core.Option.{Option, none, some}
use native.Mathlib.Omega.{arith}
use native.Mathlib.Nat.{mul-div_cancel_left}
use plenuslb.Base.Lists.{if◌then◌else◌, leb, ltb, nat_eq, get_elem?}

-- `negsuc n` is -(n + 1).
pub data ℤ : Type 0 where
  pos : ℕ → ℤ
  negsuc : ℕ → ℤ

abbrev pub word : ℕ
word = 0x1_0000_0000_0000_0000

abbrev pub half : ℕ
half = 0x8000_0000_0000_0000

abbrev pub magnitude : ℤ → ℕ
magnitude (pos n) = n
magnitude (negsuc n) = suc n

-- Minus a number.
abbrev pub neg : ℕ → ℤ
neg zero = pos 0
neg (suc n) = negsuc n

-- The value of the 64 bits that hold an integer.
abbrev pub wrap_ℕ : ℕ → ℤ
wrap_ℕ m = if ltb m half then pos m else negsuc (word - 1 - m)

abbrev pub wrap : ℤ → ℤ
wrap (pos n) = wrap_ℕ (n % word)
wrap (negsuc n) = wrap_ℕ (word - 1 - n % word)

-- `x * k`, for a constant that is not negative.
unfoldable pub times : ℤ → ℕ → ℤ
times (pos n) k = wrap (pos (n * k))
times (negsuc n) k = wrap (neg (suc n * k))

-- `x / y`, truncated towards zero; `none` is the panic of a division by zero.
unfoldable pub quotient : ℤ → ℤ → Option ℤ
quotient x (pos zero) = none
quotient (pos a) (pos (suc b)) = some (pos (a / suc b))
quotient (negsuc a) (pos (suc b)) = some (neg (suc a / suc b))
quotient (pos a) (negsuc b) = some (wrap (neg (a / suc b)))
quotient (negsuc a) (negsuc b) = some (wrap (pos (suc a / suc b)))

abbrev pub ltb_ℤ : ℤ → ℕ → Bool
ltb_ℤ (pos n) k = ltb n k
ltb_ℤ (negsuc n) k = true

-- What `ParseUint` makes of digits in base 10.
pub data Parsed : Type 0 where
  parsed : ℕ → Parsed
  syntax_error range_error : Parsed

-- The loop of `ParseUint`, up to the greatest number that it can return.
abbrev pub parse_digits : ℕ → String → ℕ → Parsed
parse_digits greatest String.[] n = parsed n
parse_digits greatest (String.◌∷◌ c s) n =
    let m = n * 10 + (code c - b'0') in
    let rest = parse_digits greatest s m in
    if leb b'0' (code c) && leb (code c) b'9'
    then (if ltb greatest m then range_error else rest)
    else syntax_error

abbrev pub parse_uint : ℕ → String → Parsed
parse_uint greatest String.[] = syntax_error
parse_uint greatest s = parse_digits greatest s 0

-- `ParseInt` after the sign, in base 10: the value, and whether there is an error. `cutoff` is the
-- half of the numbers that the bits hold.
abbrev pub parse_signed : ℕ → Bool → String → ℤ × Bool
parse_signed cutoff minus s = elim (parse_uint (2 * cutoff - 1) s) [
  | syntax_error ↦ (pos 0, true)
  | range_error ↦ (if minus then neg cutoff else pos (cutoff - 1), true)
  | parsed n ↦
      if minus
      then (if ltb cutoff n then (neg cutoff, true) else (neg n, false))
      else (if leb cutoff n then (pos (cutoff - 1), true) else (pos n, false))
]

abbrev pub parse_bits : ℕ → String → ℤ × Bool
parse_bits cutoff String.[] = (pos 0, true)
parse_bits cutoff (String.◌∷◌ c s) =
    if nat_eq (code c) b'-'
    then parse_signed cutoff true s
    else (if nat_eq (code c) b'+'
        then parse_signed cutoff false s
        else parse_signed cutoff false (String.◌∷◌ c s))

-- `ParseInt(s, 10, 64)`, and `Atoi` where `int` has 64 bits.
unfoldable pub parse_int : String → ℤ × Bool
parse_int s = parse_bits half s

-- `ParseInt(s, 10, 32)`
unfoldable pub parse_int32 : String → ℤ × Bool
parse_int32 s = parse_bits 0x8000_0000 s

abbrev ten_digits : List Char
ten_digits = "0" ∷ "1" ∷ "2" ∷ "3" ∷ "4" ∷ "5" ∷ "6" ∷ "7" ∷ "8" ∷ "9" ∷ []

abbrev pub digit : ℕ → Char
digit n = elim (get_elem? ten_digits n) [ none ↦ "0" | some c ↦ c ]

-- The decimal digits of a number, on fuel; a number has no more digits than its successor counts.
abbrev pub decimal_loop : ℕ → ℕ → String → String
decimal_loop zero n acc = acc
decimal_loop (suc fuel) n acc =
    let more = String.◌∷◌ (digit (n % 10)) acc in
    let rest = decimal_loop fuel (n / 10) more in if ltb n 10 then more else rest

-- `%d` of a number. Twenty digits are enough for 64 bits.
unfoldable pub decimal : ℕ → String
decimal n = decimal_loop 20 n ""

-- `%d` of an integer.
unfoldable pub decimal_ℤ : ℤ → String
unfolding decimal
decimal_ℤ (pos n) = decimal n
decimal_ℤ (negsuc n) = String.◌∷◌ "-" (decimal (suc n))

decimal_test : decimal 4905 ≡ "4905"
unfolding decimal
decimal_test = refl

parse_int_test : parse_int "-12" ≡ (negsuc 11, false)
unfolding parse_int
parse_int_test = refl

-- The hundredfold of an integer that has room for it, divided by that integer.
pub quotient-times :
    (z : ℤ) → 0 < magnitude z → magnitude z * 100 < half → quotient (times z 100) z ≡ some (pos 100)
unfolding quotient times
quotient-times (pos zero) h k = absurd (omega arith)
quotient-times (pos (suc n)) h k = ground (arith, mul-div_cancel_left 100 {n = suc n})
quotient-times (negsuc n) h k = ground (arith, mul-div_cancel_left 100 {n = suc n})
