-- ===== src/Base/Decimal.antt =====
-- What `strconv` prints in decimal it reads again.
use Prim.Native.Char.{Char, code}
use Prim.Native.Nat.{ℕ, zero, suc, ◌+◌, ◌-◌, ◌*◌, ◌/◌, ◌%◌, ◌<◌, ◌≤◌}
use Prim.Native.String.{String}
use mathlib.Core.Path.{◌≡◌, refl, ◌∙◌}
use mathlib.Core.Bool.{Bool, true, false}
use mathlib.Core.Logic.{inl, inr}
use native.Mathlib.Omega.{arith}
use text.Mathlib.Text.{◌==◌}
use plenuslb.Base.Text.{eq-cases}
use plenuslb.Base.Lists.{Bool-cases, if◌then◌else◌, ltb}
use plenuslb.Base.Int.{
  ℤ, pos, negsuc, neg, parsed, parse_digits, parse_uint, parse_signed, parse_bits, parse_int32,
  digit, decimal_loop, decimal, decimal_ℤ,
}

-- The character of a digit.
digit-code : (d : ℕ) → d < 10 → code (digit d) ≡ b'0' + d
digit-code zero small = refl
digit-code (suc zero) small = refl
digit-code (suc (suc zero)) small = refl
digit-code (suc (suc (suc zero))) small = refl
digit-code (suc (suc (suc (suc zero)))) small = refl
digit-code (suc (suc (suc (suc (suc zero))))) small = refl
digit-code (suc (suc (suc (suc (suc (suc zero)))))) small = refl
digit-code (suc (suc (suc (suc (suc (suc (suc zero))))))) small = refl
digit-code (suc (suc (suc (suc (suc (suc (suc (suc zero)))))))) small = refl
digit-code (suc (suc (suc (suc (suc (suc (suc (suc (suc zero))))))))) small = refl
digit-code (suc (suc (suc (suc (suc (suc (suc (suc (suc (suc d)))))))))) small =
    absurd (omega arith)

-- One more digit of a number that is small enough.
parse-cons :
    (g m n : ℕ) (acc : String)
    → m * 10 + n % 10 ≡ n
    → n ≤ g
    → parse_digits g (String.◌∷◌ (digit (n % 10)) acc) m ≡ parse_digits g acc n
parse-cons g m n acc e room = ground (arith, digit-code (n % 10) (omega arith))

-- What `fuel` digits can write is less than this.
abbrev tens : ℕ → ℕ
tens zero = 1
tens (suc fuel) = 10 * tens fuel

parse-decimal_loop :
    (g fuel n : ℕ) (acc : String)
    → n < tens fuel
    → n ≤ g
    → 0 < fuel
    → parse_digits g (decimal_loop fuel n acc) 0 ≡ parse_digits g acc n
parse-decimal_loop g zero n acc bound room some_fuel = absurd (omega arith)
parse-decimal_loop g (suc fuel) n acc bound room some_fuel = elim (Bool-cases (ltb n 10)) [
  | inl small ↦ rw (small) (parse-cons g 0 n acc (ground arith) room)
  | inr big ↦ elim (Bool-cases (ltb 0 fuel)) [
    | inl more ↦ rw (big) (
        ground (
          arith,
          parse-decimal_loop g fuel (n / 10) (String.◌∷◌ (digit (n % 10)) acc),
          parse-cons g (n / 10) n acc,
        ))
    | inr none_left ↦ absurd (ground arith)
  ]
]

-- A text that starts with a digit.
abbrev StartsWithDigit : String → Type 0
StartsWithDigit s = (c : Char) × (rest : String) × (s ≡ String.◌∷◌ c rest) × (b'0' ≤ code c)

digit-StartsWithDigit : (n : ℕ) (acc : String) → StartsWithDigit (String.◌∷◌ (digit (n % 10)) acc)
digit-StartsWithDigit n acc =
    (digit (n % 10), acc, refl, ground (arith, digit-code (n % 10) (omega arith)))

decimal_loop-StartsWithDigit :
    (fuel n : ℕ) (acc : String) → StartsWithDigit acc → StartsWithDigit (decimal_loop fuel n acc)
decimal_loop-StartsWithDigit zero n acc h = h
decimal_loop-StartsWithDigit (suc fuel) n acc h = elim (Bool-cases (ltb n 10)) [
  | inl small ↦ rw (small) (digit-StartsWithDigit n acc)
  | inr big ↦ rw (big) (
      decimal_loop-StartsWithDigit fuel (n / 10) (String.◌∷◌ (digit (n % 10)) acc)
        (digit-StartsWithDigit n acc))
]

digits-StartsWithDigit : (fuel n : ℕ) → StartsWithDigit (decimal_loop (suc fuel) n "")
digits-StartsWithDigit fuel n = elim (Bool-cases (ltb n 10)) [
  | inl small ↦ rw (small) (digit-StartsWithDigit n "")
  | inr big ↦ rw (big) (
      decimal_loop-StartsWithDigit fuel (n / 10) (String.◌∷◌ (digit (n % 10)) "")
        (digit-StartsWithDigit n ""))
]

parse_uint-digits : (g : ℕ) (s : String) → StartsWithDigit s → parse_uint g s ≡ parse_digits g s 0
parse_uint-digits g s (c, rest, e, digit_first) = rw (e) refl

parse_uint-decimal_loop :
    (g fuel n : ℕ)
    → n < tens (suc fuel)
    → n ≤ g
    → parse_uint g (decimal_loop (suc fuel) n "") ≡ parsed n
parse_uint-decimal_loop g fuel n bound room =
    parse_uint-digits g (decimal_loop (suc fuel) n "") (digits-StartsWithDigit fuel n)
    ∙ parse-decimal_loop g (suc fuel) n "" bound room (omega arith)

-- After the sign, what is printed of a number that the bits hold is read as that number.
parse_signed-digits :
    (cutoff n : ℕ) (minus : Bool) (s : String)
    → parse_uint (2 * cutoff - 1) s ≡ parsed n
    → n + (if minus then 0 else 1) ≤ cutoff
    → parse_signed cutoff minus s ≡ (if minus then neg n else pos n, false)
parse_signed-digits cutoff n true s e room = ground arith
parse_signed-digits cutoff n false s e room = ground arith

parse_bits-digits :
    (cutoff : ℕ) (s : String)
    → StartsWithDigit s
    → parse_bits cutoff s ≡ parse_signed cutoff false s
parse_bits-digits cutoff s (c, rest, e, digit_first) = rw (e) (ground arith)

-- The integers that 32 bits hold.
abbrev pub fits_int32 : ℤ → Bool
fits_int32 (pos n) = ltb n 0x8000_0000
fits_int32 (negsuc n) = ltb n 0x8000_0000

-- What is printed of an integer of 32 bits is read as that integer.
pub parse_int32-decimal_ℤ : (z : ℤ) → fits_int32 z ≡ true → parse_int32 (decimal_ℤ z) ≡ (z, false)
unfolding parse_int32 decimal_ℤ decimal
parse_int32-decimal_ℤ (pos n) room =
    parse_bits-digits 0x8000_0000 (decimal_loop 20 n "") (digits-StartsWithDigit 19 n)
    ∙ parse_signed-digits 0x8000_0000 n false (decimal_loop 20 n "")
        (parse_uint-decimal_loop 0xffff_ffff 19 n (ground arith) (ground arith)) (ground arith)
parse_int32-decimal_ℤ (negsuc n) room =
    parse_signed-digits 0x8000_0000 (suc n) true (decimal_loop 20 (suc n) "")
      (parse_uint-decimal_loop 0xffff_ffff 19 (suc n) (ground arith) (ground arith)) (ground arith)

parse_signed-fits_int32 :
    (minus : Bool) (s : String) → fits_int32 (parse_signed 0x8000_0000 minus s).0 ≡ true
parse_signed-fits_int32 minus s = ground arith

-- What is read as an integer of 32 bits is one.
pub parse_int32-fits_int32 : (s : String) → fits_int32 (parse_int32 s).0 ≡ true
unfolding parse_int32
parse_int32-fits_int32 String.[] = ground arith
parse_int32-fits_int32 (String.◌∷◌ c s) = ground arith

cons-nonempty : (c : Char) (rest : String) → (String.◌∷◌ c rest == "") ≡ false
cons-nonempty c rest = elim (eq-cases (String.◌∷◌ c rest) "") [
  | inl (e, same) ↦ absurd (cc)
  | inr (e, differ) ↦ e
]

-- What is printed of an integer is not the empty text.
pub decimal_ℤ-nonempty : (z : ℤ) → (decimal_ℤ z == "") ≡ false
unfolding decimal_ℤ decimal
decimal_ℤ-nonempty (pos n) =
    let (c, rest, e, digit_first) = digits-StartsWithDigit 19 n in rw (e) (cons-nonempty c rest)
decimal_ℤ-nonempty (negsuc n) = cons-nonempty "-" (decimal_loop 20 (suc n) "")
