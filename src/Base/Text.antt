-- ===== src/Base/Text.antt =====
-- Facts on the Boolean test of texts.
use Prim.Native.Char.{Char, code}
use Prim.Native.String
use Prim.Native.String.{String}
use mathlib.Core.Path.{◌≡◌, refl, sym, ap, ap₂, ◌∙◌}
use mathlib.Core.Logic.{◌≢◌, ◌⊎◌, inl, inr}
use mathlib.Core.Bool.{Bool, true, false}
use mathlib.Core.List.{List, [], ◌∷◌}
use native.Mathlib.Omega.{arith}
use text.Mathlib.Text.{◌==◌}
use text.Mathlib.TextEquality.{eq_iff}
use text.Mathlib.TextLemmas.{
  head-eq_of_cons-eq, tail-eq_of_cons-eq, append-nil, nil-append, cons-append,
}
use plenuslb.Base.Lists.{Bool-cases, if◌then◌else◌, nat_eq}

-- Two texts are equal, or their test fails.
pub eq-cases : (s t : String) → (((s == t) ≡ true) × (s ≡ t)) ⊎ (((s == t) ≡ false) × (s ≢ t))
eq-cases s t = elim (Bool-cases (s == t)) [
  | inl e ↦ inl (e, (eq_iff s t).0 e)
  | inr e ↦ inr (e, λ p. ground (arith, eq_iff s t))
]

pub eq_refl : (s : String) → (s == s) ≡ true
eq_refl s = (eq_iff s s).1 refl

pub eq_comm : (s t : String) → (s == t) ≡ (t == s)
eq_comm s t = ground (arith, eq_iff s t, eq_iff t s)

-- The texts one after another, as `fmt.Sprintf` prints its arguments and what stands between them.
abbrev pub sprint : List String → String
sprint [] = ""
sprint (s ∷ l) = String.◌++◌ s (sprint l)

-- No `/` in the text.
abbrev pub no_slash : String → Bool
no_slash String.[] = true
no_slash (String.◌∷◌ c s) = if nat_eq (code c) b'/' then false else no_slash s

abbrev slash : Char
slash = "/"

slash-append : (y : String) → String.◌++◌ "/" y ≡ String.◌∷◌ slash y
slash-append y = cons-append slash String.[] y ∙ ap (String.◌∷◌ slash) (nil-append y)

code_of_slash : (c : Char) (x y : String) → String.◌∷◌ c x ≡ String.◌∷◌ slash y → code c ≡ b'/'
code_of_slash c x y e = ap code (head-eq_of_cons-eq e)

-- A `/` ends the part before it, where that part has none.
split_append :
    (s t u v : String)
    → no_slash s ≡ true
    → no_slash u ≡ true
    → String.◌++◌ s (String.◌∷◌ slash t) ≡ String.◌++◌ u (String.◌∷◌ slash v)
    → (s ≡ u) × (t ≡ v)
split_append String.[] t String.[] v hs hu e =
    (refl, tail-eq_of_cons-eq (rw (nil-append, nil-append) at e))
split_append String.[] t (String.◌∷◌ d u) v hs hu e = absurd (
    ground (
      arith,
      code_of_slash d (String.◌++◌ u (String.◌∷◌ slash v)) t
          (sym (rw (nil-append, cons-append) at e)),
    ))
split_append (String.◌∷◌ c s) t String.[] v hs hu e = absurd (
    ground (
      arith,
      code_of_slash c (String.◌++◌ s (String.◌∷◌ slash t)) v (rw (nil-append, cons-append) at e),
    ))
split_append (String.◌∷◌ c s) t (String.◌∷◌ d u) v hs hu e =
    let e' : String.◌∷◌ c (String.◌++◌ s (String.◌∷◌ slash t))
        ≡ String.◌∷◌ d (String.◌++◌ u (String.◌∷◌ slash v)) =
      sym (cons-append c s (String.◌∷◌ slash t)) ∙ e ∙ cons-append d u (String.◌∷◌ slash v) in
    let (same, rest) = split_append s t u v (ground arith) (ground arith) (tail-eq_of_cons-eq e') in
    (ap₂ String.◌∷◌ (head-eq_of_cons-eq e') same, rest)

pub split_slash :
    (s t u v : String)
    → no_slash s ≡ true
    → no_slash u ≡ true
    → sprint (s ∷ "/" ∷ t ∷ []) ≡ sprint (u ∷ "/" ∷ v ∷ [])
    → (s ≡ u) × (t ≡ v)
split_slash s t u v hs hu e =
    split_append s t u v hs hu
      (rw (append-nil t, append-nil v, slash-append t, slash-append v) at e)
