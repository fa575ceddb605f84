-- ===== src/Base/Count.antt =====
-- How many elements of a list pass a Boolean test, and what the list operations of the program do
-- to that number: a write at the first match, and a removal by moving the last element.
use Prim.Native.Nat.{ℕ, zero, suc, ◌+◌, ◌≤◌}
use mathlib.Core.Path.{◌≡◌, refl}
use mathlib.Core.Logic.{inl, inr}
use mathlib.Core.Bool.{Bool, true, false}
use mathlib.Core.List.{List, [], ◌∷◌, ◌++◌}
use mathlib.Core.Option.{Option, none, some}
use native.Mathlib.Omega.{arith}
use plenuslb.Base.Lists.{
  if◌then◌else◌, Bool-cases, get_elem?, set, find, find_index, keep, any, ltb,
}

abbrev pub bit : Bool → ℕ
bit true = 1
bit false = 0

module _ {ℓ} {A : Type ℓ} where
  abbrev pub count : (A → Bool) → List A → ℕ
  count p [] = 0
  count p (x ∷ xs) = bit (p x) + count p xs

  -- A write through the pointer to the first element that passes a test.
  abbrev pub update_first : (A → Bool) → A → List A → List A
  update_first p v [] = []
  update_first p v (x ∷ xs) = if p x then v ∷ xs else x ∷ update_first p v xs

  -- `s[:len(s)-1]`
  abbrev pub drop_last : List A → List A
  drop_last [] = []
  drop_last (x ∷ []) = []
  drop_last (x ∷ y ∷ xs) = x ∷ drop_last (y ∷ xs)

  abbrev pub last? : List A → Option A
  last? [] = none
  last? (x ∷ []) = some x
  last? (x ∷ y ∷ xs) = last? (y ∷ xs)

  -- `s[i] = s[len(s)-1]; s = s[:len(s)-1]`
  abbrev pub swap_remove : ℕ → List A → List A
  swap_remove i xs = elim (last? xs) [ none ↦ xs | some l ↦ drop_last (set xs i l) ]

module _ {ℓ} {A : Type ℓ} where
  pub count-append : (p : A → Bool) (xs ys : List A) → count p (xs ++ ys) ≡ count p xs + count p ys
  count-append p [] ys = omega arith
  count-append p (x ∷ xs) ys = omega (arith, count-append p xs ys)

  pub count-keep : (p q : A → Bool) (xs : List A) → count q (keep p xs) ≤ count q xs
  count-keep p q [] = omega arith
  count-keep p q (x ∷ xs) = ground (arith, count-keep p q xs)

  pub count-of_no_find :
      (p q : A → Bool) (xs : List A)
      → find p xs ≡ none
      → ((x : A) → q x ≡ true → p x ≡ true)
      → count q xs ≡ 0
  count-of_no_find p q [] h sub = refl
  count-of_no_find p q (x ∷ xs) h sub = ground (arith, sub x, count-of_no_find p q xs)

  pub find_pass : (p : A → Bool) (xs : List A) (y : A) → find p xs ≡ some y → p y ≡ true
  find_pass p [] y h = ground arith
  find_pass p (x ∷ xs) y h = ground (arith, find_pass p xs y)

  pub any-count : (p : A → Bool) (xs : List A) → any p xs ≡ ltb 0 (count p xs)
  any-count p [] = refl
  any-count p (x ∷ xs) = ground (arith, any-count p xs)

  pub find-count : (p : A → Bool) (xs : List A) (y : A) → find p xs ≡ some y → 1 ≤ count p xs
  find-count p [] y h = ground arith
  find-count p (x ∷ xs) y h = ground (arith, find-count p xs y)

  pub any-find : (p : A → Bool) (xs : List A) → any p xs ≡ true → (y : A) × (find p xs ≡ some y)
  any-find p [] h = ground arith
  any-find p (x ∷ xs) h = elim (Bool-cases (p x)) [
    | inl e ↦ (x, rw e)
    | inr e ↦ let (y, found) = any-find p xs (rw e at h) in (y, rw e found)
  ]

  pub any-of_find : (p : A → Bool) (xs : List A) (y : A) → find p xs ≡ some y → any p xs ≡ true
  any-of_find p [] y h = ground arith
  any-of_find p (x ∷ xs) y h = ground (arith, any-of_find p xs y)

  pub any-of_no_find : (p : A → Bool) (xs : List A) → find p xs ≡ none → any p xs ≡ false
  any-of_no_find p [] h = refl
  any-of_no_find p (x ∷ xs) h = ground (arith, any-of_no_find p xs)

  -- A write at the first match changes the count by what the two elements pass.
  pub count-update_first :
      (p q : A → Bool) (v y : A) (xs : List A)
      → find p xs ≡ some y
      → count q (update_first p v xs) + bit (q y) ≡ count q xs + bit (q v)
  count-update_first p q v y [] h = ground arith
  count-update_first p q v y (x ∷ xs) h = ground (arith, count-update_first p q v y xs)

  -- The elements that pass `q` but are not the one found pass `r` too.
  pub count-le-of_find :
      (p q r : A → Bool) (y : A) (xs : List A)
      → find p xs ≡ some y
      → r y ≡ true
      → ((x : A) → q x ≡ true → r x ≡ true)
      → count q xs + 1 ≤ count r xs + bit (q y)
  count-le-of_find p q r y [] h ry sub = ground arith
  count-le-of_find p q r y (x ∷ xs) h ry sub =
      ground (arith, sub x, count-le-of_find p q r y xs, count-le q r xs sub)
    where
      count-le :
          (q r : A → Bool) (xs : List A)
          → ((x : A) → q x ≡ true → r x ≡ true)
          → count q xs ≤ count r xs
      count-le q r [] sub = omega arith
      count-le q r (x ∷ xs) sub = ground (arith, sub x, count-le q r xs sub)

  count-drop_last :
      (q : A → Bool) (xs : List A) (l : A)
      → last? xs ≡ some l
      → count q (drop_last xs) + bit (q l) ≡ count q xs
  count-drop_last q [] l h = ground arith
  count-drop_last q (x ∷ []) l h = ground arith
  count-drop_last q (x ∷ y ∷ xs) l h = omega (arith, count-drop_last q (y ∷ xs) l h)

  last?-set : (xs : List A) (i : ℕ) (l : A) → last? xs ≡ some l → last? (set xs i l) ≡ some l
  last?-set [] i l h = h
  last?-set (x ∷ []) zero l h = refl
  last?-set (x ∷ []) (suc i) l h = h
  last?-set (x ∷ y ∷ xs) zero l h = h
  last?-set (x ∷ y ∷ xs) (suc zero) l h = last?-set (y ∷ xs) zero l h
  last?-set (x ∷ y ∷ xs) (suc (suc i)) l h = last?-set (y ∷ xs) (suc i) l h

  count-set :
      (q : A → Bool) (xs : List A) (i : ℕ) (l y : A)
      → get_elem? xs i ≡ some y
      → count q (set xs i l) + bit (q y) ≡ count q xs + bit (q l)
  count-set q [] i l y h = ground arith
  count-set q (x ∷ xs) zero l y h = ground arith
  count-set q (x ∷ xs) (suc i) l y h = omega (arith, count-set q xs i l y h)

  last?_total :
      (xs : List A) (i : ℕ) (y : A) → get_elem? xs i ≡ some y → (l : A) × (last? xs ≡ some l)
  last?_total [] i y h = ground arith
  last?_total (x ∷ []) i y h = (x, refl)
  last?_total (x ∷ z ∷ xs) i y h = last?_total (z ∷ xs) zero z refl

  -- The removal takes out the element at the index, and no other.
  pub count-swap_remove :
      (q : A → Bool) (xs : List A) (i : ℕ) (y : A)
      → get_elem? xs i ≡ some y
      → count q (swap_remove i xs) + bit (q y) ≡ count q xs
  count-swap_remove q xs i y h =
      let (l, e) = last?_total xs i y h in
      ground (arith, count-drop_last q (set xs i l) l (last?-set xs i l e), count-set q xs i l y h)

  -- The index search and the search of the element stop at one place.
  pub find_index-find :
      (p : A → Bool) (xs : List A) (y : A)
      → find p xs ≡ some y
      → (i : ℕ) × (find_index p xs ≡ some i) × (get_elem? xs i ≡ some y)
  find_index-find p [] y h = ground arith
  find_index-find p (x ∷ xs) y h = elim (Bool-cases (p x)) [
    | inl e ↦ (zero, rw e, rw e at h)
    | inr e ↦
        let (i, stops, found) = find_index-find p xs y (rw e at h) in (suc i, ground arith, found)
  ]

  pub find_index-of_no_find :
      (p : A → Bool) (xs : List A) → find p xs ≡ none → find_index p xs ≡ none
  find_index-of_no_find p [] h = refl
  find_index-of_no_find p (x ∷ xs) h = ground (arith, find_index-of_no_find p xs)

  pub find-count_of :
      (p r : A → Bool) (xs : List A) (y : A) → find p xs ≡ some y → r y ≡ true → 1 ≤ count r xs
  find-count_of p r [] y h ry = ground arith
  find-count_of p r (x ∷ xs) y h ry = ground (arith, find-count_of p r xs y)

  -- The element written is the one that a test finds, if no other passes the test.
  pub find-update_first :
      (p r : A → Bool) (v y : A) (xs : List A)
      → find p xs ≡ some y
      → r y ≡ true
      → r v ≡ true
      → count r xs ≤ 1
      → find r (update_first p v xs) ≡ some v
  find-update_first p r v y [] h ry rv one = ground arith
  find-update_first p r v y (x ∷ xs) h ry rv one =
      ground (arith, find-count_of p r xs y, find-update_first p r v y xs)
