-- ===== src/Pools/Choice.antt =====
-- When `UseIP` succeeds, said of the namespaces and the addresses themselves.
use mathlib.Core.Path.{subst}
use plenuslb.Base.{
  Bool, true, none, some, List, [], ◌∷◌, ◌++◌, String, ◌==◌, eq_iff, ◌≡◌, ◌⊎◌, refl, sym, inl, inr,
  arith,
}
use plenuslb.Base.{Option-cases, Bool-cases, is_empty, any, find, any-find, find_pass}
use plenuslb.Base.Text.{eq_refl}
use plenuslb.Api.{PersistentPool, allows}
use plenuslb.Pools.{no_ip_available, used, refused, serves, use_ip, without, with_addresses}
use plenuslb.Pools.Use.{use_ip_found, use_ip_missed}

-- The element is at some place of the list.
abbrev pub Among {ℓ} : {A : Type ℓ} → A → List A → Type ℓ
Among {A = A} x l = (before : List A) × (after : List A) × (l ≡ before ++ x ∷ after)

-- A pool without namespaces is for all, and any other for those that it lists.
abbrev pub IsFor : String → PersistentPool → Type 0
IsFor namespace pool = (pool.allowed_namespaces ≡ []) ⊎ Among namespace pool.allowed_namespaces

Among-any {ℓ} :
    {A : Type ℓ} (q : A → Bool) (x : A) (before after : List A)
    → q x ≡ true
    → any q (before ++ x ∷ after) ≡ true
Among-any q x [] after h = ground arith
Among-any q x (y ∷ before) after h = ground (arith, Among-any q x before after h)

any-Among {ℓ} :
    {A : Type ℓ} (q : A → Bool) (l : List A) → any q l ≡ true → (x : A) × Among x l × (q x ≡ true)
any-Among q [] h = absurd (ground arith)
any-Among q (y ∷ l) h = elim (Bool-cases (q y)) [
  | inl here ↦ (y, ([], l, refl), here)
  | inr there ↦
      let (x, (before, after, e), pass) = any-Among q l (ground arith) in
      (x, (y ∷ before, after, ground arith), pass)
]

-- A test that only this text passes.
Among-text :
    (q : String → Bool) (s : String) (l : List String)
    → ((x : String) → q x ≡ true → x ≡ s)
    → any q l ≡ true
    → Among s l
Among-text q s l only h =
    let (x, place, same) = any-Among q l h in subst (λ y. Among y l) (only x same) place

find-Among {ℓ} : {A : Type ℓ} (q : A → Bool) (l : List A) (x : A) → find q l ≡ some x → Among x l
find-Among q [] x h = absurd (ground arith)
find-Among q (y ∷ l) x h = elim (Bool-cases (q y)) [
  | inl here ↦ ([], l, ground arith)
  | inr there ↦
      let (before, after, e) = find-Among q l x (ground arith) in (y ∷ before, after, ground arith)
]

IsFor-allows :
    (namespace : String) (pool : PersistentPool)
    → IsFor namespace pool
    → allows pool.allowed_namespaces namespace ≡ true
IsFor-allows namespace pool (inl for_all) = ground arith
IsFor-allows namespace pool (inr (before, after, e)) =
    ground (arith, Among-any (λ n. namespace == n) namespace before after (eq_refl namespace))

allows-IsFor :
    (namespace : String) (pool : PersistentPool)
    → allows pool.allowed_namespaces namespace ≡ true
    → IsFor namespace pool
allows-IsFor namespace pool h = elim (Bool-cases (is_empty pool.allowed_namespaces)) [
  | inl open_to_all ↦ inl (ground arith)
  | inr restricted ↦ inr (
      Among-text (λ n. namespace == n) namespace pool.allowed_namespaces
        (λ x same. sym ((eq_iff namespace x).0 same)) (ground arith))
]

-- `UseIP` succeeds exactly if some listed pool, which is for the namespace, has the address, and it returns
-- such a pool without the address; otherwise it reports that no address is available and changes
-- nothing.
pub use_ip_exactly :
    (namespace address : String) (avail : List PersistentPool)
    → ((pool : PersistentPool) × Among pool avail
        × IsFor namespace pool
        × Among address pool.addresses
        × ((use_ip namespace address avail).0
            ≡ used (with_addresses pool (without address pool.addresses))))
      ⊎ (((pool : PersistentPool)
            → Among pool avail
            → IsFor namespace pool
            → Among address pool.addresses
            → ⊥)
          × (use_ip namespace address avail ≡ (refused no_ip_available, avail)))
use_ip_exactly namespace address avail =
    elim (Option-cases (find (serves namespace address) avail)) [
      | inl missed ↦ inr (no_pool missed, use_ip_missed namespace address avail missed)
      | inr (p, found) ↦
          let serving = find_pass (serves namespace address) avail p found in
          inl (
            p,
            find-Among (serves namespace address) avail p found,
            allows-IsFor namespace p (ground arith),
            Among-text (λ a. a == address) address p.addresses (λ x same. (eq_iff x address).0 same)
                (ground arith),
            ground (arith, use_ip_found namespace address avail p found),
          )
    ]
  where
    no_pool :
        find (serves namespace address) avail ≡ none
        → (pool : PersistentPool) → Among pool avail
        → IsFor namespace pool
        → Among address pool.addresses
        → ⊥
    no_pool missed pool (before, after, e) for_it (b, a, e') =
        let holds = Among-any (λ x. x == address) address b a (eq_refl address) in
        let serving : serves namespace address pool ≡ true =
          ground (arith, IsFor-allows namespace pool for_it) in
        let (x, found) =
          any-find (serves namespace address) (before ++ pool ∷ after)
            (Among-any (serves namespace address) pool before after serving) in
        ground arith
