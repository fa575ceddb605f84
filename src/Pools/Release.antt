-- ===== src/Pools/Release.antt =====
-- What `ReleaseIP` does to the addresses on offer, and where it breaks the availability.
use plenuslb.Base.{
  true, false, ◌&&◌, ◌||◌, none, some, List, [], ◌∷◌, ◌++◌, String, ◌==◌, eq_iff, ◌≤◌, ◌≡◌, refl,
  inl, inr, arith,
}
use plenuslb.Base.{
  Option-cases, Bool-cases, is_empty, any, find, count, update_first, count-append, any-append,
  count-update_first, find_pass, any-count, any-of_find,
}
use plenuslb.Base.Text.{eq_refl}
use plenuslb.Api.{PersistentPool}
use plenuslb.Pools.{named, with_addresses, get_pool_of_address, release_ip, use_ip, used}
use plenuslb.Pools.Spec.{has, offers, IsValid}
use plenuslb.Pools.Invariant.{append-IsValid, update-IsValid, use_ip-IsValid}
use plenuslb.Pools.Lemmas.{count-has}
use plenuslb.Pools.Use.{use_ip-offers}

-- The pool of the store that has the address, for the namespace, goes by the name.
abbrev pub BelongsTo : List PersistentPool → String → String → String → Type 0
BelongsTo store name namespace address =
    (pool : PersistentPool) × (get_pool_of_address namespace address store ≡ some pool)
    × (pool.name ≡ name)

-- What `release_ip` computes where the store has the address under the name.
module _ (store : List PersistentPool) (name namespace address : String)
    (avail : List PersistentPool) where
  release_absent :
      (pool : PersistentPool)
      → find (named name) avail ≡ none
      → get_pool_of_address namespace address store ≡ some pool
      → release_ip store name namespace address avail
        ≡ avail ++ with_addresses pool (address ∷ []) ∷ []
  unfolding release_ip
  release_absent pool e b = rw (e, release_ip) (rw b)

  release_known :
      (available : PersistentPool)
      → find (named name) avail ≡ some available
      → any (λ a. a == address) available.addresses ≡ true
      → release_ip store name namespace address avail ≡ avail
  unfolding release_ip
  release_known available e k = rw (e, release_ip) (rw k)

  release_listed :
      (available pool : PersistentPool)
      → find (named name) avail ≡ some available
      → any (λ a. a == address) available.addresses ≡ false
      → get_pool_of_address namespace address store ≡ some pool
      → release_ip store name namespace address avail
        ≡ update_first
            (named name)
            (with_addresses available (available.addresses ++ address ∷ []))
            avail
  unfolding release_ip
  release_listed available pool e k b = rw (e, release_ip) (rw (k, b))

append-inhabited : (l : List String) (a : String) → is_empty (l ++ a ∷ []) ≡ false
append-inhabited [] a = refl
append-inhabited (x ∷ l) a = refl

-- Releasing an address that belongs to the named pool keeps the availability well formed.
pub release_ip-IsValid :
    (store : List PersistentPool) (name namespace address : String) (avail : List PersistentPool)
    → BelongsTo store name namespace address
    → IsValid avail
    → IsValid (release_ip store name namespace address avail)
release_ip-IsValid store name namespace address avail (pool, b, e) v =
    elim (Option-cases (find (named name) avail)) [
      | inl absent ↦
          rw (release_absent store name namespace address avail pool absent b)
            (append-IsValid (with_addresses pool (address ∷ [])) avail (rw e absent) refl v)
      | inr (available, found) ↦ elim (Bool-cases (any (λ a. a == address) available.addresses)) [
        | inl known ↦ rw (release_known store name namespace address avail available found known) v
        | inr new ↦
            rw (release_listed store name namespace address avail available pool found new b) (
              update-IsValid name available
                (with_addresses available (available.addresses ++ address ∷ [])) avail
                ((eq_iff available.name name).0 (find_pass (named name) avail available found))
                found (append-inhabited available.addresses address) v)
      ]
    ]

-- On a well-formed availability, releasing an address that the store has in the named pool puts it
-- on offer there, and leaves every other pair of a pool's name and an address as it was.
pub release_ip-offers :
    (store : List PersistentPool) (name namespace address n a : String)
    (avail : List PersistentPool)
    → BelongsTo store name namespace address
    → IsValid avail
    → offers n a (release_ip store name namespace address avail)
      ≡ (offers n a avail || (name == n && a == address))
release_ip-offers store name namespace address n a avail (pool, b, e) v =
    elim (Option-cases (find (named name) avail)) [
      | inl absent ↦
          rw (release_absent store name namespace address avail pool absent b, any-append)
            (ground (arith, eq_iff address a, eq_iff a address))
      | inr (available, found) ↦
          let here = find_pass (named name) avail available found in
          let listed = count-has (named name) available a avail found (v.distinct available.name) in
          elim (Bool-cases (any (λ a. a == address) available.addresses)) [
            | inl known ↦
                rw (release_known store name namespace address avail available found known) (
                  ground (
                    arith,
                    listed,
                    any-count (has name a) avail,
                    eq_iff available.name name,
                    eq_iff name n,
                    eq_iff a address,
                  ))
            | inr new ↦
                let pool' = with_addresses available (available.addresses ++ address ∷ []) in
                rw (release_listed store name namespace address avail available pool found new b) (
                  ground (
                    arith,
                    listed,
                    any-count (has n a) avail,
                    any-count (has n a) (update_first (named name) pool' avail),
                    count-update_first (named name) (has n a) pool' available avail found,
                    any-append (λ x. x == a) available.addresses (address ∷ []),
                    eq_iff available.name name,
                    eq_iff available.name n,
                    eq_iff name n,
                    eq_iff a address,
                    eq_iff address a,
                  ))
          ]
    ]

-- On a well-formed availability, an address taken by `UseIP` and released to the pool that it came
-- from, which has it in the store, is back: everything that was on offer is on offer again, and
-- nothing more.
pub release_ip-use_ip :
    (store avail : List PersistentPool) (namespace address n a : String) (pool : PersistentPool)
    → IsValid avail
    → (use_ip namespace address avail).0 ≡ used pool
    → BelongsTo store pool.name namespace address
    → offers n a (release_ip store pool.name namespace address (use_ip namespace address avail).1)
      ≡ offers n a avail
release_ip-use_ip store avail namespace address n a pool v h b =
    let (_, offered, effect) = use_ip-offers namespace address avail pool v h in
    ground (
      arith,
      release_ip-offers store pool.name namespace address n a (use_ip namespace address avail).1 b
          (use_ip-IsValid namespace address avail v),
      effect n a,
      eq_iff pool.name n,
      eq_iff a address,
    )

-- If no pool of the given name is listed, and the store has the address in another pool that is
-- listed, then `ReleaseIP` lists that other pool twice.
pub release_ip_duplicates :
    (store : List PersistentPool) (name namespace address : String) (avail : List PersistentPool)
    (pool : PersistentPool)
    → any (named name) avail ≡ false
    → get_pool_of_address namespace address store ≡ some pool
    → any (named pool.name) avail ≡ true
    → 2 ≤ count (named pool.name) (release_ip store name namespace address avail)
release_ip_duplicates store name namespace address avail pool absent b listed =
    elim (Option-cases (find (named name) avail)) [
      | inl e ↦ rw (release_absent store name namespace address avail pool e b) (
          ground (
            arith,
            eq_refl pool.name,
            any-count (named pool.name) avail,
            count-append (named pool.name) avail (with_addresses pool (address ∷ []) ∷ []),
          ))
      | inr (other, e) ↦ absurd (ground (arith, any-of_find (named name) avail other e))
    ]
