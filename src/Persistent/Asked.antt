-- ===== src/Persistent/Asked.antt =====
-- What `buildAllocations` makes of all the addresses that a service asks for: which entries it
-- returns, and what is left on offer.
use plenuslb.Base.{
  Bool, false, not, ◌&&◌, Option, none, some, List, [], ◌∷◌, String, ◌==◌, ◌≡◌, ◌≢◌, inl, inr,
  arith, map, eq_iff,
}
use plenuslb.Base.{any-of_find, find_pass, Option-cases, any}
use plenuslb.Base.Text.{eq_refl}
use plenuslb.Api.{PersistentPool, AddressAllocation, contains_address}
use plenuslb.Errors.{Err}
use plenuslb.Persistent.{append_some, build_allocation, build_allocations}
use plenuslb.Persistent.Build.{Round, held, lost, taken, refusal, build_allocation-Round}
use plenuslb.Pools.{use_ip, get_pool_of_address}
use plenuslb.Pools.Invariant.{use_ip-IsValid}
use plenuslb.Pools.Spec.{IsValid, offers}
use plenuslb.Pools.Use.{use_ip-offers, use_ip_complete}
use plenuslb.World.{World, Api}

-- Whether the allocation has an entry for the address.
abbrev pub is_held : List AddressAllocation → String → Bool
is_held actual ip = any (λ n. ip == n.address) actual

module _ {E : Type 0} (api : Api E) where
  -- An address that the allocation holds and whose pool is gone is passed over: the entries, the
  -- error and the new state are those of the call that does not ask for it.
  pub build_allocations_loses_error :
      (namespace ip : String) (actual : List AddressAllocation) (ips : List String)
      (ready : AddressAllocation) (w : World E)
      → contains_address actual ip ≡ some ready
      → get_pool_of_address namespace ready.address w.persistent_store ≡ none
      → build_allocations api namespace actual (ip ∷ ips) w
        ≡ build_allocations api namespace actual ips w
  unfolding build_allocations build_allocation
  build_allocations_loses_error namespace ip actual ips ready w c g = ground arith

  -- Every held address has a pool.
  abbrev pub AllRooted : String → List AddressAllocation → List PersistentPool → Type 0
  AllRooted namespace actual store =
      (ip : String) (ready : AddressAllocation)
      → contains_address actual ip ≡ some ready
      → get_pool_of_address namespace ready.address store ≢ none

  -- If each address of the allocation has a pool and `buildAllocations` returns no error, then its
  -- entries are for the addresses that were asked for, in their order.
  pub build_allocations_complete :
      (namespace : String) (actual : List AddressAllocation) (ips : List String) (w w' : World E)
      (entries : List AddressAllocation)
      → AllRooted namespace actual w.persistent_store
      → build_allocations api namespace actual ips w ≡ some ((entries, none), w')
      → map AddressAllocation.address entries ≡ ips
  unfolding build_allocations
  build_allocations_complete namespace actual [] w w' entries rooted h = ground arith
  build_allocations_complete namespace actual (ip ∷ ips) w w' entries rooted h =
      elim (Option-cases (build_allocation api namespace actual ip w)) [
        | inl stuck ↦ absurd (ground arith)
        | inr (((o, e), v), k) ↦
            elim (Option-cases (build_allocations api namespace actual ips v)) [
              | inl stuck ↦ absurd (ground arith)
              | inr (((rest, none), v'), k') ↦
                  go o e v rest v' k k'
                    (λ same.
                      build_allocations_complete namespace actual ips v v' rest (rw same rooted) k')
                    (build_allocation-Round api namespace ip actual w v o e k)
              | inr (((rest, some x), v'), k') ↦ absurd (ground arith)
            ]
      ]
    where
      go :
          (o : Option AddressAllocation) (e : Option Err) (v : World E)
          (rest : List AddressAllocation) (v' : World E)
          → build_allocation api namespace actual ip w ≡ some ((o, e), v)
          → build_allocations api namespace actual ips v ≡ some ((rest, none), v')
          → (v.persistent_store ≡ w.persistent_store → map AddressAllocation.address rest ≡ ips)
          → Round api namespace ip actual w v o e
          → map AddressAllocation.address entries ≡ ip ∷ ips
      go o e v rest v' k k' ih (held ready a c x y s) =
          ground (
            arith,
            ih s.1,
            eq_iff ip ready.address,
            find_pass (λ n. ip == n.address) actual ready c,
          )
      go o e v rest v' k k' ih (lost ready c g x s) = absurd (rooted ip ready c g)
      go o e v rest v' k k' ih (taken pool a c u x y z s t) = ground (arith, ih t)
      go o e v rest v' k k' ih (refusal c x y s t) = absurd (ground arith)

  -- What `buildAllocations` does to the offers: the availability stays well formed, nothing comes on
  -- offer, and no entry that is new to the allocation stays on offer in its pool.
  pub record Withdrawn (actual : List AddressAllocation) (w w' : World E)
      (entries : List AddressAllocation) : Type 0 where
    pub valid : IsValid w'.avail
    pub nothing_new : (n a : String) → (offers n a w'.avail && not (offers n a w.avail)) ≡ false
    pub withdrawn :
        any (λ a. not (is_held actual a.address) && offers a.pool a.address w'.avail) entries
        ≡ false

  use_ip_keeps_off :
      (namespace ip n a : String) (avail : List PersistentPool)
      → IsValid avail
      → offers n a avail ≡ false
      → offers n a (use_ip namespace ip avail).1 ≡ false
  use_ip_keeps_off namespace ip n a avail v k = elim (use_ip_complete namespace ip avail) [
    | inl (_, pool, u) ↦ ground (arith, (use_ip-offers namespace ip avail pool v u).2 n a)
    | inr (_, u) ↦ ground arith
  ]

  -- One round keeps the availability valid and brings nothing on offer, and a new entry is withdrawn.
  Round-Withdrawn :
      (namespace ip : String) (actual : List AddressAllocation) (w w' : World E)
      (o : Option AddressAllocation) (e : Option Err)
      → IsValid w.avail
      → Round api namespace ip actual w w' o e
      → Withdrawn actual w w' (append_some o [])
  Round-Withdrawn namespace ip actual w w' o e v (held ready a c x y s) = record {
    valid = rw s.0 v;
    nothing_new = λ n b. ground arith;
    withdrawn = ground (
      arith,
      eq_iff ip ready.address,
      find_pass (λ n. ip == n.address) actual ready c,
      any-of_find (λ n. ip == n.address) actual ready c,
    );
  }
  Round-Withdrawn namespace ip actual w w' o e v (lost ready c g x s) = record {
    valid = rw s.0 v;
    nothing_new = λ n b. ground arith;
    withdrawn = ground arith;
  }
  Round-Withdrawn namespace ip actual w w' o e v (taken pool a c u x y z s t) = record {
    valid = rw s (use_ip-IsValid namespace ip w.avail v);
    nothing_new = λ n b. ground (arith, use_ip_keeps_off namespace ip n b w.avail v);
    withdrawn = ground (
      arith,
      eq_refl pool.name,
      eq_refl ip,
      (use_ip-offers namespace ip w.avail pool v u).2 pool.name ip,
    );
  }
  Round-Withdrawn namespace ip actual w w' o e v (refusal c x y s t) = record {
    valid = rw s (use_ip-IsValid namespace ip w.avail v);
    nothing_new = λ n b. ground (arith, use_ip_keeps_off namespace ip n b w.avail v);
    withdrawn = ground arith;
  }

  Withdrawn-append :
      (actual : List AddressAllocation) (w w₁ w₂ : World E) (o : Option AddressAllocation)
      (rest : List AddressAllocation)
      → Withdrawn actual w w₁ (append_some o [])
      → Withdrawn actual w₁ w₂ rest
      → Withdrawn actual w w₂ (append_some o rest)
  Withdrawn-append actual w w₁ w₂ none rest first second = record {
    valid = second.valid;
    nothing_new = λ n a. ground (arith, second.nothing_new n a, first.nothing_new n a);
    withdrawn = second.withdrawn;
  }
  Withdrawn-append actual w w₁ w₂ (some b) rest first second = record {
    valid = second.valid;
    nothing_new = λ n a. ground (arith, second.nothing_new n a, first.nothing_new n a);
    withdrawn =
        ground (arith, first.withdrawn, second.withdrawn, second.nothing_new b.pool b.address);
  }

  -- On a well-formed availability, whatever error `buildAllocations` returns, the availability stays
  -- well formed, no address comes on offer, and an address that it gives the allocation and that
  -- the allocation did not hold is no longer on offer in the pool that its entry names.
  pub build_allocations-Withdrawn :
      (namespace : String) (actual : List AddressAllocation) (ips : List String) (w w' : World E)
      (entries : List AddressAllocation) (e : Option Err)
      → IsValid w.avail
      → build_allocations api namespace actual ips w ≡ some ((entries, e), w')
      → Withdrawn actual w w' entries
  unfolding build_allocations
  build_allocations-Withdrawn namespace actual [] w w' entries e v h = record {
    valid = ground arith;
    nothing_new = λ n a. ground arith;
    withdrawn = ground arith;
  }
  build_allocations-Withdrawn namespace actual (ip ∷ ips) w w' entries e v h =
      elim (Option-cases (build_allocation api namespace actual ip w)) [
        | inl stuck ↦ absurd (ground arith)
        | inr (((o, x), v₁), k) ↦
            let first =
              Round-Withdrawn namespace ip actual w v₁ o x v
                (build_allocation-Round api namespace ip actual w v₁ o x k) in
            elim (Option-cases (build_allocations api namespace actual ips v₁)) [
              | inl stuck ↦ absurd (ground arith)
              | inr (((rest, y), v₂), l) ↦
                  let both =
                    Withdrawn-append actual w v₁ v₂ o rest first (
                      build_allocations-Withdrawn namespace actual ips v₁ v₂ rest y first.valid
                        l) in
                  let same : (w' ≡ v₂) × (entries ≡ append_some o rest) = ground arith in
                  rw (same.0, same.1) both
            ]
      ]
