-- ===== src/Persistent/Build.antt =====
-- How a round of `buildAllocations` ends, by whether the allocation holds the address, its pool
-- still exists, and the address is on offer.
use plenuslb.Base.{
  ◌&&◌, Option, none, some, List, String, ◌==◌, ◌≡◌, ◌≢◌, ◌⊎◌, inl, inr, refl, arith,
}
use plenuslb.Base.{Option-cases, Bool-cases}
use plenuslb.Api.{PersistentPool, AddressAllocation, contains_address, cloud_option}
use plenuslb.Errors.{Err, Result}
use plenuslb.Operators.{get_random_operator_node}
use plenuslb.Persistent.{needs_operator, add_operator_node_to_allocation, placed, build_allocation}
use plenuslb.Placement.{get_random_node}
use plenuslb.Pools.{UseResult, PoolError, used, refused, use_ip, get_pool_of_address}
use plenuslb.World.{World, Operator, Api}

module _ {E : Type 0} (api : Api E) where
  -- What the controller keeps of the pools is the same in the two worlds.
  abbrev pub SamePools : World E → World E → Type 0
  SamePools w w' = (w'.avail ≡ w.avail) × (w'.persistent_store ≡ w.persistent_store)

  get_random_operator_node-pools :
      (w w' : World E) (r : Result Operator)
      → get_random_operator_node api w ≡ some (r, w')
      → SamePools w w'
  unfolding get_random_operator_node
  get_random_operator_node-pools w w' r h = ground arith

  get_random_node-pools :
      (w w' : World E) (r : Result String) → get_random_node api w ≡ some (r, w') → SamePools w w'
  unfolding get_random_node
  get_random_node-pools w w' r h = ground arith

  -- The entry keeps its address and its pool, whichever node is chosen for it.
  placed_lem :
      (pool : PersistentPool) (a : AddressAllocation) (w w' : World E)
      (o : Option AddressAllocation) (e : Option Err)
      → placed api pool a w ≡ some ((o, e), w')
      → (a' : AddressAllocation) × (o ≡ some a')
        × (a'.address ≡ a.address)
        × (a'.pool ≡ a.pool)
        × SamePools w w'
  unfolding add_operator_node_to_allocation
  placed_lem pool a w w' o e h = elim (Bool-cases (needs_operator pool a)) [
    | inl op ↦ elim (Option-cases (get_random_operator_node api w)) [
      | inl stuck ↦ absurd (ground arith)
      | inr ((r, v), k) ↦ ground (arith, get_random_operator_node-pools w v r k)
    ]
    | inr no_op ↦ elim (Bool-cases ((cloud_option pool.cloud_integration).0 && a.node_name == "")) [
      | inl cloud ↦ elim (Option-cases (get_random_node api w)) [
        | inl stuck ↦ absurd (ground arith)
        | inr ((r, v), k) ↦ ground (arith, get_random_node-pools w v r k)
      ]
      | inr local ↦ ground arith
    ]
  ]

  -- How a round of the loop can end. `held` and `lost` are for an address of the allocation, `taken`
  -- and `refusal` for a new one.
  pub data Round (namespace ip : String) (actual : List AddressAllocation) (w w' : World E)
      (o : Option AddressAllocation) (e : Option Err) : Type 0 where
    held :
        (ready a : AddressAllocation)
        → contains_address actual ip ≡ some ready
        → o ≡ some a
        → a.address ≡ ready.address
        → SamePools w w'
        → Round namespace ip actual w w' o e
    lost :
        (ready : AddressAllocation)
        → contains_address actual ip ≡ some ready
        → get_pool_of_address namespace ready.address w.persistent_store ≡ none
        → o ≡ none
        → SamePools w w'
        → Round namespace ip actual w w' o e
    taken :
        (pool : PersistentPool) (a : AddressAllocation)
        → contains_address actual ip ≡ none
        → (use_ip namespace ip w.avail).0 ≡ used pool
        → o ≡ some a
        → a.address ≡ ip
        → a.pool ≡ pool.name
        → w'.avail ≡ (use_ip namespace ip w.avail).1
        → w'.persistent_store ≡ w.persistent_store
        → Round namespace ip actual w w' o e
    refusal :
        contains_address actual ip ≡ none
        → o ≡ none
        → e ≢ none
        → w'.avail ≡ (use_ip namespace ip w.avail).1
        → w'.persistent_store ≡ w.persistent_store
        → Round namespace ip actual w w' o e

  pub build_allocation-Round :
      (namespace ip : String) (actual : List AddressAllocation) (w w' : World E)
      (o : Option AddressAllocation) (e : Option Err)
      → build_allocation api namespace actual ip w ≡ some ((o, e), w')
      → Round namespace ip actual w w' o e
  unfolding build_allocation
  build_allocation-Round namespace ip actual w w' o e h =
      elim (Option-cases (contains_address actual ip)) [
        | inr (ready, c) ↦
            elim (Option-cases (get_pool_of_address namespace ready.address w.persistent_store)) [
              | inl g ↦ lost ready c g (ground arith) (ground arith)
              | inr (pool, g) ↦
                  let (a, f, x, y, z) = placed_lem pool ready w w' o e (ground arith) in
                  held ready a c f x z
            ]
        | inl c ↦ elim (use_cases namespace ip w.avail) [
          | inl (x, u) ↦ refusal c (ground arith) (ground arith) (ground arith) (ground arith)
          | inr (pool, u) ↦
              let w₁ : World E = record w { avail = (use_ip namespace ip w.avail).1 } in
              let fresh : AddressAllocation = record {
                address = ip;
                network_interface = "";
                node_name = "";
                cloud_provider = "";
                pool = pool.name;
              } in
              let (a, f, x, y, z) = placed_lem pool fresh w₁ w' o e (ground arith) in
              taken pool a c u f x y z.0 z.1
        ]
      ]
    where
      use_cases :
          (namespace ip : String) (avail : List PersistentPool)
          → ((x : PoolError) × ((use_ip namespace ip avail).0 ≡ refused x))
            ⊎ ((pool : PersistentPool) × ((use_ip namespace ip avail).0 ≡ used pool))
      use_cases namespace ip avail = go (use_ip namespace ip avail).0 refl
        where
          go :
              (r : UseResult)
              → (use_ip namespace ip avail).0 ≡ r
              → ((x : PoolError) × ((use_ip namespace ip avail).0 ≡ refused x))
                ⊎ ((pool : PersistentPool) × ((use_ip namespace ip avail).0 ≡ used pool))
          go (refused x) k = inl (x, k)
          go (used pool) k = inr (pool, k)
