-- ===== src/Ephemeral/Faults.antt =====
-- What `buildAllocations` of ephemeral allocations returns, and where the functions on them panic.
use plenuslb.Base.{
  Bool, true, false, Option, none, some, List, [], ◌∷◌, String, ◌≡◌, ◌⊎◌, inl, inr, refl, arith,
}
use plenuslb.Base.{find, any, any-of_no_find, find_pass, Option-cases}
use plenuslb.Api.{EphemeralPool, AddressAllocation, IpAllocation, allows, cloud_option}
use plenuslb.Ephemeral.{
  get_pool_for_service, build_allocations, choose_new_node, get_and_assign_address_on_cloud,
  ip_name, value_or, check_and_patch_allocation,
}
use plenuslb.Ephemeral.Node.{relocate, change_allocation_node}
use plenuslb.Errors.{Err, err, pool_not_found}
use plenuslb.Manager.{update_allocation}
use plenuslb.World.{World, Api}

module _ {E : Type 0} (api : Api E) where
  -- Suppose that no pool allowed the namespace when the entries of an allocation were built, and that
  -- one does when the allocation is reconciled. Then `CheckAndPatchAllocation` panics: there is no
  -- first entry to check.
  pub no_pool_then_panic :
      (a : IpAllocation) (w w' later : World E) (pool : EphemeralPool) (e : Option Err)
      → get_pool_for_service a.namespace w.ephemeral_store ≡ none
      → build_allocations api a.namespace a.name w ≡ some ((a.allocations, e), w')
      → get_pool_for_service a.namespace later.ephemeral_store ≡ some pool
      → check_and_patch_allocation api a later ≡ none
  unfolding build_allocations check_and_patch_allocation
  no_pool_then_panic a w w' later pool e no_pool built found =
      let empty : a.allocations ≡ [] = ground arith in ground arith

  -- If the update of the object fails, `ChangeAllocationNode` panics instead of returning an error.
  pub change_allocation_node_panics :
      (a : IpAllocation) (w w' w'' : World E) (entries : List AddressAllocation) (e : Option Err)
      (x : Err)
      → relocate api a.allocations w ≡ some ((entries, e), w')
      → update_allocation api (record a { allocations = entries }) w' ≡ some (err x, w'')
      → change_allocation_node api a w ≡ none
  unfolding change_allocation_node
  change_allocation_node_panics a w w' w'' entries e x r u = ground arith

  -- What `buildAllocations` returns: no entry, the error of a missing pool and no change, where no
  -- pool allows the namespace; one entry of the first pool that allows it otherwise, for which the
  -- namespace is allowed.
  pub build_allocations_outcome :
      (namespace name : String) (w w' : World E) (entries : List AddressAllocation) (e : Option Err)
      → build_allocations api namespace name w ≡ some ((entries, e), w')
      → ((any (λ p. allows p.allowed_namespaces namespace) w.ephemeral_store ≡ false)
          × (entries ≡ [])
          × (e ≡ some pool_not_found)
          × (w' ≡ w))
        ⊎ ((pool : EphemeralPool) × (a : AddressAllocation) × (find
                (λ p. allows p.allowed_namespaces namespace)
                w.ephemeral_store
              ≡ some pool)
            × (allows pool.allowed_namespaces namespace ≡ true)
            × (entries ≡ a ∷ [])
            × (a.pool ≡ pool.name))
  unfolding build_allocations get_pool_for_service
  build_allocations_outcome namespace name w w' entries e h =
      let test : EphemeralPool → Bool = λ p. allows p.allowed_namespaces namespace in
      elim (Option-cases (find test w.ephemeral_store)) [
        | inl none_found ↦ inl (
          any-of_no_find test w.ephemeral_store none_found,
          ground arith,
          ground arith,
          ground arith,
        )
        | inr (pool, found) ↦ elim (Option-cases (choose_new_node api pool w)) [
          | inl stuck ↦ absurd (ground arith)
          | inr (((net_interface, node, x), v), k) ↦
              let (cluster, outside) = api.cluster_name v.ext in
              let request =
                get_and_assign_address_on_cloud api pool.cloud_integration
                  (ip_name cluster namespace name) node (record v { ext = outside }) in
              elim (Option-cases request) [
                | inl stuck ↦ absurd (ground arith)
                | inr ((ip, u), l) ↦ inr (
                  pool,
                  record {
                    address = value_or ip;
                    network_interface = net_interface;
                    node_name = node;
                    cloud_provider = (cloud_option pool.cloud_integration).1;
                    pool = pool.name;
                  },
                  found,
                  find_pass test w.ephemeral_store pool found,
                  ground arith,
                  refl,
                )
              ]
        ]
      ]
