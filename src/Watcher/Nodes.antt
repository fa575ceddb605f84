-- ===== src/Watcher/Nodes.antt =====
-- What the handlers of node and pool events do: which addresses a new node keeps, which allocations a
-- lost node marks, and what stays on offer of a pool that was removed or changed.
use plenuslb.Base.{
  Bool, true, false, not, ◌&&◌, some, List, [], ◌∷◌, String, ◌==◌, ◌≡◌, inl, inr, arith, any,
  any-append, keep,
}
use plenuslb.Base.{if◌then◌else◌, is_empty, Bool-cases, Option-cases}
use plenuslb.Api.{
  AddressAllocation, IpAllocation, PersistentPool, contains_string, pool_has_address,
}
use plenuslb.Allocator.{is_persistent}
use plenuslb.Errors.{Err, Result, ok, err}
use plenuslb.Manager.{
  remove_address_from_allocation, set_allocation_status_node_error,
  set_allocation_status_addr_deleted,
}
use plenuslb.Pools.{free_pool}
use plenuslb.Pools.Process.{free, process_ip_availability-offers}
use plenuslb.Pools.Spec.{IsValid, offers}
use plenuslb.Watcher.Events.{
  lost, is_on_node, entries_to_keep, to_keep, mark_lost, operator_node_lost, remove_entries,
  remove_from_all, deallocate_deleted_addresses, persistent_pool_removed, persistent_pool_modified,
}
use plenuslb.World.{AddressInfo, World, Api, M, pure, ◌>>=◌}

-- The protocol's address is that of the interface and the address.
abbrev pub is_info : String → String → AddressInfo → Bool
is_info net_interface address i = i.interface_name == net_interface && i.address == address

abbrev pub is_entry : String → String → String → AddressAllocation → Bool
is_entry node_name net_interface address a =
    a.node_name == node_name && a.network_interface == net_interface && a.address == address

entries_to_keep_lem :
    (node_name net_interface address : String) (entries : List AddressAllocation)
    → any (is_info net_interface address) (entries_to_keep node_name entries)
      ≡ any (is_entry node_name net_interface address) entries
entries_to_keep_lem node_name net_interface address [] = ground arith
entries_to_keep_lem node_name net_interface address (a ∷ l) =
    ground (arith, entries_to_keep_lem node_name net_interface address l)

-- The list that `newOperatorNode` sends to the operator of a new node has an address on an interface
-- exactly where some stored allocation has an entry with that node, interface and address.
pub to_keep_lem :
    (node_name net_interface address : String) (allocations : List IpAllocation)
    → any (is_info net_interface address) (to_keep node_name allocations)
      ≡ any (λ a. any (is_entry node_name net_interface address) a.allocations) allocations
unfolding to_keep
to_keep_lem node_name net_interface address [] = ground arith
to_keep_lem node_name net_interface address (a ∷ l) = ground (
  arith,
  to_keep_lem node_name net_interface address l,
  entries_to_keep_lem node_name net_interface address a.allocations,
  any-append (is_info net_interface address) (entries_to_keep node_name a.allocations)
      (to_keep node_name l),
)

module _ {E : Type 0} (api : Api E) where
  -- The write of one status after the other.
  abbrev pub write_all : Err → List IpAllocation → M E (Unit {0})
  write_all reason [] = pure tt
  write_all reason (a ∷ l) = do
    _ ← set_allocation_status_node_error api a reason
    write_all reason l

  mark_lost_lem :
      (node_name : String) (allocations : List IpAllocation) (w : World E)
      → mark_lost api node_name allocations w
        ≡ write_all (lost node_name) (keep (is_on_node node_name) allocations) w
  unfolding mark_lost
  mark_lost_lem node_name [] w = ground arith
  mark_lost_lem node_name (a ∷ l) w = elim (Bool-cases (is_on_node node_name a)) [
    | inl on ↦ elim (Option-cases (set_allocation_status_node_error api a (lost node_name) w)) [
      | inl stuck ↦ ground arith
      | inr ((r, v), e) ↦ ground (arith, mark_lost_lem node_name l v)
    ]
    | inr off ↦ ground (arith, mark_lost_lem node_name l w)
  ]

  -- When the operator of a node is lost, the status of node errors is written, whatever the writes
  -- return, to the stored allocations that have an entry on the node, in their order, and to no other.
  pub operator_node_lost_lem :
      (node_name : String) (w : World E)
      → operator_node_lost api node_name w
        ≡ write_all (lost node_name) (keep (is_on_node node_name) w.allocation_store) w
  unfolding operator_node_lost
  operator_node_lost_lem node_name w = mark_lost_lem node_name w.allocation_store w

  -- The removal of addresses from allocations leaves the controller's own state alone.
  abbrev SameStores : World E → World E → Type 0
  SameStores w w' = (w'.avail ≡ w.avail) × (w'.allocation_store ≡ w.allocation_store)

  remove_address-stores :
      (a : IpAllocation) (address : String) (w w' : World E) (r : Result IpAllocation)
      → remove_address_from_allocation api a address w ≡ some (r, w')
      → SameStores w w'
  unfolding remove_address_from_allocation set_allocation_status_addr_deleted
  remove_address-stores a address w w' r h = ground arith

  remove_entries-stores :
      (test : AddressAllocation → Bool) (entries : List AddressAllocation) (a : IpAllocation)
      (w w' : World E)
      → remove_entries api test entries a w ≡ some (tt, w')
      → SameStores w w'
  unfolding remove_entries
  remove_entries-stores test [] a w w' h = ground arith
  remove_entries-stores test (b ∷ l) a w w' h = elim (Bool-cases (test b)) [
    | inl passes ↦ elim (Option-cases (remove_address_from_allocation api a b.address w)) [
      | inl stuck ↦ absurd (ground arith)
      | inr ((ok r, v), e) ↦ ground (
        arith,
        remove_address-stores a b.address w v (ok r) e,
        remove_entries-stores test l r v w',
      )
      | inr ((err x, v), e) ↦ ground (
        arith,
        remove_address-stores a b.address w v (err x) e,
        remove_entries-stores test l a v w',
      )
    ]
    | inr fails ↦ remove_entries-stores test l a w w' (ground arith)
  ]

  remove_from_all-stores :
      (chosen : IpAllocation → Bool) (test : AddressAllocation → Bool) (l : List IpAllocation)
      (w w' : World E)
      → remove_from_all api chosen test l w ≡ some (tt, w')
      → SameStores w w'
  remove_from_all-stores chosen test [] w w' h = ground arith
  remove_from_all-stores chosen test (a ∷ l) w w' h = elim (Bool-cases (chosen a)) [
    | inl passes ↦ elim (Option-cases (remove_entries api test a.allocations a w)) [
      | inl stuck ↦ absurd (ground arith)
      | inr ((x, v), e) ↦ ground (
        arith,
        remove_entries-stores test a.allocations a w v e,
        remove_from_all-stores chosen test l v w',
      )
    ]
    | inr fails ↦ remove_from_all-stores chosen test l w w' (ground arith)
  ]

  -- When a persistent pool is removed and the handler returns, every address that was on offer still
  -- is, those of the removed pool among them.
  pub persistent_pool_removed-offers :
      (pool : PersistentPool) (n a : String) (w w' : World E)
      → persistent_pool_removed api pool w ≡ some (tt, w')
      → offers n a w'.avail ≡ offers n a w.avail
  unfolding persistent_pool_removed deallocate_deleted_addresses
  persistent_pool_removed-offers pool n a w w' h = ground (
    arith,
    remove_from_all-stores (λ b. true) (λ b. contains_string pool.addresses b.address)
        w.allocation_store w w' h,
  )

  -- On a well-formed availability: if a changed pool has an address that no stored allocation
  -- uses, then, when the handler has returned, the pool's addresses on offer are its unused ones,
  -- whatever was on offer before, and the offers of the other pools are what they were.
  pub persistent_pool_modified-offers :
      (pool : PersistentPool) (n a : String) (w w' : World E)
      → IsValid w.avail
      → is_empty (free_pool pool w.allocation_store).addresses ≡ false
      → persistent_pool_modified api pool w ≡ some (tt, w')
      → offers n a w'.avail
        ≡ (if pool.name == n then free pool w.allocation_store a else offers n a w.avail)
  unfolding persistent_pool_modified
  persistent_pool_modified-offers pool n a w w' v some_free h =
      let chosen : IpAllocation → Bool = λ b. is_persistent b.ip_type in
      let test : AddressAllocation → Bool =
        λ b. b.pool == pool.name && not (pool_has_address pool b.address) in
      elim (Option-cases (remove_from_all api chosen test w.allocation_store w)) [
        | inl stuck ↦ absurd (ground arith)
        | inr ((x, u), e) ↦
            let same = remove_from_all-stores chosen test w.allocation_store w u e in
            ground (
              arith,
              same,
              process_ip_availability-offers pool w.allocation_store n a w.avail some_free v,
            )
      ]
