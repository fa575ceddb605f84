-- ===== src/Manager/Laws.antt =====
-- What the operations on allocations return, given what the API server answers.
use plenuslb.Base.{
  Bool, true, false, not, some, List, [], ◌∷◌, String, ◌==◌, ◌≡◌, ◌≤◌, ◌<◌, ◌⊎◌, inl, inr, refl,
  ◌∙◌, arith,
}
use plenuslb.Base.{length, keep, any, Bool-cases}
use plenuslb.Base.Text.{sprint}
use plenuslb.Api.{ephemeral_ip, IpAllocation, AddressAllocation, addr_deleted}
use plenuslb.Errors.{Err, Result, ok, err, more_than_one_ephemeral_ip}
use plenuslb.Manager.{
  create_allocation, remove_address_from_allocation, set_allocation_status_addr_deleted,
}
use plenuslb.World.{World, Api}

abbrev pub has_address : String → AddressAllocation → Bool
has_address address a = a.address == address

abbrev pub others : String → List AddressAllocation → List AddressAllocation
others address = keep (λ a. not (a.address == address))

length-others :
    (address : String) (l : List AddressAllocation)
    → (length (others address l) ≤ length l)
      × ((any (has_address address) l ≡ true) → length (others address l) < length l)
      × ((any (has_address address) l ≡ false) → length (others address l) ≡ length l)
length-others address [] = (omega arith, λ h. ground arith, λ h. refl)
length-others address (a ∷ l) =
    let (le, lt, eq) = length-others address l in
    elim (Bool-cases (a.address == address)) [
      | inl e ↦ (ground arith, λ h. ground arith, λ h. ground arith)
      | inr e ↦ (ground arith, λ h. ground arith, λ h. ground arith)
    ]

-- No entry of the address is left.
any-others :
    (address : String) (l : List AddressAllocation)
    → any (has_address address) (others address l) ≡ false
any-others address [] = refl
any-others address (a ∷ l) = ground (arith, any-others address l)

module _ {E : Type 0} (api : Api E) where
  -- An ephemeral allocation with more than one address is refused, and the API server is not
  -- called.
  pub create_allocation_refuses :
      (namespace name : String) (l : List AddressAllocation) (w : World E)
      → 1 < length l
      → create_allocation api namespace name ephemeral_ip l w
        ≡ some (err more_than_one_ephemeral_ip, w)
  unfolding create_allocation
  create_allocation_refuses namespace name l w h = ground arith

  -- If no entry has the address, the allocation is returned as it is, with no call of the API
  -- server.
  pub remove_address_absent :
      (a : IpAllocation) (address : String) (w : World E)
      → any (has_address address) a.allocations ≡ false
      → remove_address_from_allocation api a address w ≡ some (ok a, w)
  unfolding remove_address_from_allocation
  remove_address_absent a address w h = ground (arith, (length-others address a.allocations).2 h)

  -- Suppose that the API server keeps the entries of an object in both kinds of update, and the
  -- state that a status update asks for. If some entry has the address and the removal succeeds,
  -- then the object that is returned has the other entries of the allocation, in order, and so none
  -- with the address, and its state says that an address was deleted.
  pub remove_address_present :
      (a r : IpAllocation) (address : String) (w w' : World E)
      → ((o r : IpAllocation) (e : E) → (api.update o e).0 ≡ ok r → r.allocations ≡ o.allocations)
      → ((o r : IpAllocation) (e : E)
          → (api.update_status o e).0 ≡ ok r
          → (r.allocations ≡ o.allocations) × (r.state ≡ o.state))
      → any (has_address address) a.allocations ≡ true
      → remove_address_from_allocation api a address w ≡ some (ok r, w')
      → (r.allocations ≡ others address a.allocations)
        × (any (has_address address) r.allocations ≡ false)
        × (r.state ≡ addr_deleted)
  unfolding remove_address_from_allocation set_allocation_status_addr_deleted
  remove_address_present a r address w w' keeps keeps_status present h =
      let shorter = (length-others address a.allocations).1 present in
      let o = record a { allocations = others address a.allocations } in
      let first = api.update o w.ext in
      elim (Result-cases first.0) [
        | inl (x, e) ↦ absurd (ground arith)
        | inr (object, e) ↦
            let same = keeps o object w.ext e in
            let o₂ : IpAllocation = record object {
              state = addr_deleted;
              message = sprint ("Address " ∷ address ∷ " removed from pool" ∷ []);
            } in
            let (kept, state) = keeps_status o₂ r first.1 (ground arith) in
            let all_same : r.allocations ≡ others address a.allocations = kept ∙ same in
            (all_same, rw all_same (any-others address a.allocations), state)
      ]
    where
      Result-cases :
          (x : Result IpAllocation) → ((e : Err) × (x ≡ err e)) ⊎ ((o : IpAllocation) × (x ≡ ok o))
      Result-cases (err e) = inl (e, refl)
      Result-cases (ok o) = inr (o, refl)
