-- ===== src/Lock/Processing.antt =====
-- The list of the allocations in error that are being processed.
use plenuslb.Base.{
  Bool, not, ◌&&◌, ◌||◌, none, some, List, [], ◌∷◌, String, ◌==◌, eq_iff, ◌+◌, ◌≤◌, ◌≡◌, inl, inr,
  arith,
}
use plenuslb.Base.{
  Option-cases, find, bit, count, count-append, any-append, any-count, count-swap_remove,
  find_index-find, find_index-of_no_find, find_pass, any-of_no_find,
}
use plenuslb.Api.{IpAllocation}
use plenuslb.Lock.{
  lock_key, is_error_allocation_already_processing, add_error_allocation_to_processing_list,
  remove_error_allocation_from_processing_list,
}

abbrev pub IsDistinct : List String → Type 0
IsDistinct dict = (k : String) → count (λ e. e == k) dict ≤ 1

-- Adding keeps every key at most once in the list.
pub add-IsDistinct :
    (a : IpAllocation) (dict : List String)
    → IsDistinct dict
    → IsDistinct (add_error_allocation_to_processing_list a dict)
unfolding add_error_allocation_to_processing_list
add-IsDistinct a dict d k = ground (
  arith,
  d k,
  eq_iff (lock_key a) k,
  any-count (λ e. e == lock_key a) dict,
  count-append (λ e. e == k) dict (lock_key a ∷ []),
)

count-remove :
    (a : IpAllocation) (dict : List String) (q : String → Bool) (y : String)
    → find (λ e. e == lock_key a) dict ≡ some y
    → count q (remove_error_allocation_from_processing_list a dict) + bit (q y) ≡ count q dict
unfolding remove_error_allocation_from_processing_list
count-remove a dict q y h =
    let (i, stops, at) = find_index-find (λ e. e == lock_key a) dict y h in
    rw (stops, remove_error_allocation_from_processing_list) (count-swap_remove q dict i y at)

remove_absent :
    (a : IpAllocation) (dict : List String)
    → find (λ e. e == lock_key a) dict ≡ none
    → remove_error_allocation_from_processing_list a dict ≡ dict
unfolding remove_error_allocation_from_processing_list
remove_absent a dict h = rw (
  find_index-of_no_find (λ e. e == lock_key a) dict h,
  remove_error_allocation_from_processing_list,
)

-- Removing keeps every key at most once in the list.
pub remove-IsDistinct :
    (a : IpAllocation) (dict : List String)
    → IsDistinct dict
    → IsDistinct (remove_error_allocation_from_processing_list a dict)
remove-IsDistinct a dict d k = elim (Option-cases (find (λ e. e == lock_key a) dict)) [
  | inl e ↦ rw (remove_absent a dict e) (d k)
  | inr (y, e) ↦ omega (arith, d k, count-remove a dict (λ x. x == k) y e)
]

-- An allocation is being processed after an addition exactly if it was, or has the key added.
pub processing-add :
    (a b : IpAllocation) (dict : List String)
    → is_error_allocation_already_processing b (add_error_allocation_to_processing_list a dict)
      ≡ (is_error_allocation_already_processing b dict || lock_key a == lock_key b)
unfolding add_error_allocation_to_processing_list is_error_allocation_already_processing
processing-add a b dict = ground (
  arith,
  eq_iff (lock_key a) (lock_key b),
  any-append (λ e. e == lock_key b) dict (lock_key a ∷ []),
)

-- On a list with no key twice, an allocation is being processed after a removal exactly if it was
-- and has not the key removed.
pub processing-remove :
    (a b : IpAllocation) (dict : List String)
    → IsDistinct dict
    → is_error_allocation_already_processing b (remove_error_allocation_from_processing_list a dict)
      ≡ (is_error_allocation_already_processing b dict && not (lock_key a == lock_key b))
unfolding is_error_allocation_already_processing
processing-remove a b dict d = elim (Option-cases (find (λ e. e == lock_key a) dict)) [
  | inl e ↦ rw (remove_absent a dict e) (
      ground
        (arith, eq_iff (lock_key a) (lock_key b), any-of_no_find (λ e. e == lock_key a) dict e))
  | inr (y, e) ↦
      let dict' = remove_error_allocation_from_processing_list a dict in
      ground (
        arith,
        d (lock_key b),
        eq_iff y (lock_key a),
        eq_iff y (lock_key b),
        eq_iff (lock_key a) (lock_key b),
        find_pass (λ e. e == lock_key a) dict y e,
        any-count (λ e. e == lock_key b) dict,
        any-count (λ e. e == lock_key b) dict',
        count-remove a dict (λ e. e == lock_key b) y e,
      )
]
