-- ===== src/Lock/Table.antt =====
-- What locking and unlocking an allocation do to the table of locks.
use plenuslb.Base.{
  true, none, some, [], ◌∷◌, String, ◌==◌, eq_iff, ◌≡◌, ap, ◌⊎◌, ◌∙◌, inl, inr, arith,
}
use plenuslb.Base.{if◌then◌else◌, Option-cases}
use plenuslb.Base.Text.{no_slash, split_slash, eq_refl}
use plenuslb.Api.{IpAllocation}
use plenuslb.Errors.{object_locked}
use plenuslb.Lock.{
  lock_key, LockTable, load, delete, add_to_lock, is_locked, remove_from_lock, try_lock,
  RetryOnError, acquire_allocation_lock, err_is_object_locked,
}

load-delete :
    (k j : String) (table : LockTable)
    → load j (delete k table) ≡ (if k == j then none else load j table)
load-delete k j [] = ground arith
load-delete k j ((i, w) ∷ table) =
    ground (arith, eq_iff k j, eq_iff i k, eq_iff i j, load-delete k j table)

-- Two allocations whose namespaces have no `/` share a lock only if they have one namespace and
-- one name.
pub lock_key-eq :
    (a b : IpAllocation)
    → no_slash a.namespace ≡ true
    → no_slash b.namespace ≡ true
    → lock_key a ≡ lock_key b
    → (a.namespace ≡ b.namespace) × (a.name ≡ b.name)
lock_key-eq a b ha hb e = split_slash a.namespace a.name b.namespace b.name ha hb e

-- After `RemoveFromLock` the allocation is free, whoever held it, and every allocation with
-- another key is locked as before.
pub is_locked-remove_from_lock :
    (a b : IpAllocation) (table : LockTable)
    → is_locked b (remove_from_lock a table)
      ≡ (if lock_key a == lock_key b then none else is_locked b table)
unfolding is_locked remove_from_lock
is_locked-remove_from_lock a b table = load-delete (lock_key a) (lock_key b) table

-- One call of the closure returns no error exactly if the allocation was free, and then it is held
-- by the caller; otherwise it reports the lock and leaves the table.
pub try_lock_lem :
    (a : IpAllocation) (who : String) (table : LockTable)
    → ((is_locked a table ≡ none)
        × ((try_lock a who table).0 ≡ none)
        × (is_locked a (try_lock a who table).1 ≡ some who))
      ⊎ (((try_lock a who table).0 ≡ some object_locked) × ((try_lock a who table).1 ≡ table))
unfolding try_lock is_locked add_to_lock
try_lock_lem a who table = elim (Option-cases (load (lock_key a) table)) [
  | inl e ↦ inl (e, ground arith, ground (arith, eq_refl (lock_key a)))
  | inr (by_who, e) ↦ inr (ground arith, ground arith)
]

-- `AcquireAllocationLock` returns either no error, and then the caller holds the allocation, or
-- the error that the object is locked.
pub acquire_allocation_lock_lem :
    (retry : RetryOnError) (a : IpAllocation) (who : String) (table : LockTable)
    → (((acquire_allocation_lock retry a who table).0 ≡ none)
        × (is_locked a (acquire_allocation_lock retry a who table).1 ≡ some who))
      ⊎ ((acquire_allocation_lock retry a who table).0 ≡ some object_locked)
unfolding acquire_allocation_lock
acquire_allocation_lock_lem retry a who table =
    let (seen, e) = retry.some_call err_is_object_locked (try_lock a who) table in
    elim (try_lock_lem a who seen) [
      | inl (_, done, held) ↦ inl (ap (λ r. r.0) e ∙ done, ap (λ r. is_locked a r.1) e ∙ held)
      | inr (locked, _) ↦ inr (ap (λ r. r.0) e ∙ locked)
    ]

-- On a free allocation `AcquireAllocationLock` succeeds at its first call of the closure, and a
-- call of the closure for a second caller after that says that the object is locked and changes
-- nothing.
pub acquire_allocation_lock_free :
    (retry : RetryOnError) (a : IpAllocation) (who other : String) (table : LockTable)
    → is_locked a table ≡ none
    → (acquire_allocation_lock retry a who table ≡ (none, add_to_lock a who table))
      × (try_lock a other (add_to_lock a who table) ≡ (some object_locked, add_to_lock a who table))
unfolding acquire_allocation_lock try_lock is_locked add_to_lock
acquire_allocation_lock_free retry a who other table free = (
  retry.first_call err_is_object_locked (try_lock a who) table (ground arith) ∙ ground arith,
  ground (arith, eq_refl (lock_key a)),
)
