-- ===== src/Lock/Race.antt =====
-- Goroutines that contend for the lock of one allocation, as interleaved steps.
--
-- The closure of `AcquireAllocationLock` loads the entry and stores its own in two calls of the
-- `sync.Map`, with no lock around them: `Step` lets other goroutines run in between. `AtomicStep`
-- runs the closure, `try_lock`, whole.
use plenuslb.Base.{none, String, ◌≡◌, ◌≢◌, ℕ, inl, inr, arith}
use plenuslb.Base.{if◌then◌else◌, nat_eq}
use plenuslb.Api.{IpAllocation}
use plenuslb.Lock.{LockTable, is_locked, add_to_lock, remove_from_lock, try_lock}
use plenuslb.Lock.Table.{try_lock_lem}

pub data Phase : Type 0 where
  waiting : Phase
  seen_free : Phase
  holding : Phase

pub record Goroutines : Type 0 where
  pub table : LockTable
  pub phase : ℕ → Phase

abbrev pub move : (ℕ → Phase) → ℕ → Phase → ℕ → Phase
move phase i p j = if nat_eq i j then p else phase j

module _ (a : IpAllocation) (who : ℕ → String) where
  pub data Step (s : Goroutines) : Goroutines → Type 0 where
    look :
        (i : ℕ)
        → s.phase i ≡ waiting
        → is_locked a s.table ≡ none
        → Step s (record s { phase = move s.phase i seen_free })
    enter :
        (i : ℕ)
        → s.phase i ≡ seen_free
        → Step s (record { table = add_to_lock a (who i) s.table; phase = move s.phase i holding })
    leave :
        (i : ℕ)
        → s.phase i ≡ holding
        → Step s (record { table = remove_from_lock a s.table; phase = move s.phase i waiting })

  pub data Reach (s : Goroutines) : Goroutines → Type 0 where
    here : Reach s s
    next : {t u : Goroutines} → Reach s t → Step t u → Reach s u

  pub data AtomicStep (s : Goroutines) : Goroutines → Type 0 where
    grab :
        (i : ℕ)
        → s.phase i ≡ waiting
        → (try_lock a (who i) s.table).0 ≡ none
        → AtomicStep s
            (record { table = (try_lock a (who i) s.table).1; phase = move s.phase i holding })
    drop :
        (i : ℕ)
        → s.phase i ≡ holding
        → AtomicStep s
            (record { table = remove_from_lock a s.table; phase = move s.phase i waiting })

  pub data AtomicReach (s : Goroutines) : Goroutines → Type 0 where
    start : AtomicReach s s
    then_step : {t u : Goroutines} → AtomicReach s t → AtomicStep t u → AtomicReach s u

  -- The goroutine that holds the allocation is the only one, and the table says that it is held.
  pub record IsExclusive (s : Goroutines) : Type 0 where
    pub recorded : (i : ℕ) → s.phase i ≡ holding → is_locked a s.table ≢ none
    pub only : (i j : ℕ) → s.phase i ≡ holding → s.phase j ≡ holding → i ≡ j

  AtomicStep-IsExclusive : {s t : Goroutines} → AtomicStep s t → IsExclusive s → IsExclusive t
  AtomicStep-IsExclusive {s} (grab i w free) e = elim (try_lock_lem a (who i) s.table) [
    | inl (unlocked, _, held) ↦ record {
      recorded = λ j h. ground arith;
      only = λ j k h h'. ground (arith, e.recorded j, e.recorded k);
    }
    | inr (locked, _) ↦ absurd (ground arith)
  ]
  AtomicStep-IsExclusive {s} (drop i w) e = record {
    recorded = λ j h. absurd (ground (arith, e.only i j w));
    only = λ j k h h'. ground (arith, e.only j k);
  }

  AtomicReach-IsExclusive :
      {s t : Goroutines} → ((i : ℕ) → s.phase i ≢ holding) → AtomicReach s t → IsExclusive t
  AtomicReach-IsExclusive idle start = record {
    recorded = λ i h. absurd (idle i h);
    only = λ i j h h'. absurd (idle i h);
  }
  AtomicReach-IsExclusive idle (then_step r st) =
      AtomicStep-IsExclusive st (AtomicReach-IsExclusive idle r)

  -- If each closure ran in one step, then from a state in which nobody holds the allocation no
  -- state is reached in which two goroutines hold it.
  pub atomic_lock_excludes :
      (s t : Goroutines) (i j : ℕ)
      → ((k : ℕ) → s.phase k ≢ holding)
      → AtomicReach s t
      → t.phase i ≡ holding
      → t.phase j ≡ holding
      → i ≡ j
  atomic_lock_excludes s t i j idle r h h' = (AtomicReach-IsExclusive idle r).only i j h h'

  -- Where two goroutines wait for a free allocation, an interleaving of the two calls of the map
  -- leads to a state in which both hold it.
  pub both_may_hold :
      (s : Goroutines) (i j : ℕ)
      → i ≢ j
      → s.phase i ≡ waiting
      → s.phase j ≡ waiting
      → is_locked a s.table ≡ none
      → (t : Goroutines) × Reach s t × (t.phase i ≡ holding) × (t.phase j ≡ holding)
  both_may_hold s i j ne wi wj free =
      let p₁ = move s.phase i seen_free in
      let p₂ = move p₁ j seen_free in
      let p₃ = move p₂ i holding in
      let s₁ : Goroutines = record { table = s.table; phase = p₁ } in
      let s₂ : Goroutines = record { table = s.table; phase = p₂ } in
      let s₃ : Goroutines = record { table = add_to_lock a (who i) s.table; phase = p₃ } in
      let s₄ : Goroutines = record {
        table = add_to_lock a (who j) (add_to_lock a (who i) s.table);
        phase = move p₃ j holding;
      } in
      let r₁ : Reach s s₁ = next here (look i wi free) in
      let r₂ : Reach s s₂ = next r₁ (look j (ground arith) free) in
      let r₃ : Reach s s₃ = next r₂ (enter i (ground arith)) in
      let r₄ : Reach s s₄ = next r₃ (enter j (ground arith)) in (s₄, r₄, ground arith, ground arith)
