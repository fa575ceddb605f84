-- ===== src/Election/Release.antt =====
-- When the process of pkg/controller/leader/election.go gives up the lead, and when it stays up.
use plenuslb.Base.{true, none, ℕ, ◌≡◌, refl, inl, inr, arith}
use plenuslb.Base.{Option-cases, Bool-cases}
use plenuslb.Deployment.{Channel}
use plenuslb.Election.{
  Election, ElectionRecord, LeaseLock, exits, release_leader, on_stopped_leading,
}
use plenuslb.Errors.{ok, Result-cases}

module _ {R E : Type 0} (lock : LeaseLock R E) where
  -- If the process exits with code zero as it stops leading, it was the leader, and it has written the
  -- lock object without a holder, with the current time and all else as it was read; nothing was
  -- changed after that.
  pub on_stopped_leading_exits :
      (le le' : Election) (stop_ch stop_ch' : Channel) (e e' : E)
      → on_stopped_leading lock le stop_ch e ≡ (exits, le', stop_ch', e')
      → (le.im_leader ≡ true)
        × (held : ElectionRecord R) × (e1 : E) × (now : ℕ) × (e2 : E) × (lock.get e ≡ (ok held, e1))
        × (lock.now e1 ≡ (now, e2))
        × (lock.update (record held { holder_identity = ""; renew_time = now }) e2 ≡ (none, e'))
  unfolding on_stopped_leading release_leader
  on_stopped_leading_exits le le' stop_ch stop_ch' e e' h = elim (Bool-cases le.im_leader) [
    | inl leads ↦ elim (Result-cases (lock.get e).0) [
      | inl (held, r) ↦
          let e1 = (lock.get e).1 in
          let now = (lock.now e1).0 in
          let e2 = (lock.now e1).1 in
          let written = record held { holder_identity = ""; renew_time = now } in
          elim (Option-cases (lock.update written e2).0) [
            | inl done ↦ (leads, held, e1, now, e2, ground arith, refl, ground arith)
            | inr (x, failed) ↦ absurd (ground arith)
          ]
      | inr (x, r) ↦ absurd (ground arith)
    ]
    | inr follows ↦ absurd (ground arith)
  ]
