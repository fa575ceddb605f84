-- ===== src/Election.antt =====
-- The election of a leader: pkg/controller/leader/election.go.
--
-- The lock object is the record `LeaseLock` of calls, over a state `E` of the cluster; what the record
-- of an election has besides the holder and the time of renewal is the type `R`. The functions
-- that the start calls are the record `Parts`, over a state `S` of the controller. The elector,
-- which calls the callbacks, is a library's.
pub mod Release
use plenuslb.Base.{Bool, true, false, Option, none, some, ℕ, String, ◌==◌, if◌then◌else◌}
use plenuslb.Deployment.{Channel, close, open_channel}
use plenuslb.Errors.{Err, Result, ok, err}

-- `Election`, with the clients left out; `lock_name` is there once the election runs.
pub record Election : Type 0 where
  pub lease_lock_name : String
  pub lease_lock_namespace : String
  pub id : String
  pub im_leader : Bool

pub record ElectionRecord (R : Type 0) : Type 0 where
  pub holder_identity : String
  pub renew_time : ℕ
  pub rest : R

pub record LeaseLock (R E : Type 0) : Type 0 where
  pub get : E → Result (ElectionRecord R) × E
  pub update : ElectionRecord R → E → Option Err × E
  pub now : E → ℕ × E

-- `Init`
unfoldable pub init : String → String → Election → Election
init namespace id le = record le {
  lease_lock_name = "plenus.io-leader-lease";
  lease_lock_namespace = namespace;
  id = id;
}

-- The lock object and the times, in seconds, that the election is run with.
pub record ElectionConfig : Type 0 where
  pub name : String
  pub namespace : String
  pub identity : String
  pub release_on_cancel : Bool
  pub lease_duration : ℕ
  pub renew_deadline : ℕ
  pub retry_period : ℕ

-- `DoLeaderElection`, up to the callbacks.
unfoldable pub election_config : Election → ElectionConfig
election_config le = record {
  name = le.lease_lock_name;
  namespace = le.lease_lock_namespace;
  identity = le.id;
  release_on_cancel = false;
  lease_duration = 60;
  renew_deadline = 15;
  retry_period = 5;
}

-- `releaseLeader`
unfoldable pub release_leader : {R E : Type 0} → LeaseLock R E → E → Option Err × E
release_leader lock e =
    let (r, e1) = lock.get e in
    elim r [
      | err x ↦ (some x, e1)
      | ok held ↦
          let (now, e2) = lock.now e1 in
          lock.update (record held { holder_identity = ""; renew_time = now }) e2
    ]

-- How a callback ends: it returns, the process exits with code zero, it exits after `klog.Fatal`, or
-- it panics.
pub data Ending : Type 0 where
  returns exits fails panics : Ending

-- `OnStoppedLeading`, given the channel `stopCh`.
unfoldable pub on_stopped_leading :
    {R E : Type 0} → LeaseLock R E → Election → Channel → E → Ending × Election × Channel × E
on_stopped_leading lock le stop_ch e =
    let stopped = record le { im_leader = false } in
    let (r, e') = release_leader lock e in
    if le.im_leader
    then (elim (close stop_ch) [
      | none ↦ (panics, stopped, stop_ch, e)
      | some closed ↦ elim r [
        | some x ↦ (fails, stopped, closed, e')
        | none ↦ (exits, stopped, closed, e')
      ]
    ])
    else (returns, le, stop_ch, e)

-- What the start of the leader's work calls; `none` is the end of the process.
pub record Parts (S : Type 0) : Type 0 where
  pub create_allocation_crd : S → Option Err × S
  pub operator_init : S → Option S
  pub create_persistent_crd : S → Option Err × S
  pub persistent_init : S → Option S
  pub watch_persistent_pools : S → S
  pub create_ephemeral_crd : S → Option Err × S
  pub ephemeral_init : S → Option S
  pub watch_ephemeral_pools : S → S
  pub services_init : S → Option S
  pub watch_services : S → S
  pub allocations_init : S → Option S
  pub watch_allocations : S → S
  pub pools_init : S → S
  pub wait_for_cache_sync : S → Bool × S
  pub listen : S → S

abbrev pub or_die {ℓ} : {S : Type 0} {A : Type ℓ} → Option Err × S → (S → Option A) → Option A
or_die (none, s) k = k s
or_die (some x, s) k = none

abbrev pub and_then {ℓ} : {S : Type 0} {A : Type ℓ} → Option S → (S → Option A) → Option A
and_then none k = none
and_then (some s) k = k s

-- `OnStartedLeading`: whether the listeners were started, before it waits for the stop channel.
unfoldable pub on_started_leading :
    {S : Type 0} → Parts S → Election → S → Option (Bool × Election × S)
on_started_leading parts le s0 =
    let leading = record le { im_leader = true } in
    or_die (parts.create_allocation_crd s0) (λ s1. and_then (parts.operator_init s1) (λ s2.
      or_die (parts.create_persistent_crd s2) (λ s3. and_then (parts.persistent_init s3) (λ s4.
        or_die (parts.create_ephemeral_crd (parts.watch_persistent_pools s4)) (λ s5.
          and_then (parts.ephemeral_init s5) (λ s6.
            and_then (parts.services_init (parts.watch_ephemeral_pools s6)) (λ s7.
              and_then (parts.allocations_init (parts.watch_services s7)) (λ s8.
                let (synced, s9) =
                  parts.wait_for_cache_sync (parts.pools_init (parts.watch_allocations s8)) in
                if synced
                then some (true, leading, parts.listen s9)
                else some (false, leading, s9)))))))))

-- `OnNewLeader`: whether it logs the new leader.
unfoldable pub on_new_leader : Election → String → Bool
on_new_leader le identity = if identity == le.id then false else true
