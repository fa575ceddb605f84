-- ===== src/Deployment.antt =====
-- When the operators are deployed and deleted: pkg/controller/poolsController/poolsController.go, and
-- `DeployOrDie` and `Delete` of pkg/controller/operator/daemonset.go.
--
-- The calls on the daemon set and the wait for its pods are the interface `Cluster`, over a state `K`
-- and a type `D` of daemon sets; Daemonset fills it with the functions of the code. A channel has a
-- number, by which one made later is told apart; `channels` counts those made, and `informers` lists the
-- channels that the running informers of the operators' pods wait on. A handler runs alone here;
-- `deployed_first` is the state between two writes of `DeployOrDie`, which other goroutines can see,
-- since `Delete` and `IsDeployed` take no lock. `none` is the end of the process: `klog.Fatal`, or a
-- panic.
pub mod Required
use plenuslb.Base.{
  Bool, true, false, not, ◌&&◌, ◌||◌, Option, none, some, List, [], ◌∷◌, any, keep, ℕ, ◌+◌, nat_eq,
}
use plenuslb.Base.{if◌then◌else◌}
use plenuslb.Api.{
  PersistentPool, EphemeralPool, persistent_pool_has_host_network_option,
  ephemeral_pool_has_host_network_option,
}
use plenuslb.Errors.{Err, Result, ok, err}

-- The channel `stopWatch`; the end of the process follows the close of one that is not open.
pub data Channel : Type 0 where
  no_channel : Channel
  open_channel : ℕ → Channel
  closed_channel : ℕ → Channel

pub record Cluster (D K : Type 0) : Type 0 where
  pub create : K → Option (Result D × K)
  pub wait_for_resources : D → K → Option Err × K
  pub delete : K → Option Err × K

pub record Daemon (K : Type 0) : Type 0 where
  pub deployed : Bool
  pub stop_watch : Channel
  pub channels : ℕ
  pub informers : List ℕ
  pub cluster : K

abbrev pub close : Channel → Option Channel
close (open_channel n) = some (closed_channel n)
close _ = none

-- The informers that go on when a channel is closed.
abbrev pub stop : Channel → List ℕ → List ℕ
stop (open_channel n) l = keep (λ m. not (nat_eq m n)) l
stop _ l = l

-- A new channel is made for `stopWatch`, and a new informer of the operators' pods runs until that channel
-- is closed.
unfoldable pub watch : {K : Type 0} → Daemon K → Daemon K
watch d = record d {
  stop_watch = open_channel d.channels;
  channels = d.channels + 1;
  informers = d.channels ∷ d.informers;
}

-- The first write of `DeployOrDie` after a deployment: `stopWatch` is as it was.
unfoldable pub deployed_first : {K : Type 0} → K → Daemon K → Daemon K
deployed_first k d = record d { deployed = true; cluster = k }

-- `atLeastOnePoolHasHostNetworkOption`
unfoldable pub at_least_one_pool_has_host_network_option :
    List EphemeralPool → List PersistentPool → Bool
at_least_one_pool_has_host_network_option ephemeral persistent =
    any ephemeral_pool_has_host_network_option ephemeral
    || any persistent_pool_has_host_network_option persistent

module _ {D K : Type 0} (api : Cluster D K) where
  -- `Delete`
  unfoldable pub delete : Daemon K → Option (Option Err × Daemon K)
  delete d =
      let (e, k) = api.delete d.cluster in
      elim e [
        | some x ↦ some (some x, record d { cluster = k })
        | none ↦ elim (close d.stop_watch) [
          | none ↦ none
          | some c ↦ some (
            none,
            record d {
              deployed = false;
              stop_watch = c;
              informers = stop d.stop_watch d.informers;
              cluster = k;
            },
          )
        ]
      ]

  -- `DeployOrDie`. Where the wait fails, the process ends after the deletion.
  unfoldable pub deploy_or_die : Daemon K → Option (Option Err × Daemon K)
  unfolding watch deployed_first
  deploy_or_die d = if d.deployed then some (none, d) else (elim (api.create d.cluster) [
    | none ↦ none
    | some (err x, k) ↦ some (some x, record d { deployed = false; cluster = k })
    | some (ok daemonset, k) ↦
        let (e, k') = api.wait_for_resources daemonset k in
        elim e [ some x ↦ none | none ↦ some (none, watch (deployed_first k' d)) ]
  ])

  -- What the four handlers do once they know whether some pool has the option.
  unfoldable pub deploy_or_delete : Bool → Daemon K → Option (Option Err × Daemon K)
  unfolding delete deploy_or_die
  deploy_or_delete required d =
      if required && not d.deployed
      then deploy_or_die d
      else (if not required && d.deployed then delete d else some (none, d))

  -- `persistentPoolModified` and `ephemeralPoolModified`, given the lists of pools.
  unfoldable pub pool_modified :
      List EphemeralPool → List PersistentPool → Daemon K → Option (Option Err × Daemon K)
  unfolding deploy_or_delete at_least_one_pool_has_host_network_option
  pool_modified ephemeral persistent d =
      deploy_or_delete (at_least_one_pool_has_host_network_option ephemeral persistent) d

  -- `persistentPoolRemoved`
  unfoldable pub persistent_pool_gone :
      PersistentPool
      → List EphemeralPool
      → List PersistentPool
      → Daemon K
      → Option (Option Err × Daemon K)
  unfolding pool_modified
  persistent_pool_gone pool ephemeral persistent d =
      if persistent_pool_has_host_network_option pool
      then pool_modified ephemeral persistent d
      else some (none, d)

  -- `ephemeralPoolRemoved`
  unfoldable pub ephemeral_pool_gone :
      EphemeralPool
      → List EphemeralPool
      → List PersistentPool
      → Daemon K
      → Option (Option Err × Daemon K)
  unfolding pool_modified
  ephemeral_pool_gone pool ephemeral persistent d =
      if ephemeral_pool_has_host_network_option pool
      then pool_modified ephemeral persistent d
      else some (none, d)
