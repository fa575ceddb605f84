-- ===== src/Deployment/Required.antt =====
-- The operators are deployed as the pools require, and their deletion does not end the process.
use plenuslb.Base.{Bool, true, false, not, ◌||◌, Option, none, some, List, ◌≡◌, ◌≢◌, arith, ◌⊎◌}
use plenuslb.Api.{EphemeralPool, PersistentPool}
use plenuslb.Deployment.{
  Channel, open_channel, Cluster, Daemon, watch, deployed_first, delete, deploy_or_die,
  deploy_or_delete, pool_modified, at_least_one_pool_has_host_network_option,
}
use plenuslb.Errors.{Err}

abbrev pub is_open : Channel → Bool
is_open (open_channel n) = true
is_open _ = false

-- The channel is open while the operators are deployed.
abbrev pub is_watched : {K : Type 0} → Daemon K → Bool
is_watched d = not d.deployed || is_open d.stop_watch

module _ {D K : Type 0} (api : Cluster D K) where
  -- If the channel is open while the operators are deployed, and the handler of a changed pool
  -- returns, then the same holds after it; and if it returns no error, then the operators are
  -- deployed exactly if some pool has the host network option.
  pub pool_modified-deployed :
      (ephemeral : List EphemeralPool) (persistent : List PersistentPool) (d d' : Daemon K)
      (e : Option Err)
      → is_watched d ≡ true
      → pool_modified api ephemeral persistent d ≡ some (e, d')
      → (is_watched d' ≡ true)
        × ((e ≢ none)
            ⊎ (d'.deployed ≡ at_least_one_pool_has_host_network_option ephemeral persistent))
  unfolding pool_modified deploy_or_delete delete deploy_or_die deployed_first watch
  pool_modified-deployed ephemeral persistent d d' e watched h = (ground arith, ground arith)

  -- If the channel is open while the operators are deployed, the process outlives a change of the
  -- pools after which no pool has the host network option.
  pub pool_modified_survives :
      (ephemeral : List EphemeralPool) (persistent : List PersistentPool) (d : Daemon K)
      → is_watched d ≡ true
      → at_least_one_pool_has_host_network_option ephemeral persistent ≡ false
      → pool_modified api ephemeral persistent d ≢ none
  unfolding pool_modified deploy_or_delete delete deploy_or_die deployed_first watch
  pool_modified_survives ephemeral persistent d watched none_left h = ground arith

  -- Suppose that DeployOrDie deploys the operators where no informer ran before, and that then no pool wants
  -- them and they can be deleted. If the handler of a changed pool runs once DeployOrDie has counted
  -- the operators as deployed, and before it has made the channel of its informer, it ends the
  -- process, for it closes a channel that is not open; if it runs after DeployOrDie, it does not.
  pub pool_modified_panics :
      (ephemeral : List EphemeralPool) (persistent : List PersistentPool) (d d' : Daemon K) (k : K)
      → d.deployed ≡ false
      → is_open d.stop_watch ≡ false
      → deploy_or_die api d ≡ some (none, d')
      → at_least_one_pool_has_host_network_option ephemeral persistent ≡ false
      → api.delete d'.cluster ≡ (none, k)
      → (pool_modified api ephemeral persistent (deployed_first d'.cluster d) ≡ none)
        × (pool_modified api ephemeral persistent d' ≢ none)
  unfolding pool_modified deploy_or_delete delete deploy_or_die deployed_first watch
  pool_modified_panics ephemeral persistent d d' k fresh not_open deploys none_left deletes =
      (ground arith, λ ends. ground arith)
