-- ===== src/Wiring/Pools.antt =====
-- What the events of pools do to the allocations and the operators together.
use plenuslb.Base.{Option, some, ◌≡◌, inl, inr, arith}
use plenuslb.Base.{Option-cases}
use plenuslb.Api.{PersistentPool}
use plenuslb.Deployment.{Cluster, Daemon, persistent_pool_gone}
use plenuslb.Errors.{Err}
use plenuslb.Events.{
  Bus, call_back, register_on_persistent_pool_modified, register_on_persistent_pool_deleted,
  register_on_ephemeral_pool_modified, register_on_ephemeral_pool_deleted,
  register_on_operator_node_lost, register_on_new_operator_node,
}
use plenuslb.Watcher.Events.{persistent_pool_removed}
use plenuslb.Wiring.{Controller, watcher_init, pools_init, fresh}
use plenuslb.World.{World, Api}

module _ {E D K : Type 0} (api : Api E) (cluster : Cluster D K) where
  abbrev pub started : Bus (Controller E K)
  started = pools_init cluster (watcher_init api fresh)

  -- Once both parts are initialised, the event of a removed persistent pool takes its addresses off the
  -- allocations first, and then deploys or deletes the operators as the remaining pools want it;
  -- the event has been handled if and only if both have returned.
  pub deleted_pool_event :
      (pool : PersistentPool) (w w' : World E) (d d' : Daemon K)
      → call_back started.deleted_pools.callbacks pool (w, d) ≡ some (w', d')
      → (persistent_pool_removed api pool w ≡ some (tt, w'))
        × (e : Option Err) × (persistent_pool_gone cluster pool w'.ephemeral_store
              w'.persistent_store d
            ≡ some (e, d'))
  unfolding pools_init watcher_init register_on_persistent_pool_modified
      register_on_persistent_pool_deleted register_on_ephemeral_pool_modified
      register_on_ephemeral_pool_deleted register_on_operator_node_lost
      register_on_new_operator_node
  deleted_pool_event pool w w' d d' h = elim (Option-cases (persistent_pool_removed api pool w)) [
    | inl n ↦ absurd (ground arith)
    | inr ((u, w1), r) ↦
        elim (Option-cases
          (persistent_pool_gone cluster pool w1.ephemeral_store w1.persistent_store d)) [
            | inl n ↦ absurd (ground arith)
            | inr ((e, d1), g) ↦ (ground arith, e, ground arith)
          ]
  ]
