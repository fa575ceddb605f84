-- ===== src/Wiring.antt =====
-- What the events do to the controller as a whole: the registrations of `Init` of
-- pkg/controller/allocationswatcher/allocationswatcher.go and of
-- pkg/controller/poolsController/poolsController.go, on the state that both handlers share.
--
-- The stores of pools are those of the world, and `none` is the end of the process. What a handler
-- returns is dropped, as the code drops it.
pub mod Keeps
pub mod Pools
pub mod System
pub mod Watched
use plenuslb.Base.{Option, none, some, List, [], String, true}
use plenuslb.Api.{PersistentPool, EphemeralPool}
use plenuslb.Deployment.{Cluster, Daemon, pool_modified, persistent_pool_gone, ephemeral_pool_gone}
use plenuslb.Errors.{Err}
use plenuslb.Events.{
  Topic, Bus, register_on_persistent_pool_modified, register_on_persistent_pool_deleted,
  register_on_ephemeral_pool_modified, register_on_ephemeral_pool_deleted,
  register_on_operator_node_lost, register_on_new_operator_node,
}
use plenuslb.Watcher.Events.{
  operator_node_lost, new_operator_node, persistent_pool_modified, persistent_pool_removed,
  ephemeral_pool_removed,
}
use plenuslb.World.{World, Api, M}

-- The world of the allocations, and the operators' deployment.
abbrev pub Controller : Type 0 → Type 0 → Type 0
Controller E K = World E × Daemon K

module _ {E K : Type 0} where
  abbrev pub in_world {ℓ} : {A : Type ℓ} → M E A → Controller E K → Option (Controller E K)
  in_world m (w, d) = elim (m w) [ none ↦ none | some (a, w') ↦ some (w', d) ]

  -- A handler of the pools controller, which reads the stores of pools.
  abbrev pub in_daemon :
      (List EphemeralPool → List PersistentPool → Daemon K → Option (Option Err × Daemon K))
      → Controller E K
      → Option (Controller E K)
  in_daemon f (w, d) = elim (f w.ephemeral_store w.persistent_store d) [
    | none ↦ none
    | some (e, d') ↦ some (w, d')
  ]

  -- `ephemeralPoolModified` of the allocations' watcher, which is still to do.
  unfoldable pub ephemeral_pool_modified : EphemeralPool → Controller E K → Option (Controller E K)
  ephemeral_pool_modified pool c = some c

module _ {E K : Type 0} (api : Api E) where
  -- `Init` of the allocations' watcher.
  unfoldable pub watcher_init : Bus (Controller E K) → Bus (Controller E K)
  watcher_init bus =
      let b1 =
        register_on_persistent_pool_modified (λ p. in_world (persistent_pool_modified api p)) bus in
      let b2 =
        register_on_persistent_pool_deleted (λ p. in_world (persistent_pool_removed api p)) b1 in
      let b3 = register_on_ephemeral_pool_modified ephemeral_pool_modified b2 in
      let b4 =
        register_on_ephemeral_pool_deleted (λ p. in_world (ephemeral_pool_removed api p)) b3 in
      let b5 = register_on_operator_node_lost (λ n. in_world (operator_node_lost api n)) b4 in
      register_on_new_operator_node (λ n. in_world (new_operator_node api n)) b5

module _ {E D K : Type 0} (cluster : Cluster D K) where
  -- `Init` of the pools controller.
  unfoldable pub pools_init : Bus (Controller E K) → Bus (Controller E K)
  pools_init bus =
      let b1 =
        register_on_persistent_pool_deleted (λ p. in_daemon (persistent_pool_gone cluster p)) bus in
      let b2 =
        register_on_ephemeral_pool_deleted (λ p. in_daemon (ephemeral_pool_gone cluster p)) b1 in
      let b3 = register_on_persistent_pool_modified (λ p. in_daemon (pool_modified cluster)) b2 in
      register_on_ephemeral_pool_modified (λ p. in_daemon (pool_modified cluster)) b3

-- No callback, and nothing in the channels.
abbrev pub silent {ℓ} : {A : Type ℓ} {W : Type 0} → Topic A W
silent = record { queue = []; callbacks = []; listening = true }

abbrev pub fresh : {W : Type 0} → Bus W
fresh = record {
  modified_pools = silent;
  deleted_pools = silent;
  modified_ephemeral_pools = silent;
  deleted_ephemeral_pools = silent;
  lost_nodes = silent;
  new_nodes = silent;
}
