-- ===== src/Wiring/System.antt =====
-- The informers, the channels and the listeners together: the handlers `addPool`, `modifyPool` and
-- `removePool` of pkg/controller/persistentips/watcher.go and pkg/controller/ephemeralips/watcher.go,
-- those of the operators' pods, and the listeners of pkg/controller/events, in any order, but one at a
-- time: these are the runs in which each handler is over before the next starts. The code keeps no lock
-- that would see to that; `pool_modified_panics` of Deployment/Required is about two that overlap.
use plenuslb.Base.{Bool, not, ◌&&◌, Option, none, some, List, [], ◌∷◌}
use plenuslb.Base.{if◌then◌else◌}
use plenuslb.Api.{
  PersistentPool, EphemeralPool, persistent_pool_has_host_network_option,
  ephemeral_pool_has_host_network_option,
}
use plenuslb.Daemonset.{Config}
use plenuslb.Daemonset.Calls.{Kube, cluster}
use plenuslb.Daemonset.Nodes.{NodeEvent, new_node, node_lost, PodChange, handle_pod}
use plenuslb.Deployment.{Cluster, Daemon, deploy_or_die}
use plenuslb.Events
use plenuslb.Events.{
  Topic, Bus, publish, receive, persistent_pool_deleted, ephemeral_pool_modified,
  ephemeral_pool_deleted,
}
use plenuslb.Pools.{add_pool}
use plenuslb.Wiring.{Controller}

-- The channels with the callbacks, and the state that the handlers share.
abbrev pub System : Type 0 → Type 0 → Type 0
System E K = Bus (Controller E K) × Controller E K

-- What happens next: an informer reports a pool or a pod of the operators, or a listener receives.
pub data Action : Type 0 where
  pool_added pool_modified pool_deleted : PersistentPool → Action
  ephemeral_added ephemeral_modified ephemeral_deleted : EphemeralPool → Action
  pod_changed : PodChange → Action
  hears_modified hears_deleted hears_ephemeral_modified hears_ephemeral_deleted : Action
  hears_lost hears_new : Action

module _ {D K : Type 0} (cluster : Cluster D K) where
  -- The end of `addPool`: the operators are deployed where the pool wants them.
  abbrev pub deploy_for : Bool → Daemon K → Option (Daemon K)
  deploy_for wanted d =
      if wanted && not d.deployed
      then (elim (deploy_or_die cluster d) [ none ↦ none | some r ↦ some r.1 ])
      else some d

module _ {E D K : Type 0} (cluster : Cluster D K) where
  -- `addPool` of the persistent pools.
  unfoldable pub add_persistent_pool : PersistentPool → Controller E K → Option (Controller E K)
  add_persistent_pool pool (w, d) =
      elim (deploy_for cluster (persistent_pool_has_host_network_option pool) d) [
        | none ↦ none
        | some d' ↦ some (record w { avail = add_pool pool w.avail }, d')
      ]

  -- `addPool` of the ephemeral pools.
  unfoldable pub add_ephemeral_pool : EphemeralPool → Controller E K → Option (Controller E K)
  add_ephemeral_pool pool (w, d) =
      elim (deploy_for cluster (ephemeral_pool_has_host_network_option pool) d) [
        | none ↦ none
        | some d' ↦ some (w, d')
      ]

module _ {W : Type 0} where
  -- The events that the handlers of the operators' pods send.
  unfoldable pub send_all : List NodeEvent → Bus W → Option (Bus W)
  send_all [] b = some b
  send_all (new_node n ∷ es) b = elim (Events.new_operator_node n b) [
    | none ↦ none
    | some b' ↦ send_all es b'
  ]
  send_all (node_lost n ∷ es) b = elim (Events.operator_node_lost n b) [
    | none ↦ none
    | some b' ↦ send_all es b'
  ]

  -- A listener that receives from its channel.
  abbrev pub hear {ℓ} : {A : Type ℓ} → (Topic A W → Bus W) → Topic A W → W → Option (Bus W × W)
  hear put t c = elim (receive t c) [ none ↦ none | some r ↦ some (put r.0, r.1) ]

  abbrev pub with_bus : Option (Bus W) → W → Option (Bus W × W)
  with_bus none c = none
  with_bus (some b) c = some (b, c)

  abbrev pub with_bus_of : Bus W → Option W → Option (Bus W × W)
  with_bus_of b none = none
  with_bus_of b (some c) = some (b, c)

module _ {E K : Type 0} (kube : Kube K) (config : Config) where
  -- `none` is the end of the process, or a send that has to wait.
  unfoldable pub act : Action → System E K → Option (System E K)
  act (pool_added p) (b, c) = with_bus_of b (add_persistent_pool (cluster kube config) p c)
  act (pool_modified p) (b, c) = with_bus (Events.persistent_pool_modified p b) c
  act (pool_deleted p) (b, c) = with_bus (persistent_pool_deleted p b) c
  act (ephemeral_added p) (b, c) = with_bus_of b (add_ephemeral_pool (cluster kube config) p c)
  act (ephemeral_modified p) (b, c) = with_bus (ephemeral_pool_modified p b) c
  act (ephemeral_deleted p) (b, c) = with_bus (ephemeral_pool_deleted p b) c
  act (pod_changed change) (b, (w, d)) = elim (handle_pod kube config change d) [
    | none ↦ none
    | some (es, d') ↦ with_bus (send_all es b) (w, d')
  ]
  act hears_modified (b, c) = hear (λ t. record b { modified_pools = t }) b.modified_pools c
  act hears_deleted (b, c) = hear (λ t. record b { deleted_pools = t }) b.deleted_pools c
  act hears_ephemeral_modified (b, c) =
      hear (λ t. record b { modified_ephemeral_pools = t }) b.modified_ephemeral_pools c
  act hears_ephemeral_deleted (b, c) =
      hear (λ t. record b { deleted_ephemeral_pools = t }) b.deleted_ephemeral_pools c
  act hears_lost (b, c) = hear (λ t. record b { lost_nodes = t }) b.lost_nodes c
  act hears_new (b, c) = hear (λ t. record b { new_nodes = t }) b.new_nodes c

  abbrev pub act_all : List Action → System E K → Option (System E K)
  act_all [] s = some s
  act_all (a ∷ l) s = elim (act a s) [ none ↦ none | some s' ↦ act_all l s' ]
