-- ===== src/Wiring/Watched.antt =====
-- The informer of the operators' pods, and the informers, the channels and the listeners together.
use plenuslb.Base.{true, false, Option, some, List, [], ◌∷◌, ◌≡◌, refl, inl, inr, arith}
use plenuslb.Base.{Option-cases}
use plenuslb.Api.{
  PersistentPool, EphemeralPool, persistent_pool_has_host_network_option,
  ephemeral_pool_has_host_network_option,
}
use plenuslb.Daemonset.{Config}
use plenuslb.Daemonset.Calls.{Kube, cluster, init}
use mathlib.Core.Path.{subst, sym}
use plenuslb.Daemonset.Lost
use plenuslb.Daemonset.Lost.{handle-is_watched, init-is_watched}
use plenuslb.Daemonset.Nodes.{handle_pod}
use plenuslb.Deployment
use plenuslb.Deployment.{
  Cluster, Daemon, no_channel, deploy_or_die, watch, delete, deploy_or_delete, persistent_pool_gone,
  ephemeral_pool_gone,
}
use plenuslb.Deployment.Required.{is_watched, pool_modified-deployed}
use plenuslb.Errors.{Err}
use plenuslb.Events
use plenuslb.Events.{
  Topic, Bus, publish, receive, call_back, persistent_pool_deleted, ephemeral_pool_modified,
  ephemeral_pool_deleted, register_on_persistent_pool_modified, register_on_persistent_pool_deleted,
  register_on_ephemeral_pool_modified, register_on_ephemeral_pool_deleted,
  register_on_operator_node_lost, register_on_new_operator_node,
}
use plenuslb.Watcher.Events as Watcher
use plenuslb.Wiring
use plenuslb.Wiring.{Controller, watcher_init, pools_init, fresh, in_world, in_daemon}
use plenuslb.Wiring.Pools.{started}
use plenuslb.Wiring.System.{
  Action, pool_added, pool_modified, pool_deleted, ephemeral_added, ephemeral_modified,
  ephemeral_deleted, pod_changed, hears_modified, hears_deleted, hears_ephemeral_modified,
  hears_ephemeral_deleted, hears_lost, hears_new, deploy_for, add_persistent_pool,
  add_ephemeral_pool, send_all, act, act_all,
}
use plenuslb.World.{World, Api}
use plenuslb.Wiring.Keeps.{
  Callbacks, callbacks, Keeps, KeepsWatched, call_one, call_both, in_world-Keeps, in_daemon-Keeps,
  receive-is_watched, publish-callbacks, send_all-callbacks, deploy_for-is_watched,
  persistent_pool_gone-is_watched, ephemeral_pool_gone-is_watched,
}

module _ {E K : Type 0} (kube : Kube K) (config : Config) where
  act-is_watched :
      (a : Action) (b b' : Bus (Controller E K)) (w w' : World E) (d d' : Daemon K)
      → KeepsWatched (callbacks b)
      → is_watched d ≡ true
      → act kube config a (b, (w, d)) ≡ some (b', (w', d'))
      → (is_watched d' ≡ true) × (callbacks b' ≡ callbacks b)
  unfolding act Events.persistent_pool_modified persistent_pool_deleted ephemeral_pool_modified
      ephemeral_pool_deleted add_persistent_pool add_ephemeral_pool
  act-is_watched (pool_added p) b b' w w' d d' keeps watched h =
      elim (Option-cases
        (deploy_for (cluster kube config) (persistent_pool_has_host_network_option p) d)) [
          | inl e ↦ absurd (ground arith)
          | inr (d1, e) ↦ ground (
            arith,
            deploy_for-is_watched (cluster kube config) (persistent_pool_has_host_network_option p)
                d d1 watched e,
          )
        ]
  act-is_watched (pool_modified p) b b' w w' d d' keeps watched h =
      elim (Option-cases (publish p b.modified_pools)) [
        | inl e ↦ absurd (ground arith)
        | inr (t, e) ↦ (ground arith, ground (arith, publish-callbacks p b.modified_pools t e))
      ]
  act-is_watched (pool_deleted p) b b' w w' d d' keeps watched h =
      elim (Option-cases (publish p b.deleted_pools)) [
        | inl e ↦ absurd (ground arith)
        | inr (t, e) ↦ (ground arith, ground (arith, publish-callbacks p b.deleted_pools t e))
      ]
  act-is_watched (ephemeral_added p) b b' w w' d d' keeps watched h =
      elim (Option-cases
        (deploy_for (cluster kube config) (ephemeral_pool_has_host_network_option p) d)) [
          | inl e ↦ absurd (ground arith)
          | inr (d1, e) ↦ ground (
            arith,
            deploy_for-is_watched (cluster kube config) (ephemeral_pool_has_host_network_option p) d
                d1 watched e,
          )
        ]
  act-is_watched (ephemeral_modified p) b b' w w' d d' keeps watched h =
      elim (Option-cases (publish p b.modified_ephemeral_pools)) [
        | inl e ↦ absurd (ground arith)
        | inr (t, e) ↦
            (ground arith, ground (arith, publish-callbacks p b.modified_ephemeral_pools t e))
      ]
  act-is_watched (ephemeral_deleted p) b b' w w' d d' keeps watched h =
      elim (Option-cases (publish p b.deleted_ephemeral_pools)) [
        | inl e ↦ absurd (ground arith)
        | inr (t, e) ↦
            (ground arith, ground (arith, publish-callbacks p b.deleted_ephemeral_pools t e))
      ]
  act-is_watched (pod_changed c) b b' w w' d d' keeps watched h =
      elim (Option-cases (handle_pod kube config c d)) [
        | inl e ↦ absurd (ground arith)
        | inr ((es, d1), e) ↦ elim (Option-cases (send_all es b)) [
          | inl f ↦ absurd (ground arith)
          | inr (b1, f) ↦ ground (
            arith,
            handle-is_watched kube config (Lost.pod c) d d1 watched (ground arith),
            send_all-callbacks es b b1 f,
          )
        ]
      ]
  act-is_watched hears_modified b b' w w' d d' keeps watched h =
      elim (Option-cases (receive b.modified_pools (w, d))) [
        | inl e ↦ absurd (ground arith)
        | inr ((t, c), e) ↦
            ground (arith, receive-is_watched b.modified_pools t (w, d) c keeps.modified watched e)
      ]
  act-is_watched hears_deleted b b' w w' d d' keeps watched h =
      elim (Option-cases (receive b.deleted_pools (w, d))) [
        | inl e ↦ absurd (ground arith)
        | inr ((t, c), e) ↦
            ground (arith, receive-is_watched b.deleted_pools t (w, d) c keeps.deleted watched e)
      ]
  act-is_watched hears_ephemeral_modified b b' w w' d d' keeps watched h =
      elim (Option-cases (receive b.modified_ephemeral_pools (w, d))) [
        | inl e ↦ absurd (ground arith)
        | inr ((t, c), e) ↦ ground (
          arith,
          receive-is_watched b.modified_ephemeral_pools t (w, d) c keeps.changed watched e,
        )
      ]
  act-is_watched hears_ephemeral_deleted b b' w w' d d' keeps watched h =
      elim (Option-cases (receive b.deleted_ephemeral_pools (w, d))) [
        | inl e ↦ absurd (ground arith)
        | inr ((t, c), e) ↦
            ground (
              arith,
              receive-is_watched b.deleted_ephemeral_pools t (w, d) c keeps.removed watched e,
            )
      ]
  act-is_watched hears_lost b b' w w' d d' keeps watched h =
      elim (Option-cases (receive b.lost_nodes (w, d))) [
        | inl e ↦ absurd (ground arith)
        | inr ((t, c), e) ↦
            ground (arith, receive-is_watched b.lost_nodes t (w, d) c keeps.lost watched e)
      ]
  act-is_watched hears_new b b' w w' d d' keeps watched h =
      elim (Option-cases (receive b.new_nodes (w, d))) [
        | inl e ↦ absurd (ground arith)
        | inr ((t, c), e) ↦
            ground (arith, receive-is_watched b.new_nodes t (w, d) c keeps.new watched e)
      ]

  act_all-is_watched :
      (l : List Action) (b b' : Bus (Controller E K)) (w w' : World E) (d d' : Daemon K)
      → KeepsWatched (callbacks b)
      → is_watched d ≡ true
      → act_all kube config l (b, (w, d)) ≡ some (b', (w', d'))
      → is_watched d' ≡ true
  act_all-is_watched [] b b' w w' d d' keeps watched h = ground arith
  act_all-is_watched (a ∷ l) b b' w w' d d' keeps watched h =
      elim (Option-cases (act kube config a (b, (w, d)))) [
        | inl e ↦ absurd (ground arith)
        | inr ((b1, (w1, d1)), e) ↦
            let (still, same) = act-is_watched a b b1 w w1 d d1 keeps watched e in
            act_all-is_watched l b1 b' w1 w' d1 d'
              (subst (λ (cs : Callbacks (Controller E K)). KeepsWatched cs) (sym same) keeps) still
              (ground arith)
      ]

ephemeral_pool_modified-Keeps :
    {E K : Type 0} → Keeps (Wiring.ephemeral_pool_modified {E = E} {K = K})
unfolding Wiring.ephemeral_pool_modified
ephemeral_pool_modified-Keeps p c c' watched h = ground arith

module _ {E K : Type 0} (api : Api E) (kube : Kube K) (config : Config) where
  pools_keep :
      {A : Type 0} (a : A) (l : List EphemeralPool) (m : List PersistentPool) (d d' : Daemon K)
      (e : Option Err)
      → is_watched d ≡ true
      → Deployment.pool_modified (cluster kube config) l m d ≡ some (e, d')
      → is_watched d' ≡ true
  pools_keep a l m d d' e watched h =
      (pool_modified-deployed (cluster kube config) l m d d' e watched h).0

  started-KeepsWatched : KeepsWatched (callbacks (started api (cluster kube config)))
  unfolding pools_init watcher_init register_on_persistent_pool_modified
      register_on_persistent_pool_deleted register_on_ephemeral_pool_modified
      register_on_ephemeral_pool_deleted register_on_operator_node_lost
      register_on_new_operator_node
  started-KeepsWatched = record {
    modified =
        call_both (λ p. in_world (Watcher.persistent_pool_modified api p))
          (λ p. in_daemon (Deployment.pool_modified (cluster kube config)))
          (in_world-Keeps (λ p. Watcher.persistent_pool_modified api p))
          (in_daemon-Keeps (λ p. Deployment.pool_modified (cluster kube config)) pools_keep);
    deleted =
        call_both (λ p. in_world (Watcher.persistent_pool_removed api p))
          (λ p. in_daemon (persistent_pool_gone (cluster kube config) p))
          (in_world-Keeps (λ p. Watcher.persistent_pool_removed api p))
          (in_daemon-Keeps (persistent_pool_gone (cluster kube config))
            (persistent_pool_gone-is_watched (cluster kube config)));
    changed =
        call_both Wiring.ephemeral_pool_modified
          (λ p. in_daemon (Deployment.pool_modified (cluster kube config)))
          ephemeral_pool_modified-Keeps
          (in_daemon-Keeps (λ p. Deployment.pool_modified (cluster kube config)) pools_keep);
    removed =
        call_both (λ p. in_world (Watcher.ephemeral_pool_removed api p))
          (λ p. in_daemon (ephemeral_pool_gone (cluster kube config) p))
          (in_world-Keeps (λ p. Watcher.ephemeral_pool_removed api p))
          (in_daemon-Keeps (ephemeral_pool_gone (cluster kube config))
            (ephemeral_pool_gone-is_watched (cluster kube config)));
    lost =
        call_one (λ n. in_world (Watcher.operator_node_lost api n))
          (in_world-Keeps (λ n. Watcher.operator_node_lost api n));
    new =
        call_one (λ n. in_world (Watcher.new_operator_node api n))
          (in_world-Keeps (λ n. Watcher.new_operator_node api n));
  }

  -- From a start that returned, with the callbacks of both parts registered, in any order of the reports
  -- of the informers on pools and on the operators' pods and of the receipts of the listeners, and
  -- whatever is outside, if each handler is over before the next one starts, the channel of the
  -- informer is open while the operators count as deployed.
  pub system_watched :
      (l : List Action) (k : K) (w w' : World E) (d d' : Daemon K) (b' : Bus (Controller E K))
      → init kube config (record {
        deployed = false;
        stop_watch = no_channel;
        channels = 0;
        informers = [];
        cluster = k;
      })
        ≡ some d
      → act_all kube config l (started api (cluster kube config), (w, d)) ≡ some (b', (w', d'))
      → is_watched d' ≡ true
  system_watched l k w w' d d' b' h later =
      act_all-is_watched kube config l (started api (cluster kube config)) b' w w' d d'
        started-KeepsWatched (init-is_watched kube config [] k d d h refl) later
