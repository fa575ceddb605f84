-- ===== src/Wiring/Keeps.antt =====
-- The callbacks of the channels that leave the informer of the operators' pods watched, and what a
-- send and a receipt do to the callbacks.
use plenuslb.Base.{Bool, true, Option, some, List, [], ◌∷◌, String, ◌≡◌, inl, inr, arith}
use plenuslb.Base.{Option-cases}
use plenuslb.Api.{PersistentPool, EphemeralPool}
use plenuslb.Daemonset.Nodes.{NodeEvent, new_node, node_lost}
use plenuslb.Deployment.{
  Cluster, Daemon, deploy_or_die, deployed_first, watch, persistent_pool_gone, ephemeral_pool_gone,
}
use plenuslb.Deployment.Required.{is_watched, pool_modified-deployed}
use plenuslb.Errors.{Err}
use plenuslb.Events
use plenuslb.Events.Order.{List-cases}
use plenuslb.Events.{
  Topic, Bus, publish, receive, call_back, persistent_pool_deleted, ephemeral_pool_modified,
  ephemeral_pool_deleted, register_on_persistent_pool_modified, register_on_persistent_pool_deleted,
  register_on_ephemeral_pool_modified, register_on_ephemeral_pool_deleted,
  register_on_operator_node_lost, register_on_new_operator_node,
}
use plenuslb.Wiring.{Controller, in_world, in_daemon}
use plenuslb.Wiring.System.{deploy_for, send_all}
use plenuslb.World.{M}

-- The callbacks of every channel.
abbrev pub Callbacks : Type 0 → Type 0
Callbacks W =
    List (PersistentPool → W → Option W)
    × List (PersistentPool → W → Option W)
    × List (EphemeralPool → W → Option W)
    × List (EphemeralPool → W → Option W)
    × List (String → W → Option W)
    × List (String → W → Option W)

abbrev pub callbacks : {W : Type 0} → Bus W → Callbacks W
callbacks b = (
  b.modified_pools.callbacks, b.deleted_pools.callbacks, b.modified_ephemeral_pools.callbacks,
  b.deleted_ephemeral_pools.callbacks, b.lost_nodes.callbacks, b.new_nodes.callbacks,
)

module _ {E K : Type 0} where
  -- A callback, and a list of callbacks, that leave the informer watched.
  abbrev pub Keeps {ℓ} : {A : Type ℓ} → (A → Controller E K → Option (Controller E K)) → Type ℓ
  Keeps {A = A} cb =
      (a : A) (c c' : Controller E K)
      → is_watched c.1 ≡ true
      → cb a c ≡ some c'
      → is_watched c'.1 ≡ true

  call_back-Keeps {ℓ} :
      {A : Type ℓ} (cb : A → Controller E K → Option (Controller E K))
      (cbs : List (A → Controller E K → Option (Controller E K)))
      → Keeps cb
      → Keeps (call_back cbs)
      → Keeps (call_back (cb ∷ cbs))
  call_back-Keeps cb cbs k ks a c c' watched h = elim (Option-cases (cb a c)) [
    | inl n ↦ absurd (ground arith)
    | inr (c1, e) ↦ ks a c1 c' (k a c c1 watched e) (ground arith)
  ]

  call_back_end {ℓ} : {A : Type ℓ} → Keeps (call_back {A = A} [])
  call_back_end a c c' watched h = ground arith

  pub call_one {ℓ} :
      {A : Type ℓ} (cb : A → Controller E K → Option (Controller E K))
      → Keeps cb
      → Keeps (call_back (cb ∷ []))
  call_one cb k = call_back-Keeps cb [] k call_back_end

  pub call_both {ℓ} :
      {A : Type ℓ} (cb cb' : A → Controller E K → Option (Controller E K))
      → Keeps cb
      → Keeps cb'
      → Keeps (call_back (cb ∷ cb' ∷ []))
  call_both cb cb' k k' = call_back-Keeps cb (cb' ∷ []) k (call_one cb' k')

  pub in_world-Keeps {ℓ κ} :
      {A : Type ℓ} {B : Type κ} (m : A → M E B) → Keeps (λ (a : A). in_world (m a))
  in_world-Keeps m a (w, d) (w', d') watched h = elim (Option-cases (m a w)) [
    | inl n ↦ absurd (ground arith)
    | inr ((b, w1), e) ↦ ground arith
  ]

  pub in_daemon-Keeps {ℓ} :
      {A : Type ℓ}
      (f : A → List EphemeralPool → List PersistentPool → Daemon K → Option (Option Err × Daemon K))
      → ((a : A) (l : List EphemeralPool) (m : List PersistentPool) (d d' : Daemon K)
            (e : Option Err)
          → is_watched d ≡ true
          → f a l m d ≡ some (e, d')
          → is_watched d' ≡ true)
      → Keeps (λ (a : A). in_daemon (f a))
  in_daemon-Keeps f k a (w, d) (w', d') watched h =
      elim (Option-cases (f a w.ephemeral_store w.persistent_store d)) [
        | inl n ↦ absurd (ground arith)
        | inr ((e, d1), g) ↦
            ground (arith, k a w.ephemeral_store w.persistent_store d d1 e watched g)
      ]

  pub receive-is_watched {ℓ} :
      {A : Type ℓ} (t t' : Topic A (Controller E K)) (c c' : Controller E K)
      → Keeps (call_back t.callbacks)
      → is_watched c.1 ≡ true
      → receive t c ≡ some (t', c')
      → (is_watched c'.1 ≡ true) × (t'.callbacks ≡ t.callbacks)
  receive-is_watched t t' c c' keeps watched h = elim (List-cases t.queue) [
    | inl e ↦ (ground arith, ground arith)
    | inr (a, rest, e) ↦ elim (Option-cases (call_back t.callbacks a c)) [
      | inl n ↦ absurd (ground arith)
      | inr (c1, n) ↦ (ground (arith, keeps a c c1 watched n), ground arith)
    ]
  ]

  pub publish-callbacks {ℓ} :
      {A : Type ℓ} (a : A) (t t' : Topic A (Controller E K))
      → publish a t ≡ some t'
      → t'.callbacks ≡ t.callbacks
  publish-callbacks a t t' h = ground arith

  pub send_all-callbacks :
      (es : List NodeEvent) (b b' : Bus (Controller E K))
      → send_all es b ≡ some b'
      → callbacks b' ≡ callbacks b
  unfolding send_all Events.new_operator_node Events.operator_node_lost
  send_all-callbacks [] b b' h = ground arith
  send_all-callbacks (new_node n ∷ es) b b' h = elim (Option-cases (publish n b.new_nodes)) [
    | inl e ↦ absurd (ground arith)
    | inr (t, e) ↦ ground (
      arith,
      publish-callbacks n b.new_nodes t e,
      send_all-callbacks es (record b { new_nodes = t }) b',
    )
  ]
  send_all-callbacks (node_lost n ∷ es) b b' h = elim (Option-cases (publish n b.lost_nodes)) [
    | inl e ↦ absurd (ground arith)
    | inr (t, e) ↦ ground (
      arith,
      publish-callbacks n b.lost_nodes t e,
      send_all-callbacks es (record b { lost_nodes = t }) b',
    )
  ]

module _ {D K : Type 0} (cluster : Cluster D K) where
  pub deploy_for-is_watched :
      (wanted : Bool) (d d' : Daemon K)
      → is_watched d ≡ true
      → deploy_for cluster wanted d ≡ some d'
      → is_watched d' ≡ true
  unfolding deploy_or_die deployed_first watch
  deploy_for-is_watched wanted d d' watched h = ground arith

  pub persistent_pool_gone-is_watched :
      (pool : PersistentPool) (l : List EphemeralPool) (m : List PersistentPool) (d d' : Daemon K)
      (e : Option Err)
      → is_watched d ≡ true
      → persistent_pool_gone cluster pool l m d ≡ some (e, d')
      → is_watched d' ≡ true
  unfolding persistent_pool_gone
  persistent_pool_gone-is_watched pool l m d d' e watched h =
      ground (arith, pool_modified-deployed cluster l m d d' e watched)

  pub ephemeral_pool_gone-is_watched :
      (pool : EphemeralPool) (l : List EphemeralPool) (m : List PersistentPool) (d d' : Daemon K)
      (e : Option Err)
      → is_watched d ≡ true
      → ephemeral_pool_gone cluster pool l m d ≡ some (e, d')
      → is_watched d' ≡ true
  unfolding ephemeral_pool_gone
  ephemeral_pool_gone-is_watched pool l m d d' e watched h =
      ground (arith, pool_modified-deployed cluster l m d d' e watched)

-- The callbacks leave the informer watched.
pub record KeepsWatched {E K : Type 0} (cs : Callbacks (Controller E K)) : Type 0 where
  pub modified : Keeps (call_back cs.0)
  pub deleted : Keeps (call_back cs.1)
  pub changed : Keeps (call_back cs.2)
  pub removed : Keeps (call_back cs.3)
  pub lost : Keeps (call_back cs.4)
  pub new : Keeps (call_back cs.5)
