-- ===== src/Events.antt =====
-- The events between the watchers and the controller: pkg/controller/events, whose files are
-- persistentPools.go, ephemeralPools.go and operatorNodes.go.
--
-- A channel of capacity 100 is the list of what is in it. A send to a full channel waits: `none` is that
-- it cannot go on yet. A callback changes the world `W`, and `none` is its panic. The goroutine of a
-- `Listen` function takes one event after the other until the stop channel is closed; the
-- deep copy of an object is its value.
pub mod Order
pub mod Start
use plenuslb.Base.{
  Bool, true, false, Option, none, some, List, [], ◌∷◌, ◌++◌, ℕ, String, length, ltb, is_empty,
  if◌then◌else◌,
}
use plenuslb.Api.{PersistentPool, EphemeralPool}

abbrev pub capacity : ℕ
capacity = 100

-- A send to a channel.
abbrev pub send {ℓ} : {A : Type ℓ} → A → List A → Option (List A)
send a queue = if ltb (length queue) capacity then some (queue ++ a ∷ []) else none

-- A channel with the callbacks for it, and whether its listener runs.
pub record Topic {ℓ} (A : Type ℓ) (W : Type 0) : Type ℓ where
  pub queue : List A
  pub callbacks : List (A → W → Option W)
  pub listening : Bool

module _ {ℓ} {A : Type ℓ} {W : Type 0} where
  abbrev pub publish : A → Topic A W → Option (Topic A W)
  publish a t = elim (send a t.queue) [
    | none ↦ none
    | some queue ↦ some (record t { queue = queue })
  ]

  -- The callbacks, each after the one registered before it.
  abbrev pub call_back : List (A → W → Option W) → A → W → Option W
  call_back [] a w = some w
  call_back (cb ∷ cbs) a w = elim (cb a w) [ none ↦ none | some w' ↦ call_back cbs a w' ]

  -- What a listener does with an event: with no callback it logs an error.
  abbrev pub receive : Topic A W → W → Option (Topic A W × W)
  receive t w = elim t.queue [
    | [] ↦ some (t, w)
    | a ∷ rest ↦ elim (call_back t.callbacks a w) [
      | none ↦ none
      | some w' ↦ some (record t { queue = rest }, w')
    ]
  ]

  -- `Register…Func` of a pool's event appends to the callbacks.
  abbrev pub append_callback : (A → W → Option W) → Topic A W → Topic A W
  append_callback cb t = record t { callbacks = t.callbacks ++ cb ∷ [] }

  -- `Register…Func` of a node's event sets the one callback.
  abbrev pub set_callback : (A → W → Option W) → Topic A W → Topic A W
  set_callback cb t = record t { callbacks = cb ∷ [] }

-- The channels and the callbacks of the package.
pub record Bus (W : Type 0) : Type 0 where
  pub modified_pools : Topic PersistentPool W
  pub deleted_pools : Topic PersistentPool W
  pub modified_ephemeral_pools : Topic EphemeralPool W
  pub deleted_ephemeral_pools : Topic EphemeralPool W
  pub lost_nodes : Topic String W
  pub new_nodes : Topic String W

abbrev pub on_topic {ℓ} :
    {A : Type ℓ} {W : Type 0} → (Topic A W → Bus W) → Option (Topic A W) → Option (Bus W)
on_topic put none = none
on_topic put (some t) = some (put t)

module _ {W : Type 0} where
  -- `PersistentPoolModified`, `PersistentPoolDeleted`
  unfoldable pub persistent_pool_modified : PersistentPool → Bus W → Option (Bus W)
  persistent_pool_modified pool b =
      on_topic (λ t. record b { modified_pools = t }) (publish pool b.modified_pools)

  unfoldable pub persistent_pool_deleted : PersistentPool → Bus W → Option (Bus W)
  persistent_pool_deleted pool b =
      on_topic (λ t. record b { deleted_pools = t }) (publish pool b.deleted_pools)

  -- `EphemeralPoolModified`, `EphemeralPoolDeleted`
  unfoldable pub ephemeral_pool_modified : EphemeralPool → Bus W → Option (Bus W)
  ephemeral_pool_modified pool b =
      on_topic (λ t. record b { modified_ephemeral_pools = t })
        (publish pool b.modified_ephemeral_pools)

  unfoldable pub ephemeral_pool_deleted : EphemeralPool → Bus W → Option (Bus W)
  ephemeral_pool_deleted pool b =
      on_topic (λ t. record b { deleted_ephemeral_pools = t })
        (publish pool b.deleted_ephemeral_pools)

  -- `OperatorNodeLost`, `NewOperatorNode`
  unfoldable pub operator_node_lost : String → Bus W → Option (Bus W)
  operator_node_lost name b =
      on_topic (λ t. record b { lost_nodes = t }) (publish name b.lost_nodes)

  unfoldable pub new_operator_node : String → Bus W → Option (Bus W)
  new_operator_node name b = on_topic (λ t. record b { new_nodes = t }) (publish name b.new_nodes)

  -- The registrations, by the name of their event.
  unfoldable pub register_on_persistent_pool_modified :
      (PersistentPool → W → Option W) → Bus W → Bus W
  register_on_persistent_pool_modified cb b = record b {
    modified_pools = append_callback cb b.modified_pools;
  }

  unfoldable pub register_on_persistent_pool_deleted :
      (PersistentPool → W → Option W) → Bus W → Bus W
  register_on_persistent_pool_deleted cb b = record b {
    deleted_pools = append_callback cb b.deleted_pools;
  }

  unfoldable pub register_on_ephemeral_pool_modified :
      (EphemeralPool → W → Option W) → Bus W → Bus W
  register_on_ephemeral_pool_modified cb b = record b {
    modified_ephemeral_pools = append_callback cb b.modified_ephemeral_pools;
  }

  unfoldable pub register_on_ephemeral_pool_deleted : (EphemeralPool → W → Option W) → Bus W → Bus W
  register_on_ephemeral_pool_deleted cb b = record b {
    deleted_ephemeral_pools = append_callback cb b.deleted_ephemeral_pools;
  }

  unfoldable pub register_on_operator_node_lost : (String → W → Option W) → Bus W → Bus W
  register_on_operator_node_lost cb b = record b { lost_nodes = set_callback cb b.lost_nodes }

  unfoldable pub register_on_new_operator_node : (String → W → Option W) → Bus W → Bus W
  register_on_new_operator_node cb b = record b { new_nodes = set_callback cb b.new_nodes }
