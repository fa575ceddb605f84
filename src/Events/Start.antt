-- ===== src/Events/Start.antt =====
-- The events of the operators' pods while no listener of pkg/controller/events runs, as during the
-- start in pkg/controller/leader/election.go.
use plenuslb.Base.{
  true, none, some, List, [], ◌∷◌, ◌++◌, map, ◌≤◌, ◌<◌, ◌+◌, ◌≡◌, refl, inl, inr, arith, String,
}
use plenuslb.Base.{length, length-append, all, Option-cases}
use plenuslb.Api.{Pod, is_pod_ready}
use plenuslb.Daemonset.Nodes.{NodeEvent, new_node, node_lost, pod_added, events_of}
use plenuslb.Events.{capacity, Topic, publish}
use plenuslb.Events.Order.{sending, step, run, publish_queue}

-- The names that go to the channel of new nodes.
abbrev pub new_names : List NodeEvent → List String
new_names [] = []
new_names (new_node n ∷ es) = n ∷ new_names es
new_names (node_lost n ∷ es) = new_names es

-- The events of the first list of pods that the informer reports.
abbrev pub first_events : List Pod → List String
first_events [] = []
first_events (pod ∷ pods) = new_names (events_of (pod_added pod)) ++ first_events pods

first_events-length :
    (pods : List Pod) → all is_pod_ready pods ≡ true → length (first_events pods) ≡ length pods
unfolding events_of
first_events-length [] h = refl
first_events-length (pod ∷ pods) h = ground (
  arith,
  first_events-length pods,
  length-append (new_names (events_of (pod_added pod))) (first_events pods),
)

-- Sends only, each of which goes through.
sends_fill {ℓ} :
    {A : Type ℓ} {W : Type 0} (l : List A) (t t' : Topic A W) (w w' : W)
    → length t.queue ≤ capacity
    → run (map sending l) t w ≡ some (t', w')
    → length t.queue + length l ≤ capacity
unfolding step
sends_fill [] t t' w w' room h = ground arith
sends_fill (a ∷ l) t t' w w' room h = elim (Option-cases (publish a t)) [
  | inl n ↦ absurd (ground arith)
  | inr (t1, p) ↦
      let (grown, same, room1) = publish_queue a t t1 room p in
      ground (arith, sends_fill l t1 t' w w' room1, length-append t.queue (a ∷ []))
]

-- If more than 100 operators are ready when the informer of their pods starts, then the events of this
-- first list cannot all be sent while no listener runs: the informer's goroutine waits.
pub first_events_block :
    {W : Type 0} (pods : List Pod) (t : Topic String W) (w : W)
    → all is_pod_ready pods ≡ true
    → t.queue ≡ []
    → 100 < length pods
    → run (map sending (first_events pods)) t w ≡ none
first_events_block pods t w ready empty many =
    elim (Option-cases (run (map sending (first_events pods)) t w)) [
      | inl n ↦ n
      | inr ((t', w'), r) ↦
          absurd (
            ground
              (arith, first_events-length pods ready, sends_fill (first_events pods) t t' w w'))
    ]
