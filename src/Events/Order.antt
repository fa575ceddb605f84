-- ===== src/Events/Order.antt =====
-- The order and the number of the events of pkg/controller/events, with senders and a listener
-- interleaved in any way.
use mathlib.Core.List.{append_assoc, append-nil}
use plenuslb.Base.{
  false, Option, none, some, List, [], ◌∷◌, ◌++◌, ◌≤◌, ◌≡◌, ◌⊎◌, refl, inl, inr, arith,
}
use plenuslb.Base.{length, length-append, ltb, Bool-cases, Option-cases, if◌then◌else◌}
use plenuslb.Events.{append_callback, capacity, Topic, publish, call_back, receive}

-- What happens to a topic next: a send that goes through, the receipt of an event by the listener, or its
-- stop.
pub data Move {ℓ} (A : Type ℓ) : Type ℓ where
  sending : A → Move A
  receiving stopping : Move A

module _ {ℓ} {A : Type ℓ} {W : Type 0} where
  -- `none` is a move that cannot be made, or a panic.
  unfoldable pub step : Move A → Topic A W → W → Option (Topic A W × W)
  step (sending a) t w = elim (publish a t) [ none ↦ none | some t' ↦ some (t', w) ]
  step receiving t w = if t.listening then receive t w else none
  step stopping t w = some (record t { listening = false }, w)

  abbrev pub run : List (Move A) → Topic A W → W → Option (Topic A W × W)
  run [] t w = some (t, w)
  run (m ∷ ms) t w = elim (step m t w) [ none ↦ none | some (t', w') ↦ run ms t' w' ]

  -- The callbacks in this order ran on the event, each on what the one before it left.
  abbrev pub InOrder : List (A → W → Option W) → A → W → W → Type 0
  InOrder [] a w w' = w ≡ w'
  InOrder (cb ∷ cbs) a w w' = (v : W) × (cb a w ≡ some v) × InOrder cbs a v w'

  -- They ran so on the events one after the other.
  abbrev pub Delivered : List (A → W → Option W) → List A → W → W → Type 0
  Delivered cbs [] w w' = w ≡ w'
  Delivered cbs (a ∷ rest) w w' = (v : W) × InOrder cbs a w v × Delivered cbs rest v w'

  -- The registrations of the callbacks one after the other.
  abbrev pub register_all : List (A → W → Option W) → Topic A W → Topic A W
  register_all [] t = t
  register_all (cb ∷ cbs) t = register_all cbs (append_callback cb t)

  -- The callbacks of the events one after the other.
  abbrev pub deliver : List (A → W → Option W) → List A → W → Option W
  deliver cbs [] w = some w
  deliver cbs (a ∷ rest) w = elim (call_back cbs a w) [
    | none ↦ none
    | some w' ↦ deliver cbs rest w'
  ]

abbrev pub sent {ℓ} : {A : Type ℓ} → List (Move A) → List A
sent [] = []
sent (sending a ∷ ms) = a ∷ sent ms
sent (_ ∷ ms) = sent ms

pub List-cases {ℓ} :
    {A : Type ℓ} (xs : List A) → (xs ≡ []) ⊎ ((a : A) × (rest : List A) × (xs ≡ a ∷ rest))
List-cases [] = inl refl
List-cases (x ∷ xs) = inr (x, xs, refl)

module _ {ℓ} {A : Type ℓ} {W : Type 0} where
  step-receiving :
      (t t' : Topic A W) (w w' : W)
      → step receiving t w ≡ some (t', w')
      → ((t' ≡ t) × (w' ≡ w) × (t.queue ≡ []))
        ⊎ ((a : A) × (t.queue ≡ a ∷ t'.queue)
            × (call_back t.callbacks a w ≡ some w')
            × (t'.callbacks ≡ t.callbacks))
  unfolding step
  step-receiving t t' w w' h = elim (List-cases t.queue) [
    | inl e ↦ inl (ground arith, ground arith, e)
    | inr (a, rest, e) ↦ elim (Option-cases (call_back t.callbacks a w)) [
      | inl n ↦ absurd (ground arith)
      | inr (w1, n) ↦ inr (a, ground arith, ground arith, ground arith)
    ]
  ]

  pub publish_queue :
      (a : A) (t t' : Topic A W)
      → length t.queue ≤ capacity
      → publish a t ≡ some t'
      → (t'.queue ≡ t.queue ++ a ∷ []) × (t'.callbacks ≡ t.callbacks) × (length t'.queue ≤ capacity)
  publish_queue a t t' room h = elim (Bool-cases (ltb (length t.queue) capacity)) [
    | inl e ↦ (ground arith, ground arith, ground (arith, length-append t.queue (a ∷ [])))
    | inr e ↦ absurd (ground arith)
  ]

  register_all-callbacks :
      (cbs : List (A → W → Option W)) (t : Topic A W)
      → ((register_all cbs t).callbacks ≡ t.callbacks ++ cbs)
        × ((register_all cbs t).queue ≡ t.queue)
  register_all-callbacks [] t = (ground (arith, append-nil t.callbacks), refl)
  register_all-callbacks (cb ∷ cbs) t = ground (
    arith,
    register_all-callbacks cbs (append_callback cb t),
    append_assoc t.callbacks (cb ∷ []) cbs,
  )

  call_back-InOrder :
      (cbs : List (A → W → Option W)) (a : A) (w w' : W)
      → call_back cbs a w ≡ some w'
      → InOrder cbs a w w'
  call_back-InOrder [] a w w' h = ground arith
  call_back-InOrder (cb ∷ cbs) a w w' h = elim (Option-cases (cb a w)) [
    | inl n ↦ absurd (ground arith)
    | inr (v, e) ↦ (v, e, call_back-InOrder cbs a v w' (ground arith))
  ]

  deliver-Delivered :
      (cbs : List (A → W → Option W)) (l : List A) (w w' : W)
      → deliver cbs l w ≡ some w'
      → Delivered cbs l w w'
  deliver-Delivered cbs [] w w' h = ground arith
  deliver-Delivered cbs (a ∷ rest) w w' h = elim (Option-cases (call_back cbs a w)) [
    | inl n ↦ absurd (ground arith)
    | inr (v, e) ↦
        (v, call_back-InOrder cbs a w v e, deliver-Delivered cbs rest v w' (ground arith))
  ]

  run-deliver :
      (ms : List (Move A)) (t t' : Topic A W) (w w' : W)
      → length t.queue ≤ capacity
      → run ms t w ≡ some (t', w')
      → (received : List A) × (t.queue ++ sent ms ≡ received ++ t'.queue)
        × (deliver t.callbacks received w ≡ some w')
        × (length t'.queue ≤ capacity)
  unfolding step
  run-deliver [] t t' w w' room h =
      ([], ground (arith, append-nil t.queue), ground arith, ground arith)
  run-deliver (sending a ∷ ms) t t' w w' room h = elim (Option-cases (publish a t)) [
    | inl n ↦ absurd (ground arith)
    | inr (t1, p) ↦
        let (grown, same, room1) = publish_queue a t t1 room p in
        let (received, order, effect, bound) = run-deliver ms t1 t' w w' room1 (ground arith) in
        (
          received,
          ground (arith, append_assoc t.queue (a ∷ []) (sent ms)),
          (rw same at effect),
          bound,
        )
  ]
  run-deliver (receiving ∷ ms) t t' w w' room h = elim (Option-cases (step receiving t w)) [
    | inl n ↦ absurd (ground arith)
    | inr ((t1, w1), p) ↦ elim (step-receiving t t1 w w1 p) [
      | inl (same_t, same_w, empty) ↦ run-deliver ms t t' w w' room (ground arith)
      | inr (a, taken, called, same) ↦
          let (received, order, effect, bound) =
            run-deliver ms t1 t' w1 w' (ground arith) (ground arith) in
          (a ∷ received, ground arith, ground arith, bound)
    ]
  ]
  run-deliver (stopping ∷ ms) t t' w w' room h =
      run-deliver ms (record t { listening = false }) t' w w' room h

  -- Callbacks are registered one after the other on a topic that has none, and then senders, a listener and
  -- its stop go on in any order. The callbacks run for the events in the order in which they were
  -- sent, for each event in the order of their registration, each on what the one before it left;
  -- what they have not run for waits in the channel, in that order too, and the channel never
  -- holds more than its capacity.
  pub run-Delivered :
      (cbs : List (A → W → Option W)) (ms : List (Move A)) (t t' : Topic A W) (w w' : W)
      → t.callbacks ≡ []
      → length t.queue ≤ capacity
      → run ms (register_all cbs t) w ≡ some (t', w')
      → (received : List A) × (t.queue ++ sent ms ≡ received ++ t'.queue)
        × Delivered cbs received w w'
        × (length t'.queue ≤ capacity)
  run-Delivered cbs ms t t' w w' none_yet room h =
      let (registered, waiting) = register_all-callbacks cbs t in
      let (received, order, effect, bound) =
        run-deliver ms (register_all cbs t) t' w w' (ground arith) h in
      (received, ground arith, deliver-Delivered cbs received w w' (ground arith), bound)
