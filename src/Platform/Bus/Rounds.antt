-- ===== src/Platform/Bus/Rounds.antt =====
-- in-process-event-bus.ts: the rounds of `drain`, while handlers publish.
use senior_io_t_platform_arc.Prelude.{
  ℕ, zero, suc, ◌+◌, ◌≤◌, ◌<◌, ◌≡◌, refl, ap, List, [], ◌∷◌, ◌++◌, length, is_nil, if◌then◌else◌,
  Text, text_eq_refl, arith, Bool-cases, inl, inr,
}
use senior_io_t_platform_arc.Prelude.Dict.{Dict, get}
use senior_io_t_platform_arc.Platform.Events.{DomainEvent}
use senior_io_t_platform_arc.Platform.Bus.{
  Subscription, EventBus, Delivery, Outcome, publish, finish_queue, targets_of, lane_of,
  publish_all, settle_queue, settle_times, settle_all, drain,
}
use senior_io_t_platform_arc.Platform.Bus.Lanes.{Proper, total, held, total-set, total-delete}
use senior_io_t_platform_arc.Platform.Bus.Drain.{ended, pending, publish-Grows, finish_queue-Grows}

module _ {P : Type 0} (weight : DomainEvent P → ℕ) where
  abbrev pub weights : List (DomainEvent P) → ℕ
  weights [] = 0
  weights (event ∷ events) = weight event + weights events

  abbrev pub queue_weight : List (Delivery P) → ℕ
  queue_weight [] = 0
  queue_weight (d ∷ queue) = weight d.event + queue_weight queue

  -- The weight of what is in flight.
  abbrev pub load : EventBus P → ℕ
  load bus = total queue_weight bus.lanes

  queue_weight-append_one :
      (queue : List (Delivery P)) (d : Delivery P)
      → queue_weight (queue ++ d ∷ []) ≡ queue_weight queue + weight d.event
  queue_weight-append_one [] d = omega arith
  queue_weight-append_one (e ∷ queue) d = omega (arith, queue_weight-append_one queue d)

  publish-load :
      (event : DomainEvent P) (bus : EventBus P)
      → load (publish event bus) ≤ load bus + weight event
  unfolding publish
  publish-load event bus = elim (Bool-cases (is_nil (targets_of event bus.subscriptions))) [
    | inl e ↦ rw e (omega arith)
    | inr e ↦
        let d : Delivery P = record {
          event = event;
          targets = targets_of event bus.subscriptions;
        } in
        let queue = held (lane_of event) bus.lanes in
        rw e (
          omega (
            arith,
            total-set queue_weight (lane_of event) (queue ++ d ∷ []) bus.lanes refl,
            queue_weight-append_one queue d,
          ))
  ]

  module _ (attempt_outcome : Subscription → DomainEvent P → ℕ → Outcome)
      (reacts : DomainEvent P → List (DomainEvent P))
      (founded : (event : DomainEvent P) → weights (reacts event) < weight event) where
    -- A step that takes so much weight away at least, and loses no call of a handler.
    abbrev Lowers : ℕ → EventBus P → EventBus P → Type 0
    Lowers n before after =
        (load after + n ≤ load before)
        × (ended before.counters + pending before ≤ ended after.counters + pending after)
        × Proper after.lanes

    -- What publishing adds.
    abbrev Raises : ℕ → EventBus P → EventBus P → Type 0
    Raises n before after =
        (load after ≤ load before + n)
        × (ended before.counters + pending before ≤ ended after.counters + pending after)
        × Proper after.lanes

    publish_all-Raises :
        (events : List (DomainEvent P)) (bus : EventBus P)
        → Proper bus.lanes
        → Raises (weights events) bus (publish_all attempt_outcome reacts events bus)
    unfolding publish_all
    publish_all-Raises [] bus p = (omega arith, omega arith, p)
    publish_all-Raises (event ∷ events) bus p =
        let grown = publish-Grows event bus p in
        let (heavier, more, proper) = publish_all-Raises events (publish event bus) grown.2 in
        (omega (arith, heavier, publish-load event bus), omega (arith, more, grown.0), proper)

    finish_queue-load :
        (lane : Text) (d : Delivery P) (rest : List (Delivery P)) (bus : EventBus P)
        → held lane bus.lanes ≡ d ∷ rest
        → Proper bus.lanes
        → load (finish_queue attempt_outcome lane (d ∷ rest) bus) + weight d.event ≡ load bus
    unfolding finish_queue
    finish_queue-load lane d [] bus e p =
        omega (arith, total-delete queue_weight lane bus.lanes p refl, ap queue_weight e)
    finish_queue-load lane d (x ∷ xs) bus e p =
        omega (arith, total-set queue_weight lane (x ∷ xs) bus.lanes refl, ap queue_weight e)

    abbrev at_least : List (Delivery P) → ℕ
    at_least queue = if is_nil queue then 0 else 1

    settle_queue-Lowers :
        (lane : Text) (queue : List (Delivery P)) (bus : EventBus P)
        → held lane bus.lanes ≡ queue
        → Proper bus.lanes
        → Lowers
            (if is_nil queue then 0 else 1)
            bus
            (settle_queue attempt_outcome reacts lane queue bus)
    unfolding settle_queue
    settle_queue-Lowers lane [] bus e p = (omega arith, omega arith, p)
    settle_queue-Lowers lane (d ∷ rest) bus e p =
        let after = finish_queue attempt_outcome lane (d ∷ rest) bus in
        let grown = finish_queue-Grows attempt_outcome lane (d ∷ rest) bus e p in
        let (heavier, more, proper) = publish_all-Raises (reacts d.event) after grown.2 in
        (
          omega (arith, heavier, finish_queue-load lane d rest bus e p, founded d.event),
          omega (arith, more, grown.0),
          proper,
        )

    Lowers-trans : (m n : ℕ) (a b c : EventBus P) → Lowers m a b → Lowers n b c → Lowers m a c
    Lowers-trans m n a b c (f, g, p) (h, k, q) = (omega (arith, f, h), omega (arith, g, k), q)

    settle_times-Lowers :
        (lane : Text) (n : ℕ) (bus : EventBus P)
        → Proper bus.lanes
        → Lowers 0 bus (settle_times attempt_outcome reacts lane n bus)
    unfolding settle_times
    settle_times-Lowers lane zero bus p = (omega arith, omega arith, p)
    settle_times-Lowers lane (suc n) bus p =
        let next = settle_queue attempt_outcome reacts lane (held lane bus.lanes) bus in
        let (f, g, q) = settle_queue-Lowers lane (held lane bus.lanes) bus refl p in
        Lowers-trans 0 0 bus next (settle_times attempt_outcome reacts lane n next)
          (omega (arith, f), g, q) (settle_times-Lowers lane n next q)

    settle_all-Lowers :
        (lanes : Dict (List (Delivery P))) (bus : EventBus P)
        → Proper bus.lanes
        → Lowers 0 bus (settle_all attempt_outcome reacts lanes bus)
    unfolding settle_all
    settle_all-Lowers [] bus p = (omega arith, omega arith, p)
    settle_all-Lowers ((lane, queue) ∷ lanes) bus p =
        let next = settle_times attempt_outcome reacts lane (length queue) bus in
        let settled = settle_times-Lowers lane (length queue) bus p in
        Lowers-trans 0 0 bus next (settle_all attempt_outcome reacts lanes next) settled
          (settle_all-Lowers lanes next settled.2)

    held-first :
        (lane : Text) (queue : List (Delivery P)) (lanes : Dict (List (Delivery P)))
        → held lane ((lane, queue) ∷ lanes) ≡ queue
    unfolding get
    held-first lane queue lanes = rw (text_eq_refl lane) refl

    -- A round with something in flight takes weight away.
    round-Lowers :
        (lane : Text) (d : Delivery P) (queue : List (Delivery P))
        (lanes : Dict (List (Delivery P))) (bus : EventBus P)
        → Proper ((lane, d ∷ queue) ∷ lanes)
        → (let from : EventBus P = record bus { lanes = (lane, d ∷ queue) ∷ lanes } in
            Lowers 1 from (settle_all attempt_outcome reacts from.lanes from))
    unfolding settle_all settle_times
    round-Lowers lane d queue lanes bus p =
        let from : EventBus P = record bus { lanes = (lane, d ∷ queue) ∷ lanes } in
        let first = settle_queue attempt_outcome reacts lane (held lane from.lanes) from in
        let one : at_least (held lane from.lanes) ≡ 1 =
          ap at_least (held-first lane (d ∷ queue) lanes) in
        let (f, g, q) = settle_queue-Lowers lane (held lane from.lanes) from refl p in
        let next = settle_times attempt_outcome reacts lane (length queue) first in
        let others = settle_times-Lowers lane (length queue) first q in
        let rest = settle_all-Lowers lanes next others.2 in
        Lowers-trans 1 0 from first (settle_all attempt_outcome reacts lanes next)
          (omega (arith, f, one), g, q)
          (Lowers-trans 0 0 first next (settle_all attempt_outcome reacts lanes next) others rest)

    abbrev Empties : ℕ → EventBus P → Type 0
    Empties n bus =
        let after = drain attempt_outcome reacts n bus in
        (after.lanes ≡ []) × (ended bus.counters + pending bus ≤ ended after.counters)

    -- The lanes apart from the rest of the bus.
    drain-lanes :
        (n : ℕ) (lanes : Dict (List (Delivery P))) (bus : EventBus P)
        → Proper lanes
        → total queue_weight lanes ≤ n
        → Empties n (record bus { lanes = lanes })
    unfolding drain
    drain-lanes zero [] bus p e = (refl, omega arith)
    drain-lanes (suc n) [] bus p e = (refl, omega arith)
    drain-lanes n ((lane, []) ∷ lanes) bus p e = absurd (cc p.0)
    drain-lanes zero ((lane, d ∷ queue) ∷ lanes) bus p e =
        absurd (omega (arith, e, founded d.event))
    drain-lanes (suc n) ((lane, d ∷ queue) ∷ lanes) bus p e =
        let from : EventBus P = record bus { lanes = (lane, d ∷ queue) ∷ lanes } in
        let next = settle_all attempt_outcome reacts from.lanes from in
        let (f, g, q) = round-Lowers lane d queue lanes bus p in
        let (empty, counted) = drain-lanes n next.lanes next q (omega (arith, f, e)) in
        (empty, omega (arith, g, counted))

    -- Let each event have a weight, such that what its handlers publish weighs less than it together, as
    -- it does where handlers do not publish in circles. Then a bus whose lanes are proper is drained by
    -- as many rounds as the weight of what is in flight, or more: no lane is left, and the calls of
    -- handlers that have ended are at least those that had ended before and those that were to come.
    pub drain-empties :
        (n : ℕ) (bus : EventBus P)
        → Proper bus.lanes
        → load bus ≤ n
        → (let after = drain attempt_outcome reacts n bus in
            (after.lanes ≡ []) × (ended bus.counters + pending bus ≤ ended after.counters))
    drain-empties n bus p e = drain-lanes n bus.lanes bus p e
