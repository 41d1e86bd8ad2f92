-- ===== src/Platform/Bus/Drain.antt =====
-- in-process-event-bus.ts: every delivery to a subscriber is counted once.
use senior_io_t_platform_arc.Prelude.{
  ℕ, ◌+◌, ◌≡◌, refl, ap, ◌∙◌, true, false, List, [], ◌∷◌, ◌++◌, length, is_nil, Text, arith,
  Bool-cases, inl, inr,
}
use senior_io_t_platform_arc.Platform.Events.{DomainEvent}
use senior_io_t_platform_arc.Platform.Bus.{
  Subscription, EventBus, EventBusStats, Delivery, Outcome, Action, publishes, finishes, publish,
  finish, finish_queue, step, targets_of, lane_of, deliver, run_handler,
}
use senior_io_t_platform_arc.Platform.Bus.Attempts.{run_handler-Accounts}
use senior_io_t_platform_arc.Platform.Bus.Lanes.{
  Proper, total, held, set-Proper, delete-Proper, total-set, total-delete,
}
use senior_io_t_platform_arc.Platform.Bus.Order.{run}

-- The calls of handlers that have ended, one way or the other.
abbrev pub ended : EventBusStats → ℕ
ended s = s.delivered + s.failed

length-is_nil : {A : Type 0} (xs : List A) → is_nil xs ≡ true → length xs ≡ 0
length-is_nil [] e = refl
length-is_nil (x ∷ xs) e = cc

module _ {P : Type 0} where
  -- The calls of handlers that a queue stands for.
  abbrev pub calls : List (Delivery P) → ℕ
  calls [] = 0
  calls (d ∷ queue) = length d.targets + calls queue

  -- The calls of handlers that are still to come.
  abbrev pub pending : EventBus P → ℕ
  pending bus = total calls bus.lanes

  calls-append_one :
      (queue : List (Delivery P)) (d : Delivery P)
      → calls (queue ++ d ∷ []) ≡ calls queue + length d.targets
  calls-append_one [] d = omega arith
  calls-append_one (e ∷ queue) d = omega (arith, calls-append_one queue d)

  is_nil-append_one :
      (queue : List (Delivery P)) (d : Delivery P) → is_nil (queue ++ d ∷ []) ≡ false
  is_nil-append_one [] d = refl
  is_nil-append_one (e ∷ queue) d = refl

  -- What a step adds to the calls that have ended or are still to come; the lanes stay proper.
  abbrev pub Grows : ℕ → EventBus P → EventBus P → Type 0
  Grows n before after =
      (ended after.counters + pending after ≡ ended before.counters + pending before + n)
      × (after.subscriptions ≡ before.subscriptions)
      × Proper after.lanes

  pub publish-Grows :
      (event : DomainEvent P) (bus : EventBus P)
      → Proper bus.lanes
      → Grows (length (targets_of event bus.subscriptions)) bus (publish event bus)
  unfolding publish
  publish-Grows event bus p = elim (Bool-cases (is_nil (targets_of event bus.subscriptions))) [
    | inl e ↦ rw e (omega (arith, length-is_nil _ e), refl, p)
    | inr e ↦
        let d : Delivery P = record {
          event = event;
          targets = targets_of event bus.subscriptions;
        } in
        let queue = held (lane_of event) bus.lanes in
        rw e (
          omega (
            arith,
            total-set calls (lane_of event) (queue ++ d ∷ []) bus.lanes refl,
            calls-append_one queue d,
          ),
          refl,
          set-Proper (lane_of event) (queue ++ d ∷ []) bus.lanes p (is_nil-append_one queue d),
        )
  ]

  module _ (attempt_outcome : Subscription → DomainEvent P → ℕ → Outcome) where
    ended-deliver :
        (event : DomainEvent P) (subs : List Subscription) (s : EventBusStats)
        → ended (deliver attempt_outcome event subs s) ≡ ended s + length subs
    unfolding deliver
    ended-deliver event [] s = omega arith
    ended-deliver event (sub ∷ subs) s =
        let a = run_handler-Accounts attempt_outcome sub event s in
        ground (
          arith,
          a.delivered,
          a.failed,
          ended-deliver event subs (run_handler attempt_outcome sub event s),
        )

    pub finish_queue-Grows :
        (lane : Text) (queue : List (Delivery P)) (bus : EventBus P)
        → held lane bus.lanes ≡ queue
        → Proper bus.lanes
        → Grows 0 bus (finish_queue attempt_outcome lane queue bus)
    unfolding finish_queue
    finish_queue-Grows lane [] bus e p = (omega arith, refl, p)
    finish_queue-Grows lane (d ∷ []) bus e p = (
      omega (
        arith,
        ended-deliver d.event d.targets bus.counters,
        total-delete calls lane bus.lanes p refl,
        ap calls e,
      ),
      refl,
      delete-Proper lane bus.lanes p,
    )
    finish_queue-Grows lane (d ∷ x ∷ xs) bus e p = (
      omega (
        arith,
        ended-deliver d.event d.targets bus.counters,
        total-set calls lane (x ∷ xs) bus.lanes refl,
        ap calls e,
      ),
      refl,
      set-Proper lane (x ∷ xs) bus.lanes p refl,
    )

    -- The calls that a schedule's publishes ask for.
    abbrev pub asked_for : List Subscription → List (Action attempt_outcome) → ℕ
    asked_for subs [] = 0
    asked_for subs (publishes event ∷ actions) =
        length (targets_of event subs) + asked_for subs actions
    asked_for subs (finishes lane ∷ actions) = asked_for subs actions

    -- However publishes and ends of deliveries are interleaved, a call of a handler is counted exactly once:
    -- the calls delivered, failed and still to come are those of before and one for each subscriber
    -- that matches a published event. The lanes stay proper: each occurs once and holds a delivery.
    pub run-balance :
        (actions : List (Action attempt_outcome)) (bus : EventBus P)
        → Proper bus.lanes
        → (let after = run attempt_outcome actions bus in
            (ended after.counters + pending after
              ≡ ended bus.counters + pending bus + asked_for bus.subscriptions actions)
            × Proper after.lanes)
    unfolding run step finish
    run-balance [] bus p = (omega arith, p)
    run-balance (publishes event ∷ actions) bus p =
        let grown = publish-Grows event bus p in
        let (e, q) = run-balance actions (publish event bus) grown.2 in
        (
          e
              ∙ ap
                  (λ subs.
                    ended (publish event bus).counters
                    + pending (publish event bus)
                    + asked_for subs actions)
                  grown.1
              ∙ omega (arith, grown.0),
          q,
        )
    run-balance (finishes lane ∷ actions) bus p =
        let next = finish attempt_outcome lane bus in
        let grown = finish_queue-Grows lane (held lane bus.lanes) bus refl p in
        let (e, q) = run-balance actions next grown.2 in
        (
          e
              ∙ ap (λ subs. ended next.counters + pending next + asked_for subs actions) grown.1
              ∙ omega (arith, grown.0),
          q,
        )
