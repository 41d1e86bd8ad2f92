-- ===== src/Platform/Bus/Totals.antt =====
-- in-process-event-bus.ts: the counters of a bus never fall.
use senior_io_t_platform_arc.Prelude.{
  ℕ, zero, suc, ◌+◌, ◌≤◌, List, [], ◌∷◌, is_nil, or_else, Text, arith, Bool-cases, inl, inr,
}
use senior_io_t_platform_arc.Prelude.Dict.{get}
use senior_io_t_platform_arc.Platform.Events.{DomainEvent}
use senior_io_t_platform_arc.Platform.Bus.{
  Subscription, EventBus, EventBusStats, Outcome, Action, Delivery, publishes, finishes, publish,
  finish, finish_queue, step, deliver, run_handler, run_attempts, targets_of,
}
use senior_io_t_platform_arc.Platform.Bus.Order.{run}

abbrev pub Grown : EventBusStats → EventBusStats → Type 0
Grown s t =
    (s.published ≤ t.published)
    × (s.delivered ≤ t.delivered)
    × (s.failed ≤ t.failed)
    × (s.timed_out ≤ t.timed_out)

Grown-trans : (s t u : EventBusStats) → Grown s t → Grown t u → Grown s u
Grown-trans s t u g h = (
  omega (arith, g.0, h.0),
  omega (arith, g.1, h.1),
  omega (arith, g.2, h.2),
  omega (arith, g.3, h.3),
)

run_attempts-Grown :
    (outcome : ℕ → Outcome) (left attempt : ℕ) (s : EventBusStats)
    → Grown s (run_attempts outcome left attempt s)
unfolding run_attempts
run_attempts-Grown outcome zero attempt s = ground arith
run_attempts-Grown outcome (suc left) attempt s = ground (
  arith,
  run_attempts-Grown outcome left (attempt + 1) s,
  run_attempts-Grown outcome left (attempt + 1) (record s { timed_out = s.timed_out + 1 }),
)

module _ {P : Type 0} (attempt_outcome : Subscription → DomainEvent P → ℕ → Outcome) where
  deliver-Grown :
      (event : DomainEvent P) (subs : List Subscription) (s : EventBusStats)
      → Grown s (deliver attempt_outcome event subs s)
  unfolding deliver run_handler
  deliver-Grown event [] s = (omega arith, omega arith, omega arith, omega arith)
  deliver-Grown event (sub ∷ subs) s =
      Grown-trans s _ _ (run_attempts-Grown (attempt_outcome sub event) sub.retries 0 s)
        (deliver-Grown event subs (run_handler attempt_outcome sub event s))

  finish_queue-Grown :
      (lane : Text) (queue : List (Delivery P)) (bus : EventBus P)
      → Grown bus.counters (finish_queue attempt_outcome lane queue bus).counters
  unfolding finish_queue
  finish_queue-Grown lane [] bus = (omega arith, omega arith, omega arith, omega arith)
  finish_queue-Grown lane (d ∷ queue) bus = deliver-Grown d.event d.targets bus.counters

  publish-Grown :
      (event : DomainEvent P) (bus : EventBus P) → Grown bus.counters (publish event bus).counters
  unfolding publish
  publish-Grown event bus = elim (Bool-cases (is_nil (targets_of event bus.subscriptions))) [
    | inl e ↦ rw e (omega arith, omega arith, omega arith, omega arith)
    | inr e ↦ rw e (omega arith, omega arith, omega arith, omega arith)
  ]

  pub run-Grown :
      (actions : List (Action attempt_outcome)) (bus : EventBus P)
      → Grown bus.counters (run attempt_outcome actions bus).counters
  unfolding run step finish
  run-Grown [] bus = (omega arith, omega arith, omega arith, omega arith)
  run-Grown (publishes event ∷ actions) bus =
      Grown-trans bus.counters _ _ (publish-Grown event bus) (run-Grown actions (publish event bus))
  run-Grown (finishes lane ∷ actions) bus =
      Grown-trans bus.counters _ _ (finish_queue-Grown lane (or_else (get lane bus.lanes) []) bus)
        (run-Grown actions (finish attempt_outcome lane bus))
