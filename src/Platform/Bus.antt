-- ===== src/Platform/Bus.antt =====
-- apps/backend/src/platform/events/in-process-event-bus.ts: subscriptions, one lane of deliveries for
-- each device, and the attempts of a handler. A lane's promise chain is the list of the deliveries
-- that have not finished, the running one first; the runtime finishes lanes in any order, so the
-- schedule is an explicit list of actions. What a handler does is a parameter, `attempt_outcome`.
pub mod Attempts
pub mod Drain
pub mod Lanes
pub mod Order
pub mod Rounds
pub mod Tests
pub mod Totals
use senior_io_t_platform_arc.Prelude.{
  ℕ, zero, suc, ◌+◌, List, [], ◌∷◌, ◌++◌, filter, if◌then◌else◌, is_nil, length, Option, or_else,
  Text, units, ◌==◌,
}
use senior_io_t_platform_arc.Prelude.Dict.{Dict, get, set, delete}
use senior_io_t_platform_arc.Platform.Patterns.{matches_pattern}
use senior_io_t_platform_arc.Platform.Events.{DomainEvent}

-- `id` is the object's identity, which `indexOf` compares.
pub record Subscription : Type 0 where
  pub id : ℕ
  pub pattern : Text
  pub name : Text
  pub retries : ℕ
  pub backoff_ms : ℕ
  pub timeout_ms : ℕ

pub record EventBusStats : Type 0 where
  pub published : ℕ
  pub delivered : ℕ
  pub failed : ℕ
  pub timed_out : ℕ

pub record Delivery (P : Type 0) : Type 0 where
  pub event : DomainEvent P
  pub targets : List Subscription

pub record EventBus (P : Type 0) : Type 0 where
  pub subscriptions : List Subscription
  pub lanes : Dict (List (Delivery P))
  pub counters : EventBusStats
  pub next_id : ℕ

pub record SubscribeOptions : Type 0 where
  pub name : Text
  pub retries : Option ℕ
  pub backoff_ms : Option ℕ
  pub timeout_ms : Option ℕ

-- How one attempt of a handler ends.
pub data Outcome : Type 0 where
  settled threw too_slow : Outcome

abbrev global_lane : Text
global_lane = units "_global"

abbrev pub lane_of : {P : Type 0} → DomainEvent P → Text
lane_of event = or_else event.device_id global_lane

remove_subscription : ℕ → List Subscription → List Subscription
remove_subscription id [] = []
remove_subscription id (s ∷ ss) =
    let rest = remove_subscription id ss in if s.id == id then ss else s ∷ rest

module _ {P : Type 0} where
  abbrev pub targets_of : DomainEvent P → List Subscription → List Subscription
  targets_of event subs = filter (λ s. matches_pattern s.pattern event.event_type) subs

  unfoldable pub publish : DomainEvent P → EventBus P → EventBus P
  publish event bus =
      let counted = record bus {
        counters = record (bus.counters) { published = bus.counters.published + 1 };
      } in
      let targets = targets_of event bus.subscriptions in
      let queued = or_else (get (lane_of event) bus.lanes) [] in
      if is_nil targets then counted else record counted {
        lanes =
            set (lane_of event) (queued ++ record { event = event; targets = targets } ∷ [])
              bus.lanes;
      }

  -- The new bus, and the identity that the returned function unsubscribes.
  subscribe : Text → SubscribeOptions → EventBus P → EventBus P × ℕ
  subscribe pattern options bus =
      let subscription : Subscription = record {
        id = bus.next_id;
        pattern = pattern;
        name = options.name;
        retries = or_else options.retries 0;
        backoff_ms = or_else options.backoff_ms 100;
        timeout_ms = or_else options.timeout_ms 10000;
      } in
      (
        record bus {
          subscriptions = bus.subscriptions ++ subscription ∷ [];
          next_id = bus.next_id + 1;
        },
        bus.next_id,
      )

  unsubscribe : ℕ → EventBus P → EventBus P
  unfolding remove_subscription
  unsubscribe id bus = record bus { subscriptions = remove_subscription id bus.subscriptions }

-- The loop of `runHandler` from one attempt on, with so many attempts left after it.
run_attempts : (ℕ → Outcome) → ℕ → ℕ → EventBusStats → EventBusStats
run_attempts outcome zero attempt s = elim (outcome attempt) [
  | Outcome.settled ↦ record s { delivered = s.delivered + 1 }
  | Outcome.threw ↦ record s { failed = s.failed + 1 }
  | Outcome.too_slow ↦ record s { timed_out = s.timed_out + 1; failed = s.failed + 1 }
]
run_attempts outcome (suc left) attempt s = elim (outcome attempt) [
  | Outcome.settled ↦ record s { delivered = s.delivered + 1 }
  | Outcome.threw ↦ run_attempts outcome left (attempt + 1) s
  | Outcome.too_slow ↦
      run_attempts outcome left (attempt + 1) (record s { timed_out = s.timed_out + 1 })
]

module _ {P : Type 0} (attempt_outcome : Subscription → DomainEvent P → ℕ → Outcome) where
  pub run_handler : Subscription → DomainEvent P → EventBusStats → EventBusStats
  unfolding run_attempts
  run_handler sub event s = run_attempts (attempt_outcome sub event) sub.retries 0 s

  -- The counters add up, so the handlers of one event may be taken one after another.
  deliver : DomainEvent P → List Subscription → EventBusStats → EventBusStats
  deliver event [] s = s
  deliver event (sub ∷ subs) s = deliver event subs (run_handler sub event s)

  pub finish_queue : Text → List (Delivery P) → EventBus P → EventBus P
  unfolding deliver
  finish_queue lane [] bus = bus
  finish_queue lane (d ∷ rest) bus = record bus {
    lanes = if is_nil rest then delete lane bus.lanes else set lane rest bus.lanes;
    counters = deliver d.event d.targets bus.counters;
  }

  -- The running delivery of a lane ends, the next one starts; the last one takes the lane away.
  pub finish : Text → EventBus P → EventBus P
  unfolding finish_queue
  finish lane bus = finish_queue lane (or_else (get lane bus.lanes) []) bus

  pub data Action : Type 0 where
    publishes : DomainEvent P → Action
    finishes : Text → Action

  pub step : Action → EventBus P → EventBus P
  step (publishes event) bus = publish event bus
  step (finishes lane) bus = finish lane bus

  -- `reacts` gives the events that the handlers of an event publish.
  module _ (reacts : DomainEvent P → List (DomainEvent P)) where
    publish_all : List (DomainEvent P) → EventBus P → EventBus P
    publish_all [] bus = bus
    publish_all (event ∷ events) bus = publish_all events (publish event bus)

    -- The running delivery of a lane ends, with what its handlers have published queued.
    settle_queue : Text → List (Delivery P) → EventBus P → EventBus P
    unfolding publish_all
    settle_queue lane [] bus = bus
    settle_queue lane (d ∷ rest) bus =
        publish_all (reacts d.event) (finish_queue lane (d ∷ rest) bus)

    settle_times : Text → ℕ → EventBus P → EventBus P
    unfolding settle_queue
    settle_times lane zero bus = bus
    settle_times lane (suc n) bus =
        settle_times lane n (settle_queue lane (or_else (get lane bus.lanes) []) bus)

    -- `Promise.allSettled([...this.inFlight])`: the deliveries in flight at the call end, here lane by
    -- lane; those that their handlers ask for wait behind them.
    settle_all : Dict (List (Delivery P)) → EventBus P → EventBus P
    unfolding settle_times
    settle_all [] bus = bus
    settle_all ((lane, queue) ∷ lanes) bus = settle_all lanes (settle_times lane (length queue) bus)

    -- `drain`, with at most so many rounds of its loop.
    pub drain : ℕ → EventBus P → EventBus P
    unfolding settle_all
    drain zero bus = bus
    drain (suc n) bus = elim bus.lanes [
      | [] ↦ bus
      | (lane, queue) ∷ lanes ↦ drain n (settle_all ((lane, queue) ∷ lanes) bus)
    ]
