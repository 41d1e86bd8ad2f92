-- ===== src/Platform/Bus/Tests.antt =====
-- Inputs for apps/backend/src/platform/events/in-process-event-bus.ts.
use senior_io_t_platform_arc.Prelude.{
  arith, ◌≤◌, ◌<◌, ℕ, zero, suc, ◌≡◌, refl, ◌+◌, List, [], ◌∷◌, ◌++◌, none, some, Text, text_eq,
  units,
}
use senior_io_t_platform_arc.Prelude.Dict.{get}
use senior_io_t_platform_arc.Platform.Events.{DomainEvent}
use senior_io_t_platform_arc.Platform.Bus.{
  Subscription, EventBus, EventBusStats, Outcome, Action, publishes, finishes, drain,
}
use senior_io_t_platform_arc.Platform.Bus.Drain.{ended, pending, asked_for, run-balance}
use senior_io_t_platform_arc.Platform.Bus.Rounds.{weights, drain-empties}
use senior_io_t_platform_arc.Platform.Bus.Lanes.{Proper}
use senior_io_t_platform_arc.Platform.Bus.Order.{lane_order, queue, finished_by, accepted_by, run}

abbrev everything : Subscription
everything = record {
  id = 0;
  pattern = units "device.**";
  name = units "log";
  retries = 2;
  backoff_ms = 100;
  timeout_ms = 1000;
}

abbrev no_stats : EventBusStats
no_stats = record { published = 0; delivered = 0; failed = 0; timed_out = 0 }

abbrev idle : EventBus ℕ
idle = record { subscriptions = everything ∷ []; lanes = []; counters = no_stats; next_id = 1 }

abbrev about : Text → ℕ → DomainEvent ℕ
about device n = record {
  event_id = units "e";
  event_type = units "device.state.changed";
  schema_version = 1;
  timestamp = units "2026-01-01T00:00:00.000Z";
  device_id = some device;
  organization_id = none;
  source = units "twin";
  correlation_id = units "c";
  causation_id = none;
  trace_id = none;
  span_id = none;
  sequence = none;
  idempotency_key = none;
  payload = n;
}

-- Every handler times out once and settles at its second attempt.
abbrev second_try : Subscription → DomainEvent ℕ → ℕ → Outcome
second_try sub event zero = Outcome.too_slow
second_try sub event (suc n) = Outcome.settled

abbrev schedule : List (Action second_try)
schedule =
    publishes (about (units "pump") 7)
    ∷ publishes (about (units "lamp") 8)
    ∷ publishes (about (units "pump") 9)
    ∷ finishes (units "pump")
    ∷ []

lane_order_example :
    finished_by second_try (units "pump") schedule idle
      ++ queue (units "pump") (run second_try schedule idle)
    ≡ queue (units "pump") idle ++ accepted_by second_try (units "pump") idle.subscriptions schedule
lane_order_example = lane_order second_try (units "pump") schedule idle

-- Two lanes, the first with two deliveries.
abbrev busy : EventBus ℕ
busy = record idle {
  lanes =
      (
        units "pump",
        record { event = about (units "pump") 7; targets = everything ∷ [] }
            ∷ record { event = about (units "pump") 9; targets = everything ∷ [] }
            ∷ [],
      )
      ∷ (units "lamp", record { event = about (units "lamp") 8; targets = everything ∷ [] } ∷ [])
      ∷ [];
}

busy-Proper : Proper busy.lanes
unfolding get text_eq
busy-Proper = (refl, refl, (refl, refl, tt))

run-balance_example :
    let after = run second_try schedule busy in
    (ended after.counters + pending after
      ≡ ended busy.counters + pending busy + asked_for second_try busy.subscriptions schedule)
    × Proper after.lanes
run-balance_example = run-balance second_try schedule busy busy-Proper

-- A handler of an event with a number above zero publishes one with the number below, for another device.
abbrev echo : ℕ → List (DomainEvent ℕ)
echo zero = []
echo (suc n) = about (units "lamp") n ∷ []

abbrev echoes : DomainEvent ℕ → List (DomainEvent ℕ)
echoes event = echo event.payload

abbrev echo_weight : DomainEvent ℕ → ℕ
echo_weight event = suc event.payload

echo-founded : (n : ℕ) → weights echo_weight (echo n) < suc n
echo-founded zero = omega arith
echo-founded (suc n) = omega arith

drain-empties_example :
    let after = drain second_try echoes 30 busy in
    (after.lanes ≡ []) × (ended busy.counters + pending busy ≤ ended after.counters)
drain-empties_example =
    drain-empties echo_weight second_try echoes (λ event. echo-founded event.payload) 30 busy
      busy-Proper (omega arith)
