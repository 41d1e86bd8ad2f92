-- ===== src/Observability/Tests.antt =====
-- Inputs for apps/backend/src/observability/metrics.service.ts.
use senior_io_t_platform_arc.Prelude.{ℕ, ◌≡◌, List, [], ◌∷◌, none, some, units}
use senior_io_t_platform_arc.Platform.Events.{DomainEvent}
use senior_io_t_platform_arc.Platform.Bus.{
  Subscription, EventBus, Outcome, Action, publishes, finishes,
}
use senior_io_t_platform_arc.Observability.{timeouts_total, fresh_collector}
use senior_io_t_platform_arc.Observability.Counters.{scrapes, totals, scrapes-totals}

abbrev slow : Subscription
slow = record {
  id = 0;
  pattern = units "**";
  name = units "slow";
  retries = 1;
  backoff_ms = 100;
  timeout_ms = 1000;
}

abbrev bus : EventBus ℕ
bus = record {
  subscriptions = slow ∷ [];
  lanes = [];
  counters = record { published = 0; delivered = 0; failed = 0; timed_out = 0 };
  next_id = 1;
}

abbrev event : DomainEvent ℕ
event = record {
  event_id = units "e";
  event_type = units "device.online";
  schema_version = 1;
  timestamp = units "2026-01-01T00:00:00.000Z";
  device_id = some (units "pump");
  organization_id = none;
  source = units "devices";
  correlation_id = units "c";
  causation_id = none;
  trace_id = none;
  span_id = none;
  sequence = none;
  idempotency_key = none;
  payload = 1;
}

abbrev never : Subscription → DomainEvent ℕ → ℕ → Outcome
never sub e attempt = Outcome.too_slow

abbrev stretches : List (List (Action never))
stretches = (publishes event ∷ finishes (units "pump") ∷ []) ∷ [] ∷ (publishes event ∷ []) ∷ []

scrapes-totals_example :
    scrapes never timeouts_total stretches bus fresh_collector
    ≡ some (totals never timeouts_total stretches bus)
scrapes-totals_example = scrapes-totals never timeouts_total stretches bus
