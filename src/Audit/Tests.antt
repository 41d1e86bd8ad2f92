-- ===== src/Audit/Tests.antt =====
-- Inputs for apps/backend/src/audit/event-log.service.ts.
use senior_io_t_platform_arc.Prelude.{
  err, arith, ℕ, ◌≡◌, refl, ◌&&◌, ◌||◌, not, List, [], ◌∷◌, length, if◌then◌else◌, Option, none,
  some, units, Text, text_eq,
}
use senior_io_t_platform_arc.Platform.Catalog.{is_audited_event_type}
use senior_io_t_platform_arc.Platform.Events.{DomainEvent}
use senior_io_t_platform_arc.Audit.{
  EventLogRecord, EventLogQuery, record_of, record_if_audited, find,
}
use senior_io_t_platform_arc.Prelude.Dict.{Dict, get}
use senior_io_t_platform_arc.Audit.Requests.{parse_query, events, out_of_range, is_bigint}
use senior_io_t_platform_arc.Audit.Requests.Answers.{Outcome, events-Answers}
use senior_io_t_platform_arc.Audit.Recording.{is_recorded, record_if_audited-once}

abbrev changed : DomainEvent (Option ℕ)
changed = record {
  event_id = units "e1";
  event_type = units "device.state.changed";
  schema_version = 1;
  timestamp = units "2026-01-01T00:00:00.000Z";
  device_id = some (units "pump");
  organization_id = none;
  source = units "twin";
  correlation_id = units "c";
  causation_id = none;
  trace_id = none;
  span_id = none;
  sequence = none;
  idempotency_key = none;
  payload = some 7;
}

abbrev log : List (EventLogRecord ℕ)
log = record_of length 0 1 5 (record changed { event_id = units "e0" }) ∷ []

abbrev query : EventLogQuery
query = record {
  device_id = some (units "pump");
  event_type = none;
  correlation_id = none;
  before_seq = none;
  limit = 1;
}

page_test : (find query (record_of length 0 2 6 changed ∷ log)).next_cursor ≡ some 2
unfolding find text_eq
page_test = refl

record_if_audited-once_example :
    let after = record_if_audited length 0 2 6 changed log in
    (record_if_audited length 0 3 9 changed after ≡ after)
    × (is_recorded changed.event_id after
        ≡ (is_audited_event_type changed.event_type || is_recorded changed.event_id log))
    × (after ≡ (
        if is_audited_event_type changed.event_type && not (is_recorded changed.event_id log)
        then record_of length 0 2 6 changed ∷ log
        else log))
record_if_audited-once_example = record_if_audited-once length 0 2 6 3 9 changed log

abbrev rows : List (EventLogRecord ℕ)
rows = record_of length 0 2 6 changed ∷ log

abbrev one : Text → Option ℕ
one s = some 1

abbrev parameters : Dict Text
parameters = (units "device_id", units "pump") ∷ (units "limit", units "1") ∷ []

parses : parse_query one parameters ≡ some query
unfolding parse_query get text_eq
parses = refl

events-Answers_example : Outcome one parameters rows (parse_query one parameters)
events-Answers_example = events-Answers one parameters rows ((ground arith, tt), (tt, tt))

abbrev far : Dict Text
far = (units "before_seq", units "9999999999999999999") ∷ []

far_test : events one far rows ≡ err out_of_range
unfolding events parse_query get text_eq is_bigint
far_test = refl
