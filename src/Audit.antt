-- ===== src/Audit.antt =====
-- apps/backend/src/audit/event-log.service.ts, with event-log.entity.ts: the append-only log of audited
-- events. The database assigns `seq` and the time of recording; reading a time stamp is a parameter.
pub mod Pages
pub mod Recording
pub mod Requests
pub mod Tests
use senior_io_t_platform_arc.Prelude.{
  ℕ, ◌+◌, Bool, true, false, not, ◌&&◌, List, [], ◌∷◌, filter, any, take, length, if◌then◌else◌,
  ltb, Option, none, some, or_else, Text, text_eq,
}
use senior_io_t_platform_arc.Platform.Catalog.{is_audited_event_type}
use senior_io_t_platform_arc.Platform.Events.{DomainEvent}

pub record EventLogRecord (P : Type 0) : Type 0 where
  pub event_id : Text
  pub seq : ℕ
  pub event_type : Text
  pub schema_version : ℕ
  pub occurred_at : ℕ
  pub recorded_at : ℕ
  pub device_id : Option Text
  pub organization_id : Option Text
  pub source : Text
  pub correlation_id : Text
  pub causation_id : Option Text
  pub trace_id : Option Text
  pub span_id : Option Text
  pub payload : P

pub record EventLogQuery : Type 0 where
  pub device_id : Option Text
  pub event_type : Option Text
  pub correlation_id : Option Text
  pub before_seq : Option ℕ
  pub limit : ℕ

pub record EventLogPage (P : Type 0) : Type 0 where
  pub items : List (EventLogRecord P)
  pub next_cursor : Option ℕ

module _ {P : Type 0} (to_date : Text → ℕ) (empty : P) where
  abbrev pub record_of : ℕ → ℕ → DomainEvent (Option P) → EventLogRecord P
  record_of seq now event = record {
    event_id = event.event_id;
    seq = seq;
    event_type = event.event_type;
    schema_version = event.schema_version;
    occurred_at = to_date event.timestamp;
    recorded_at = now;
    device_id = event.device_id;
    organization_id = event.organization_id;
    source = event.source;
    correlation_id = event.correlation_id;
    causation_id = event.causation_id;
    trace_id = event.trace_id;
    span_id = event.span_id;
    payload = or_else event.payload empty;
  }

  -- The rows are kept newest first. `orIgnore` inserts nothing where the primary key is taken.
  pub record_if_audited :
      ℕ → ℕ → DomainEvent (Option P) → List (EventLogRecord P) → List (EventLogRecord P)
  record_if_audited seq now event log =
      if not (is_audited_event_type event.event_type)
      then log
      else (if any (λ r. text_eq r.event_id event.event_id) log
          then log
          else record_of seq now event ∷ log)

-- A condition that is added only for a text that is given and not empty; a null column meets none.
column_is : Option Text → Option Text → Bool
column_is none column = true
column_is (some []) column = true
column_is (some (c ∷ s)) none = false
column_is (some (c ∷ s)) (some column) = text_eq column (c ∷ s)

is_before : Option ℕ → ℕ → Bool
is_before none seq = true
is_before (some cursor) seq = ltb seq cursor

module _ {P : Type 0} where
  pub matches : EventLogQuery → EventLogRecord P → Bool
  unfolding column_is is_before
  matches query r =
      column_is query.device_id r.device_id
      && column_is query.event_type (some r.event_type)
      && column_is query.correlation_id (some r.correlation_id)
      && is_before query.before_seq r.seq

  pub last_seq : List (EventLogRecord P) → Option ℕ
  last_seq [] = none
  last_seq (r ∷ []) = some r.seq
  last_seq (r ∷ s ∷ rs) = last_seq (s ∷ rs)

  -- The rows of the table, newest first; a limit of at least one, as the controller demands.
  pub find : EventLogQuery → List (EventLogRecord P) → EventLogPage P
  unfolding matches last_seq
  find query log =
      let rows = take (query.limit + 1) (filter (matches query) log) in
      let has_more = ltb query.limit (length rows) in
      let items = if has_more then take query.limit rows else rows in
      record { items = items; next_cursor = if has_more then last_seq items else none }
