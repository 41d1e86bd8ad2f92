-- ===== src/Platform/Events.antt =====
-- apps/backend/src/platform/events/domain-event.ts (the envelope and `createEvent`) and the payloads of
-- apps/backend/src/platform/events/event-types.ts. Texts stand for time stamps.
use senior_io_t_platform_arc.Prelude.{ℕ, Bool, List, Option, none, some, or_else, Text}
use senior_io_t_platform_arc.Prelude.Dict.{Dict}
use senior_io_t_platform_arc.Prelude.Json.{Json}
use senior_io_t_platform_arc.Platform.Context.{RequestContext}

-- `CommandStatus` of commands/command.entity.ts.
pub data CommandStatus : Type 0 where
  pending succeeded failed rejected timed_out : CommandStatus

pub data LockScope : Type 0 where
  account address : LockScope

pub data PasswordBy : Type 0 where
  self admin : PasswordBy

-- A telemetry value: a number or a truth value.
pub data Reading (N : Type 0) : Type 0 where
  number : N → Reading N
  flag : Bool → Reading N

pub record RoleChange : Type 0 where
  pub from : Text
  pub to : Text

pub data Payload (N : Type 0) : Type 0 where
  presence_reported : (base_topic : Text) (online : Bool) → Payload N
  registered : (base_topic : Text) → Payload N
  online_changed : (previous : Bool) → Payload N
  command_created : (command_id name : Text) (timeout_ms : ℕ) → Payload N
  command_completed :
      (command_id name : Text) (status : CommandStatus) (is_ok : Bool) (duration_ms : ℕ) → Payload N
  user_created : (user_id email role : Text) (actor : Option Text) → Payload N
  user_updated :
      (user_id email : Text) (role : Option RoleChange) (disabled : Option Bool)
      (actor : Option Text)
      → Payload N
  password_changed :
      (user_id email : Text) (changed_by : PasswordBy) (actor : Option Text) → Payload N
  login_succeeded : (user_id email client : Text) → Payload N
  login_locked : (scope : LockScope) (email client : Text) → Payload N
  privileged_executed :
      (command_id capability : Text) (actor : Option Text) (status : CommandStatus) → Payload N
  telemetry_updated :
      (source : Text) (samples_count : ℕ) (samples : List (Text × Reading N)) → Payload N
  state_changed : (changed : Dict (Json N)) (desired_version : ℕ) (drift : List Text) → Payload N

pub record DomainEvent (P : Type 0) : Type 0 where
  pub event_id : Text
  pub event_type : Text
  pub schema_version : ℕ
  pub timestamp : Text
  pub device_id : Option Text
  pub organization_id : Option Text
  pub source : Text
  pub correlation_id : Text
  pub causation_id : Option Text
  pub trace_id : Option Text
  pub span_id : Option Text
  pub sequence : Option ℕ
  pub idempotency_key : Option Text
  pub payload : P

pub record CreateEventInput (P : Type 0) : Type 0 where
  pub type : Text
  pub source : Text
  pub payload : P
  pub device_id : Option Text
  pub causation_id : Option Text
  pub idempotency_key : Option Text
  pub correlation_id : Option Text
  pub occurred_at : Option Text
  pub schema_version : Option ℕ

-- What the runtime supplies to one call: two fresh ids, the time, and the request's context.
pub record Ambient : Type 0 where
  pub event_uuid : Text
  pub correlation_uuid : Text
  pub now : Text
  pub context : Option RequestContext

abbrev context_correlation : Option RequestContext → Text → Text
context_correlation none fresh = fresh
context_correlation (some c) fresh = c.correlation_id

abbrev context_trace : Option RequestContext → Option Text
context_trace none = none
context_trace (some c) = c.trace_id

abbrev context_span : Option RequestContext → Option Text
context_span none = none
context_span (some c) = c.span_id

module _ {P : Type 0} where
  unfoldable pub create_event : Ambient → CreateEventInput P → DomainEvent P
  create_event a input = record {
    event_id = a.event_uuid;
    event_type = input.type;
    schema_version = or_else input.schema_version 1;
    timestamp = or_else input.occurred_at a.now;
    device_id = input.device_id;
    organization_id = none;
    source = input.source;
    correlation_id =
        or_else input.correlation_id (context_correlation a.context a.correlation_uuid);
    causation_id = input.causation_id;
    trace_id = context_trace a.context;
    span_id = context_span a.context;
    sequence = none;
    idempotency_key = input.idempotency_key;
    payload = input.payload;
  }
