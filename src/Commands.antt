-- ===== src/Commands.antt =====
-- apps/backend/src/commands/commands.service.ts, with command.entity.ts and command-result.entity.ts:
-- the history of commands. `dispatch` is two steps, `start` up to the awaited promise of the gateway and
-- `resolve_outcome` once it is settled; an error of the gateway is a response that is not ok, with
-- the error's message.
pub mod Classes
pub mod Denials
pub mod Lifecycle
pub mod Startup
pub mod Tests
use senior_io_t_platform_arc.Prelude.{
  ℕ, ◌-◌, Bool, true, false, ◌&&◌, ◌||◌, List, [], ◌∷◌, ◌++◌, if◌then◌else◌, ◌==◌, drop, any,
  filter, sort_by, leb, Option, none, some, or_else, Text, units, text_eq, starts_with, includes,
}
use senior_io_t_platform_arc.Prelude.Json.{Props, end}
use senior_io_t_platform_arc.Prelude.Table.{Table}
use senior_io_t_platform_arc.Platform.Catalog.{
  EventType, device_command_created, device_command_completed,
}
use senior_io_t_platform_arc.Platform.Events.{
  Payload, CommandStatus, pending, succeeded, failed, rejected, timed_out, command_created,
  command_completed,
}
use senior_io_t_platform_arc.Protocol.Envelopes.{ResponseEnvelope}
use senior_io_t_platform_arc.Devices.{Device}

pub record Command (N : Type 0) : Type 0 where
  pub id : Text
  pub device_id : Text
  pub name : Text
  pub input : Props N
  pub status : CommandStatus
  pub timeout_ms : ℕ
  pub correlation_id : Option Text
  pub created_at : ℕ
  pub resolved_at : Option ℕ

abbrev pub command_key : {N : Type 0} → Command N → Text
command_key c = c.id

pub record CommandResult : Type 0 where
  pub command_id : Text
  pub is_ok : Bool
  pub result : Option Text
  pub received_at : ℕ

pub record Recorded (N : Type 0) : Type 0 where
  pub name : Text
  pub input : Props N

pub record DispatchInput (N : Type 0) : Type 0 where
  pub name : Text
  pub input : Option (Props N)
  pub timeout_ms : Option ℕ
  pub recorded : Option (Recorded N)

-- What goes to `MqttService.sendCommand`.
pub record Outgoing (N : Type 0) : Type 0 where
  pub device_id : Text
  pub name : Text
  pub input : Option (Props N)
  pub base_topic : Text
  pub timeout_ms : ℕ
  pub id : Text

pub record CommandEvent (N : Type 0) : Type 0 where
  pub type : EventType
  pub device_id : Text
  pub causation_id : Text
  pub correlation_id : Option Text
  pub payload : Payload N

-- `input.record?.name ?? input.name` and `input.record?.input ?? input.input ?? {}`: what is stored.
abbrev pub recorded_of : {N : Type 0} → DispatchInput N → Recorded N
recorded_of {N} input = recorded_or input.recorded
  where
    recorded_or : Option (Recorded N) → Recorded N
    recorded_or none = record { name = input.name; input = or_else input.input end }
    recorded_or (some r) = r

-- The rest of a text from its first quote on: what `[^']*` stops at.
from_quote : Text → Text
from_quote [] = []
from_quote (c ∷ s) = let rest = from_quote s in if c == b'\'' then c ∷ s else rest

is_exec_refusal : Text → Bool
unfolding from_quote
is_exec_refusal s =
    starts_with (units "capability '") s
    && starts_with (units "' cannot be triggered through platform_exec") (from_quote (drop 12 s))

abbrev token_errors : List Text
token_errors =
    units "invalid token signature"
    ∷ units "malformed token"
    ∷ units "token expired"
    ∷ units "token was issued for a different device"
    ∷ units "token nonce already used"
    ∷ units "platform secret not configured"
    ∷ []

-- `DENIAL_PATTERN.test`.
pub is_denial : Text → Bool
unfolding is_exec_refusal
is_denial s =
    includes (units "is not exposed to the LLM") s
    || starts_with (units "Denied agent cap call") s
    || (starts_with (units "Error: ") s
        && (any (λ e. starts_with e (drop 7 s)) token_errors || is_exec_refusal (drop 7 s)))

pub classify : ResponseEnvelope → CommandStatus
classify response =
    let text = or_else response.result [] in
    if response.is_ok
    then succeeded
    else (if is_denial text
        then rejected
        else (if includes (units "timed out") text then timed_out else failed))

abbrev is_pending : CommandStatus → Bool
is_pending pending = true
is_pending _ = false

-- A row that the sweep at start-up closes, or leaves.
pub swept : {N : Type 0} → ℕ → Command N → Command N
swept now c =
    if is_pending c.status then record c { status = timed_out; resolved_at = some now } else c

module _ (N : Type 0) (table : Table (command_key {N = N})) where
  pub record History : Type 0 where
    pub commands : table.Store
    pub results : List CommandResult
    pub published : List (CommandEvent N)

  -- `dispatch` for a registered device, up to the gateway: the stored command and what is sent. `id`
  -- and `fresh` are the random ids, `context` the request's correlation id.
  unfoldable pub open_command :
      Text
      → Text
      → ℕ
      → Option Text
      → Text
      → Device
      → DispatchInput N
      → History
      → Command N × Outgoing N × History
  open_command id fresh now context device_id device input s =
      let timeout = or_else input.timeout_ms 15000 in
      let correlation = or_else context fresh in
      let recorded = recorded_of input in
      let command : Command N = record {
        id = id;
        device_id = device_id;
        name = recorded.name;
        input = recorded.input;
        status = pending;
        timeout_ms = timeout;
        correlation_id = some correlation;
        created_at = now;
        resolved_at = none;
      } in
      (
        command,
        record {
          device_id = device_id;
          name = input.name;
          input = input.input;
          base_topic = device.base_topic;
          timeout_ms = timeout;
          id = id;
        },
        record s {
          commands = table.save command s.commands;
          published =
              s.published
              ++ record {
                type = device_command_created;
                device_id = device_id;
                causation_id = id;
                correlation_id = some correlation;
                payload = command_created id recorded.name timeout;
              }
                ∷ [];
        },
      )

  -- Only registered devices can be commanded.
  unfoldable pub start :
      Text
      → Text
      → ℕ
      → Option Text
      → Text
      → Option Device
      → DispatchInput N
      → History
      → Option (Command N × Outgoing N × History)
  unfolding open_command
  start id fresh now context device_id none input s = none
  start id fresh now context device_id (some device) input s =
      some (open_command id fresh now context device_id device input s)

  abbrev pub resolved : ℕ → Command N → ResponseEnvelope → Command N
  resolved now command response = record command {
    status = classify response;
    resolved_at = some now;
  }

  unfoldable pub resolve_outcome :
      ℕ → ℕ → Command N → ResponseEnvelope → History → Command N × CommandResult × History
  resolve_outcome now started command response s =
      let closed = resolved now command response in
      let result : CommandResult = record {
        command_id = command.id;
        is_ok = response.is_ok;
        result = response.result;
        received_at = now;
      } in
      (
        closed,
        result,
        record s {
          commands = table.save closed s.commands;
          results = s.results ++ result ∷ [];
          published =
              s.published
              ++ record {
                type = device_command_completed;
                device_id = command.device_id;
                causation_id = command.id;
                correlation_id = command.correlation_id;
                payload =
                    command_completed command.id command.name closed.status response.is_ok
                      (now - started);
              }
                ∷ [];
        },
      )

  -- The answer that stands for an error of the gateway.
  abbrev pub error_response : Text → Text → ResponseEnvelope
  error_response id message = record {
    id = id;
    capability = none;
    is_ok = false;
    result = some message;
  }

  pub find_all_for_device : Text → History → List (Command N)
  find_all_for_device device_id s =
      sort_by (λ a b. leb b.created_at a.created_at)
        (filter (λ c. text_eq c.device_id device_id) (table.rows s.commands))
