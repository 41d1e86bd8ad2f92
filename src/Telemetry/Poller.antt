-- ===== src/Telemetry/Poller.antt =====
-- apps/backend/src/telemetry/telemetry-poller.service.ts: the poller's cycle over the online devices, with the
-- other services' operations as `pollOne` calls them. A cycle is the steps between which other code can
-- run: `begin_poll`, up to the list of the devices, then one step of `proceed` for each device and
-- target, and the last one, which ends the cycle. `answer` is the settled promise of the gateway, an
-- error as the response that stands for it; `moments` are the ids and times of each dispatch. What other
-- code does while a step awaits the gateway or the database is taken to come before or after the step.
pub mod Cycle
pub mod Polls
pub mod Tests
use senior_io_t_platform_arc.Prelude.{
  ℕ, ◌+◌, Bool, true, false, List, [], ◌∷◌, ◌++◌, if◌then◌else◌, ltb, Option, none, some, Text,
  units,
}
use senior_io_t_platform_arc.Prelude.Json.{Json}
use senior_io_t_platform_arc.Prelude.Table.{Table}
use senior_io_t_platform_arc.Platform.Events.{
  Payload, Reading, number, flag, telemetry_updated, DomainEvent, Ambient, create_event,
}
use senior_io_t_platform_arc.Platform.Catalog.{event_type_text, device_telemetry_updated}
use senior_io_t_platform_arc.Protocol.Envelopes.{ResponseEnvelope}
use senior_io_t_platform_arc.Devices.{
  Device, device_key, Registry, find_one, find_online, has_capability_group,
}
use senior_io_t_platform_arc.Commands.{
  Command, command_key, CommandResult, DispatchInput, Outgoing, History, start, resolve_outcome,
}
use senior_io_t_platform_arc.Telemetry.{
  ExtractedSample, TelemetrySample, extract_samples, record_capability_result,
}

pub record PollTarget : Type 0 where
  pub capability : Text
  pub required_group : Text

abbrev poll_targets : List PollTarget
poll_targets =
    record { capability = units "mqtt_status"; required_group = units "cap_mqtt" }
    ∷ record { capability = units "vpn_status"; required_group = units "cap_vpn" }
    ∷ record { capability = units "network_status"; required_group = units "cap_netcfg" }
    ∷ record { capability = units "ota_status"; required_group = units "cap_ota" }
    ∷ []

-- What the runtime supplies to one dispatch, and to the event that may follow.
pub record Moment : Type 0 where
  pub command_id : Text
  pub correlation_uuid : Text
  pub started_at : ℕ
  pub resolved_at : ℕ
  pub ambient : Ambient

-- `s.valueNumeric ?? s.valueBool`; a sample always has one of them.
abbrev pub value_of : {N : Type 0} → Text → Option N → Option Bool → List (Text × Reading N)
value_of metric (some n) b = (metric, number n) ∷ []
value_of metric none (some b) = (metric, flag b) ∷ []
value_of metric none none = []

pub to_payload_samples : {N : Type 0} → List (ExtractedSample N) → List (Text × Reading N)
to_payload_samples [] = []
to_payload_samples (s ∷ samples) =
    value_of s.metric s.value_numeric s.value_bool ++ to_payload_samples samples

-- `createEvent` with the input that `pollOne` gives it.
abbrev pub event_of : {N : Type 0} → Moment → Text → Payload N → DomainEvent (Payload N)
event_of m device_id payload = create_event m.ambient (record {
  type = event_type_text device_telemetry_updated;
  source = units "module:telemetry";
  payload = payload;
  device_id = some device_id;
  causation_id = none;
  idempotency_key = none;
  correlation_id = none;
  occurred_at = none;
  schema_version = none;
})

module _ {N : Type 0} (devices : Table device_key) (commands : Table (command_key {N = N})) where
  -- What the poller's cycle reads and writes of the other services.
  pub record Services : Type 0 where
    pub registry : Registry N devices
    pub history : History N commands
    pub samples : List (TelemetrySample N)
    pub published : List (DomainEvent (Payload N))
    pub dispatches : ℕ

  pub record Poller : Type 0 where
    pub polling : Bool
    -- The devices and targets that the loops have left.
    pub remaining : List (Text × PollTarget)
    pub services : Services

  with_targets : Text → List PollTarget → List (Text × PollTarget)
  with_targets id [] = []
  with_targets id (t ∷ targets) = (id, t) ∷ with_targets id targets

  targets_of : List Device → List (Text × PollTarget)
  unfolding with_targets
  targets_of [] = []
  targets_of (d ∷ online) = with_targets d.id poll_targets ++ targets_of online

  -- A tick of the timer while a cycle runs is skipped.
  pub begin_poll : (Text → Text → Bool) → Poller → Poller
  unfolding targets_of
  begin_poll collate p = if p.polling then p else record p {
    polling = true;
    remaining = targets_of (find_online N devices collate p.services.registry);
  }

  module _ (parse_json : Text → Option (Json N)) (is_finite : N → Bool) (moments : ℕ → Moment)
      (answer : Outgoing N → ResponseEnvelope) where
    abbrev input_of : Text → DispatchInput N
    input_of capability = record {
      name = capability;
      input = none;
      timeout_ms = some 8000;
      recorded = none;
    }

    settle :
        Moment
        → Services
        → Option (Command N × Outgoing N × History N commands)
        → Option (CommandResult × Services)
    settle m s none = none
    settle m s (some (command, outgoing, opened)) =
        let (_, result, history) =
          resolve_outcome N commands m.resolved_at m.started_at command (answer outgoing) opened in
        some (result, record s { history = history; dispatches = s.dispatches + 1 })

    -- `commands.dispatch`, for a device that is registered or not, without a request's context.
    dispatch : Moment → Text → Text → Services → Option (CommandResult × Services)
    unfolding settle
    dispatch m device_id capability s = settle m s (
        start N commands m.command_id m.correlation_uuid m.started_at none device_id
          (find_one N devices device_id s.registry) (input_of capability) s.history)

    abbrev pub updated_event : Moment → Text → Text → ℕ → Option Text → DomainEvent (Payload N)
    updated_event m device_id capability count result = event_of m device_id (
        telemetry_updated capability count
          (to_payload_samples (extract_samples parse_json is_finite result)))

    with_samples :
        Moment
        → Text
        → Text
        → Option Text
        → Services
        → Option (ℕ × List (TelemetrySample N))
        → Services
    unfolding to_payload_samples
    with_samples m device_id capability result s none = s
    with_samples m device_id capability result s (some (count, table)) = record s {
      samples = table;
      published =
          if ltb 0 count
          then s.published ++ updated_event m device_id capability count result ∷ []
          else s.published;
    }

    -- What follows a dispatch: the samples of a result that is ok, and their event. The error of an
    -- insert is logged.
    record_result : Moment → Text → Text → CommandResult → Services → Services
    unfolding with_samples
    record_result m device_id capability result s =
        let recorded =
          record_capability_result parse_json is_finite m.resolved_at device_id capability
            result.result s.samples in
        if result.is_ok then with_samples m device_id capability result.result s recorded else s

    -- The error of a dispatch is logged.
    settled : Moment → Text → Text → Services → Option (CommandResult × Services) → Services
    unfolding record_result
    settled m device_id capability s none = s
    settled m device_id capability s (some (result, after)) =
        record_result m device_id capability result after

    pub poll_one : Text → Text → Services → Services
    unfolding dispatch settled
    poll_one device_id capability s =
        let m = moments s.dispatches in
        settled m device_id capability s (dispatch m device_id capability s)

    poll_target : Text → PollTarget → Services → Services
    unfolding poll_one
    poll_target device_id target s =
        if has_capability_group N devices device_id target.required_group s.registry
        then poll_one device_id target.capability s
        else s

    -- The next pass of the inner loop, or the end of both.
    pub proceed : Poller → Poller
    unfolding poll_target
    proceed p = elim p.remaining [
      | [] ↦ record p { polling = false }
      | (device_id, target) ∷ rest ↦ record p {
        remaining = rest;
        services = poll_target device_id target p.services;
      }
    ]
