-- ===== src/Telemetry/Poller/Tests.antt =====
-- Inputs for apps/backend/src/telemetry/telemetry-poller.service.ts.
use senior_io_t_platform_arc.Prelude.{
  ℕ, suc, ◌≡◌, refl, ◌==◌, Bool, true, false, List, [], ◌∷◌, ◌++◌, drop, length, Option, none, some,
  Text, units, arith,
}
use senior_io_t_platform_arc.Prelude.Json.{Json, Props, num, bool, obj, end, prop}
use senior_io_t_platform_arc.Prelude.Table.{list_table}
use senior_io_t_platform_arc.Protocol.Envelopes.{ResponseEnvelope}
use senior_io_t_platform_arc.Devices.{Device, device_key}
use senior_io_t_platform_arc.Commands.{command_key, Outgoing}
use senior_io_t_platform_arc.Telemetry.Poller.{PollTarget, Moment, Services, Poller, poll_one}
use senior_io_t_platform_arc.Telemetry.Poller.Cycle.{
  Happening, tick, pass, elsewhere, run, passes, steps, run-ends,
}
use senior_io_t_platform_arc.Twin.{shadow_key}
use senior_io_t_platform_arc.Twin.Reports.{Reflects, poll_one-Reflects}

abbrev fields : Props ℕ
fields = prop (units "connected") (bool true) (prop (units "rssi") (num 61) end)

abbrev parse_fields : Text → Option (Json ℕ)
parse_fields _ = some (obj fields)

abbrev finite : ℕ → Bool
finite _ = true

abbrev moment_at : ℕ → Moment
moment_at n = record {
  command_id = units "c";
  correlation_uuid = units "u";
  started_at = 100;
  resolved_at = 140;
  ambient = record {
    event_uuid = units "e";
    correlation_uuid = units "x";
    now = units "2026-01-01T00:00:00.000Z";
    context = none;
  };
}

abbrev answer : Outgoing ℕ → ResponseEnvelope
answer outgoing = record {
  id = outgoing.id;
  capability = none;
  is_ok = true;
  result = some (units "{...}");
}

abbrev pump : Device
pump = record {
  id = units "pump";
  device_name = none;
  base_topic = units "espclaw";
  online = true;
  last_seen_at = none;
  local_api_base_url = none;
  capabilities_refreshed_at = none;
  first_seen_at = 1;
}

abbrev services : Services {N = ℕ} (list_table device_key) (list_table command_key)
services = record {
  registry = record {
    devices = pump ∷ [];
    capabilities =
        record {
          device_id = units "pump";
          group_id = units "cap_netcfg";
          display_name = units "Network";
          default_llm_visible = false;
          first_seen_at = 1;
        }
        ∷ [];
    published = [];
  };
  history = record { commands = []; results = []; published = [] };
  samples = [];
  published = [];
  dispatches = 0;
}

poll_one-Reflects_example :
    Reflects ◌==◌
      (list_table shadow_key)
      (list_table device_key)
      (list_table command_key)
      parse_fields
      finite
      moment_at
      answer
      (units "pump")
      services
      (poll_one
        (list_table device_key)
        (list_table command_key)
        parse_fields
        finite
        moment_at
        answer
        (units "pump")
        (units "network_status")
        services)
      []
poll_one-Reflects_example =
    poll_one-Reflects ◌==◌ (list_table shadow_key) (list_table device_key) (list_table command_key)
      parse_fields finite moment_at answer b'p' (units "ump") (units "network_status") services []

-- A cycle with three targets left.
abbrev cycle : Poller {N = ℕ} (list_table device_key) (list_table command_key)
cycle =
    let target : PollTarget = record {
      capability = units "ota_status";
      required_group = units "cap_ota";
    } in
    record {
      polling = true;
      remaining = (units "pump", target) ∷ (units "lamp", target) ∷ (units "fan", target) ∷ [];
      services = services;
    }

abbrev happenings : List (
    Happening {N = ℕ}
      (list_table device_key)
      (list_table command_key)
      (λ s t. true)
      parse_fields
      finite
      moment_at
      answer)
happenings = pass ∷ tick ∷ pass ∷ elsewhere (λ s. record s { samples = [] }) ∷ []

run-ends_example :
    let after =
      run
        (list_table device_key)
        (list_table command_key)
        (λ s t. true)
        parse_fields
        finite
        moment_at
        answer in
    ((after happenings cycle).polling ≡ true)
    × ((after happenings cycle).remaining
        ≡ drop
            (passes
              (list_table device_key)
              (list_table command_key)
              (λ s t. true)
              parse_fields
              finite
              moment_at
              answer
              happenings)
            cycle.remaining)
    × ((after
          (happenings
            ++ steps
                (list_table device_key)
                (list_table command_key)
                (λ s t. true)
                parse_fields
                finite
                moment_at
                answer
                (suc (length (after happenings cycle).remaining)))
          cycle).polling
        ≡ false)
run-ends_example =
    run-ends (list_table device_key) (list_table command_key) (λ s t. true) parse_fields finite
      moment_at answer happenings cycle refl (omega arith)
