-- ===== src/Commands/Tests.antt =====
-- Inputs for apps/backend/src/commands/commands.service.ts.
use senior_io_t_platform_arc.Prelude.{
  ℕ, ◌-◌, ◌≡◌, refl, ◌≢◌, ◌⊎◌, ◌∷◌, true, false, [], none, some, units, includes, starts_with,
}
use senior_io_t_platform_arc.Prelude.Json.{str, end, prop}
use senior_io_t_platform_arc.Prelude.Table.{list_table}
use senior_io_t_platform_arc.Platform.Events.{pending, timed_out}
use senior_io_t_platform_arc.Protocol.Envelopes.{ResponseEnvelope}
use senior_io_t_platform_arc.Devices.{Device}
use senior_io_t_platform_arc.Commands.{
  Command, command_key, DispatchInput, Outgoing, History, open_command, resolve_outcome, classify,
}
use senior_io_t_platform_arc.Commands.Classes.{timeout_message, classify-timeout}
use senior_io_t_platform_arc.Commands.Startup.{sweep, IsSwept, find_one-sweep}
use senior_io_t_platform_arc.Commands.Lifecycle.{Closes, resolve_outcome-Closes}

abbrev pump : Device
pump = record {
  id = units "pump";
  device_name = none;
  base_topic = units "espclaw";
  online = true;
  last_seen_at = none;
  local_api_base_url = none;
  capabilities_refreshed_at = none;
  first_seen_at = 1;
}

-- A privileged call: the token is sent, the redacted input is recorded.
abbrev exec : DispatchInput ℕ
exec = record {
  name = units "platform_exec";
  input = some (prop (units "token") (str (units "t")) end);
  timeout_ms = none;
  recorded = some (record { name = units "ota_update"; input = end });
}

abbrev refusal : ResponseEnvelope
refusal = record {
  id = units "c1";
  capability = none;
  is_ok = false;
  result = some (units "Error: token expired");
}

abbrev history : History ℕ (list_table command_key)
history = record { commands = []; results = []; published = [] }

abbrev opens : Command ℕ × Outgoing ℕ × History ℕ (list_table command_key)
opens =
    open_command ℕ (list_table command_key) (units "c1") (units "f") 100 none (units "pump") pump
      exec history

resolve_outcome-Closes_example :
    Closes ℕ
      (list_table command_key)
      exec
      refusal
      opens.1
      history
      opens.2
      opens.2
      (resolve_outcome ℕ (list_table command_key) 140 100 opens.0 refusal opens.2).2
      (140 - 100)
resolve_outcome-Closes_example =
    resolve_outcome-Closes ℕ (list_table command_key) (units "c1") (units "f") 100 140 none
      (units "pump") pump exec refusal history opens.2

classify-timeout_example :
    classify (record {
      id = units "c1";
      capability = none;
      is_ok = false;
      result = some (timeout_message (units "c1") (units "pump") (units " after 15000 ms"));
    })
    ≡ timed_out
unfolding includes starts_with
classify-timeout_example =
    classify-timeout (units "c1") (units "c1") (units "pump") (units " after 15000 ms") refl

abbrev orphaned : History ℕ (list_table command_key)
orphaned = record history { commands = opens.0 ∷ [] }

find_one-sweep_example :
    let table = list_table (command_key {N = ℕ}) in
    ((table.find_one (units "c1") orphaned.commands ≡ none)
      × (table.find_one (units "c1") (sweep ℕ (list_table command_key) 500 orphaned).commands
          ≡ none))
    ⊎ ((before : Command ℕ) × (after : Command ℕ) × (table.find_one (units "c1") orphaned.commands
          ≡ some before)
        × (table.find_one (units "c1") (sweep ℕ (list_table command_key) 500 orphaned).commands
            ≡ some after)
        × IsSwept 500 before after
        × (after.status ≢ pending))
find_one-sweep_example = find_one-sweep ℕ (list_table command_key) 500 (units "c1") orphaned
