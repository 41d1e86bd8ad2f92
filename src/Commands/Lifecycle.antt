-- ===== src/Commands/Lifecycle.antt =====
-- commands.service.ts: a command's row from its start to its outcome.
use senior_io_t_platform_arc.Prelude.{
  ℕ, ◌-◌, ◌≡◌, refl, ◌≢◌, [], ◌∷◌, ◌++◌, Option, none, some, or_else, Option-cases, inl, inr, Text,
  text_eq_refl, arith,
}
use senior_io_t_platform_arc.Prelude.Json.{Props, end}
use senior_io_t_platform_arc.Prelude.Table.{Table}
use senior_io_t_platform_arc.Platform.Catalog.{device_command_created, device_command_completed}
use senior_io_t_platform_arc.Platform.Events.{pending, command_created, command_completed}
use senior_io_t_platform_arc.Protocol.Envelopes.{ResponseEnvelope}
use senior_io_t_platform_arc.Devices.{Device}
use senior_io_t_platform_arc.Commands.{
  Command, command_key, DispatchInput, Outgoing, Recorded, History, open_command, recorded_of,
  resolve_outcome, resolved, classify,
}
use senior_io_t_platform_arc.Commands.Classes.{IsClass, classify-IsClass}

module _ (N : Type 0) (table : Table (command_key {N = N})) where
  -- The name and the input that a row is to have: those of `record` if it is given, else those sent.
  abbrev pub IsRecord : Option (Recorded N) → DispatchInput N → Text → Props N → Type 0
  IsRecord none input name props = (name ≡ input.name) × (props ≡ or_else input.input end)
  IsRecord (some r) input name props = (name ≡ r.name) × (props ≡ r.input)

  recorded_of-IsRecord :
      (input : DispatchInput N)
      → IsRecord input.recorded input (recorded_of input).name (recorded_of input).input
  recorded_of-IsRecord input = elim (Option-cases input.recorded) [
    | inl e ↦ rw e (refl, refl)
    | inr (r, e) ↦ rw e (refl, refl)
  ]

  pub record Closes (input : DispatchInput N) (response : ResponseEnvelope) (out : Outgoing N)
      (before opened between after : History N table) (duration : ℕ) : Type 0 where
    pub row : Command N
    pub stored : table.find_one out.id after.commands ≡ some row
    pub terminal : row.status ≢ pending
    pub classified : IsClass response row.status
    pub recorded : IsRecord input.recorded input row.name row.input
    pub correlation : Text
    pub created :
        opened.published
        ≡ before.published
          ++ record {
            type = device_command_created;
            device_id = out.device_id;
            causation_id = out.id;
            correlation_id = some correlation;
            payload = command_created out.id row.name out.timeout_ms;
          }
            ∷ []
    pub completed :
        after.published
        ≡ between.published
          ++ record {
            type = device_command_completed;
            device_id = out.device_id;
            causation_id = out.id;
            correlation_id = some correlation;
            payload = command_completed out.id row.name row.status response.is_ok duration;
          }
            ∷ []

  classify-ne-pending : (r : ResponseEnvelope) → classify r ≢ pending
  unfolding classify
  classify-ne-pending r = ground arith

  -- Once a command has been opened and then settled, whatever happened to the history between, its
  -- row has the id that was sent and a terminal status: succeeded exactly if the response is ok,
  -- rejected exactly if it is not and its text is a denial, timed out exactly if it is neither and its
  -- text mentions a time-out. Its name and input are those of the given record, or those sent if none
  -- is given. Its creation and its completion are each announced once, with the row's name and one
  -- correlation id, the completion with the row's status and the time it took.
  pub resolve_outcome-Closes :
      (id fresh : Text) (started now : ℕ) (context : Option Text) (device_id : Text)
      (device : Device) (input : DispatchInput N) (response : ResponseEnvelope)
      (s between : History N table)
      → let (command, out, opened) =
          open_command N table id fresh started context device_id device input s in
        Closes input response out s opened between
          (resolve_outcome N table now started command response between).2
          (now - started)
  unfolding open_command resolve_outcome
  resolve_outcome-Closes id fresh started now context device_id device input response s between =
      let c = open_command N table id fresh started context device_id device input s in
      record {
        row = resolved N table now (c.0) response;
        stored = rw (table.find_one-save, text_eq_refl id);
        terminal = classify-ne-pending response;
        classified = classify-IsClass response;
        recorded = recorded_of-IsRecord input;
        correlation = or_else context fresh;
        created = refl;
        completed = refl;
      }
