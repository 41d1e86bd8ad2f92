-- ===== src/Provisioning/Privileged/Execution.antt =====
-- privileged-commands.service.ts: what is sent and announced.
use mathlib.Core.Path.{subst}
use mathlib.Core.List.{append_assoc}
use senior_io_t_platform_arc.Prelude.{
  ℕ, ◌-◌, ◌≡◌, refl, true, List, [], ◌∷◌, ◌++◌, Option, none, some, Text, units, ok,
}
use senior_io_t_platform_arc.Prelude.Json.{Props, str, end, prop}
use senior_io_t_platform_arc.Prelude.Table.{Table}
use senior_io_t_platform_arc.Platform.Catalog.{
  security_privileged_executed, device_command_completed,
}
use senior_io_t_platform_arc.Platform.Events.{privileged_executed, command_completed}
use senior_io_t_platform_arc.Protocol.Envelopes.{ResponseEnvelope}
use senior_io_t_platform_arc.Devices.{Device}
use senior_io_t_platform_arc.Commands.{
  Command, CommandResult, command_key, Outgoing, History, open_command, resolve_outcome, classify,
}
use senior_io_t_platform_arc.Provisioning.{
  TokenPayload, SignedToken, sign_platform_token, is_platform_exec_target,
  validate_privileged_input, redact_props,
}
use senior_io_t_platform_arc.Provisioning.Privileged.{
  begin_execute, finish_execute, require_key, privileged_input,
}
use senior_io_t_platform_arc.Provisioning.Privileged.Begun.{begin_execute-Begun}

module _ (hkdf : List ℕ → Text → List ℕ) {N : Type 0} (json_bytes : TokenPayload N → List ℕ)
    (hmac : List ℕ → Text → List ℕ) (table : Table (command_key {N = N})) where
  -- What the device and the log learn of a privileged call, from its start to its outcome.
  pub record Executes (capability : Text) (actor : Option Text) (input : Props N)
      (master_key : Option (List ℕ)) (seconds : ℕ) (nonce : Text) (duration : ℕ)
      (response : ResponseEnvelope) (command : Command N) (out : Outgoing N)
      (between : History N table) (result : Command N × CommandResult × History N table)
      : Type 0 where
    pub target : is_platform_exec_target capability ≡ true
    pub valid : validate_privileged_input capability input ≡ ok tt
    pub secret : List ℕ
    pub keyed : require_key hkdf master_key out.device_id ≡ ok secret
    pub signed : SignedToken N
    pub signs :
        sign_platform_token json_bytes hmac secret out.device_id capability input seconds nonce
        ≡ ok signed
    pub sent :
        (out.name ≡ units "platform_exec")
        × (out.input ≡ some (prop (units "token") (str signed.token) end))
    pub stored :
        (command.name ≡ units "platform_exec:" ++ capability) × (command.input ≡ redact_props input)
    pub status : result.0.status ≡ classify response
    pub announced :
        result.2.published
        ≡ between.published
          ++ record {
            type = device_command_completed;
            device_id = out.device_id;
            causation_id = out.id;
            correlation_id = command.correlation_id;
            payload =
                command_completed out.id command.name (classify response) response.is_ok duration;
          }
            ∷ record {
              type = security_privileged_executed;
              device_id = out.device_id;
              causation_id = out.id;
              correlation_id = none;
              payload = privileged_executed out.id capability actor (classify response);
            }
            ∷ []

  begun-Executes :
      (master_key : Option (List ℕ)) (seconds now later : ℕ) (id fresh nonce : Text)
      (context : Option Text) (device_id : Text) (row : Device) (capability : Text)
      (input : Props N) (timeout_ms : Option ℕ) (s between : History N table) (secret : List ℕ)
      (signed : SignedToken N) (actor : Option Text) (response : ResponseEnvelope)
      → is_platform_exec_target capability ≡ true
      → validate_privileged_input capability input ≡ ok tt
      → require_key hkdf master_key device_id ≡ ok secret
      → sign_platform_token json_bytes hmac secret device_id capability input seconds nonce
        ≡ ok signed
      → let begun =
          open_command N table id fresh now context device_id row
            (privileged_input hkdf json_bytes hmac capability input timeout_ms signed)
            s in
        Executes capability actor input master_key seconds nonce
          (later - now)
          response
          begun.0
          begun.1
          between
          (finish_execute hkdf json_bytes hmac table later now capability actor begun.0 response
            between)
  unfolding open_command resolve_outcome finish_execute
  begun-Executes master_key seconds now later id fresh nonce context device_id row capability input
        timeout_ms s between secret signed actor response target valid keyed signs =
      record {
        target = target;
        valid = valid;
        secret = secret;
        keyed = keyed;
        signed = signed;
        signs = signs;
        sent = (refl, refl);
        stored = (refl, refl);
        status = refl;
        announced = append_assoc between.published _ _;
      }

  -- A privileged call that begins is for a listed target with a valid input; what is sent is
  -- `platform_exec` with a token signed for that device, target and input, under the device's secret;
  -- what is stored is the target's name and the redacted input; and once the call is settled, whatever
  -- happened between, its status is the class of the response, and its completion and then its
  -- execution by the actor are announced with that status.
  pub begin_execute-Executes :
      (master_key : Option (List ℕ)) (seconds now later : ℕ) (id fresh nonce : Text)
      (context : Option Text) (device_id : Text) (device : Option Device) (capability : Text)
      (input : Props N) (timeout_ms : Option ℕ) (s between : History N table) (command : Command N)
      (out : Outgoing N) (opened : History N table) (actor : Option Text)
      (response : ResponseEnvelope)
      → begin_execute hkdf json_bytes hmac table master_key seconds now id fresh nonce context
          device_id device capability input timeout_ms s
        ≡ ok (command, out, opened)
      → Executes capability actor input master_key seconds nonce
          (later - now)
          response
          command
          out
          between
          (finish_execute hkdf json_bytes hmac table later now capability actor command response
            between)
  begin_execute-Executes master_key seconds now later id fresh nonce context device_id device
        capability input timeout_ms s between command out opened actor response e =
      let b =
        begin_execute-Begun hkdf json_bytes hmac table master_key seconds now id fresh nonce context
          device_id device capability input timeout_ms s command out opened e in
      subst
        (λ (r : Command N × Outgoing N × History N table).
          Executes capability actor input master_key seconds nonce (later - now) response r.0 r.1
            between
            (finish_execute hkdf json_bytes hmac table later now capability actor r.0 response
              between))
        b.dispatched
        (begun-Executes master_key seconds now later id fresh nonce context device_id b.row
          capability input timeout_ms s between b.secret b.signed actor response b.target b.valid
          b.keyed b.signs)
