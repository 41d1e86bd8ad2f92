-- ===== src/Provisioning/Privileged.antt =====
-- apps/backend/src/provisioning/platform-token.service.ts and privileged-commands.service.ts: a privileged
-- operation, from the request to the announcement. `execute` is two steps, `begin_execute` up to the
-- awaited promise of the gateway and `finish_execute` once it is settled. Key derivation (hkdfSync) is a
-- parameter, as are JSON text and the keyed hash.
pub mod Begun
pub mod Execution
pub mod Keys
pub mod Secrecy
pub mod Tests
use senior_io_t_platform_arc.Prelude.{
  ℕ, Bool, true, false, not, List, [], ◌∷◌, ◌++◌, if◌then◌else◌, is_nil, ltb, length, Option, none,
  some, Text, units, Result, ok, err, ◌>>=◌,
}
use senior_io_t_platform_arc.Prelude.Json.{Props, str, end, prop}
use senior_io_t_platform_arc.Prelude.Table.{Table}
use senior_io_t_platform_arc.Platform.Catalog.{security_privileged_executed}
use senior_io_t_platform_arc.Platform.Events.{privileged_executed}
use senior_io_t_platform_arc.Protocol.Envelopes.{ResponseEnvelope}
use senior_io_t_platform_arc.Devices.{Device}
use senior_io_t_platform_arc.Commands.{
  Command, CommandResult, command_key, DispatchInput, Outgoing, History, start, resolve_outcome,
}
use senior_io_t_platform_arc.Provisioning.{
  PlatformTokenError, invalid_target, payload_too_large, segment_too_large, TokenPayload,
  SignedToken, sign_platform_token, is_platform_exec_target, validate_privileged_input,
  redact_props, from_base64_url, to_base64_url,
}

pub data KeyError : Type 0 where
  not_base64_url master_key_too_short device_id_required not_configured : KeyError

-- What a request is refused with: 400, 422, or what the key's errors and the dispatch give.
pub data ExecuteError : Type 0 where
  bad_request unprocessable : PlatformTokenError → ExecuteError
  no_key : KeyError → ExecuteError
  device_not_registered : ExecuteError

-- The constructor: the master key that is configured, if any.
pub master_key_of : Option Text → Result KeyError (Option (List ℕ))
master_key_of none = ok none
master_key_of (some []) = ok none
master_key_of (some (c ∷ raw)) = elim (from_base64_url (c ∷ raw)) [
  | none ↦ err not_base64_url
  | some key ↦ ok (some key)
]

-- `kind === "too_large"`.
is_too_large : PlatformTokenError → Bool
is_too_large payload_too_large = true
is_too_large segment_too_large = true
is_too_large _ = false

refused : PlatformTokenError → ExecuteError
unfolding is_too_large
refused e = if is_too_large e then unprocessable e else bad_request e

refusing : {A : Type 0} → Result PlatformTokenError A → Result ExecuteError A
unfolding refused
refusing (ok a) = ok a
refusing (err e) = err (refused e)

module _ (hkdf : List ℕ → Text → List ℕ) where
  derive_device_secret : List ℕ → Text → Result KeyError (List ℕ)
  derive_device_secret master_key device_id =
      if ltb (length master_key) 32
      then err master_key_too_short
      else (if is_nil device_id then err device_id_required else ok (hkdf master_key device_id))

  pub require_key : Option (List ℕ) → Text → Result KeyError (List ℕ)
  unfolding derive_device_secret
  require_key none device_id = err not_configured
  require_key (some master_key) device_id = derive_device_secret master_key device_id

  -- The secret to install on a device, as base64url.
  pub device_secret : Option (List ℕ) → Text → Result KeyError Text
  unfolding require_key
  device_secret master_key device_id = do
    secret ← require_key master_key device_id
    ok (to_base64_url secret)

  module _ {N : Type 0} (json_bytes : TokenPayload N → List ℕ) (hmac : List ℕ → Text → List ℕ) where
    issue_with :
        Result KeyError (List ℕ)
        → Text
        → Text
        → Props N
        → ℕ
        → Text
        → Result ExecuteError (SignedToken N)
    unfolding refusing
    issue_with (err e) device_id capability input now nonce = err (no_key e)
    issue_with (ok secret) device_id capability input now nonce =
        refusing (sign_platform_token json_bytes hmac secret device_id capability input now nonce)

    issue : Option (List ℕ) → Text → Text → Props N → ℕ → Text → Result ExecuteError (SignedToken N)
    unfolding require_key issue_with
    issue master_key device_id capability input now nonce =
        issue_with (require_key master_key device_id) device_id capability input now nonce

    -- What is dispatched: the token on the wire, and the redacted operation for the record.
    abbrev pub privileged_input : Text → Props N → Option ℕ → SignedToken N → DispatchInput N
    privileged_input capability input timeout_ms signed = record {
      name = units "platform_exec";
      input = some (prop (units "token") (str signed.token) end);
      timeout_ms = timeout_ms;
      recorded =
          some (record { name = units "platform_exec:" ++ capability; input = redact_props input });
    }

    module _ (table : Table (command_key {N = N})) where
      -- A dispatch refuses a device that is not registered.
      registered_only : {A : Type 0} → Option A → Result ExecuteError A
      registered_only none = err device_not_registered
      registered_only (some a) = ok a

      -- The clock in seconds signs the token, that in milliseconds dates the command. `id`, `fresh`
      -- and `nonce` are random, `context` is the request's correlation id.
      pub begin_execute :
          Option (List ℕ)
          → (seconds now : ℕ) → (id fresh nonce : Text) → Option Text
          → (device_id : Text) → Option Device
          → (capability : Text) → Props N
          → Option ℕ
          → History N table
          → Result ExecuteError (Command N × Outgoing N × History N table)
      unfolding issue refusing registered_only
      begin_execute master_key seconds now id fresh nonce context device_id device capability input
            timeout_ms s =
          if not (is_platform_exec_target capability) then err (bad_request invalid_target) else (do
            valid ← refusing (validate_privileged_input capability input)
            signed ← issue master_key device_id capability input seconds nonce
            registered_only (
                start N table id fresh now context device_id device
                  (privileged_input capability input timeout_ms signed) s))

      pub finish_execute :
          (now started : ℕ)
          → (capability : Text) → (actor : Option Text) → Command N
          → ResponseEnvelope
          → History N table
          → Command N × CommandResult × History N table
      finish_execute now started capability actor command response s =
          let (closed, result, after) = resolve_outcome N table now started command response s in
          (
            closed,
            result,
            record after {
              published =
                  after.published
                  ++ record {
                    type = security_privileged_executed;
                    device_id = command.device_id;
                    causation_id = closed.id;
                    correlation_id = none;
                    payload = privileged_executed closed.id capability actor closed.status;
                  }
                    ∷ [];
            },
          )
