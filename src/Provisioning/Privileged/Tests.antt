-- ===== src/Provisioning/Privileged/Tests.antt =====
-- Inputs for apps/backend/src/provisioning/privileged-commands.service.ts.
use senior_io_t_platform_arc.Prelude.{
  ℕ, ◌-◌, ◌≡◌, refl, true, List, [], ◌∷◌, ◌++◌, none, some, Text, text_eq, units, ok, starts_with,
  includes,
}
use senior_io_t_platform_arc.Prelude.Json.{Props, str, end, prop}
use senior_io_t_platform_arc.Prelude.Table.{list_table}
use senior_io_t_platform_arc.Protocol.Envelopes.{ResponseEnvelope}
use senior_io_t_platform_arc.Devices.{Device}
use senior_io_t_platform_arc.Commands.{Command, command_key, Outgoing, History, start, open_command}
use senior_io_t_platform_arc.Provisioning.{
  TokenPayload, SignedToken, sign_platform_token, to_base64_url, is_secret_key,
  validate_privileged_input, token_payload,
}
use senior_io_t_platform_arc.Provisioning.Redaction.{AgreeProps}
use senior_io_t_platform_arc.Provisioning.Privileged.{
  begin_execute, finish_execute, privileged_input,
}
use senior_io_t_platform_arc.Provisioning.Privileged.Execution.{Executes, begin_execute-Executes}
use senior_io_t_platform_arc.Provisioning.Privileged.Secrecy.{begin_execute-secrecy}

-- A serializer that keeps the nonce, a keyed hash that keeps the key, and a derivation that keeps the
-- first key.
abbrev nonce_bytes : TokenPayload ℕ → List ℕ
nonce_bytes p = p.nonce

abbrev key_of : List ℕ → Text → List ℕ
key_of secret message = secret

abbrev same_key : List ℕ → Text → List ℕ
same_key master device_id = device_id

abbrev key : Text
key = units "0123456789abcdef0123456789abcdef"

abbrev other_key : Text
other_key = units "fedcba9876543210fedcba9876543210"

abbrev pump : Device
pump = record {
  id = units "pump";
  device_name = none;
  base_topic = units "espclaw";
  online = true;
  last_seen_at = none;
  local_api_base_url = none;
  capabilities_refreshed_at = none;
  first_seen_at = 1;
}

abbrev wifi : Text → Props ℕ
wifi password = prop (units "psk") (str password) end

abbrev history : History ℕ (list_table command_key)
history = record { commands = []; results = []; published = [] }

abbrev signed : Text → Text → SignedToken ℕ
signed password nonce = record {
  token = to_base64_url nonce ++ (b'.' ∷ to_base64_url (units "pump"));
  payload =
      token_payload nonce_bytes key_of (units "pump") (units "network_configure") (wifi password)
        1000 nonce;
}

abbrev opens : Text → Text → Command ℕ × Outgoing ℕ × History ℕ (list_table command_key)
opens password nonce =
    open_command ℕ (list_table command_key) (units "c1") (units "f") 5 none (units "pump") pump
      (privileged_input same_key nonce_bytes key_of (units "network_configure") (wifi password) none
        (signed password nonce))
      history

begins :
    begin_execute same_key nonce_bytes key_of
      (list_table command_key)
      (some key)
      1000
      5
      (units "c1")
      (units "f")
      (units "n")
      none
      (units "pump")
      (some pump)
      (units "network_configure")
      (wifi (units "a"))
      none
      history
    ≡ ok (opens (units "a") (units "n"))
unfolding begin_execute start sign_platform_token text_eq validate_privileged_input to_base64_url
begins = refl

begins_otherwise :
    begin_execute same_key nonce_bytes key_of
      (list_table command_key)
      (some other_key)
      1000
      5
      (units "c1")
      (units "f")
      (units "m")
      none
      (units "pump")
      (some pump)
      (units "network_configure")
      (wifi (units "b"))
      none
      history
    ≡ ok (opens (units "b") (units "m"))
unfolding begin_execute start sign_platform_token text_eq validate_privileged_input to_base64_url
begins_otherwise = refl

is_psk : is_secret_key (units "psk") ≡ true
unfolding is_secret_key includes starts_with
is_psk = refl

begin_execute-secrecy_example :
    ((opens (units "a") (units "n")).0 ≡ (opens (units "b") (units "m")).0)
    × ((opens (units "a") (units "n")).2 ≡ (opens (units "b") (units "m")).2)
begin_execute-secrecy_example =
    begin_execute-secrecy same_key nonce_bytes key_of (list_table command_key) (some key)
      (some other_key) 1000 1000 5 (units "c1") (units "f") (units "n") (units "m") none
      (units "pump") (some pump) (units "network_configure") (wifi (units "a")) (wifi (units "b"))
      none history (opens (units "a") (units "n")).0 (opens (units "b") (units "m")).0
      (opens (units "a") (units "n")).1 (opens (units "b") (units "m")).1
      (opens (units "a") (units "n")).2 (opens (units "b") (units "m")).2
      (AgreeProps.secret is_psk AgreeProps.no_props) begins begins_otherwise

abbrev done : ResponseEnvelope
done = record { id = units "c1"; capability = none; is_ok = true; result = none }

begin_execute-Executes_example :
    let begun = opens (units "a") (units "n") in
    Executes same_key nonce_bytes key_of
      (list_table command_key)
      (units "network_configure")
      none
      (wifi (units "a"))
      (some key)
      1000
      (units "n")
      (9 - 5)
      done
      begun.0
      begun.1
      begun.2
      (finish_execute same_key nonce_bytes key_of
        (list_table command_key)
        9
        5
        (units "network_configure")
        none
        begun.0
        done
        begun.2)
begin_execute-Executes_example =
    begin_execute-Executes same_key nonce_bytes key_of (list_table command_key) (some key) 1000 5 9
      (units "c1") (units "f") (units "n") none (units "pump") (some pump)
      (units "network_configure") (wifi (units "a")) none history (opens (units "a") (units "n")).2
      (opens (units "a") (units "n")).0 (opens (units "a") (units "n")).1
      (opens (units "a") (units "n")).2 none done begins
