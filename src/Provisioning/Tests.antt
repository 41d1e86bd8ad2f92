-- ===== src/Provisioning/Tests.antt =====
-- Inputs for apps/backend/src/provisioning/platform-exec.ts.
use senior_io_t_platform_arc.Prelude.{
  some, ℕ, ◌+◌, ◌≤◌, ◌≡◌, refl, ◌≢◌, ◌↔◌, true, List, [], ◌∷◌, Text, text_eq, units, ok, err,
  length, arith, starts_with, includes,
}
use senior_io_t_platform_arc.Prelude.Json.{Json, str, obj, end, prop}
use senior_io_t_platform_arc.Provisioning.{
  TokenPayload, SignedToken, to_base64_url, from_base64_url, sign_platform_token, token_payload,
  segment_too_large, is_platform_exec_target, redact_secrets, is_secret_key,
}
use senior_io_t_platform_arc.Provisioning.Encoding.{from_base64_url-to_base64_url}
use senior_io_t_platform_arc.Provisioning.Redaction.{
  Agree, redact_secrets-Agree, redact_secrets_idem,
}
use senior_io_t_platform_arc.Provisioning.Redaction
use senior_io_t_platform_arc.Provisioning.Tokens.{
  InWindow, sign_platform_token-segment, sign_platform_token-window,
}

-- A serializer that keeps the device's name, and a keyed hash that keeps the key.
abbrev name_bytes : TokenPayload ℕ → List ℕ
name_bytes p = p.device_id

abbrev key_of : List ℕ → Text → List ℕ
key_of secret message = secret

sign_platform_token-segment_example :
    sign_platform_token name_bytes key_of
      (7 ∷ [])
      (units "pump")
      (units "ota_update")
      end
      1000
      (units "n")
    ≢ err segment_too_large
sign_platform_token-segment_example =
    sign_platform_token-segment name_bytes key_of (7 ∷ []) (units "pump") (units "ota_update") end
      1000 (units "n")

abbrev signed : SignedToken ℕ
signed = record {
  token = units "cHVtcA.Bw";
  payload =
      token_payload name_bytes key_of (units "pump") (units "ota_update") end 1000 (units "n");
}

signs :
    sign_platform_token name_bytes key_of
      (7 ∷ [])
      (units "pump")
      (units "ota_update")
      end
      1000
      (units "n")
    ≡ ok signed
unfolding sign_platform_token text_eq to_base64_url
signs = refl

sign_platform_token-window_example :
    (signed.payload.device_id ≡ units "pump")
    × (signed.payload.capability ≡ units "ota_update")
    × (is_platform_exec_target (units "ota_update") ≡ true)
    × (length (name_bytes signed.payload) ≤ 768)
    × (InWindow 990 signed.payload ↔ ((1000 ≤ 990 + 30) × (990 ≤ 1000 + 35)))
sign_platform_token-window_example =
    sign_platform_token-window name_bytes key_of (7 ∷ []) (units "pump") (units "ota_update") end
      1000 (units "n") signed 990 (ground arith) signs

abbrev wifi : Text → Json ℕ
wifi password =
    obj (prop (units "ssid") (str (units "lab")) (prop (units "wifiPassword") (str password) end))

is_password : is_secret_key (units "wifiPassword") ≡ true
unfolding is_secret_key includes starts_with
is_password = refl

wifi-Agree : Agree (wifi (units "a")) (wifi (units "b"))
wifi-Agree =
    Agree.objs (Redaction.plain Agree.same (Redaction.secret is_password Redaction.no_props))

redact_secrets-Agree_example : redact_secrets (wifi (units "a")) ≡ redact_secrets (wifi (units "b"))
redact_secrets-Agree_example = redact_secrets-Agree wifi-Agree

redact_secrets_idem_example :
    redact_secrets (redact_secrets (wifi (units "a"))) ≡ redact_secrets (wifi (units "a"))
redact_secrets_idem_example = redact_secrets_idem (wifi (units "a"))

from_base64_url-to_base64_url_example :
    from_base64_url (to_base64_url (251 ∷ 255 ∷ 0 ∷ 7 ∷ [])) ≡ some (251 ∷ 255 ∷ 0 ∷ 7 ∷ [])
from_base64_url-to_base64_url_example =
    from_base64_url-to_base64_url (251 ∷ 255 ∷ 0 ∷ 7 ∷ []) (omega arith)
