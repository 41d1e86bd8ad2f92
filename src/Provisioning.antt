-- ===== src/Provisioning.antt =====
-- apps/backend/src/provisioning/platform-exec.ts: tokens for privileged operations. Bytes and code units
-- are numbers. JSON text, the keyed hash and key derivation are parameters.
pub mod Encoding
pub mod Privileged
pub mod Tokens
pub mod Redaction
pub mod Tests
use senior_io_t_platform_arc.Prelude.{
  ℕ, ◌+◌, ◌-◌, ◌*◌, ◌/◌, ◌%◌, Bool, false, not, ◌&&◌, ◌||◌, List, [], ◌∷◌, ◌++◌, map, any, all,
  if◌then◌else◌, ltb, leb, ◌==◌, length, Option, none, some, or_else, Text, units, text_eq,
  starts_with, includes, Result, ok, err, get_elem?,
}
use senior_io_t_platform_arc.Prelude.Dict.{get}
use senior_io_t_platform_arc.Prelude.Json.{
  Json, null, bool, num, str, arr, obj, Elems, nil, cons, Props, end, prop, entries,
}

abbrev platform_exec_targets : List Text
platform_exec_targets =
    units "ota_update"
    ∷ units "mqtt_configure"
    ∷ units "network_configure"
    ∷ units "vpn_configure"
    ∷ units "vpn_connect"
    ∷ units "vpn_disconnect"
    ∷ units "wireguard_configure"
    ∷ units "list_agents"
    ∷ units "inspect_agent"
    ∷ []

pub is_platform_exec_target : Text → Bool
is_platform_exec_target value = any (text_eq value) platform_exec_targets

abbrev alphabet : Text
alphabet = units "ABCDEFGHIJKLMNOPQRSTUVWXYZabcdefghijklmnopqrstuvwxyz0123456789+/"

-- One digit of base64.
digit : ℕ → ℕ
digit n = or_else (get_elem? alphabet n) 0

-- `buf.toString("base64")`, with its padding.
base64 : List ℕ → Text
unfolding digit
base64 [] = []
base64 (a ∷ []) = digit (a / 4) ∷ digit (a % 4 * 16) ∷ b'=' ∷ b'=' ∷ []
base64 (a ∷ b ∷ []) = digit (a / 4) ∷ digit (a % 4 * 16 + b / 16) ∷ digit (b % 16 * 4) ∷ b'=' ∷ []
base64 (a ∷ b ∷ c ∷ rest) =
    digit (a / 4)
    ∷ digit (a % 4 * 16 + b / 16)
    ∷ digit (b % 16 * 4 + c / 64)
    ∷ digit (c % 64)
    ∷ base64 rest

-- `.replace(/\+/g, "-").replace(/\//g, "_")` at one code unit.
url_char : ℕ → ℕ
url_char c = if c == b'+' then b'-' else (if c == b'/' then b'_' else c)

-- `.replace(/=+$/, "")`.
strip_padding : Text → Text
strip_padding [] = []
strip_padding (c ∷ s) =
    let rest = strip_padding s in
    elim rest [ [] ↦ (if c == b'=' then [] else c ∷ []) | d ∷ r ↦ c ∷ d ∷ r ]

pub to_base64_url : List ℕ → Text
unfolding base64 url_char strip_padding
to_base64_url buf = strip_padding (map url_char (base64 buf))

-- The class `[A-Za-z0-9_-]`.
abbrev pub is_base64_url_char : ℕ → Bool
is_base64_url_char c =
    (leb b'A' c && leb c b'Z')
    || (leb b'a' c && leb c b'z')
    || (leb b'0' c && leb c b'9')
    || c == b'_'
    || c == b'-'

-- `.replace(/-/g, "+").replace(/_/g, "/")` at one code unit.
plain_char : ℕ → ℕ
plain_char c = if c == b'-' then b'+' else (if c == b'_' then b'/' else c)

-- The value of a digit of base64.
sextet : ℕ → ℕ
sextet c =
    if leb b'A' c && leb c b'Z'
    then c - b'A'
    else (if leb b'a' c && leb c b'z'
        then c - b'a' + 26
        else (if leb b'0' c && leb c b'9' then c - b'0' + 52 else (if c == b'+' then 62 else 63)))

-- `Buffer.from(text, "base64")` of digits: a single digit at the end makes no byte.
decode : Text → List ℕ
unfolding sextet
decode [] = []
decode (p ∷ []) = []
decode (p ∷ q ∷ []) = (sextet p * 4 + sextet q / 16) ∷ []
decode (p ∷ q ∷ r ∷ []) = (sextet p * 4 + sextet q / 16) ∷ (sextet q % 16 * 16 + sextet r / 4) ∷ []
decode (p ∷ q ∷ r ∷ s ∷ rest) =
    (sextet p * 4 + sextet q / 16)
    ∷ (sextet q % 16 * 16 + sextet r / 4)
    ∷ (sextet r % 4 * 64 + sextet s)
    ∷ decode rest

-- A text that is not base64url is an error.
pub from_base64_url : Text → Option (List ℕ)
unfolding plain_char decode
from_base64_url text =
    if all is_base64_url_char text then some (decode (map plain_char text)) else none

pub data PlatformTokenError : Type 0 where
  invalid_target invalid_url invalid_digest payload_too_large segment_too_large : PlatformTokenError

pub record TokenPayload (N : Type 0) : Type 0 where
  pub device_id : Text
  pub capability : Text
  pub input : Props N
  pub issued_at : ℕ
  pub expires_at : ℕ
  pub nonce : Text

pub record SignedToken (N : Type 0) : Type 0 where
  pub token : Text
  pub payload : TokenPayload N

module _ {N : Type 0} (json_bytes : TokenPayload N → List ℕ) (hmac : List ℕ → Text → List ℕ) where
  pub token_payload : Text → Text → Props N → ℕ → Text → TokenPayload N
  token_payload device_id capability input now nonce = record {
    device_id = device_id;
    capability = capability;
    input = input;
    issued_at = now - 25;
    expires_at = now - 25 + 60;
    nonce = nonce;
  }

  -- The times are Unix seconds, so at least 25; `nonce` is given or random.
  pub sign_platform_token :
      List ℕ → Text → Text → Props N → ℕ → Text → Result PlatformTokenError (SignedToken N)
  unfolding token_payload is_platform_exec_target
  sign_platform_token secret device_id capability input now nonce =
      let payload = token_payload device_id capability input now nonce in
      let bytes = json_bytes payload in
      let segment = to_base64_url bytes in
      let signature = to_base64_url (hmac secret segment) in
      if not (is_platform_exec_target capability)
      then err invalid_target
      else (if ltb 768 (length bytes)
          then err payload_too_large
          else (if ltb 1024 (length segment)
              then err segment_too_large
              else ok (record { token = segment ++ (b'.' ∷ signature); payload = payload })))

-- `SECRET_KEY_PATTERN.test`: it ignores the case of ASCII letters.
ascii_lower : ℕ → ℕ
ascii_lower c = if leb b'A' c && leb c b'Z' then c + 32 else c

abbrev secret_words : List Text
secret_words =
    units "pass"
    ∷ units "secret"
    ∷ units "token"
    ∷ units "private"
    ∷ units "apikey"
    ∷ units "api_key"
    ∷ units "api-key"
    ∷ units "psk"
    ∷ units "credential"
    ∷ []

pub is_secret_key : Text → Bool
unfolding ascii_lower
is_secret_key key = any (λ w. includes w (map ascii_lower key)) secret_words

abbrev pub redacted : {N : Type 0} → Json N
redacted = str (units "[redacted]")

mutual
  pub redact_secrets : {N : Type 0} → Json N → Json N
  redact_secrets (arr xs) = arr (redact_elems xs)
  redact_secrets (obj ps) = obj (redact_props ps)
  redact_secrets null = null
  redact_secrets (bool b) = bool b
  redact_secrets (num n) = num n
  redact_secrets (str s) = str s

  pub redact_elems : {N : Type 0} → Elems N → Elems N
  redact_elems nil = nil
  redact_elems (cons v vs) = cons (redact_secrets v) (redact_elems vs)

  pub redact_props : {N : Type 0} → Props N → Props N
  redact_props end = end
  redact_props (prop k v ps) =
      prop k (if is_secret_key k then redacted else redact_secrets v) (redact_props ps)

-- The class `[0-9a-fA-F]`.
is_hex : ℕ → Bool
is_hex c = (leb b'0' c && leb c b'9') || (leb b'a' c && leb c b'f') || (leb b'A' c && leb c b'F')

is_https_url : {N : Type 0} → Option (Json N) → Bool
is_https_url (some (str url)) = starts_with (units "https://") url && leb (length url) 512
is_https_url _ = false

is_digest : {N : Type 0} → Option (Json N) → Bool
unfolding is_hex
is_digest (some (str sha)) = length sha == 64 && all is_hex sha
is_digest _ = false

pub validate_privileged_input : {N : Type 0} → Text → Props N → Result PlatformTokenError (Unit {0})
unfolding is_https_url is_digest
validate_privileged_input capability input =
    if text_eq capability (units "ota_update")
    then (if not (is_https_url (get (units "url") (entries input)))
        then err invalid_url
        else (if not (is_digest (get (units "sha256") (entries input)))
            then err invalid_digest
            else ok tt))
    else ok tt
