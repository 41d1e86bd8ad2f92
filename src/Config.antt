-- ===== src/Config.antt =====
-- apps/backend/src/config/env.validation.ts, with apps/backend/src/main.ts (the choice of the logger):
-- the variables of the environment, as `validateEnv` reads them. The schema's tests are written
-- out; what the library does for URLs and for numbers is a parameter, as are their texts. The error names the
-- first variable that is refused, where the source's lists all of them.
pub mod Keys
pub mod Production
pub mod Tests
use senior_io_t_platform_arc.Prelude.{
  ℕ, Bool, true, false, ◌&&◌, ◌||◌, [], ◌∷◌, if◌then◌else◌, leb, length, all, ◌==◌, is_nil, Option,
  none, some, or_else, Text, units, text_eq, Result, ok, err, ◌>>=◌,
}
use senior_io_t_platform_arc.Prelude.Dict.{Dict, get}

pub data NodeEnv : Type 0 where
  development test production : NodeEnv

pub data LogFormat : Type 0 where
  text json : LogFormat

pub record Env : Type 0 where
  pub node_env : NodeEnv
  pub port : ℕ
  pub mqtt_url : Option Text
  pub mqtt_base_topic_prefix : Text
  pub database_url : Text
  pub redis_url : Option Text
  pub jwt_secret : Text
  pub telemetry_poll_interval_ms : Option ℕ
  pub local_api_allowed_hosts : Option Text
  pub platform_master_key : Option Text
  pub log_format : Option LogFormat
  pub admin_bootstrap_token : Option Text

-- A text that must pass a test, one that may be absent, and one with a default.
unfoldable pub required : Text → (Text → Bool) → Option Text → Result Text Text
required name allowed none = err name
required name allowed (some s) = if allowed s then ok s else err name

unfoldable pub optional : Text → (Text → Bool) → Option Text → Result Text (Option Text)
optional name allowed none = ok none
optional name allowed (some s) = if allowed s then ok (some s) else err name

abbrev pub min_length : ℕ → Text → Bool
min_length n s = leb n (length s)

node_env_of : Option Text → Result Text NodeEnv
node_env_of none = ok development
node_env_of (some s) =
    if text_eq s (units "development")
    then ok development
    else (if text_eq s (units "test")
        then ok test
        else (if text_eq s (units "production") then ok production else err (units "NODE_ENV")))

log_format_of : Option Text → Result Text (Option LogFormat)
log_format_of none = ok none
log_format_of (some s) =
    if text_eq s (units "text")
    then ok (some text)
    else (if text_eq s (units "json") then ok (some json) else err (units "LOG_FORMAT"))

-- The class `[A-Za-z0-9_-]`.
abbrev pub is_key_char : ℕ → Bool
is_key_char c =
    (leb b'A' c && leb c b'Z')
    || (leb b'a' c && leb c b'z')
    || (leb b'0' c && leb c b'9')
    || c == b'_'
    || c == b'-'

abbrev pub is_master_key : Text → Bool
is_master_key s = min_length 43 s && all is_key_char s

abbrev pub is_production : NodeEnv → Bool
is_production production = true
is_production _ = false

refine : Env → Result Text Env
refine env =
    if is_production env.node_env && is_nil (or_else env.admin_bootstrap_token [])
    then err (units "ADMIN_BOOTSTRAP_TOKEN")
    else ok env

module _ (is_url : Text → Bool) (positive_int : Text → Option ℕ) where
  -- `z.coerce.number().int().positive()`, with a default or optional.
  port_of : Option Text → Result Text ℕ
  port_of none = ok 3000
  port_of (some s) = elim (positive_int s) [ none ↦ err (units "PORT") | some n ↦ ok n ]

  interval_of : Option Text → Result Text (Option ℕ)
  interval_of none = ok none
  interval_of (some s) = elim (positive_int s) [
    | none ↦ err (units "TELEMETRY_POLL_INTERVAL_MS")
    | some n ↦ ok (some n)
  ]

  -- The object of the schema, before the refinement.
  parse_object : Dict Text → Result Text Env
  unfolding required optional node_env_of log_format_of port_of interval_of
  parse_object config = do
    node_env ← node_env_of (get (units "NODE_ENV") config)
    port ← port_of (get (units "PORT") config)
    mqtt_url ← optional (units "MQTT_URL") is_url (get (units "MQTT_URL") config)
    prefix ←
        required (units "MQTT_BASE_TOPIC_PREFIX") (min_length 1)
          (some (or_else (get (units "MQTT_BASE_TOPIC_PREFIX") config) (units "espclaw")))
    database_url ← required (units "DATABASE_URL") is_url (get (units "DATABASE_URL") config)
    redis_url ← optional (units "REDIS_URL") is_url (get (units "REDIS_URL") config)
    jwt_secret ← required (units "JWT_SECRET") (min_length 16) (get (units "JWT_SECRET") config)
    interval ← interval_of (get (units "TELEMETRY_POLL_INTERVAL_MS") config)
    master_key ←
        optional (units "PLATFORM_MASTER_KEY") is_master_key
          (get (units "PLATFORM_MASTER_KEY") config)
    log_format ← log_format_of (get (units "LOG_FORMAT") config)
    token ←
        optional (units "ADMIN_BOOTSTRAP_TOKEN") (min_length 16)
          (get (units "ADMIN_BOOTSTRAP_TOKEN") config)
    ok (record {
      node_env = node_env;
      port = port;
      mqtt_url = mqtt_url;
      mqtt_base_topic_prefix = prefix;
      database_url = database_url;
      redis_url = redis_url;
      jwt_secret = jwt_secret;
      telemetry_poll_interval_ms = interval;
      local_api_allowed_hosts = get (units "LOCAL_API_ALLOWED_HOSTS") config;
      platform_master_key = master_key;
      log_format = log_format;
      admin_bootstrap_token = token;
    })

  pub validate_env : Dict Text → Result Text Env
  unfolding parse_object refine
  validate_env config = parse_object config >>= refine

-- `wantsJsonLogs`, of LOG_FORMAT and NODE_ENV as they stand in the environment.
pub wants_json_logs : Option Text → Option Text → Bool
wants_json_logs none node_env = text_eq (or_else node_env []) (units "production")
wants_json_logs (some []) node_env = text_eq (or_else node_env []) (units "production")
wants_json_logs (some (c ∷ s)) node_env = text_eq (c ∷ s) (units "json")
