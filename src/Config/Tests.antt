-- ===== src/Config/Tests.antt =====
-- Inputs for apps/backend/src/config/env.validation.ts.
use senior_io_t_platform_arc.Prelude.{
  ℕ, ◌≡◌, refl, ◌⊎◌, inl, Bool, true, [], ◌∷◌, Option, none, some, Text, units, text_eq,
  text_eq_refl, ok, err,
}
use senior_io_t_platform_arc.Prelude.Dict.{Dict, get}
use senior_io_t_platform_arc.Prelude.Table.{list_table}
use senior_io_t_platform_arc.Identity.Users.{user_key, Services}
use senior_io_t_platform_arc.Identity.Service.{IdentityState, bootstrap_token_required, register}
use senior_io_t_platform_arc.Config.{Env, production, validate_env}
use senior_io_t_platform_arc.Config.Keys.{IsUsable, validate_env-IsUsable}
use senior_io_t_platform_arc.Config.Production.{validate_env-register}

-- A hash is the password, and a signature the account's id.
abbrev plain : Services
plain = record {
  Number = ℕ;
  table = list_table user_key;
  hash = λ salt password. password;
  compare = text_eq;
  sha256 = λ s. s;
  sign = λ claims. claims.sub;
  lower = λ s. s;
  compare-hash = λ salt password. text_eq_refl password;
}

abbrev empty : IdentityState plain
empty = record {
  users = [];
  state_cache = [];
  throttle = record { by_account = []; by_address = [] };
  published = [];
}

abbrev any_url : Text → Bool
any_url s = true

abbrev eighty : Text → Option ℕ
eighty s = some 80

abbrev token : Text
token = units "bootstrap-token-1"

abbrev master_key : Text
master_key = units "0123456789abcdefghijklmnopqrstuvwxyzABCDEFG"

abbrev variables : Dict Text
variables =
    (units "NODE_ENV", units "production")
    ∷ (units "DATABASE_URL", units "postgres://db")
    ∷ (units "JWT_SECRET", units "0123456789abcdef")
    ∷ (units "PLATFORM_MASTER_KEY", master_key)
    ∷ (units "ADMIN_BOOTSTRAP_TOKEN", token)
    ∷ []

abbrev accepted : Env
accepted = record {
  node_env = production;
  port = 3000;
  mqtt_url = none;
  mqtt_base_topic_prefix = units "espclaw";
  database_url = units "postgres://db";
  redis_url = none;
  jwt_secret = units "0123456789abcdef";
  telemetry_poll_interval_ms = none;
  local_api_allowed_hosts = none;
  platform_master_key = some master_key;
  log_format = none;
  admin_bootstrap_token = some token;
}

validates : validate_env any_url eighty variables ≡ ok accepted
unfolding validate_env get text_eq
validates = refl

validate_env-register_example :
    register plain accepted.admin_bootstrap_token
      (units "u1")
      1
      2
      (units "eve@x")
      (units "pw")
      none
      empty
    ≡ (err bootstrap_token_required, empty)
validate_env-register_example =
    validate_env-register any_url eighty variables accepted plain (units "u1") 1 2 (units "eve@x")
      (units "pw") none empty validates refl (inl refl)

validate_env-IsUsable_example :
    (accepted.platform_master_key ≡ none)
    ⊎ IsUsable any_url eighty (λ key id. key) accepted.platform_master_key
validate_env-IsUsable_example =
    validate_env-IsUsable any_url eighty (λ key id. key) variables accepted validates
