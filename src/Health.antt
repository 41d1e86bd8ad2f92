-- ===== src/Health.antt =====
-- apps/backend/src/health/health.controller.ts: liveness and readiness. Whether the database answers within
-- two seconds and whether the broker's client is connected are inputs; texts stand for time stamps.
pub mod Readiness
pub mod Tests
use senior_io_t_platform_arc.Prelude.{
  ℕ, [], Bool, true, false, not, ◌&&◌, if◌then◌else◌, Option, Text, units, is_nil, or_else, Result,
  ok, err,
}
use senior_io_t_platform_arc.Prelude.Json.{Json, str, obj, end, prop}
use senior_io_t_platform_arc.Platform.Http.{Exception, http_exception, object}

pub data CheckState : Type 0 where
  up down disabled : CheckState

pub record LivenessResponse : Type 0 where
  pub status : Text
  pub uptime_seconds : ℕ
  pub timestamp : Text

pub record ReadinessResponse : Type 0 where
  pub is_ok : Bool
  pub database : CheckState
  pub mqtt : CheckState
  pub timestamp : Text

liveness : ℕ → Text → LivenessResponse
liveness uptime now = record { status = units "ok"; uptime_seconds = uptime; timestamp = now }

abbrev pub check_text : CheckState → Text
check_text up = units "up"
check_text down = units "down"
check_text disabled = units "disabled"

abbrev pub is_up : CheckState → Bool
is_up up = true
is_up _ = false

abbrev pub is_down : CheckState → Bool
is_down down = true
is_down _ = false

-- `checkDatabase`: the query answered, or it failed or took too long.
unfoldable pub check_database : Bool → CheckState
check_database answers = if answers then up else down

-- `isConfigured` and `isConnected` of mqtt/mqtt.service.ts, of the configured URL, the client's presence and
-- its connection.
pub is_configured : Option Text → Bool
is_configured url = not (is_nil (or_else url []))

pub is_connected : Bool → Bool → Bool
is_connected has_client connected = has_client && connected

unfoldable pub check_mqtt : Bool → Bool → CheckState
check_mqtt configured connected =
    if not configured then disabled else (if connected then up else down)

-- The body as the error's details carry it.
abbrev pub body_json : {N : Type 0} → ReadinessResponse → Json N
body_json body = obj (
    prop (units "status") (str (if body.is_ok then units "ok" else units "degraded")) (
      prop (units "checks")
        (obj (
          prop (units "database") (str (check_text body.database))
            (prop (units "mqtt") (str (check_text body.mqtt)) end)))
        (prop (units "timestamp") (str body.timestamp) end)))

-- `ready`, of the two checks; the error is `new ServiceUnavailableException({ message, details })`.
unfoldable pub readiness :
    {N : Type 0} → Bool → Bool → Bool → Text → Result (Exception N) ReadinessResponse
unfolding check_database check_mqtt
readiness answers configured connected now =
    let database = check_database answers in
    let mqtt = check_mqtt configured connected in
    let body : ReadinessResponse = record {
      is_ok = is_up database && not (is_down mqtt);
      database = database;
      mqtt = mqtt;
      timestamp = now;
    } in
    if not (is_up database)
    then err (
        http_exception 503
          (object (
            prop (units "message") (str (units "Service not ready"))
              (prop (units "details") (body_json body) end)))
          (units "Service not ready"))
    else ok body

unfoldable pub ready :
    {N : Type 0} → Bool → Option Text → Bool → Bool → Text → Result (Exception N) ReadinessResponse
unfolding readiness is_configured is_connected
ready answers url has_client connected now =
    readiness answers (is_configured url) (is_connected has_client connected) now
