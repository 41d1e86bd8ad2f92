-- ===== src/Health/Readiness.antt =====
-- health.controller.ts with platform/http/api-exception.filter.ts: what a probe of readiness is answered.
use senior_io_t_platform_arc.Prelude.{
  ℕ, ◌≡◌, refl, Bool, true, false, not, ◌&&◌, if◌then◌else◌, [], Option, some, Text, units, Result,
  ok, err, text_eq, is_nil, or_else,
}
use senior_io_t_platform_arc.Prelude.Dict.{get}
use senior_io_t_platform_arc.Platform.Context.{RequestContext}
use senior_io_t_platform_arc.Platform.Http.{
  ApiError, Exception, catch, normalize_exception, error_code_for_status, coalesce, of_message,
}
use senior_io_t_platform_arc.Health.{
  ReadinessResponse, up, down, disabled, ready, readiness, is_configured, is_connected,
  check_database, check_mqtt, body_json,
}

-- What the report is to say, for a database that answers or not, a broker that is configured or not,
-- and a client that is connected or not.
abbrev pub report : Bool → Bool → Bool → Text → ReadinessResponse
report true true true now = record { is_ok = true; database = up; mqtt = up; timestamp = now }
report true true false now = record { is_ok = false; database = up; mqtt = down; timestamp = now }
report true false _ now = record { is_ok = true; database = up; mqtt = disabled; timestamp = now }
report false true true now = record { is_ok = false; database = down; mqtt = up; timestamp = now }
report false true false now = record {
  is_ok = false;
  database = down;
  mqtt = down;
  timestamp = now;
}
report false false _ now = record {
  is_ok = false;
  database = down;
  mqtt = disabled;
  timestamp = now;
}

-- The answer, an error as the filter sends it.
abbrev pub answer :
    {N : Type 0}
    → Option RequestContext
    → Result (Exception N) ReadinessResponse
    → Result (ℕ × ApiError N) ReadinessResponse
answer context (ok body) = ok body
answer context (err e) = err (catch context e).0

-- What the filter sends for an instance that is not ready.
abbrev pub not_ready : {N : Type 0} → RequestContext → ReadinessResponse → ApiError N
not_ready context body = record {
  code = units "unavailable";
  message = units "Service not ready";
  status = 503;
  details = some (body_json body);
  correlation_id = some context.correlation_id;
}

readiness-answer :
    {N : Type 0} (context : RequestContext) (answers configured connected : Bool) (now : Text)
    → answer (some context) (readiness {N = N} answers configured connected now) ≡ (
        let body = report answers configured connected now in
        if answers then ok body else err (503, not_ready context body))
unfolding readiness catch check_database check_mqtt normalize_exception error_code_for_status
    coalesce of_message get text_eq
readiness-answer context true true true now = refl
readiness-answer context true true false now = refl
readiness-answer context true false connected now = refl
readiness-answer context false true true now = refl
readiness-answer context false true false now = refl
readiness-answer context false false connected now = refl

-- An instance is ready exactly if its database answers, whatever the broker's state. The report says
-- that the database is up exactly if it answers, and that the broker is disabled if none is configured,
-- up if its client is connected and down otherwise; it is not ok exactly if one of the two is down. If the database does not
-- answer, a client is sent a 503 with the code unavailable and the report as its details.
pub ready-answer :
    {N : Type 0} (context : RequestContext) (answers : Bool) (url : Option Text)
    (has_client connected : Bool) (now : Text)
    → answer (some context) (ready {N = N} answers url has_client connected now) ≡ (
        let body = report answers (not (is_nil (or_else url []))) (has_client && connected) now in
        if answers then ok body else err (503, not_ready context body))
unfolding ready is_configured is_connected
ready-answer context answers url has_client connected now =
    readiness-answer context answers (is_configured url) (is_connected has_client connected) now
