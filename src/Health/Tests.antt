-- ===== src/Health/Tests.antt =====
-- Inputs for apps/backend/src/health/health.controller.ts.
use senior_io_t_platform_arc.Prelude.{
  ℕ, [], ◌≡◌, true, false, not, ◌&&◌, if◌then◌else◌, is_nil, or_else, none, some, units, ok, err,
}
use senior_io_t_platform_arc.Platform.Context.{RequestContext}
use senior_io_t_platform_arc.Health.{ready}
use senior_io_t_platform_arc.Health.Readiness.{answer, report, not_ready, ready-answer}

abbrev context : RequestContext
context = record { correlation_id = units "req-1"; trace_id = none; span_id = none }

ready-answer_example :
    answer (some context) (ready {N = ℕ} false (some (units "mqtts://b")) true true (units "now"))
    ≡ (let body =
          report false
            (not (is_nil (or_else (some (units "mqtts://b")) [])))
            (true && true)
            (units "now") in
        if false then ok body else err (503, not_ready context body))
ready-answer_example = ready-answer context false (some (units "mqtts://b")) true true (units "now")
