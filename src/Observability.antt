-- ===== src/Observability.antt =====
-- apps/backend/src/observability: the metrics that metrics.service.ts keeps (with http-metrics.interceptor.ts)
-- and the lines of json-logger.ts. The metrics library's counters add what they are given and refuse a
-- negative number; its histograms take observations, here a list, in milliseconds. What
-- JSON.stringify gives of a message is a parameter.
pub mod Counters
pub mod Tests
use senior_io_t_platform_arc.Prelude.{
  ℕ, ◌+◌, ◌-◌, Bool, not, List, [], ◌∷◌, ◌++◌, if◌then◌else◌, ltb, Option, none, some, or_else,
  Text, units,
}
use senior_io_t_platform_arc.Prelude.Dict.{Dict, get, set}
use senior_io_t_platform_arc.Platform.Context.{RequestContext}
use senior_io_t_platform_arc.Platform.Events.{
  Payload, CommandStatus, DomainEvent, command_completed,
}
use senior_io_t_platform_arc.Platform.Bus.{EventBusStats}

-- The four counters of the bus, with what each picks of its totals.
pub data BusCounter : Type 0 where
  published_total delivered_total failed_total timeouts_total : BusCounter

abbrev pub pick : BusCounter → EventBusStats → ℕ
pick published_total s = s.published
pick delivered_total s = s.delivered
pick failed_total s = s.failed
pick timeouts_total s = s.timed_out

-- A counter with the total of the last scrape.
pub record Collector : Type 0 where
  pub value : ℕ
  pub last : ℕ

abbrev pub fresh_collector : Collector
fresh_collector = record { value = 0; last = 0 }

-- `collect`, at a total: `inc` throws for a total that has fallen.
unfoldable pub collect : ℕ → Collector → Option Collector
collect total c =
    if ltb total c.last
    then none
    else some (record { value = c.value + (total - c.last); last = total })

-- `route` is the template of the route, or "unmatched".
pub record HttpObservation : Type 0 where
  pub method : Text
  pub route : Text
  pub status : ℕ
  pub duration_ms : ℕ

pub record Metrics : Type 0 where
  pub events_total : Dict ℕ
  pub command_durations : List (CommandStatus × ℕ)
  pub http_durations : List HttpObservation

observe_command : {N : Type 0} → Payload N → Metrics → Metrics
observe_command (command_completed id name status is_ok duration_ms) m = record m {
  command_durations = m.command_durations ++ (status, duration_ms) ∷ [];
}
observe_command _ m = m

-- The payload tells the type of a completed command's event.
pub observe_event : {N : Type 0} → DomainEvent (Payload N) → Metrics → Metrics
unfolding observe_command
observe_event event m = observe_command event.payload (record m {
  events_total =
      set event.event_type (or_else (get event.event_type m.events_total) 0 + 1) m.events_total;
})

-- How a handler ends: a status, an HTTP exception's status, or another error.
pub data Ending : Type 0 where
  answered failed_with : ℕ → Ending
  failed_otherwise : Ending

status_of : Ending → ℕ
status_of (answered status) = status
status_of (failed_with status) = status
status_of failed_otherwise = 500

-- `HttpMetricsInterceptor.intercept`, once the handler has ended.
pub intercept : Bool → Text → Option Text → Ending → ℕ → Metrics → Metrics
unfolding status_of
intercept is_http method route ending duration_ms m = if not is_http then m else record m {
  http_durations =
      m.http_durations
      ++ record {
        method = method;
        route = or_else route (units "unmatched");
        status = status_of ending;
        duration_ms = duration_ms;
      }
        ∷ [];
}

pub data LogLevel : Type 0 where
  verbose debug log warn error fatal : LogLevel

abbrev pub rank : LogLevel → ℕ
rank verbose = 10
rank debug = 20
rank log = 30
rank warn = 40
rank error = 50
rank fatal = 60

pub data Stream : Type 0 where
  stdout stderr : Stream

pub record LogLine : Type 0 where
  pub level : LogLevel
  pub time : Text
  pub context : Option Text
  pub correlation_id : Option Text
  pub msg : Text
  pub stack : Option Text

-- The values that are texts.
strings : List (Option Text) → List Text
strings [] = []
strings (none ∷ rest) = strings rest
strings (some s ∷ rest) = s ∷ strings rest

last_of : List Text → Option Text
last_of [] = none
last_of (s ∷ []) = some s
last_of (s ∷ t ∷ rest) = last_of (t ∷ rest)

-- The first of two or more, if it is not empty.
stack_of : LogLevel → List Text → Option Text
stack_of error ((c ∷ s) ∷ t ∷ rest) = some (c ∷ s)
stack_of _ _ = none

stream_of : LogLevel → Stream
stream_of error = stderr
stream_of fatal = stderr
stream_of _ = stdout

correlation_of : Option RequestContext → Option Text
correlation_of none = none
correlation_of (some c) = some c.correlation_id

-- `write`, of the text of the message and the further arguments.
pub write :
    Option RequestContext
    → Text
    → LogLevel
    → LogLevel
    → Text
    → List (Option Text)
    → Option (Stream × LogLine)
unfolding strings last_of stack_of stream_of correlation_of
write context now min_level level msg rest =
    let line : LogLine = record {
      level = level;
      time = now;
      context = last_of (strings rest);
      correlation_id = correlation_of context;
      msg = msg;
      stack = stack_of level (strings rest);
    } in
    if ltb (rank level) (rank min_level) then none else some (stream_of level, line)
