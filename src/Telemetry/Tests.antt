-- ===== src/Telemetry/Tests.antt =====
-- Inputs for apps/backend/src/telemetry/telemetry.service.ts.
use senior_io_t_platform_arc.Prelude.{
  ℕ, min, List, none, ◌≡◌, refl, Bool, true, [], ◌∷◌, Option, some, Text, units,
}
use senior_io_t_platform_arc.Prelude.Json.{Json, Props, num, bool, str, obj, end, prop, entries}
use senior_io_t_platform_arc.Telemetry.Queries.{TelemetryQuery, find_for_device}
use senior_io_t_platform_arc.Telemetry.Queries.Recent.{AnswersWith, find_for_device-AnswersWith}
use senior_io_t_platform_arc.Telemetry.{TelemetrySample, record_capability_result}
use senior_io_t_platform_arc.Telemetry.Samples.{Adds, scalars, record_capability_result-Adds}

abbrev fields : Props ℕ
fields =
    prop (units "connected") (bool true)
      (prop (units "ssid") (str (units "lab")) (prop (units "rssi") (num 61) end))

-- A parser that knows one document, and numbers that are all finite.
abbrev parse_fields : Text → Option (Json ℕ)
parse_fields _ = some (obj fields)

abbrev finite : ℕ → Bool
finite _ = true

scalars_test :
    scalars parse_fields finite (entries fields)
    ≡ (units "connected", bool true) ∷ (units "rssi", num 61) ∷ []
scalars_test = refl

record_capability_result-Adds_example :
    Adds parse_fields finite (units "pump") (units "network_status") 7 (entries fields) [] (
      record_capability_result parse_fields finite 7
        (units "pump")
        (units "network_status")
        (some (units "{...}"))
        [])
record_capability_result-Adds_example =
    record_capability_result-Adds parse_fields finite (units "pump") (units "network_status") 7 b'{'
      (units "...}") [] fields refl

abbrev sample_at : ℕ → TelemetrySample ℕ
sample_at t = record {
  device_id = units "pump";
  metric = units "rssi";
  recorded_at = t;
  value_numeric = some 61;
  value_bool = none;
  source = units "network_status";
}

abbrev since_four : TelemetryQuery
since_four = record { metric = some (units "rssi"); from = some 4; to = none; limit = some 2 }

abbrev stored_samples : List (TelemetrySample ℕ)
stored_samples = sample_at 5 ∷ sample_at 9 ∷ sample_at 3 ∷ sample_at 7 ∷ []

find_for_device-AnswersWith_example :
    AnswersWith
      (units "pump")
      since_four
      stored_samples
      (find_for_device (units "pump") since_four stored_samples)
      (min 2 5000)
find_for_device-AnswersWith_example =
    find_for_device-AnswersWith (units "pump") since_four stored_samples
