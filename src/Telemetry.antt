-- ===== src/Telemetry.antt =====
-- apps/backend/src/telemetry/telemetry.service.ts, with telemetry-sample.entity.ts: samples out of a
-- capability's result, and their storage. JSON.parse and the test for finite numbers are parameters; JSON
-- holds finite numbers only up to overflow.
pub mod Poller
pub mod Queries
pub mod Samples
pub mod Tests
use senior_io_t_platform_arc.Prelude.{
  ℕ, Bool, List, [], ◌∷◌, ◌++◌, map, length, if◌then◌else◌, is_nil, Option, none, some, Text,
  text_eq, fits, not, any, true, ◌&&◌, ◌==◌,
}
use senior_io_t_platform_arc.Prelude.Json.{Json, num, bool, obj, entries}

pub record ExtractedSample (N : Type 0) : Type 0 where
  pub metric : Text
  pub value_numeric : Option N
  pub value_bool : Option Bool

pub record TelemetrySample (N : Type 0) : Type 0 where
  pub device_id : Text
  pub metric : Text
  pub recorded_at : ℕ
  pub value_numeric : Option N
  pub value_bool : Option Bool
  pub source : Text

module _ {N : Type 0} (parse_json : Text → Option (Json N)) (is_finite : N → Bool) where
  -- The body of the loop: the samples that one entry gives.
  sample_of : Text → Json N → List (ExtractedSample N)
  sample_of key (num n) =
      if is_finite n
      then record { metric = key; value_numeric = some n; value_bool = none } ∷ []
      else []
  sample_of key (bool b) = record { metric = key; value_numeric = none; value_bool = some b } ∷ []
  sample_of key _ = []

  pub samples_of : List (Text × Json N) → List (ExtractedSample N)
  unfolding sample_of
  samples_of [] = []
  samples_of ((key, value) ∷ fields) = sample_of key value ++ samples_of fields

  of_parsed : Option (Json N) → List (ExtractedSample N)
  unfolding samples_of
  of_parsed (some (obj ps)) = samples_of (entries ps)
  of_parsed _ = []

  pub extract_samples : Option Text → List (ExtractedSample N)
  unfolding of_parsed
  extract_samples none = []
  extract_samples (some []) = []
  extract_samples (some (c ∷ s)) = of_parsed (parse_json (c ∷ s))

  abbrev pub row_of : Text → Text → ℕ → ExtractedSample N → TelemetrySample N
  row_of device_id source now s = record {
    device_id = device_id;
    metric = s.metric;
    recorded_at = now;
    value_numeric = s.value_numeric;
    value_bool = s.value_bool;
    source = source;
  }

  -- Is one row's primary key the other's?
  abbrev same_key : TelemetrySample N → TelemetrySample N → Bool
  same_key r x =
      text_eq x.device_id r.device_id
      && text_eq x.metric r.metric
      && (x.recorded_at == r.recorded_at)

  -- Does the table take new rows? Their texts fit the columns, and their keys are new.
  pub storable : List (TelemetrySample N) → List (TelemetrySample N) → Bool
  storable [] table = true
  storable (r ∷ rows) table =
      fits 32 r.device_id
      && fits 64 r.metric
      && fits 64 r.source
      && not (any (same_key r) table)
      && not (any (same_key r) rows)
      && storable rows table

  -- The number of samples and the table's rows, or none if the insert fails.
  pub record_capability_result :
      ℕ
      → Text
      → Text
      → Option Text
      → List (TelemetrySample N)
      → Option (ℕ × List (TelemetrySample N))
  unfolding extract_samples storable
  record_capability_result now device_id source result table =
      let samples = extract_samples result in
      let rows = map (row_of device_id source now) samples in
      if is_nil samples
      then some (0, table)
      else (if storable rows table then some (length samples, table ++ rows) else none)
