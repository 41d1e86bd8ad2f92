-- ===== src/Telemetry/Queries.antt =====
-- apps/backend/src/telemetry/telemetry.service.ts: the samples that a query reads. A limit is a
-- whole number; rows of one time stay in the order in which they were stored.
pub mod Recent
use senior_io_t_platform_arc.Prelude.{
  ℕ, min, Bool, true, ◌&&◌, List, [], ◌∷◌, filter, sort_by, take, leb, Option, none, some, or_else,
  Text, text_eq,
}
use senior_io_t_platform_arc.Telemetry.{TelemetrySample}

pub record TelemetryQuery : Type 0 where
  pub metric : Option Text
  pub from : Option ℕ
  pub to : Option ℕ
  pub limit : Option ℕ

abbrev pub default_query_limit : ℕ
default_query_limit = 500

abbrev pub max_query_limit : ℕ
max_query_limit = 5000

-- A metric that is given and not empty.
metric_is : Option Text → Text → Bool
metric_is none metric = true
metric_is (some []) metric = true
metric_is (some (c ∷ s)) metric = text_eq metric (c ∷ s)

-- `Between`, `MoreThanOrEqual` and `LessThanOrEqual`.
in_range : Option ℕ → Option ℕ → ℕ → Bool
in_range none none t = true
in_range (some from) (some to) t = leb from t && leb t to
in_range (some from) none t = leb from t
in_range none (some to) t = leb t to

module _ {N : Type 0} where
  -- `buildWhere`, as the test that the database makes of a row.
  pub build_where : Text → TelemetryQuery → TelemetrySample N → Bool
  unfolding metric_is in_range
  build_where device_id query r =
      text_eq r.device_id device_id
      && metric_is query.metric r.metric
      && in_range query.from query.to r.recorded_at

  abbrev pub newest_first : TelemetrySample N → TelemetrySample N → Bool
  newest_first a b = leb b.recorded_at a.recorded_at

  pub find_for_device : Text → TelemetryQuery → List (TelemetrySample N) → List (TelemetrySample N)
  unfolding build_where
  find_for_device device_id query table =
      take (min (or_else query.limit default_query_limit) max_query_limit)
        (sort_by newest_first (filter (build_where device_id query) table))
