-- ===== src/Twin/Tests.antt =====
-- Inputs for apps/backend/src/twin/twin.service.ts.
use senior_io_t_platform_arc.Prelude.{ℕ, ◌==◌, true, [], ◌∷◌, none, units}
use senior_io_t_platform_arc.Prelude.Json.{num, bool}
use senior_io_t_platform_arc.Prelude.Table.{list_table}
use senior_io_t_platform_arc.Twin.{DeviceShadow, shadow_key}
use senior_io_t_platform_arc.Twin.Merges.{SetsDesired, set_desired-SetsDesired}

abbrev stored : DeviceShadow ℕ
stored = record {
  device_id = units "pump";
  desired = (units "speed", num 3) ∷ [];
  reported = (units "speed", num 2) ∷ [];
  desired_version = 4;
  reported_version = 9;
  updated_at = none;
}

set_desired-SetsDesired_example :
    SetsDesired ◌==◌
      (list_table shadow_key)
      (units "pump")
      ((units "on", bool true) ∷ [])
      (stored ∷ [])
set_desired-SetsDesired_example =
    set_desired-SetsDesired ◌==◌ (list_table shadow_key) (units "pump")
      ((units "on", bool true) ∷ []) (stored ∷ [])
