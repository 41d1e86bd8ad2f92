-- ===== src/Twin.antt =====
-- apps/backend/src/twin/twin.service.ts: desired and reported state of a device. A row is loaded,
-- changed and saved within one method. Comparing two numbers is a parameter, as numbers are. The order
-- of the keys of a jsonb column is the database's; the model keeps the order of a document's writes.
pub mod Drift
pub mod Merges
pub mod Reports
pub mod Tests
use senior_io_t_platform_arc.Prelude.{
  ℕ, ◌+◌, Bool, true, false, not, List, [], ◌∷◌, filter, is_nil, Option, none, some, or_else, Text,
  text_eq,
}
use senior_io_t_platform_arc.Prelude.Dict.{Dict, get, set, keys}
use senior_io_t_platform_arc.Prelude.Json.{Json, null, bool, num, str}
use senior_io_t_platform_arc.Prelude.Table.{Table}
use senior_io_t_platform_arc.Platform.Events.{
  Payload, DomainEvent, state_changed, telemetry_updated, Reading, number, flag,
}

-- The row of twin/device-shadow.entity.ts.
pub record DeviceShadow (N : Type 0) : Type 0 where
  pub device_id : Text
  pub desired : Dict (Json N)
  pub reported : Dict (Json N)
  pub desired_version : ℕ
  pub reported_version : ℕ
  pub updated_at : Option ℕ

abbrev pub shadow_key : {N : Type 0} → DeviceShadow N → Text
shadow_key row = row.device_id

pub record ShadowView (N : Type 0) : Type 0 where
  pub shadow : DeviceShadow N
  pub drift : List Text
  pub in_sync : Bool

-- `{ ...base, ...patch }`, and the loop that assigns `reported[metric]`.
pub merge {ℓ} : {V : Type ℓ} → Dict V → Dict V → Dict V
merge base [] = base
merge base ((k, v) ∷ patch) = merge (set k v base) patch

abbrev pub json_of : {N : Type 0} → Reading N → Json N
json_of (number n) = num n
json_of (flag b) = bool b

abbrev pub patch_of : {N : Type 0} → List (Text × Reading N) → Dict (Json N)
patch_of [] = []
patch_of ((metric, value) ∷ samples) = (metric, json_of value) ∷ patch_of samples

module _ {N : Type 0} (num_eq : N → N → Bool) where
  -- `===` of two values from two documents: arrays and objects are never the same one.
  pub strict_eq : Json N → Json N → Bool
  strict_eq null null = true
  strict_eq (bool true) (bool b) = b
  strict_eq (bool false) (bool b) = not b
  strict_eq (num m) (num n) = num_eq m n
  strict_eq (str s) (str t) = text_eq s t
  strict_eq _ _ = false

  -- `desired[key] === reported[key]`, where either may be undefined.
  pub same_value : Option (Json N) → Option (Json N) → Bool
  unfolding strict_eq
  same_value none none = true
  same_value (some v) (some w) = strict_eq v w
  same_value _ _ = false

  pub compute_drift : Dict (Json N) → Dict (Json N) → List Text
  unfolding same_value
  compute_drift desired reported =
      filter (λ key. not (same_value (get key desired) (get key reported))) (keys desired)

  view_of : DeviceShadow N → ShadowView N
  unfolding compute_drift
  view_of row =
      let drift = compute_drift row.desired row.reported in
      record { shadow = row; drift = drift; in_sync = is_nil drift }

  module _ (table : Table (shadow_key {N = N})) where
    abbrev pub empty_shadow : Text → DeviceShadow N
    empty_shadow id = record {
      device_id = id;
      desired = [];
      reported = [];
      desired_version = 0;
      reported_version = 0;
      updated_at = none;
    }

    pub get_shadow : Text → table.Store → ShadowView N
    unfolding view_of
    get_shadow id s = view_of (or_else (table.find_one id s) (empty_shadow id))

    -- A new row is saved at once, before the change is.
    find_or_create : Text → table.Store → DeviceShadow N × table.Store
    find_or_create id s = elim (table.find_one id s) [
      | some row ↦ (row, s)
      | none ↦ (empty_shadow id, table.save (empty_shadow id) s)
    ]

    -- The view, the event's payload, and the table.
    pub set_desired : Text → Dict (Json N) → table.Store → ShadowView N × Payload N × table.Store
    unfolding find_or_create view_of merge
    set_desired id patch s =
        let (row, found) = find_or_create id s in
        let changed = record row {
          desired = merge row.desired patch;
          desired_version = row.desired_version + 1;
        } in
        let view = view_of changed in
        (view, state_changed patch changed.desired_version view.drift, table.save changed found)

    pub merge_reported : Text → List (Text × Reading N) → table.Store → table.Store
    unfolding find_or_create merge
    merge_reported id [] s = s
    merge_reported id (sample ∷ samples) s =
        let (row, found) = find_or_create id s in
        table.save
          (record row {
            reported = merge row.reported (patch_of (sample ∷ samples));
            reported_version = row.reported_version + 1;
          })
          found

    report : Option Text → List (Text × Reading N) → table.Store → table.Store
    unfolding merge_reported
    report none samples s = s
    report (some []) samples s = s
    report (some (c ∷ id)) samples s = merge_reported (c ∷ id) samples s

    react : Option Text → Payload N → table.Store → table.Store
    unfolding report
    react device_id (telemetry_updated source n samples) s = report device_id samples s
    react device_id _ s = s

    -- The subscriber of telemetry events; other events do not reach it.
    pub on_telemetry_updated : DomainEvent (Payload N) → table.Store → table.Store
    unfolding react
    on_telemetry_updated event s = react event.device_id event.payload s
