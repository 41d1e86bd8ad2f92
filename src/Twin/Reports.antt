-- ===== src/Twin/Reports.antt =====
-- The way of a reading from a poll (telemetry-poller.service.ts) to the twin (twin.service.ts).
use mathlib.Core.Path.{subst}
use senior_io_t_platform_arc.Prelude.{
  ℕ, ◌≡◌, refl, sym, ap, ◌∙◌, Bool, List, [], ◌∷◌, ◌++◌, map, length, All, is_nil, if◌then◌else◌,
  Option, some, Text,
}
use senior_io_t_platform_arc.Prelude.Dict.{get}
use senior_io_t_platform_arc.Prelude.Json.{Json}
use senior_io_t_platform_arc.Prelude.Table.{Table}
use senior_io_t_platform_arc.Platform.Events.{Payload, DomainEvent, Reading, telemetry_updated}
use senior_io_t_platform_arc.Protocol.Envelopes.{ResponseEnvelope}
use senior_io_t_platform_arc.Devices.{device_key}
use senior_io_t_platform_arc.Commands.{command_key, Outgoing}
use senior_io_t_platform_arc.Telemetry.{TelemetrySample}
use senior_io_t_platform_arc.Telemetry.Poller.{Moment, Services, poll_one}
use senior_io_t_platform_arc.Telemetry.Poller.Polls.{readings, poll_one-Traces}
use senior_io_t_platform_arc.Twin.{
  shadow_key, patch_of, merge_reported, report, react, on_telemetry_updated,
}
use senior_io_t_platform_arc.Twin.Merges.{patched, merge_reported-get, before}

module _ {N : Type 0} (num_eq : N → N → Bool) (twins : Table (shadow_key {N = N})) where
  abbrev pub deliver : List (DomainEvent (Payload N)) → twins.Store → twins.Store
  deliver [] w = w
  deliver (e ∷ events) w = deliver events (on_telemetry_updated num_eq twins e w)

  -- The twin of a device afterwards: each metric has its last reading, or the value of before.
  abbrev pub HasReadings : Text → List (Text × Reading N) → twins.Store → twins.Store → Type 0
  HasReadings id samples w after =
      ((j : Text)
        → get j (before num_eq twins id after).reported
          ≡ patched j (get j (before num_eq twins id w).reported) (patch_of samples))
      × ((before num_eq twins id after).desired ≡ (before num_eq twins id w).desired)

  reported-HasReadings :
      (c : ℕ) (id : Text) (samples : List (Text × Reading N)) (w : twins.Store)
      → HasReadings (c ∷ id) samples w (report num_eq twins (some (c ∷ id)) samples w)
  unfolding report merge_reported
  reported-HasReadings c id [] w = (λ j. refl, refl)
  reported-HasReadings c id (x ∷ xs) w = (
    λ j. (merge_reported-get num_eq twins (c ∷ id) x xs w j).0,
    (merge_reported-get num_eq twins (c ∷ id) x xs w []).2,
  )

  delivered :
      (c : ℕ) (id capability : Text) (added : List (TelemetrySample N))
      (announcement : List (DomainEvent (Payload N))) (w : twins.Store)
      → map (λ e. e.payload) announcement ≡ (
          if is_nil added
          then []
          else telemetry_updated capability (length added) (readings added) ∷ [])
      → All (λ e. e.device_id ≡ some (c ∷ id)) announcement
      → HasReadings (c ∷ id) (readings added) w (deliver announcement w)
  unfolding on_telemetry_updated react
  delivered c id capability [] [] w e a = (λ j. refl, refl)
  delivered c id capability [] (x ∷ xs) w e a = cc
  delivered c id capability (r ∷ rs) [] w e a = cc
  delivered c id capability (r ∷ rs) (x ∷ []) w e a =
      let samples = readings (r ∷ rs) in
      let p : x.payload ≡ telemetry_updated capability (length (r ∷ rs)) samples = cc in
      let d : x.device_id ≡ some (c ∷ id) = a.0 in
      let heard : on_telemetry_updated num_eq twins x w
          ≡ report num_eq twins (some (c ∷ id)) samples w =
        ap (λ o. react num_eq twins o x.payload w) d
        ∙ ap (λ q. react num_eq twins (some (c ∷ id)) q w) p in
      subst (HasReadings (c ∷ id) samples w) (sym heard) (reported-HasReadings c id samples w)
  delivered c id capability (r ∷ rs) (x ∷ y ∷ xs) w e a = cc

  module _ (devices : Table device_key) (commands : Table (command_key {N = N}))
      (parse_json : Text → Option (Json N)) (is_finite : N → Bool) (moments : ℕ → Moment)
      (answer : Outgoing N → ResponseEnvelope) where
    -- What a poll stores and publishes, and the twin once the events are delivered.
    pub record Reflects (id : Text) (s after : Services devices commands) (w : twins.Store)
        : Type 0 where
      pub added : List (TelemetrySample N)
      pub announcement : List (DomainEvent (Payload N))
      pub stored : after.samples ≡ s.samples ++ added
      pub published : after.published ≡ s.published ++ announcement
      pub twin : HasReadings id (readings added) w (deliver announcement w)

    -- Once the events that a poll of a device published are delivered to the twin, the device's twin reports
    -- under each metric the last value that the poll stored for it, or its value of before; the desired
    -- state is as before.
    pub poll_one-Reflects :
        (c : ℕ) (id capability : Text) (s : Services devices commands) (w : twins.Store)
        → Reflects
            (c ∷ id)
            s
            (poll_one devices commands parse_json is_finite moments answer (c ∷ id) capability s)
            w
    poll_one-Reflects c id capability s w =
        let t =
          poll_one-Traces devices commands parse_json is_finite moments answer (c ∷ id) capability
            s in
        record {
          added = t.added;
          announcement = t.announcement;
          stored = t.stored;
          published = t.published;
          twin = delivered c id capability t.added t.announcement w t.payload t.addressed;
        }
