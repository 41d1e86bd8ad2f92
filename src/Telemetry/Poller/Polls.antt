-- ===== src/Telemetry/Poller/Polls.antt =====
-- telemetry-poller.service.ts: what one poll stores and announces.
use mathlib.Core.List.{append-nil}
use senior_io_t_platform_arc.Prelude.{
  ℕ, suc, ◌+◌, ◌≡◌, refl, sym, ap, ◌∙◌, Bool, true, List, [], ◌∷◌, ◌++◌, map, length, All, is_nil,
  if◌then◌else◌, ltb, Option, none, some, Text, Bool-cases, inl, inr, arith,
}
use senior_io_t_platform_arc.Prelude.Json.{Json, obj, entries}
use senior_io_t_platform_arc.Prelude.Table.{Table}
use senior_io_t_platform_arc.Platform.Events.{
  Payload, Reading, telemetry_updated, DomainEvent, create_event,
}
use senior_io_t_platform_arc.Protocol.Envelopes.{ResponseEnvelope}
use senior_io_t_platform_arc.Devices.{device_key}
use senior_io_t_platform_arc.Commands.{
  Command, command_key, CommandResult, History, Outgoing, resolve_outcome,
}
use senior_io_t_platform_arc.Telemetry.{
  ExtractedSample, TelemetrySample, extract_samples, record_capability_result, row_of, of_parsed,
  storable,
}
use senior_io_t_platform_arc.Telemetry.Samples.{IsOneValue, stored-IsOneValue}
use senior_io_t_platform_arc.Telemetry.Poller.{
  Moment, Services, value_of, to_payload_samples, settle, settled, dispatch, event_of, with_samples,
  record_result, poll_one,
}

-- The readings that stored rows hold.
abbrev pub readings : {N : Type 0} → List (TelemetrySample N) → List (Text × Reading N)
readings [] = []
readings (r ∷ rows) = value_of r.metric r.value_numeric r.value_bool ++ readings rows

ltb-zero-suc : (n : ℕ) → ltb 0 (suc n) ≡ true
ltb-zero-suc n = ground arith

length-readings :
    {N : Type 0} (rows : List (TelemetrySample N))
    → All IsOneValue rows
    → length (readings rows) ≡ length rows
length-readings [] a = refl
length-readings (r ∷ rows) (inl (n, e, f), a) = rw e (ap suc (length-readings rows a))
length-readings (r ∷ rows) (inr (b, e, f), a) = rw (e, f) (ap suc (length-readings rows a))

module _ {N : Type 0} (devices : Table device_key) (commands : Table (command_key {N = N}))
    (parse_json : Text → Option (Json N)) (is_finite : N → Bool) (moments : ℕ → Moment)
    (answer : Outgoing N → ResponseEnvelope) where
  module _ (id capability : Text) (now : ℕ) where
    abbrev rows_of : List (ExtractedSample N) → List (TelemetrySample N)
    rows_of = map (row_of parse_json is_finite id capability now)

    to_payload_samples-readings :
        (samples : List (ExtractedSample N))
        → to_payload_samples samples ≡ readings (rows_of samples)
    unfolding to_payload_samples
    to_payload_samples-readings [] = refl
    to_payload_samples-readings (s ∷ samples) =
        ap (λ rest. value_of s.metric s.value_numeric s.value_bool ++ rest)
          (to_payload_samples-readings samples)

    -- All rows of one result are of its device, capability and time.
    abbrev pub IsOf : TelemetrySample N → Type 0
    IsOf r = (r.device_id ≡ id) × (r.source ≡ capability) × (r.recorded_at ≡ now)

    length-rows_of :
        (samples : List (ExtractedSample N)) → length (rows_of samples) ≡ length samples
    length-rows_of [] = refl
    length-rows_of (x ∷ samples) = ap suc (length-rows_of samples)

    rows_of-IsOf : (samples : List (ExtractedSample N)) → All IsOf (rows_of samples)
    rows_of-IsOf [] = tt
    rows_of-IsOf (s ∷ samples) = ((refl, refl, refl), rows_of-IsOf samples)

    of_parsed-IsOneValue :
        (o : Option (Json N)) → All IsOneValue (rows_of (of_parsed parse_json is_finite o))
    unfolding of_parsed
    of_parsed-IsOneValue (some (obj ps)) =
        stored-IsOneValue parse_json is_finite id capability now (entries ps)
    of_parsed-IsOneValue _ = tt

    extract_samples-IsOneValue :
        (result : Option Text)
        → All IsOneValue (rows_of (extract_samples parse_json is_finite result))
    unfolding extract_samples
    extract_samples-IsOneValue none = tt
    extract_samples-IsOneValue (some []) = tt
    extract_samples-IsOneValue (some (c ∷ s)) = of_parsed-IsOneValue (parse_json (c ∷ s))

  -- The rows that a poll adds, and the events that announce them: none for no rows, else one with their
  -- number and their values.
  pub record Traces (id capability : Text) (before after : Services devices commands) : Type 0 where
    pub added : List (TelemetrySample N)
    pub announcement : List (DomainEvent (Payload N))
    pub stored : after.samples ≡ before.samples ++ added
    pub rows : All (IsOf id capability (moments before.dispatches).resolved_at) added
    pub published : after.published ≡ before.published ++ announcement
    pub payload : map (λ e. e.payload) announcement ≡ (
        if is_nil added
        then []
        else telemetry_updated capability (length added) (readings added) ∷ [])
    pub addressed : All (λ e. e.device_id ≡ some id) announcement
    pub values : length (readings added) ≡ length added
    pub registry : after.registry ≡ before.registry

  nothing :
      (id capability : Text) (s after : Services devices commands)
      → after.samples ≡ s.samples
      → after.published ≡ s.published
      → after.registry ≡ s.registry
      → Traces id capability s after
  nothing id capability s after a b c = record {
    added = [];
    announcement = [];
    stored = a ∙ sym (append-nil s.samples);
    rows = tt;
    published = b ∙ sym (append-nil s.published);
    payload = refl;
    addressed = tt;
    values = refl;
    registry = c;
  }

  module _ (id capability : Text) (s : Services devices commands) (r : CommandResult)
      (history : History N commands) (n : ℕ) where
    abbrev dispatched : Services devices commands
    dispatched = record s { history = history; dispatches = n }

    abbrev moment : Moment
    moment = moments s.dispatches

    -- The state with what a result's samples add.
    abbrev with_rows :
        List (ExtractedSample N) → ℕ → List (TelemetrySample N) → Services devices commands
    with_rows samples k table = record dispatched {
      samples = table;
      published =
          if ltb 0 k
          then s.published
            ++ event_of moment id (telemetry_updated capability k (to_payload_samples samples)) ∷ []
          else s.published;
    }

    stored_samples :
        (x : ExtractedSample N) (xs : List (ExtractedSample N))
        → All IsOneValue (rows_of id capability moment.resolved_at (x ∷ xs))
        → Traces id capability s (
            with_rows
              (x ∷ xs)
              (length (x ∷ xs))
              (s.samples ++ rows_of id capability moment.resolved_at (x ∷ xs)))
    unfolding create_event
    stored_samples x xs a =
        let added = rows_of id capability moment.resolved_at (x ∷ xs) in
        record {
          added = added;
          announcement =
              event_of moment id
                (telemetry_updated capability (length (x ∷ xs)) (to_payload_samples (x ∷ xs)))
              ∷ [];
          stored = refl;
          rows = rows_of-IsOf id capability moment.resolved_at (x ∷ xs);
          published = rw (ltb-zero-suc (length xs)) refl;
          payload =
              rw
                (
                  to_payload_samples-readings id capability moment.resolved_at (x ∷ xs),
                  length-rows_of id capability moment.resolved_at (x ∷ xs),
                )
                refl;
          addressed = (refl, tt);
          values = length-readings added a;
          registry = refl;
        }

    abbrev after_insert : Option (ℕ × List (TelemetrySample N)) → Services devices commands
    after_insert =
        with_samples devices commands parse_json is_finite moments answer moment id capability
          r.result dispatched

    recorded_samples :
        (samples : List (ExtractedSample N))
        → extract_samples parse_json is_finite r.result ≡ samples
        → All IsOneValue (rows_of id capability moment.resolved_at samples)
        → Traces id capability s (
            after_insert (
              if is_nil samples
              then some (0, s.samples)
              else (if storable parse_json is_finite
                    (rows_of id capability moment.resolved_at samples)
                    s.samples
                  then some (
                    length samples,
                    s.samples ++ rows_of id capability moment.resolved_at samples,
                  )
                  else none)))
    unfolding with_samples
    recorded_samples [] e a = nothing id capability s _ refl refl refl
    recorded_samples (x ∷ xs) e a =
        elim (Bool-cases (
          storable parse_json is_finite (rows_of id capability moment.resolved_at (x ∷ xs))
            s.samples)) [
              | inl f ↦ rw (f, e) (stored_samples x xs a)
              | inr f ↦ rw f (nothing id capability s _ refl refl refl)
            ]

    recorded : Traces id capability s (
        record_result devices commands parse_json is_finite moments answer moment id capability r
          dispatched)
    unfolding record_result record_capability_result
    recorded = elim (Bool-cases r.is_ok) [
      | inl e ↦ rw e (
          recorded_samples (extract_samples parse_json is_finite r.result) refl
            (extract_samples-IsOneValue id capability moment.resolved_at r.result))
      | inr e ↦ rw e (nothing id capability s dispatched refl refl refl)
    ]

  -- Whatever became of the dispatch.
  settled-Traces :
      (id capability : Text) (s : Services devices commands)
      (o : Option (Command N × Outgoing N × History N commands))
      → Traces id capability s (
          settled devices commands parse_json is_finite moments answer
            (moments s.dispatches)
            id
            capability
            s
            (settle devices commands parse_json is_finite moments answer
              (moments s.dispatches)
              s
              o))
  unfolding settled settle
  settled-Traces id capability s none = nothing id capability s s refl refl refl
  settled-Traces id capability s (some (command, outgoing, opened)) =
      let m = moments s.dispatches in
      let out =
        resolve_outcome N commands m.resolved_at m.started_at command (answer outgoing) opened in
      recorded id capability s out.1 out.2 (s.dispatches + 1)

  -- A poll stores rows of its device, capability and time, and announces exactly what it stores: with rows, one
  -- event that has their number and each one's value under its metric; without, none.
  pub poll_one-Traces :
      (id capability : Text) (s : Services devices commands)
      → Traces id capability s
          (poll_one devices commands parse_json is_finite moments answer id capability s)
  unfolding poll_one dispatch
  poll_one-Traces id capability s = settled-Traces id capability s _
