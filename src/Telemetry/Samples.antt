-- ===== src/Telemetry/Samples.antt =====
-- telemetry.service.ts: what is stored of a result.
use mathlib.Core.List.{append-nil}
use senior_io_t_platform_arc.Prelude.{
  ℕ, ◌≡◌, refl, sym, ap, ◌⊎◌, inl, inr, Bool, true, false, List, [], ◌∷◌, ◌++◌, map, length, All,
  arith, is_nil, if◌then◌else◌, Option, none, some, Text, Bool-cases,
}
use senior_io_t_platform_arc.Prelude.Json.{Json, null, num, bool, str, arr, obj, Props, entries}
use senior_io_t_platform_arc.Telemetry.{
  ExtractedSample, TelemetrySample, sample_of, samples_of, extract_samples,
  record_capability_result, row_of, of_parsed, storable,
}

-- The entries that are scalar: the numbers that are finite, and the truth values.
abbrev pub scalar : {N : Type 0} → (N → Bool) → Json N → Bool
scalar is_finite (num n) = is_finite n
scalar is_finite (bool b) = true
scalar is_finite _ = false

-- One column holds the value, the other is empty.
abbrev pub IsOneValue : {N : Type 0} → TelemetrySample N → Type 0
IsOneValue {N} r =
    ((n : N) × (r.value_numeric ≡ some n) × (r.value_bool ≡ none))
    ⊎ ((b : Bool) × (r.value_numeric ≡ none) × (r.value_bool ≡ some b))

-- The value of an entry is in the column of its type, and the other one is empty.
abbrev pub HoldsValue : {N : Type 0} → Json N → TelemetrySample N → Type 0
HoldsValue (num n) r = (r.value_numeric ≡ some n) × (r.value_bool ≡ none)
HoldsValue (bool b) r = (r.value_numeric ≡ none) × (r.value_bool ≡ some b)
HoldsValue _ r = ⊥

module _ {N : Type 0} (parse_json : Text → Option (Json N)) (is_finite : N → Bool) where
  -- The scalar entries, in order.
  abbrev pub scalars : List (Text × Json N) → List (Text × Json N)
  scalars [] = []
  scalars ((key, value) ∷ fields) =
      let rest = scalars fields in if scalar is_finite value then (key, value) ∷ rest else rest

  module _ (device_id source : Text) (now : ℕ) where
    abbrev stored : List (ExtractedSample N) → List (TelemetrySample N)
    stored = map (row_of parse_json is_finite device_id source now)

    pub stored-IsOneValue :
        (fields : List (Text × Json N))
        → All IsOneValue (stored (samples_of parse_json is_finite fields))
    unfolding samples_of sample_of
    stored-IsOneValue [] = tt
    stored-IsOneValue ((key, num n) ∷ fields) = elim (Bool-cases (is_finite n)) [
      | inl e ↦ rw e (inl (n, refl, refl), stored-IsOneValue fields)
      | inr e ↦ rw e (stored-IsOneValue fields)
    ]
    stored-IsOneValue ((key, bool b) ∷ fields) = (inr (b, refl, refl), stored-IsOneValue fields)
    stored-IsOneValue ((key, null) ∷ fields) = stored-IsOneValue fields
    stored-IsOneValue ((key, str s) ∷ fields) = stored-IsOneValue fields
    stored-IsOneValue ((key, arr xs) ∷ fields) = stored-IsOneValue fields
    stored-IsOneValue ((key, obj ps) ∷ fields) = stored-IsOneValue fields

    length-stored : (samples : List (ExtractedSample N)) → length (stored samples) ≡ length samples
    length-stored [] = refl
    length-stored (s ∷ samples) = omega (arith, length-stored samples)

    -- A row's columns for an entry.
    abbrev pub IsRow : Text → Json N → TelemetrySample N → Type 0
    IsRow key value r =
        (r.device_id ≡ device_id)
        × (r.metric ≡ key)
        × (r.recorded_at ≡ now)
        × (r.source ≡ source)
        × HoldsValue value r

    -- One row for each entry, in order.
    abbrev pub AreRows : List (Text × Json N) → List (TelemetrySample N) → Type 0
    AreRows [] [] = Unit
    AreRows ((key, value) ∷ fields) (r ∷ rows) = IsRow key value r × AreRows fields rows
    AreRows _ _ = ⊥

    samples_of-AreRows :
        (fields : List (Text × Json N))
        → AreRows (scalars fields) (stored (samples_of parse_json is_finite fields))
    unfolding samples_of sample_of
    samples_of-AreRows [] = tt
    samples_of-AreRows ((key, num n) ∷ fields) = elim (Bool-cases (is_finite n)) [
      | inl e ↦ rw e ((refl, refl, refl, refl, (refl, refl)), samples_of-AreRows fields)
      | inr e ↦ rw e (samples_of-AreRows fields)
    ]
    samples_of-AreRows ((key, bool b) ∷ fields) =
        ((refl, refl, refl, refl, (refl, refl)), samples_of-AreRows fields)
    samples_of-AreRows ((key, null) ∷ fields) = samples_of-AreRows fields
    samples_of-AreRows ((key, str s) ∷ fields) = samples_of-AreRows fields
    samples_of-AreRows ((key, arr xs) ∷ fields) = samples_of-AreRows fields
    samples_of-AreRows ((key, obj ps) ∷ fields) = samples_of-AreRows fields

    -- What becomes of a capability's result: the rows for its entries, and their storage.
    pub record Adds (fields : List (Text × Json N)) (before : List (TelemetrySample N))
        (out : Option (ℕ × List (TelemetrySample N))) : Type 0 where
      pub added : List (TelemetrySample N)
      pub rows : AreRows (scalars fields) added
      pub outcome : out ≡ (
          if storable parse_json is_finite added before
          then some (length added, before ++ added)
          else none)

    abbrev inserted :
        ℕ
        → List (TelemetrySample N)
        → List (TelemetrySample N)
        → Option (ℕ × List (TelemetrySample N))
    inserted n rows table =
        if storable parse_json is_finite rows table then some (n, table ++ rows) else none

    adds :
        (samples : List (ExtractedSample N)) (table : List (TelemetrySample N))
        → (let empty : Option (ℕ × List (TelemetrySample N)) = some (0, table) in
            if is_nil samples then empty else inserted (length samples) (stored samples) table)
          ≡ inserted (length (stored samples)) (stored samples) table
    unfolding storable
    adds [] table =
        ap (λ rows. let o : Option (ℕ × List (TelemetrySample N)) = some (0, rows) in o)
          (sym (append-nil table))
    adds (s ∷ samples) table =
        ap (λ n. inserted n (stored (s ∷ samples)) table) (sym (length-stored (s ∷ samples)))

    -- Of a result that parses as an object, one row is made for each top-level entry that is a truth
    -- value or a finite number, in order: with the device, the capability and the time given, under the
    -- entry's name, with its value in the column of its type and the other column empty. If the table
    -- takes these rows they are appended and their number is returned; else the call fails.
    pub record_capability_result-Adds :
        (c : ℕ) (text : Text) (table : List (TelemetrySample N)) (ps : Props N)
        → parse_json (c ∷ text) ≡ some (obj ps)
        → Adds (entries ps) table (
            record_capability_result parse_json is_finite now device_id source
              (some (c ∷ text))
              table)
    unfolding record_capability_result extract_samples of_parsed
    record_capability_result-Adds c text table ps e = record {
      added = stored (samples_of parse_json is_finite (entries ps));
      rows = samples_of-AreRows (entries ps);
      outcome = rw (e, of_parsed) (adds (samples_of parse_json is_finite (entries ps)) table);
    }
