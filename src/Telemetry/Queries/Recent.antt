-- ===== src/Telemetry/Queries/Recent.antt =====
-- telemetry.service.ts: a query reads the newest of the rows that it asks for.
use mathlib.Core.Path.{subst}
use senior_io_t_platform_arc.Prelude.{
  ℕ, zero, suc, min, ◌≤◌, ◌≡◌, refl, sym, ap, ◌∙◌, Bool, true, ◌⊎◌, inl, inr, ◌↔◌, List, [], ◌∷◌,
  ◌++◌, filter, count, sort_by, take, drop, length, All, Option, none, some, or_else, Text, text_eq,
  text_eq_iff, arith, Bool-cases,
}
use senior_io_t_platform_arc.Prelude.Sorting.{
  Sorted, TotalOrder, sort_by-Sorted, count-sort_by, All-sort_by, take-drop, All-take, length-count,
}
use senior_io_t_platform_arc.Telemetry.{TelemetrySample}
use senior_io_t_platform_arc.Telemetry.Queries.{
  TelemetryQuery, find_for_device, build_where, newest_first, metric_is, in_range,
}

-- A value that is wanted, where one is.
abbrev pub Wanted : {A : Type 0} → Option A → (A → Type 0) → Type 0
Wanted none P = Unit
Wanted (some a) P = P a

metric_is-Wanted :
    (o : Option Text) (metric : Text)
    → metric_is o metric ≡ true
    → Wanted o (λ m. (m ≡ []) ⊎ (metric ≡ m))
unfolding metric_is
metric_is-Wanted none metric e = tt
metric_is-Wanted (some []) metric e = inl refl
metric_is-Wanted (some (c ∷ s)) metric e = inr ((text_eq_iff metric (c ∷ s)).0 e)

in_range-Wanted :
    (from to : Option ℕ) (t : ℕ)
    → in_range from to t ≡ true
    → Wanted from (λ a. a ≤ t) × Wanted to (λ b. t ≤ b)
unfolding in_range
in_range-Wanted none none t e = (tt, tt)
in_range-Wanted (some a) none t e = (ground arith, tt)
in_range-Wanted none (some b) t e = (tt, ground arith)
in_range-Wanted (some a) (some b) t e = (ground arith, ground arith)

Wanted-metric_is :
    (o : Option Text) (metric : Text)
    → Wanted o (λ m. (m ≡ []) ⊎ (metric ≡ m))
    → metric_is o metric ≡ true
unfolding metric_is
Wanted-metric_is none metric w = refl
Wanted-metric_is (some []) metric w = refl
Wanted-metric_is (some (c ∷ s)) metric (inl e) = cc
Wanted-metric_is (some (c ∷ s)) metric (inr e) = (text_eq_iff metric (c ∷ s)).1 e

Wanted-in_range :
    (from to : Option ℕ) (t : ℕ)
    → Wanted from (λ a. a ≤ t)
    → Wanted to (λ b. t ≤ b)
    → in_range from to t ≡ true
unfolding in_range
Wanted-in_range none none t f u = refl
Wanted-in_range (some a) none t f u = ground (arith, f)
Wanted-in_range none (some b) t f u = ground (arith, u)
Wanted-in_range (some a) (some b) t f u = ground (arith, f, u)

module _ {N : Type 0} where
  -- What a query asks of a row.
  abbrev pub IsAskedFor : Text → TelemetryQuery → TelemetrySample N → Type 0
  IsAskedFor device_id query r =
      (r.device_id ≡ device_id)
      × Wanted query.metric (λ m. (m ≡ []) ⊎ (r.metric ≡ m))
      × Wanted query.from (λ t. t ≤ r.recorded_at)
      × Wanted query.to (λ t. r.recorded_at ≤ t)

  newest_first-TotalOrder : TotalOrder (newest_first {N = N})
  newest_first-TotalOrder = record {
    total = λ x y e. ground (arith, e);
    transitive = λ x y z e f. ground (arith, e, f);
  }

  build_where-IsAskedFor :
      (id : Text) (query : TelemetryQuery) (r : TelemetrySample N)
      → build_where id query r ≡ true
      → IsAskedFor id query r
  unfolding build_where
  build_where-IsAskedFor id query r e =
      let d : text_eq r.device_id id ≡ true = ground arith in
      let m : metric_is query.metric r.metric ≡ true = ground arith in
      let t : in_range query.from query.to r.recorded_at ≡ true = ground arith in
      let (from, to) = in_range-Wanted query.from query.to r.recorded_at t in
      ((text_eq_iff r.device_id id).0 d, metric_is-Wanted query.metric r.metric m, from, to)

  IsAskedFor-build_where :
      (id : Text) (query : TelemetryQuery) (r : TelemetrySample N)
      → IsAskedFor id query r
      → build_where id query r ≡ true
  unfolding build_where
  IsAskedFor-build_where id query r a = ground (
    arith,
    (text_eq_iff r.device_id id).1 a.0,
    Wanted-metric_is query.metric r.metric a.1,
    Wanted-in_range query.from query.to r.recorded_at a.2 a.3,
  )

  filter-IsAskedFor :
      (id : Text) (query : TelemetryQuery) (rows : List (TelemetrySample N))
      → All (IsAskedFor id query) (filter (build_where id query) rows)
  filter-IsAskedFor id query [] = tt
  filter-IsAskedFor id query (r ∷ rows) = elim (Bool-cases (build_where id query r)) [
    | inl e ↦ rw e (build_where-IsAskedFor id query r e, filter-IsAskedFor id query rows)
    | inr e ↦ rw e (filter-IsAskedFor id query rows)
  ]

  length-take : (n : ℕ) (xs : List (TelemetrySample N)) → length (take n xs) ≡ min n (length xs)
  length-take zero xs = omega arith
  length-take (suc n) [] = omega arith
  length-take (suc n) (x ∷ xs) = omega (arith, length-take n xs)

  length-sort_by :
      (before : TelemetrySample N → TelemetrySample N → Bool) (xs : List (TelemetrySample N))
      → length (sort_by before xs) ≡ length xs
  length-sort_by before xs =
      length-count (sort_by before xs) ∙ count-sort_by before (λ _. true) xs ∙ sym (length-count xs)

  -- The answer, and the rows that match and are left out: together they are the matching rows, newest first.
  pub record AnswersWith (id : Text) (query : TelemetryQuery)
      (table items : List (TelemetrySample N)) (limit : ℕ) : Type 0 where
    pub older : List (TelemetrySample N)
    pub exact : (r : TelemetrySample N) → (build_where id query r ≡ true) ↔ IsAskedFor id query r
    pub asked : All (IsAskedFor id query) items
    pub size : length items ≡ min limit (length (filter (build_where id query) table))
    pub sorted : Sorted newest_first (items ++ older)
    pub complete :
        (p : TelemetrySample N → Bool)
        → count p (items ++ older) ≡ count p (filter (build_where id query) table)

  -- The answer to a query are rows that it asks for, sorted with the newest first: all of them, or as many
  -- as the limit, which is 500 if none is given and never above 5000; no row left out is newer
  -- than one that is given.
  pub find_for_device-AnswersWith :
      (id : Text) (query : TelemetryQuery) (table : List (TelemetrySample N))
      → AnswersWith id query table
          (find_for_device id query table)
          (min (or_else query.limit 500) 5000)
  unfolding find_for_device
  find_for_device-AnswersWith id query table =
      let limit = min (or_else query.limit 500) 5000 in
      let found = filter (build_where id query) table in
      let rows = sort_by newest_first found in
      record {
        older = drop limit rows;
        exact = λ r. (build_where-IsAskedFor id query r, IsAskedFor-build_where id query r);
        asked = All-take (IsAskedFor id query) limit rows (
            All-sort_by newest_first (IsAskedFor id query) found
              (filter-IsAskedFor id query table));
        size = length-take limit rows ∙ ap (min limit) (length-sort_by newest_first found);
        sorted =
            subst (Sorted newest_first) (sym (take-drop limit rows))
              (sort_by-Sorted newest_first newest_first-TotalOrder found);
        complete = λ p. ap (count p) (take-drop limit rows) ∙ count-sort_by newest_first p found;
      }
