-- ===== src/Audit/Requests/Answers.antt =====
-- audit.controller.ts with event-log.service.ts: what a request for events is answered.
use mathlib.Core.Path.{subst}
use senior_io_t_platform_arc.Prelude.{
  ℕ, zero, suc, ◌+◌, ◌-◌, ◌≤◌, ◌≡◌, refl, ap, ◌∙◌, Bool, true, false, ◌&&◌, List, [], ◌∷◌, ◌++◌,
  map, filter, take, length, if◌then◌else◌, ltb, leb, Option, none, some, Text, units, arith,
  Bool-cases, Option-cases, inl, inr, sym, ok, err, ◌↔◌, ◌⊎◌,
}
use senior_io_t_platform_arc.Prelude.Dict.{Dict, get}
use senior_io_t_platform_arc.Audit.{EventLogRecord, EventLogQuery, find, matches}
use senior_io_t_platform_arc.Audit.Pages.{Descending, rest, find-pages}
use senior_io_t_platform_arc.Audit.Requests.{
  bad_request, out_of_range, is_bigint, ◌>>=◌, text_of, cursor_of, view_of, strict, limit_of,
  parse_query, events,
}

strict-limit :
    (known : Bool) (query passed : EventLogQuery)
    → strict known query ≡ some passed
    → query.limit ≡ passed.limit
unfolding strict
strict-limit true query passed e = cc
strict-limit false query passed e = cc

within : (m n : ℕ) → (if leb 1 m && leb m 200 then some m else none) ≡ some n → (1 ≤ n) × (n ≤ 200)
within m n e = ground (arith, e)

>>=-eq-some :
    {A B : Type 0} (o : Option A) (f : A → Option B) {b : B}
    → o >>= f ≡ some b
    → (a : A) × (o ≡ some a) × (f a ≡ some b)
>>=-eq-some none f e = cc
>>=-eq-some (some a) f e = (a, refl, e)

-- No cursor, or one that is a bigint.
abbrev pub IsInRange : Option ℕ → Type 0
IsInRange none = Unit
IsInRange (some cursor) = cursor ≤ 9223372036854775807

is_bigint_iff : (o : Option ℕ) → (is_bigint o ≡ true) ↔ IsInRange o
unfolding is_bigint
is_bigint_iff none = (λ e. tt, λ r. refl)
is_bigint_iff (some n) = (ground arith, ground arith)

not-IsInRange : (o : Option ℕ) → is_bigint o ≡ false → ¬ IsInRange o
not-IsInRange o f r = absurd (cc ((is_bigint_iff o).1 r))

module _ (whole_number : Text → Option ℕ) where
  limit_of-bounds :
      (o : Option Text) (n : ℕ) → limit_of whole_number o ≡ some n → (1 ≤ n) × (n ≤ 200)
  unfolding limit_of
  limit_of-bounds none n e = ground (arith, e)
  limit_of-bounds (some s) n e = elim (Option-cases (whole_number s)) [
    | inl f ↦ absurd (cc (rw f at e))
    | inr (m, f) ↦ within m n (rw f at e)
  ]

  parse_query-limit :
      (raw : Dict Text) (query : EventLogQuery)
      → parse_query whole_number raw ≡ some query
      → limit_of whole_number (get (units "limit") raw) ≡ some query.limit
  unfolding parse_query
  parse_query-limit raw query h0 =
      let (a, ea, h1) = >>=-eq-some (text_of 32 (get (units "device_id") raw)) _ h0 in
      let (b, eb, h2) = >>=-eq-some (text_of 96 (get (units "type") raw)) _ h1 in
      let (c, ec, h3) = >>=-eq-some (text_of 128 (get (units "correlation_id") raw)) _ h2 in
      let (d, ed, h4) = >>=-eq-some (cursor_of (get (units "before_seq") raw)) _ h3 in
      let (n, en, h5) = >>=-eq-some (limit_of whole_number (get (units "limit") raw)) _ h4 in
      en ∙ ap some (strict-limit _ _ query h5)

module _ {P : Type 0} where
  length-take-le : (n : ℕ) (xs : List (EventLogRecord P)) → length (take n xs) ≤ n
  length-take-le zero xs = omega arith
  length-take-le (suc n) [] = omega arith
  length-take-le (suc n) (x ∷ xs) = omega (arith, length-take-le n xs)

  length-find :
      (query : EventLogQuery) (log : List (EventLogRecord P))
      → length (find query log).items ≤ query.limit
  unfolding find
  length-find query log =
      let rows = take (query.limit + 1) (filter (matches query) log) in
      elim (Bool-cases (ltb query.limit (length rows))) [
        | inl e ↦ rw e (length-take-le query.limit rows)
        | inr e ↦ rw e (ground (arith, e))
      ]

  -- What a request for events is answered, and what is left for the next one.
  pub record Answers (whole_number : Text → Option ℕ) (raw : Dict Text) (query : EventLogQuery)
      (log : List (EventLogRecord P)) : Type 0 where
    pub items : List (EventLogRecord P)
    pub cursor : Option ℕ
    pub answer : events whole_number raw log ≡ ok (map view_of items, cursor)
    pub complete : items ++ rest query log cursor ≡ filter (matches query) log
    pub size : length items ≤ 200

  -- The outcomes of a request for events, by its query and the range of its cursor.
  abbrev pub Outcome :
      (Text → Option ℕ) → Dict Text → List (EventLogRecord P) → Option EventLogQuery → Type 0
  Outcome whole_number raw log none = events whole_number raw log ≡ err bad_request
  Outcome whole_number raw log (some query) =
      (IsInRange query.before_seq × Answers whole_number raw query log)
      ⊎ ((¬ IsInRange query.before_seq) × (events whole_number raw log ≡ err out_of_range))

  events-query :
      (whole_number : Text → Option ℕ) (raw : Dict Text) (query : EventLogQuery)
      (log : List (EventLogRecord P))
      → parse_query whole_number raw ≡ some query
      → is_bigint query.before_seq ≡ true
      → Descending log
      → Answers whole_number raw query log
  unfolding events
  events-query whole_number raw query log e small down =
      let (low, high) =
        limit_of-bounds whole_number (get (units "limit") raw) query.limit
          (parse_query-limit whole_number raw query e) in
      let page = find query log in
      record {
        items = page.items;
        cursor = page.next_cursor;
        answer = rw (e, events) (rw small refl);
        complete = find-pages query log (query.limit - 1) (omega (arith, low)) down;
        size = omega (arith, length-find query log, high);
      }

  -- A request for events whose parameters are not valid is refused. One whose cursor is above the
  -- largest bigint fails in the database, although its parameters are valid. Any other is answered with
  -- 200 events at most, which together with those that the returned cursor leads to are all that match
  -- its query, in order: a client that follows the cursors sees each matching event once. The log is
  -- taken to be in descending order.
  pub events-Answers :
      (whole_number : Text → Option ℕ) (raw : Dict Text) (log : List (EventLogRecord P))
      → Descending log
      → Outcome whole_number raw log (parse_query whole_number raw)
  unfolding events
  events-Answers whole_number raw log down = elim (Option-cases (parse_query whole_number raw)) [
    | inl e ↦ subst (Outcome whole_number raw log) (sym e) (rw (e, events) refl)
    | inr (query, e) ↦
        subst (Outcome whole_number raw log) (sym e)
          (elim (Bool-cases (is_bigint query.before_seq)) [
            | inl r ↦ inl (
              (is_bigint_iff query.before_seq).0 r,
              events-query whole_number raw query log e r down,
            )
            | inr f ↦ inr (not-IsInRange query.before_seq f, rw (e, events) (rw f refl))
          ])
  ]
