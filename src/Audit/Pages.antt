-- ===== src/Audit/Pages.antt =====
-- event-log.service.ts: the pages of a query.
use senior_io_t_platform_arc.Prelude.{
  ℕ, zero, suc, ◌+◌, ◌≤◌, ◌<◌, ◌≡◌, refl, sym, ap, ◌∙◌, Bool, true, false, ◌&&◌, List, [], ◌∷◌,
  ◌++◌, All, if◌then◌else◌, Option, none, some, arith, length, take, filter, ltb, Bool-cases, inl,
  inr,
}
use mathlib.Core.List.{append-nil}
use senior_io_t_platform_arc.Audit.{
  EventLogRecord, EventLogQuery, EventLogPage, find, matches, last_seq, is_before,
}

ltb-false : (m n : ℕ) → n ≤ m → ltb m n ≡ false
ltb-false m n h = ground arith

-- A cursor below a row that passed the one of before decides alone.
is_before-lt :
    (bound : Option ℕ) (c n m : ℕ)
    → is_before bound n ≡ true
    → c ≤ n
    → is_before (some c) m ≡ (is_before bound m && is_before (some c) m)
unfolding is_before
is_before-lt none c n m h le = ground arith
is_before-lt (some b) c n m h le = ground arith

module _ {P : Type 0} where
  -- The order of the table's rows: `seq` falls.
  abbrev pub Descending : List (EventLogRecord P) → Type 0
  Descending [] = Unit
  Descending (r ∷ rs) = All (λ s. s.seq < r.seq) rs × Descending rs

  All-filter :
      (Q : EventLogRecord P → Type 0) (p : EventLogRecord P → Bool) (xs : List (EventLogRecord P))
      → All Q xs
      → All Q (filter p xs)
  All-filter Q p [] a = tt
  All-filter Q p (x ∷ xs) a = elim (Bool-cases (p x)) [
    | inl e ↦ rw e (a.0, All-filter Q p xs a.1)
    | inr e ↦ rw e (All-filter Q p xs a.1)
  ]

  filter-Descending :
      (p : EventLogRecord P → Bool) (xs : List (EventLogRecord P))
      → Descending xs
      → Descending (filter p xs)
  filter-Descending p [] a = tt
  filter-Descending p (x ∷ xs) a = elim (Bool-cases (p x)) [
    | inl e ↦ rw e (All-filter (λ s. s.seq < x.seq) p xs a.0, filter-Descending p xs a.1)
    | inr e ↦ rw e (filter-Descending p xs a.1)
  ]

  filter-below :
      (c : ℕ) (xs : List (EventLogRecord P))
      → All (λ s. s.seq < c) xs
      → filter (λ s. ltb s.seq c) xs ≡ xs
  filter-below c [] a = refl
  filter-below c (x ∷ xs) a = ground (arith, a.0, filter-below c xs a.1)

  take-take : (n : ℕ) (xs : List (EventLogRecord P)) → take n (take (suc n) xs) ≡ take n xs
  take-take zero xs = refl
  take-take (suc n) [] = refl
  take-take (suc n) (x ∷ xs) = ap (◌∷◌ x) (take-take n xs)

  length-take-lt :
      (n : ℕ) (xs : List (EventLogRecord P)) → n < length (take (suc n) xs) → n < length xs
  length-take-lt n [] h = omega (arith, h)
  length-take-lt zero (x ∷ xs) h = omega arith
  length-take-lt (suc n) (x ∷ xs) h = omega (arith, length-take-lt n xs (omega arith))

  take-all :
      (n : ℕ) (xs : List (EventLogRecord P)) → length (take (suc n) xs) ≤ n → take (suc n) xs ≡ xs
  take-all n [] h = refl
  take-all zero (x ∷ xs) h = absurd (omega (arith, h))
  take-all (suc n) (x ∷ xs) h = ap (◌∷◌ x) (take-all n xs (omega arith))

  -- A full page, cut off the rows, and what its last row's `seq` leads to.
  cut :
      (n : ℕ) (x : EventLogRecord P) (xs : List (EventLogRecord P))
      → Descending (x ∷ xs)
      → n ≤ length xs
      → (c : ℕ) × (last_seq (take (suc n) (x ∷ xs)) ≡ some c)
        × (c ≤ x.seq)
        × (take (suc n) (x ∷ xs) ++ filter (λ s. ltb s.seq c) (x ∷ xs) ≡ x ∷ xs)
  unfolding last_seq
  cut zero x xs a h = (
    x.seq,
    refl,
    omega arith,
    rw (ltb-false x.seq x.seq (omega arith)) (ap (◌∷◌ x) (filter-below x.seq xs a.0)),
  )
  cut (suc n) x [] a h = absurd (omega arith)
  cut (suc n) x (y ∷ ys) a h =
      let (c, l, le, e) = cut n y ys a.1 (omega arith) in
      (c, l, omega (arith, a.0.0), rw (ltb-false x.seq c (omega (arith, a.0.0))) (ap (◌∷◌ x) e))

  filter-filter :
      (p q r : EventLogRecord P → Bool) (xs : List (EventLogRecord P))
      → ((x : EventLogRecord P) → r x ≡ (p x && q x))
      → filter q (filter p xs) ≡ filter r xs
  filter-filter p q r [] e = refl
  filter-filter p q r (x ∷ xs) e = ground (arith, e x, filter-filter p q r xs e)

  filter-All :
      (p : EventLogRecord P → Bool) (xs : List (EventLogRecord P))
      → All (λ x. p x ≡ true) (filter p xs)
  filter-All p [] = tt
  filter-All p (x ∷ xs) = elim (Bool-cases (p x)) [
    | inl e ↦ rw e (e, filter-All p xs)
    | inr e ↦ rw e (filter-All p xs)
  ]

  -- The page that is made of the rows that were read, and of the matching rows.
  abbrev page_if : Bool → ℕ → List (EventLogRecord P) → EventLogPage P
  page_if has_more limit rows =
      let items = if has_more then take limit rows else rows in
      record { items = items; next_cursor = if has_more then last_seq items else none }

  abbrev paged : ℕ → ℕ → List (EventLogRecord P) → EventLogPage P
  paged limit read found = page_if (ltb limit (length (take read found))) limit (take read found)

  -- The rows that a query matches from a cursor on.
  abbrev pub rest : EventLogQuery → List (EventLogRecord P) → Option ℕ → List (EventLogRecord P)
  rest query log none = []
  rest query log (some c) = filter (matches (record query { before_seq = some c })) log

  matches-next :
      (query : EventLogQuery) (c : ℕ) (x r : EventLogRecord P)
      → matches query x ≡ true
      → c ≤ x.seq
      → matches (record query { before_seq = some c }) r ≡ (matches query r && ltb r.seq c)
  unfolding matches is_before
  matches-next query c x r h le =
      let b : is_before query.before_seq x.seq ≡ true = ground arith in
      ground (arith, is_before-lt query.before_seq c x.seq r.seq b le)

  full_page :
      (query : EventLogQuery) (log found : List (EventLogRecord P)) (n : ℕ)
      → filter (matches query) log ≡ found
      → Descending found
      → All (λ x. matches query x ≡ true) found
      → suc n < length found
      → take (suc n) found ++ rest query log (last_seq (take (suc n) found)) ≡ found
  full_page query log [] n e a m h = absurd (omega (arith, h))
  full_page query log (x ∷ xs) n e a m h =
      let (c, l, le, whole) = cut n x xs a (omega (arith, h)) in
      let below : EventLogRecord P → Bool = λ s. ltb s.seq c in
      let next =
        filter-filter (matches query) below (matches (record query { before_seq = some c })) log
          (λ r. matches-next query c x r m.0 le) in
      ap (λ o. take (suc n) (x ∷ xs) ++ rest query log o) l
      ∙ ap (λ rows. take (suc n) (x ∷ xs) ++ rows) (sym next ∙ ap (filter below) e)
      ∙ whole

  abbrev joined : EventLogQuery → List (EventLogRecord P) → EventLogPage P → List (EventLogRecord P)
  joined query log page = page.items ++ rest query log page.next_cursor

  paged-rest :
      (query : EventLogQuery) (log found : List (EventLogRecord P)) (n : ℕ)
      → filter (matches query) log ≡ found
      → Descending found
      → All (λ x. matches query x ≡ true) found
      → joined query log (paged (suc n) (suc (suc n)) found) ≡ found
  paged-rest query log found n e a m =
      let rows = take (suc (suc n)) found in
      elim (Bool-cases (ltb (suc n) (length rows))) [
        | inl t ↦
            ap (λ b. joined query log (page_if b (suc n) rows)) t
            ∙ ap (λ items. items ++ rest query log (last_seq items)) (take-take (suc n) found)
            ∙ full_page query log found n e a m (length-take-lt (suc n) found (ground (arith, t)))
        | inr f ↦
            ap (λ b. joined query log (page_if b (suc n) rows)) f
            ∙ append-nil rows
            ∙ take-all (suc n) found (ground (arith, f))
      ]

  -- Of a log whose `seq` falls, a page of at least one row, followed by all rows that its cursor leads
  -- to, is all the rows that match the query, in order: none is lost or given twice, and without a
  -- cursor nothing is left.
  pub find-pages :
      (query : EventLogQuery) (log : List (EventLogRecord P)) (n : ℕ)
      → query.limit ≡ suc n
      → Descending log
      → (let page = find query log in page.items ++ rest query log page.next_cursor)
        ≡ filter (matches query) log
  unfolding find
  find-pages query log n h a =
      let found = filter (matches query) log in
      let read : query.limit + 1 ≡ suc (suc n) = omega (arith, h) in
      ap (λ (k : ℕ). joined query log (paged k (query.limit + 1) found)) h
      ∙ ap (λ (k : ℕ). joined query log (paged (suc n) k found)) read
      ∙ paged-rest query log found n refl (filter-Descending (matches query) log a)
          (filter-All (matches query) log)
