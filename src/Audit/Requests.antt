-- ===== src/Audit/Requests.antt =====
-- apps/backend/src/audit/audit.controller.ts: a request for a page of the log. A query's parameters are texts,
-- each given once; the reading of a text as a whole number is a parameter. The comparison of a cursor
-- with the column `seq`, a bigint, is refused by the database above the largest bigint.
pub mod Answers
use senior_io_t_platform_arc.Prelude.{
  ℕ, ◌+◌, ◌-◌, ◌*◌, Bool, true, ◌&&◌, List, [], ◌∷◌, map, any, all, length, if◌then◌else◌, leb,
  Option, none, some, Text, units, text_eq, Result, ok, err,
}
use senior_io_t_platform_arc.Prelude.Dict.{Dict, get, keys}
use senior_io_t_platform_arc.Audit.{EventLogRecord, EventLogQuery, find}

-- An event as a client sees it.
pub record EventView (P : Type 0) : Type 0 where
  pub seq : ℕ
  pub event_id : Text
  pub event_type : Text
  pub schema_version : ℕ
  pub timestamp : ℕ
  pub recorded_at : ℕ
  pub device_id : Option Text
  pub source : Text
  pub correlation_id : Text
  pub causation_id : Option Text
  pub trace_id : Option Text
  pub payload : P

-- A refused request, or an error of the database's, which the filter answers with a 500.
pub data EventsError : Type 0 where
  bad_request out_of_range : EventsError

-- Is the cursor in the range of the column that it is compared with?
unfoldable pub is_bigint : Option ℕ → Bool
is_bigint none = true
is_bigint (some cursor) = leb cursor 9223372036854775807

abbrev known_parameters : List Text
known_parameters =
    units "device_id"
    ∷ units "type"
    ∷ units "correlation_id"
    ∷ units "before_seq"
    ∷ units "limit"
    ∷ []

abbrev is_digit : ℕ → Bool
is_digit c = leb b'0' c && leb c b'9'

digits_value : ℕ → Text → ℕ
digits_value n [] = n
digits_value n (c ∷ s) = digits_value (n * 10 + (c - b'0')) s

infixl 5 ◌>>=◌
abbrev pub ◌>>=◌ : {A B : Type 0} → Option A → (A → Option B) → Option B
none >>= f = none
some a >>= f = f a

-- `z.string().min(1).max(n).optional()`.
pub text_of : ℕ → Option Text → Option (Option Text)
text_of most none = some none
text_of most (some s) = if leb 1 (length s) && leb (length s) most then some (some s) else none

-- `z.string().regex(/^\d{1,19}$/).optional()`.
pub cursor_of : Option Text → Option (Option ℕ)
unfolding digits_value
cursor_of none = some none
cursor_of (some s) =
    if leb 1 (length s) && leb (length s) 19 && all is_digit s
    then some (some (digits_value 0 s))
    else none

pub view_of : {P : Type 0} → EventLogRecord P → EventView P
view_of r = record {
  seq = r.seq;
  event_id = r.event_id;
  event_type = r.event_type;
  schema_version = r.schema_version;
  timestamp = r.occurred_at;
  recorded_at = r.recorded_at;
  device_id = r.device_id;
  source = r.source;
  correlation_id = r.correlation_id;
  causation_id = r.causation_id;
  trace_id = r.trace_id;
  payload = r.payload;
}

-- `.strict()`: no other parameter is allowed.
pub strict : Bool → EventLogQuery → Option EventLogQuery
strict known query = if known then some query else none

module _ (whole_number : Text → Option ℕ) where
  -- `z.coerce.number().int().min(1).max(MAX_LIMIT).default(DEFAULT_LIMIT)`.
  pub limit_of : Option Text → Option ℕ
  limit_of none = some 50
  limit_of (some s) = do n ← whole_number s; if leb 1 n && leb n 200 then some n else none

  unfoldable pub parse_query : Dict Text → Option EventLogQuery
  unfolding text_of cursor_of limit_of strict
  parse_query raw = do
    device_id ← text_of 32 (get (units "device_id") raw)
    event_type ← text_of 96 (get (units "type") raw)
    correlation_id ← text_of 128 (get (units "correlation_id") raw)
    before_seq ← cursor_of (get (units "before_seq") raw)
    limit ← limit_of (get (units "limit") raw)
    strict (all (λ k. any (text_eq k) known_parameters) (keys raw)) (record {
      device_id = device_id;
      event_type = event_type;
      correlation_id = correlation_id;
      before_seq = before_seq;
      limit = limit;
    })

  -- The items and the next cursor, or the error.
  unfoldable pub events :
      {P : Type 0}
      → Dict Text
      → List (EventLogRecord P)
      → Result EventsError (List (EventView P) × Option ℕ)
  unfolding parse_query view_of
  events raw log = elim (parse_query raw) [
    | none ↦ err bad_request
    | some query ↦
        let page = find query log in
        if is_bigint query.before_seq
        then ok (map view_of page.items, page.next_cursor)
        else err out_of_range
  ]
