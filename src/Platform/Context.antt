-- ===== src/Platform/Context.antt =====
-- apps/backend/src/platform/context/request-context.ts: the context that a request's headers give.
-- The regular expressions are written out as tests on code units.
use senior_io_t_platform_arc.Prelude.{
  ℕ, ◌≡◌, Bool, true, false, ◌&&◌, ◌||◌, List, [], ◌∷◌, if◌then◌else◌, leb, ◌==◌, Option, none,
  some, or_else, Text, length, take, all, drop, arith,
}

pub record RequestContext : Type 0 where
  pub correlation_id : Text
  pub trace_id : Option Text
  pub span_id : Option Text

-- A header as the framework gives it: absent, one text, or several.
pub data Header : Type 0 where
  absent : Header
  single : Text → Header
  several : List Text → Header

unfoldable pub first_value : Header → Option Text
first_value absent = none
first_value (single s) = some s
first_value (several []) = none
first_value (several (s ∷ ss)) = some s

-- The class `[A-Za-z0-9._-]`.
unfoldable pub is_token_char : ℕ → Bool
is_token_char c =
    (leb b'A' c && leb c b'Z')
    || (leb b'a' c && leb c b'z')
    || (leb b'0' c && leb c b'9')
    || c == b'.'
    || c == b'_'
    || c == b'-'

-- `CORRELATION_ID_PATTERN.test`.
unfoldable pub is_correlation_id : Text → Bool
unfolding is_token_char
is_correlation_id s = leb 1 (length s) && leb (length s) 128 && all is_token_char s

-- The class `[0-9a-f]`.
unfoldable pub is_lower_hex : ℕ → Bool
is_lower_hex c = (leb b'0' c && leb c b'9') || (leb b'a' c && leb c b'f')

-- A dash at the head of a text.
abbrev dashed : Text → Bool
dashed [] = false
dashed (c ∷ s) = c == b'-'

-- `TRACEPARENT_PATTERN.exec`: its two groups. The pattern has fixed widths, 2-32-16-2 with dashes.
unfoldable pub traceparent : Text → Option (Text × Text)
unfolding is_lower_hex
traceparent s =
    if length s == 55
      && all is_lower_hex (take 2 s)
      && dashed (drop 2 s)
      && all is_lower_hex (take 32 (drop 3 s))
      && dashed (drop 35 s)
      && all is_lower_hex (take 16 (drop 36 s))
      && dashed (drop 52 s)
      && all is_lower_hex (drop 53 s)
    then some (take 32 (drop 3 s), take 16 (drop 36 s))
    else none

abbrev correlation_or : Text → Option Text → Text
correlation_or fresh none = fresh
correlation_or fresh (some raw) =
    if (leb 1 (length raw)) && is_correlation_id raw then raw else fresh

abbrev trace_of : Option (Text × Text) → Option Text
trace_of none = none
trace_of (some (t, s)) = some t

abbrev span_of : Option (Text × Text) → Option Text
span_of none = none
span_of (some (t, s)) = some s

-- `contextFromHeaders`, given what `randomUUID` would return.
unfoldable pub context_from_headers : Text → Header → Header → RequestContext
unfolding first_value traceparent
context_from_headers fresh correlation parent =
    let trace = traceparent (or_else (first_value parent) []) in
    record {
      correlation_id = correlation_or fresh (first_value correlation);
      trace_id = trace_of trace;
      span_id = span_of trace;
    }

-- What is echoed and logged is an id of 1 to 128 safe characters, whatever the headers, if the fresh id
-- is one.
pub context_from_headers-safe :
    (fresh : Text) (correlation parent : Header)
    → is_correlation_id fresh ≡ true
    → is_correlation_id (context_from_headers fresh correlation parent).correlation_id ≡ true
unfolding context_from_headers
context_from_headers-safe fresh absent parent h = h
context_from_headers-safe fresh (single s) parent h = ground arith
context_from_headers-safe fresh (several []) parent h = h
context_from_headers-safe fresh (several (s ∷ ss)) parent h = ground arith
