-- ===== src/Platform/Http.antt =====
-- apps/backend/src/platform/http/api-exception.filter.ts and api-version.middleware.ts, with
-- platform/context/correlation.middleware.ts: what a request's answer carries around its handler, in
-- the order in which apps/backend/src/app.module.ts puts the two middlewares before the handler and
-- the filter behind it. The two regular expressions are written out as tests.
pub mod Errors
pub mod Paths
pub mod Tests
pub mod Versions
use senior_io_t_platform_arc.Prelude.{
  ℕ, Bool, true, false, not, ◌&&◌, ◌||◌, List, [], ◌∷◌, ◌++◌, if◌then◌else◌, leb, ◌==◌, Option,
  none, some, or_else, Text, units, starts_with, drop, split,
}
use senior_io_t_platform_arc.Prelude.Dict.{get}
use senior_io_t_platform_arc.Prelude.Json.{Json, null, str, arr, Props, entries}
use senior_io_t_platform_arc.Platform.Context.{RequestContext, Header, context_from_headers}

-- An `HttpException` answers with a text or an object; anything else can be thrown too.
pub data ExceptionResponse (N : Type 0) : Type 0 where
  plain : Text → ExceptionResponse N
  object : Props N → ExceptionResponse N

pub data Exception (N : Type 0) : Type 0 where
  http_exception : (status : ℕ) (response : ExceptionResponse N) (message : Text) → Exception N
  unexpected : (message : Text) → Exception N

pub record Normalized (N : Type 0) : Type 0 where
  pub status : ℕ
  pub message : Text
  pub details : Option (Json N)

-- The value of `error` in the body.
pub record ApiError (N : Type 0) : Type 0 where
  pub code : Text
  pub message : Text
  pub status : ℕ
  pub details : Option (Json N)
  pub correlation_id : Option Text

abbrev pub codes : List (ℕ × Text)
codes =
    (400, units "invalid_request")
    ∷ (401, units "unauthorized")
    ∷ (403, units "forbidden")
    ∷ (404, units "not_found")
    ∷ (405, units "method_not_allowed")
    ∷ (409, units "conflict")
    ∷ (413, units "payload_too_large")
    ∷ (422, units "unprocessable")
    ∷ (429, units "too_many_requests")
    ∷ (503, units "unavailable")
    ∷ []

abbrev pub code_in : ℕ → List (ℕ × Text) → Option Text
code_in status [] = none
code_in status ((s, code) ∷ table) =
    let rest = code_in status table in if s == status then some code else rest

unfoldable pub error_code_for_status : ℕ → Text
error_code_for_status status =
    or_else (code_in status codes)
      (if leb 500 status then units "internal_error" else units "error")

module _ {N : Type 0} where
  -- `a ?? b`.
  unfoldable pub coalesce : Option (Json N) → Option (Json N) → Option (Json N)
  coalesce none b = b
  coalesce (some null) b = b
  coalesce (some v) b = some v

  unfoldable pub of_message : ℕ → Text → Option (Json N) → Option (Json N) → Normalized N
  of_message status fallback (some (arr items)) details = record {
    status = status;
    message = units "Validation failed";
    details = some (arr items);
  }
  of_message status fallback (some (str s)) details = record {
    status = status;
    message = s;
    details = details;
  }
  of_message status fallback _ details = record {
    status = status;
    message = fallback;
    details = details;
  }

  unfoldable pub normalize_exception : Exception N → Normalized N
  unfolding coalesce of_message
  normalize_exception (unexpected message) = record {
    status = 500;
    message = units "Internal server error";
    details = none;
  }
  normalize_exception (http_exception status (plain s) message) = record {
    status = status;
    message = s;
    details = none;
  }
  normalize_exception (http_exception status (object ps) message) =
      of_message status message (get (units "message") (entries ps))
        (coalesce (get (units "details") (entries ps)) (get (units "issues") (entries ps)))

  abbrev pub message_of : Exception N → Text
  message_of (http_exception status response message) = message
  message_of (unexpected message) = message

  -- The status and the body of the answer, and the messages that are logged.
  unfoldable pub catch : Option RequestContext → Exception N → (ℕ × ApiError N) × List Text
  unfolding normalize_exception error_code_for_status
  catch context exception =
      let n = normalize_exception exception in
      let correlation_id : Option Text = elim context [
        | none ↦ none
        | some c ↦ some c.correlation_id
      ] in
      (
        (
          n.status,
          record {
            code = error_code_for_status n.status;
            message = n.message;
            status = n.status;
            details = n.details;
            correlation_id = correlation_id;
          },
        ),
        if leb 500 n.status then message_of exception ∷ [] else [],
      )

-- `CorrelationMiddleware.use`: the header that is set and the context of what follows.
pub correlate : Text → Header → Header → (Text × Text) × RequestContext
correlate fresh correlation parent =
    let context = context_from_headers fresh correlation parent in
    ((units "x-correlation-id", context.correlation_id), context)

abbrev is_digit : ℕ → Bool
is_digit c = leb b'0' c && leb c b'9'

skip_digits : Text → Text
skip_digits [] = []
skip_digits (c ∷ s) = if is_digit c then skip_digits s else c ∷ s

-- `(\/|$)`.
abbrev at_boundary : Text → Bool
at_boundary [] = true
at_boundary (c ∷ s) = c == b'/'

version_digits : Text → Bool
unfolding skip_digits
version_digits [] = false
version_digits (c ∷ s) = is_digit c && at_boundary (skip_digits s)

-- `VERSIONED.test` and `UNVERSIONED_BY_DESIGN.test`.
unfoldable pub is_versioned : Text → Bool
unfolding version_digits
is_versioned path = starts_with (units "/v") path && version_digits (drop 2 path)

pub is_unversioned_by_design : Text → Bool
is_unversioned_by_design path =
    (starts_with (units "/health") path && at_boundary (drop 7 path))
    || (starts_with (units "/metrics") path && at_boundary (drop 8 path))

abbrev pub first_part : List Text → Text
first_part [] = []
first_part (s ∷ ss) = s

-- `ApiVersionMiddleware.use`, of `originalUrl` and `url`: the headers that are set.
pub version_headers : Option Text → Option Text → List (Text × Text)
unfolding is_versioned is_unversioned_by_design
version_headers original_url url =
    let path = first_part (split b'?' (or_else original_url (or_else url []))) in
    if not (is_versioned path) && not (is_unversioned_by_design path)
    then (units "Deprecation", units "true")
      ∷ (units "Link", units "</v1" ++ path ++ units ">; rel=\"successor-version\"")
      ∷ []
    else []

pub record HttpRequest : Type 0 where
  pub correlation : Header
  pub traceparent : Header
  pub original_url : Option Text
  pub url : Option Text

-- A request whose handler throws, or not: the headers that the middlewares set, and the filter's answer.
pub handle_request :
    {N : Type 0}
    → Text
    → HttpRequest
    → (RequestContext → Option (Exception N))
    → List (Text × Text) × Option ((ℕ × ApiError N) × List Text)
unfolding correlate version_headers
handle_request fresh request handler =
    let (header, context) = correlate fresh request.correlation request.traceparent in
    (
      header ∷ version_headers request.original_url request.url,
      elim (handler context) [
        | none ↦ none
        | some exception ↦ some (catch (some context) exception)
      ],
    )
