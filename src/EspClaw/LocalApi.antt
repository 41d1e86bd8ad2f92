-- ===== src/EspClaw/LocalApi.antt =====
-- apps/backend/src/esp-claw/local-api-client.ts: reading the two introspection endpoints of a device. What
-- the runtime supplies is a parameter: `lower` and the parser of URLs, `resolve_url` for `new URL(path,
-- target)`, `fetch` with its time-out, and JSON.parse. The requests that are made are listed.
pub mod Requests
use senior_io_t_platform_arc.Prelude.{
  ℕ, ◌+◌, Bool, false, not, ◌&&◌, ◌||◌, ◌==◌, List, [], ◌∷◌, ◌++◌, any, if◌then◌else◌, ltb, length,
  Option, none, some, or_else, Text, units, text_eq, Result, ok, err, is_nil, trim, starts_with,
}
use senior_io_t_platform_arc.Prelude.Json.{Json, Props}
use senior_io_t_platform_arc.Protocol.Capabilities.{
  CapabilityGroup, parse_capability_catalog, parse_local_status,
}
use senior_io_t_platform_arc.EspClaw.{LocalTargetError, Url, assert_safe_local_target}

-- A response: its status, the number that `content-length` reads as, if any, and its text.
pub record Response : Type 0 where
  pub status : ℕ
  pub declared : Option ℕ
  pub text : Text

pub data LocalApiError : Type 0 where
  refused_path : LocalApiError
  unsafe_target : LocalTargetError → LocalApiError
  network_error : LocalApiError
  http_status : ℕ → LocalApiError
  too_large not_json invalid_catalog invalid_status : LocalApiError

abbrev pub max_response_bytes : ℕ
max_response_bytes = 262144

abbrev pub allowed_paths : List Text
allowed_paths = units "/api/capabilities" ∷ units "/api/status" ∷ []

-- `res.ok`.
abbrev pub is_ok_status : ℕ → Bool
is_ok_status status = if ltb status 200 then false else ltb status 300

module _ {N : Type 0} (lower : Text → Text) (parse_url : Text → Option Url)
    (resolve_url : Text → Url → Text) (fetch : Text → Option Response)
    (parse_json : Text → Option (Json N)) (allowed_hosts : List Text) where
  pub validate_base_url : Text → Result LocalTargetError Text
  validate_base_url base_url =
      elim (assert_safe_local_target lower parse_url base_url allowed_hosts) [
        | ok url ↦ ok url.origin
        | err e ↦ err e
      ]

  parsed : Text → Result LocalApiError (Json N)
  parsed text = elim (parse_json text) [ none ↦ err not_json | some json ↦ ok json ]

  pub read_response : Option Response → Result LocalApiError (Json N)
  unfolding parsed
  read_response none = err network_error
  read_response (some r) =
      if not (is_ok_status r.status)
      then err (http_status r.status)
      else (if ltb max_response_bytes (or_else r.declared 0)
          then err too_large
          else (if ltb max_response_bytes (length r.text) then err too_large else parsed r.text))

  request : Text → Result LocalTargetError Url → Result LocalApiError (Json N) × List Text
  unfolding read_response
  request path (err e) = (err (unsafe_target e), [])
  request path (ok target) =
      (read_response (fetch (resolve_url path target)), resolve_url path target ∷ [])

  -- The document or the error, and the requests.
  pub get_json : Text → Text → Result LocalApiError (Json N) × List Text
  unfolding request
  get_json base_url path =
      if not (any (text_eq path) allowed_paths)
      then (err refused_path, [])
      else request path (assert_safe_local_target lower parse_url base_url allowed_hosts)

  catalog_of : Result LocalApiError (Json N) → Result LocalApiError (List CapabilityGroup)
  catalog_of (err e) = err e
  catalog_of (ok json) = elim (parse_capability_catalog json) [
    | none ↦ err invalid_catalog
    | some items ↦ ok items
  ]

  pub fetch_capabilities : Text → Result LocalApiError (List CapabilityGroup) × List Text
  unfolding get_json catalog_of
  fetch_capabilities base_url =
      let (document, requests) = get_json base_url (units "/api/capabilities") in
      (catalog_of document, requests)

  status_of : Result LocalApiError (Json N) → Result LocalApiError (Props N)
  status_of (err e) = err e
  status_of (ok json) = elim (parse_local_status json) [
    | none ↦ err invalid_status
    | some status ↦ ok status
  ]

  pub fetch_status : Text → Result LocalApiError (Props N) × List Text
  unfolding get_json status_of
  fetch_status base_url =
      let (document, requests) = get_json base_url (units "/api/status") in
      (status_of document, requests)

-- A letter in either case, the first argument in lower case.
abbrev is_letter_of : ℕ → ℕ → Bool
is_letter_of x c = c == x || c + 32 == x

-- `/^https?:\/\//i.test`.
has_http_scheme : Text → Bool
has_http_scheme (h ∷ t ∷ u ∷ p ∷ rest) =
    is_letter_of b'h' h
    && is_letter_of b't' t
    && is_letter_of b't' u
    && is_letter_of b'p' p
    && (starts_with (units "://") rest || after_s rest)
  where
    after_s : Text → Bool
    after_s [] = false
    after_s (s ∷ rest) = is_letter_of b's' s && starts_with (units "://") rest
has_http_scheme _ = false

-- `new URL(path, base).toString()` is a parameter; none is an empty base or a URL that does not parse.
pub build_local_url : (Text → Text → Option Text) → Text → Text → Option Text
unfolding has_http_scheme
build_local_url resolve base_url path =
    let trimmed = trim base_url in
    let with_scheme = if has_http_scheme trimmed then trimmed else units "http://" ++ trimmed in
    if is_nil trimmed then none else resolve path with_scheme
