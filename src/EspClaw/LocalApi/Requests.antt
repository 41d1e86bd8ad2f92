-- ===== src/EspClaw/LocalApi/Requests.antt =====
-- local-api-client.ts: what is requested, and what is accepted.
use senior_io_t_platform_arc.Prelude.{
  ◌≤◌, ◌≡◌, refl, ◌⊎◌, inl, inr, true, List, [], ◌∷◌, any, length, Option, none, some, Text, units,
  text_eq, text_eq_iff, Result, ok, err, Bool-cases, arith,
}
use senior_io_t_platform_arc.Prelude.Json.{Json}
use senior_io_t_platform_arc.EspClaw.{Url, assert_safe_local_target, LocalTargetError}
use senior_io_t_platform_arc.EspClaw.LocalApi.{
  Response, LocalApiError, allowed_paths, read_response, parsed, request, get_json, unsafe_target,
  refused_path,
}

module _ {N : Type 0} (lower : Text → Text) (parse_url : Text → Option Url)
    (resolve_url : Text → Url → Text) (fetch : Text → Option Response)
    (parse_json : Text → Option (Json N)) (allowed_hosts : List Text) where
  -- A response that is taken: its status is a success, so no redirect, it fits, and its text parses.
  pub record Accepted (url : Text) (json : Json N) : Type 0 where
    pub response : Response
    pub fetched : fetch url ≡ some response
    pub success : (200 ≤ response.status) × (response.status ≤ 299)
    pub small : length response.text ≤ 262144
    pub reads : parse_json response.text ≡ some json

  -- Either nothing is requested, and there is an error; or exactly one request is made.
  pub data Outcome (base_url path : Text) : Result LocalApiError (Json N) → List Text → Type 0 where
    refused : (e : LocalApiError) → Outcome base_url path (err e) []
    requested :
        (target : Url) (document : Result LocalApiError (Json N))
        → assert_safe_local_target lower parse_url base_url allowed_hosts ≡ ok target
        → (path ≡ units "/api/capabilities") ⊎ (path ≡ units "/api/status")
        → ((json : Json N) → document ≡ ok json → Accepted (resolve_url path target) json)
        → Outcome base_url path document (resolve_url path target ∷ [])

  read_response-eq-ok :
      (answer : Option Response) (json : Json N)
      → read_response lower parse_url resolve_url fetch parse_json allowed_hosts answer ≡ ok json
      → (r : Response) × (answer ≡ some r)
        × (200 ≤ r.status)
        × (r.status ≤ 299)
        × (length r.text ≤ 262144)
        × (parsed lower parse_url resolve_url fetch parse_json allowed_hosts r.text ≡ ok json)
  unfolding read_response
  read_response-eq-ok none json e = cc
  read_response-eq-ok (some r) json e =
      (r, refl, ground (arith, e), ground (arith, e), ground (arith, e), ground (arith, e))

  parsed-eq-ok :
      (text : Text) (json : Json N)
      → parsed lower parse_url resolve_url fetch parse_json allowed_hosts text ≡ ok json
      → parse_json text ≡ some json
  unfolding parsed
  parsed-eq-ok text json e = ground (arith, e)

  read_response-Accepted :
      (url : Text) (json : Json N)
      → read_response lower parse_url resolve_url fetch parse_json allowed_hosts (fetch url)
        ≡ ok json
      → Accepted url json
  read_response-Accepted url json e =
      let (r, fetched, low, high, small, reads) = read_response-eq-ok (fetch url) json e in
      record {
        response = r;
        fetched = fetched;
        success = (low, high);
        small = small;
        reads = parsed-eq-ok r.text json reads;
      }

  allowed_path :
      (path : Text)
      → any (text_eq path) allowed_paths ≡ true
      → (path ≡ units "/api/capabilities") ⊎ (path ≡ units "/api/status")
  allowed_path path h =
      ground (
        arith,
        text_eq_iff path (units "/api/capabilities"),
        text_eq_iff path (units "/api/status"),
      )

  request-Outcome :
      (base_url path : Text) (guarded : Result LocalTargetError Url)
      → any (text_eq path) allowed_paths ≡ true
      → assert_safe_local_target lower parse_url base_url allowed_hosts ≡ guarded
      → let result =
          request lower parse_url resolve_url fetch parse_json allowed_hosts path guarded in
        Outcome base_url path result.0 result.1
  unfolding request
  request-Outcome base_url path (err e) h g = refused (unsafe_target e)
  request-Outcome base_url path (ok target) h g =
      requested target _ g (allowed_path path h)
        (λ json e. read_response-Accepted (resolve_url path target) json e)

  -- Reading an endpoint makes no request and fails, or makes one request: for one of the two
  -- introspection paths, at a target that passes the guard; and a document is taken only from a
  -- response with a success status, of at most 262144 code units, whose text parses to it.
  pub get_json-Outcome :
      (base_url path : Text)
      → let result =
          get_json lower parse_url resolve_url fetch parse_json allowed_hosts base_url path in
        Outcome base_url path result.0 result.1
  unfolding get_json
  get_json-Outcome base_url path = elim (Bool-cases (any (text_eq path) allowed_paths)) [
    | inl h ↦ rw h (request-Outcome base_url path _ h refl)
    | inr h ↦ rw h (refused refused_path)
  ]
