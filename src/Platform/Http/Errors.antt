-- ===== src/Platform/Http/Errors.antt =====
-- api-exception.filter.ts and correlation.middleware.ts: what a client learns of an error, and how it is found.
use mathlib.Core.Path.{subst}
use senior_io_t_platform_arc.Prelude.{
  ℕ, ◌≡◌, refl, sym, ap, ◌⊎◌, inl, inr, true, List, [], ◌∷◌, if◌then◌else◌, leb, Option, none, some,
  Text, units,
}
use senior_io_t_platform_arc.Prelude.Json.{Json, null, bool, num, str, arr, obj}
use senior_io_t_platform_arc.Platform.Context.{
  RequestContext, context_from_headers-safe, is_correlation_id,
}
use senior_io_t_platform_arc.Platform.Http.{
  Exception, http_exception, unexpected, ExceptionResponse, plain, object, of_message, ApiError,
  HttpRequest, catch, correlate, handle_request, message_of, version_headers, normalize_exception,
  error_code_for_status,
}

module _ {N : Type 0} where
  -- What the answer says of what was thrown.
  abbrev pub IsAbout : Exception N → ℕ → ApiError N → Type 0
  IsAbout exception status body =
      ((response : ExceptionResponse N) × (message : Text) × (exception
          ≡ http_exception status response message))
      ⊎ ((status ≡ 500)
          × (body.code ≡ units "internal_error")
          × (body.message ≡ units "Internal server error")
          × (body.details ≡ none))

  pub record Traceable (exception : Exception N) (versions headers : List (Text × Text))
      (answer : Option ((ℕ × ApiError N) × List Text)) : Type 0 where
    pub id : Text
    pub status : ℕ
    pub body : ApiError N
    pub log : List Text
    pub header : headers ≡ (units "x-correlation-id", id) ∷ versions
    pub answered : answer ≡ some ((status, body), log)
    pub safe : is_correlation_id id ≡ true
    pub correlated : body.correlation_id ≡ some id
    pub statuses : body.status ≡ status
    pub code : body.code ≡ error_code_for_status status
    pub hidden : IsAbout exception status body
    pub logged : log ≡ (if leb 500 status then message_of exception ∷ [] else [])

  status-of_message :
      (status : ℕ) (fallback : Text) (message details : Option (Json N))
      → (of_message status fallback message details).status ≡ status
  unfolding of_message
  status-of_message status fallback none details = refl
  status-of_message status fallback (some null) details = refl
  status-of_message status fallback (some (bool b)) details = refl
  status-of_message status fallback (some (num n)) details = refl
  status-of_message status fallback (some (str s)) details = refl
  status-of_message status fallback (some (arr items)) details = refl
  status-of_message status fallback (some (obj ps)) details = refl

  about :
      (context : RequestContext) (exception : Exception N)
      → IsAbout exception
          (normalize_exception exception).status
          (catch (some context) exception).0.1
  unfolding catch normalize_exception error_code_for_status
  about context (unexpected message) = inr (refl, refl, refl, refl)
  about context (http_exception status (plain s) message) = inl (plain s, message, refl)
  about context (http_exception status (object ps) message) = inl (
    object ps,
    message,
    ap (λ n. http_exception n (object ps) message) (sym (status-of_message status _ _ _)),
  )

  catch-Traceable :
      (context : RequestContext) (exception : Exception N) (versions : List (Text × Text))
      → is_correlation_id context.correlation_id ≡ true
      → Traceable exception versions
          ((units "x-correlation-id", context.correlation_id) ∷ versions)
          (some (catch (some context) exception))
  unfolding catch
  catch-Traceable context exception versions h = record {
    id = context.correlation_id;
    status = (normalize_exception exception).status;
    body = (catch (some context) exception).0.1;
    log = (catch (some context) exception).1;
    header = refl;
    answered = refl;
    safe = h;
    correlated = refl;
    statuses = refl;
    code = refl;
    hidden = about context exception;
    logged = refl;
  }

  -- If the handler of a request throws, the answer's body names the id that the header
  -- x-correlation-id echoes, a safe one; its status is the answer's and its code is that
  -- status's; of anything but an HTTP exception it says no more than a generic error 500; and the
  -- message is logged exactly for a status from 500 on.
  pub handle_request-Traceable :
      (fresh : Text) (request : HttpRequest) (handler : RequestContext → Option (Exception N))
      (exception : Exception N)
      → is_correlation_id fresh ≡ true
      → handler (correlate fresh request.correlation request.traceparent).1 ≡ some exception
      → Traceable exception
          (version_headers request.original_url request.url)
          (handle_request fresh request handler).0
          (handle_request fresh request handler).1
  unfolding handle_request correlate
  handle_request-Traceable fresh request handler exception h e =
      let context = (correlate fresh request.correlation request.traceparent).1 in
      let versions = version_headers request.original_url request.url in
      subst
        (λ o.
          Traceable exception versions
            ((units "x-correlation-id", context.correlation_id) ∷ versions)
            (elim o as (λ _. Option ((ℕ × ApiError N) × List Text)) [
              | none ↦ none
              | some thrown ↦ some (catch (some context) thrown)
            ]))
        (sym e)
        (catch-Traceable context exception versions
          (context_from_headers-safe fresh request.correlation request.traceparent h))
