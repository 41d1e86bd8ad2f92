-- ===== src/Platform/Http/Tests.antt =====
-- Inputs for apps/backend/src/platform/http.
use senior_io_t_platform_arc.Prelude.{ℕ, ◌≡◌, refl, ◌⊎◌, true, [], Option, none, some, units}
use senior_io_t_platform_arc.Platform.Context.{RequestContext, absent, single, is_correlation_id}
use senior_io_t_platform_arc.Platform.Http.{
  Exception, unexpected, HttpRequest, handle_request, version_headers,
}
use senior_io_t_platform_arc.Platform.Http.Errors.{Traceable, handle_request-Traceable}
use senior_io_t_platform_arc.Platform.Http.Paths.{IsCurrent}
use senior_io_t_platform_arc.Platform.Http.Versions.{deprecation, version_headers-Link}

abbrev request : HttpRequest
request = record {
  correlation = single (units "req-1");
  traceparent = absent;
  original_url = some (units "/devices?limit=5");
  url = none;
}

abbrev thrown : Exception ℕ
thrown = unexpected (units "connection refused: db:5432")

abbrev breaks : RequestContext → Option (Exception ℕ)
breaks context = some thrown

fresh-safe : is_correlation_id (units "f0") ≡ true
unfolding is_correlation_id
fresh-safe = refl

handle_request-Traceable_example :
    Traceable thrown
      (version_headers (some (units "/devices?limit=5")) none)
      (handle_request (units "f0") request breaks).0
      (handle_request (units "f0") request breaks).1
handle_request-Traceable_example =
    handle_request-Traceable (units "f0") request breaks thrown fresh-safe refl

version_headers-Link_example :
    let headers = version_headers (some (units "/devices")) none in
    ((IsCurrent (units "/devices") × (headers ≡ []))
      ⊎ ((¬ IsCurrent (units "/devices")) × (headers ≡ deprecation (units "/v1/devices"))))
    × (version_headers (some (units "/v1/devices")) none ≡ [])
    × (version_headers (some (units "/devices?limit=5")) none ≡ headers)
version_headers-Link_example =
    version_headers-Link (units "devices") (units "limit=5")
      (refl, (refl, (refl, (refl, (refl, (refl, (refl, tt)))))))
