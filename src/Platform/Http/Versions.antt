-- ===== src/Platform/Http/Versions.antt =====
-- api-version.middleware.ts: the marks of the deprecated paths.
use senior_io_t_platform_arc.Prelude.{
  ◌≡◌, refl, ◌⊎◌, inl, inr, true, not, ◌&&◌, List, [], ◌∷◌, ◌++◌, none, some, Text, units, Free,
  starts_with, split-Free, split-append, Bool-cases,
}
use senior_io_t_platform_arc.Platform.Http.{
  version_headers, is_versioned, version_digits, skip_digits, is_unversioned_by_design,
}
use senior_io_t_platform_arc.Platform.Http.Paths.{IsCurrent, unmarked_iff}

-- The headers that mark a deprecated path, with the path that replaces it.
abbrev pub deprecation : Text → List (Text × Text)
deprecation next =
    (units "Deprecation", units "true")
    ∷ (units "Link", units "<" ++ next ++ units ">; rel=\"successor-version\"")
    ∷ []

versioned : (path : Text) → is_versioned (units "/v1/" ++ path) ≡ true
unfolding is_versioned starts_with version_digits skip_digits
versioned path = refl

headers-path :
    (path : Text)
    → Free b'?' path
    → ((IsCurrent path) × (version_headers (some path) none ≡ []))
      ⊎ ((¬ IsCurrent path)
          × (version_headers (some path) none ≡ deprecation (units "/v1" ++ path)))
unfolding version_headers
headers-path path f =
    let (to, from) = unmarked_iff path in
    elim (Bool-cases (not (is_versioned path) && not (is_unversioned_by_design path))) [
      | inl e ↦ inr (λ v. absurd (cc (from v)), rw (split-Free b'?' path f, e) refl)
      | inr e ↦ inl (to e, rw (split-Free b'?' path f, e) refl)
    ]

headers-Free :
    (path : Text)
    → Free b'?' path
    → is_versioned path ≡ true
    → version_headers (some path) none ≡ []
unfolding version_headers
headers-Free path f v = rw (split-Free b'?' path f, v) refl

-- A path is not marked exactly if it is the path of a version, a probe's or the metrics', or one under
-- these; any other is marked as deprecated, with the path /v1 before it. That one is not marked itself:
-- a client that follows the link is at the end. The query makes no difference.
pub version_headers-Link :
    (path query : Text)
    → Free b'?' path
    → let absolute = b'/' ∷ path in
      let headers = version_headers (some absolute) none in
      ((IsCurrent absolute × (headers ≡ []))
        ⊎ ((¬ IsCurrent absolute) × (headers ≡ deprecation (units "/v1/" ++ path))))
      × (version_headers (some (units "/v1/" ++ path)) none ≡ [])
      × (version_headers (some (b'/' ∷ path ++ b'?' ∷ query)) none ≡ headers)
unfolding version_headers
version_headers-Link path query f = (
  headers-path (b'/' ∷ path) (refl, f),
  headers-Free (units "/v1/" ++ path) (refl, (refl, (refl, (refl, f)))) (versioned path),
  rw (split-append b'?' (b'/' ∷ path) query (refl, f), split-Free b'?' (b'/' ∷ path) (refl, f))
      refl,
)
