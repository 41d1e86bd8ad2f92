-- ===== src/Platform/Patterns.antt =====
-- apps/backend/src/platform/events/in-process-event-bus.ts: `matchesPattern`, and the relation that
-- its comment describes.
use senior_io_t_platform_arc.Prelude.{
  ◌≡◌, refl, ◌↔◌, Bool, true, false, not, ◌&&◌, List, [], ◌∷◌, if◌then◌else◌, is_nil, Text, units,
  text_eq, text_eq_iff, split, arith, Bool-cases, inl, inr,
}

-- The loop of `matchesPattern` from one index on: the segments that are left of both.
unfoldable pub matches_segments : List Text → List Text → Bool
matches_segments [] t = is_nil t
matches_segments (p ∷ ps) [] = false
matches_segments (p ∷ ps) (t ∷ ts) =
    let rest = matches_segments ps ts in
    if text_eq p (units "**")
    then true
    else (if not (text_eq p (units "*")) && not (text_eq p t) then false else rest)

unfoldable pub matches_pattern : Text → Text → Bool
unfolding matches_segments
matches_pattern pattern type = matches_segments (split b'.' pattern) (split b'.' type)

-- `*` is exactly one segment, `**` one or more remaining segments, any other segment itself.
pub data Matches : List Text → List Text → Type 0 where
  done : Matches [] []
  remaining : {p t : Text} {ps ts : List Text} → p ≡ units "**" → Matches (p ∷ ps) (t ∷ ts)
  one : {p t : Text} {ps ts : List Text} → p ≡ units "*" → Matches ps ts → Matches (p ∷ ps) (t ∷ ts)
  same : {p t : Text} {ps ts : List Text} → p ≡ t → Matches ps ts → Matches (p ∷ ps) (t ∷ ts)

matches_segments_sound : (ps ts : List Text) → matches_segments ps ts ≡ true → Matches ps ts
unfolding matches_segments
matches_segments_sound [] [] h = done
matches_segments_sound [] (t ∷ ts) h = cc
matches_segments_sound (p ∷ ps) [] h = cc
matches_segments_sound (p ∷ ps) (t ∷ ts) h = elim (Bool-cases (text_eq p (units "**"))) [
  | inl e ↦ remaining ((text_eq_iff p _).0 e)
  | inr n ↦ elim (Bool-cases (text_eq p (units "*"))) [
    | inl e ↦ one ((text_eq_iff p _).0 e) (matches_segments_sound ps ts (rw (n, e) at h))
    | inr m ↦ elim (Bool-cases (text_eq p t)) [
      | inl e ↦ same ((text_eq_iff p t).0 e) (matches_segments_sound ps ts (rw (n, m, e) at h))
      | inr o ↦ absurd (let f : false ≡ true = rw (n, m, o) at h in cc)
    ]
  ]
]

matches_segments_complete : {ps ts : List Text} → Matches ps ts → matches_segments ps ts ≡ true
unfolding matches_segments
matches_segments_complete done = refl
matches_segments_complete (remaining {p} e) = rw ((text_eq_iff p (units "**")).1 e)
matches_segments_complete (one {p} e m) =
    ground (arith, matches_segments_complete m, (text_eq_iff p (units "*")).1 e)
matches_segments_complete (same {p} {t} e m) =
    ground (arith, matches_segments_complete m, (text_eq_iff p t).1 e)

-- A subscription sees an event type exactly when the segments of its pattern match those of the type.
pub matches_pattern_iff :
    (pattern type : Text)
    → (matches_pattern pattern type ≡ true) ↔ Matches (split b'.' pattern) (split b'.' type)
unfolding matches_pattern
matches_pattern_iff pattern type = (matches_segments_sound _ _, matches_segments_complete)
