-- ===== src/Platform/Http/Paths.antt =====
-- api-version.middleware.ts: the paths that its two patterns, VERSIONED and UNVERSIONED_BY_DESIGN, match.
use senior_io_t_platform_arc.Prelude.{
  ℕ, ◌≤◌, ◌≡◌, refl, sym, ap, ◌∙◌, ◌⊎◌, ◌↔◌, inl, inr, true, false, not, ◌&&◌, [], ◌∷◌, ◌++◌, All,
  drop, length, Text, units, starts_with, arith, Bool-cases, ==_iff,
}
use senior_io_t_platform_arc.Platform.Http.{
  is_versioned, version_digits, skip_digits, is_unversioned_by_design, is_digit, at_boundary,
}

abbrev pub AtBoundary : Text → Type 0
AtBoundary tail = (tail ≡ []) ⊎ ((t : Text) × (tail ≡ b'/' ∷ t))

-- `/health` or `/metrics`, or what is under them.
abbrev pub IsOperational : Text → Type 0
IsOperational path =
    (tail : Text) × AtBoundary tail
    × ((path ≡ units "/health" ++ tail) ⊎ (path ≡ units "/metrics" ++ tail))

abbrev pub AreDigits : Text → Type 0
AreDigits = All (λ c. (48 ≤ c) × (c ≤ 57))

-- `/v` and a number, or what is under it.
abbrev pub IsVersioned : Text → Type 0
IsVersioned path =
    (c : ℕ) × (digits : Text) × (tail : Text) × AreDigits (c ∷ digits)
    × AtBoundary tail
    × (path ≡ units "/v" ++ c ∷ digits ++ tail)

at_boundary_iff : (tail : Text) → (at_boundary tail ≡ true) ↔ AtBoundary tail
at_boundary_iff [] = (λ e. inl refl, λ b. refl)
at_boundary_iff (c ∷ s) = (λ e. inr (s, ap (λ x. x ∷ s) ((==_iff c b'/').0 e)), λ b. after_slash b)
  where
    after_slash : AtBoundary (c ∷ s) → at_boundary (c ∷ s) ≡ true
    after_slash (inl e) = absurd (cc e)
    after_slash (inr (t, e)) = (==_iff c b'/').1 (cc)

starts_with-drop : (p s : Text) → starts_with p s ≡ true → s ≡ p ++ drop (length p) s
unfolding starts_with
starts_with-drop [] s h = refl
starts_with-drop (x ∷ p) [] h = absurd (cc h)
starts_with-drop (x ∷ p) (y ∷ s) h =
    let e : x ≡ y = ground (arith, h) in
    ap (λ c. c ∷ s) (sym e) ∙ ap (λ r. x ∷ r) (starts_with-drop p s (ground (arith, h)))

-- The digits that a text starts with, and the rest.
skip_digits-split : (s : Text) → (digits : Text) × AreDigits digits × (s ≡ digits ++ skip_digits s)
unfolding skip_digits
skip_digits-split [] = ([], tt, refl)
skip_digits-split (c ∷ s) =
    let (digits, are, e) = skip_digits-split s in
    elim (Bool-cases (is_digit c)) [
      | inl d ↦ (c ∷ digits, (ground (arith, d), are), rw d (ap (λ r. c ∷ r) e))
      | inr n ↦ ([], tt, rw n refl)
    ]

skip_digits-digits :
    (digits tail : Text) → AreDigits digits → AtBoundary tail → skip_digits (digits ++ tail) ≡ tail
unfolding skip_digits
skip_digits-digits [] tail are (inl e) = rw e refl
skip_digits-digits [] tail are (inr (t, e)) = rw e refl
skip_digits-digits (c ∷ digits) tail are b =
    let d : is_digit c ≡ true = ground (arith, are) in rw d (skip_digits-digits digits tail are.1 b)

version_digits_iff :
    (s : Text)
    → (version_digits s ≡ true) ↔ (
        (c : ℕ) × (digits : Text) × (tail : Text) × AreDigits (c ∷ digits)
        × AtBoundary tail
        × (s ≡ c ∷ digits ++ tail))
unfolding version_digits
version_digits_iff [] = (λ e. absurd (cc e), λ (c, digits, tail, are, b, e). absurd (cc e))
version_digits_iff (c ∷ s) = (
  λ e.
      let (digits, are, split) = skip_digits-split s in
      (
        c,
        digits,
        skip_digits s,
        (ground (arith, e), are),
        (at_boundary_iff (skip_digits s)).0 (ground (arith, e)),
        ap (λ r. c ∷ r) split,
      ),
  λ v. numbered v,
)
  where
    numbered :
        ((c1 : ℕ) × (digits : Text) × (tail : Text) × AreDigits (c1 ∷ digits)
          × AtBoundary tail
          × (c ∷ s ≡ c1 ∷ digits ++ tail))
        → version_digits (c ∷ s) ≡ true
    numbered (c1, digits, tail, are, b, e) =
        let first : c ≡ c1 = cc in
        let others : s ≡ digits ++ tail = ap (drop 1) e in
        let skipped : skip_digits s ≡ tail =
          ap skip_digits others ∙ skip_digits-digits digits tail are.1 b in
        ground (arith, first, are.0, ap at_boundary skipped, (at_boundary_iff tail).1 b)

is_versioned_iff : (path : Text) → (is_versioned path ≡ true) ↔ IsVersioned path
unfolding is_versioned starts_with
is_versioned_iff path = (
  λ e.
      let (c, digits, tail, are, b, f) = (version_digits_iff (drop 2 path)).0 (ground (arith, e)) in
      (
        c,
        digits,
        tail,
        are,
        b,
        starts_with-drop (units "/v") path (ground (arith, e)) ∙ ap (λ r. units "/v" ++ r) f,
      ),
  λ (c, digits, tail, are, b, f).
      rw f ((version_digits_iff (c ∷ digits ++ tail)).1 (c, digits, tail, are, b, refl)),
)

is_unversioned_by_design_iff :
    (path : Text) → (is_unversioned_by_design path ≡ true) ↔ IsOperational path
unfolding is_unversioned_by_design starts_with
is_unversioned_by_design_iff path = (
  λ e. elim (Bool-cases (starts_with (units "/health") path && at_boundary (drop 7 path))) [
    | inl h ↦ (
      drop 7 path,
      (at_boundary_iff (drop 7 path)).0 (ground (arith, h)),
      inl (starts_with-drop (units "/health") path (ground (arith, h))),
    )
    | inr n ↦ (
      drop 8 path,
      (at_boundary_iff (drop 8 path)).0 (ground (arith, n, e)),
      inr (starts_with-drop (units "/metrics") path (ground (arith, n, e))),
    )
  ],
  λ v. operational v,
)
  where
    operational : IsOperational path → is_unversioned_by_design path ≡ true
    operational (tail, b, inl e) = rw e (rw ((at_boundary_iff tail).1 b) refl)
    operational (tail, b, inr e) = rw e (rw ((at_boundary_iff tail).1 b) refl)

-- The paths that are not marked, and when the middleware passes them by.
abbrev pub IsCurrent : Text → Type 0
IsCurrent path = IsVersioned path ⊎ IsOperational path

pub unmarked_iff :
    (path : Text)
    → ((not (is_versioned path) && not (is_unversioned_by_design path)) ≡ false) ↔ IsCurrent path
unmarked_iff path = (
  λ e. elim (Bool-cases (is_versioned path)) [
    | inl v ↦ inl ((is_versioned_iff path).0 v)
    | inr n ↦ inr ((is_unversioned_by_design_iff path).0 (ground (arith, n, e)))
  ],
  λ v. current v,
)
  where
    current :
        IsCurrent path → (not (is_versioned path) && not (is_unversioned_by_design path)) ≡ false
    current (inl v) = ground (arith, (is_versioned_iff path).1 v)
    current (inr v) = ground (arith, (is_unversioned_by_design_iff path).1 v)
