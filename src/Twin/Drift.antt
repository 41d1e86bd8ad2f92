-- ===== src/Twin/Drift.antt =====
-- twin.service.ts, `computeDrift`: the keys that a filter leaves.
use senior_io_t_platform_arc.Prelude.{
  ◌≡◌, refl, ap, Bool, true, false, not, ◌&&◌, List, [], ◌∷◌, All, any, filter, is_nil, Text,
  text_eq, text_eq_iff, text_eq_refl, arith, Bool-cases, inl, inr,
}

pub filter-nil :
    (p : Text → Bool) (xs : List Text)
    → is_nil (filter (λ k. not (p k)) xs) ≡ true
    → All (λ k. p k ≡ true) xs
filter-nil p [] h = tt
filter-nil p (x ∷ xs) h = (ground arith, filter-nil p xs (ground arith))

pub nil-filter :
    (p : Text → Bool) (xs : List Text)
    → All (λ k. p k ≡ true) xs
    → is_nil (filter (λ k. not (p k)) xs) ≡ true
nil-filter p [] h = refl
nil-filter p (x ∷ xs) h = ground (arith, nil-filter p xs h.1)

-- The keys that a filter keeps.
pub any-filter :
    (p : Text → Bool) (xs : List Text) (j : Text)
    → any (text_eq j) (filter p xs) ≡ (any (text_eq j) xs && p j)
any-filter p [] j = refl
any-filter p (x ∷ xs) j = elim (Bool-cases (text_eq j x)) [
  | inl e ↦
      let same : p j ≡ p x = ap p ((text_eq_iff j x).0 e) in ground (arith, same, any-filter p xs j)
  | inr e ↦ ground (arith, any-filter p xs j)
]

pub no_keys : (xs : List Text) → is_nil xs ≡ true → (j : Text) → any (text_eq j) xs ≡ false
no_keys [] e j = refl
no_keys (x ∷ xs) e j = absurd (cc e)

pub keys_no : (xs : List Text) → ((j : Text) → any (text_eq j) xs ≡ false) → is_nil xs ≡ true
keys_no [] h = refl
keys_no (x ∷ xs) h = absurd (ground (arith, h x, text_eq_refl x))
