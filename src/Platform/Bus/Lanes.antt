-- ===== src/Platform/Bus/Lanes.antt =====
-- in-process-event-bus.ts: the lanes of a bus, and what is summed over them.
use mathlib.Core.Path.{subst}
use senior_io_t_platform_arc.Prelude.{
  ℕ, ◌+◌, ◌≡◌, refl, false, List, [], ◌∷◌, is_nil, or_else, none, Text, text_eq, text_eq_iff, arith,
  Bool-cases, inl, inr,
}
use senior_io_t_platform_arc.Prelude.Dict.{Dict, get, set, delete, get-set, get-delete}

module _ {A : Type 0} where
  -- Each lane occurs once and holds something.
  abbrev pub Proper : Dict (List A) → Type 0
  Proper [] = Unit
  Proper ((lane, queue) ∷ lanes) = (is_nil queue ≡ false) × (get lane lanes ≡ none) × Proper lanes

  abbrev pub total : (List A → ℕ) → Dict (List A) → ℕ
  total size [] = 0
  total size ((lane, queue) ∷ lanes) = size queue + total size lanes

  -- What a lane holds.
  abbrev pub held : Text → Dict (List A) → List A
  held lane lanes = or_else (get lane lanes) []

  pub set-Proper :
      (k : Text) (v : List A) (m : Dict (List A)) → Proper m → is_nil v ≡ false → Proper (set k v m)
  unfolding set get
  set-Proper k v [] p e = (e, refl, tt)
  set-Proper k v ((j, w) ∷ m) p e = elim (Bool-cases (text_eq j k)) [
    | inl t ↦ rw t (e, subst (λ l. get l m ≡ none) ((text_eq_iff j k).0 t) p.1, p.2)
    | inr f ↦
        let differ : text_eq k j ≡ false = ground (arith, text_eq_iff j k, text_eq_iff k j) in
        rw f (p.0, rw (get-set k j v m, differ) p.1, set-Proper k v m p.2 e)
  ]

  pub delete-Proper : (k : Text) (m : Dict (List A)) → Proper m → Proper (delete k m)
  unfolding delete
  delete-Proper k [] p = tt
  delete-Proper k ((j, w) ∷ m) p = elim (Bool-cases (text_eq j k)) [
    | inl t ↦ rw t (delete-Proper k m p.2)
    | inr f ↦
        let differ : text_eq k j ≡ false = ground (arith, text_eq_iff j k, text_eq_iff k j) in
        rw f (p.0, rw (get-delete k j m, differ) p.1, delete-Proper k m p.2)
  ]

  pub total-set :
      (size : List A → ℕ) (k : Text) (v : List A) (m : Dict (List A))
      → size [] ≡ 0
      → total size (set k v m) + size (held k m) ≡ total size m + size v
  unfolding set get
  total-set size k v [] z = omega (arith, z)
  total-set size k v ((j, w) ∷ m) z = elim (Bool-cases (text_eq j k)) [
    | inl t ↦ rw t (omega arith)
    | inr f ↦ rw f (omega (arith, total-set size k v m z))
  ]

  total-delete-none :
      (size : List A → ℕ) (k : Text) (m : Dict (List A))
      → get k m ≡ none
      → total size (delete k m) ≡ total size m
  unfolding delete get
  total-delete-none size k [] e = refl
  total-delete-none size k ((j, w) ∷ m) e = elim (Bool-cases (text_eq j k)) [
    | inl t ↦ absurd (cc (rw t at e))
    | inr f ↦ rw f (omega (arith, total-delete-none size k m (rw f at e)))
  ]

  pub total-delete :
      (size : List A → ℕ) (k : Text) (m : Dict (List A))
      → Proper m
      → size [] ≡ 0
      → total size (delete k m) + size (held k m) ≡ total size m
  unfolding delete get
  total-delete size k [] p z = omega (arith, z)
  total-delete size k ((j, w) ∷ m) p z = elim (Bool-cases (text_eq j k)) [
    | inl t ↦
        let fresh : get k m ≡ none = subst (λ l. get l m ≡ none) ((text_eq_iff j k).0 t) p.1 in
        rw t (omega (arith, total-delete-none size k m fresh))
    | inr f ↦ rw f (omega (arith, total-delete size k m p.2 z))
  ]
