-- ===== src/Prelude/Sorting.antt =====
-- What sorting by a total and transitive test gives: the same elements, in order.
use Prim.Native.Nat.{ℕ, zero, suc}
use mathlib.Core.Path.{◌≡◌, refl, ap, ◌∙◌}
use mathlib.Core.Bool.{Bool, true, false}
use mathlib.Core.List.{List, [], ◌∷◌, ◌++◌}
use native.Mathlib.Omega.{arith}
use mathlib.Core.Logic.{inl, inr}
use senior_io_t_platform_arc.Prelude.Tests.{if◌then◌else◌, Bool-cases}
use senior_io_t_platform_arc.Prelude.Lists.{count, insert_by, sort_by, All, length, take, drop}

module _ {A : Type 0} where
  abbrev pub Sorted : (A → A → Bool) → List A → Type 0
  Sorted before [] = Unit
  Sorted before (x ∷ xs) = All (λ y. before x y ≡ true) xs × Sorted before xs

  pub record TotalOrder (before : A → A → Bool) : Type 0 where
    pub total : (x y : A) → before x y ≡ false → before y x ≡ true
    pub transitive : (x y z : A) → before x y ≡ true → before y z ≡ true → before x z ≡ true

  pub count-insert_by :
      (before : A → A → Bool) (p : A → Bool) (y : A) (xs : List A)
      → count p (insert_by before y xs) ≡ count p (y ∷ xs)
  count-insert_by before p y [] = refl
  count-insert_by before p y (x ∷ xs) = ground (arith, count-insert_by before p y xs)

  pub count-sort_by :
      (before : A → A → Bool) (p : A → Bool) (xs : List A)
      → count p (sort_by before xs) ≡ count p xs
  count-sort_by before p [] = refl
  count-sort_by before p (x ∷ xs) =
      count-insert_by before p x (sort_by before xs)
      ∙ ap (λ (n : ℕ). if p x then suc n else n) (count-sort_by before p xs)

  All-insert_by :
      (before : A → A → Bool) (P : A → Type 0) (y : A) (xs : List A)
      → P y
      → All P xs
      → All P (insert_by before y xs)
  All-insert_by before P y [] p a = (p, tt)
  All-insert_by before P y (x ∷ xs) p a = elim (Bool-cases (before y x)) [
    | inl e ↦ rw e (p, a)
    | inr e ↦ rw e (a.0, All-insert_by before P y xs p a.1)
  ]

  All-transitive :
      (before : A → A → Bool) (o : TotalOrder before) (y x : A) (xs : List A)
      → before y x ≡ true
      → All (λ z. before x z ≡ true) xs
      → All (λ z. before y z ≡ true) xs
  All-transitive before o y x [] e a = tt
  All-transitive before o y x (z ∷ xs) e a =
      (o.transitive y x z e a.0, All-transitive before o y x xs e a.1)

  insert_by-Sorted :
      (before : A → A → Bool) (o : TotalOrder before) (y : A) (xs : List A)
      → Sorted before xs
      → Sorted before (insert_by before y xs)
  insert_by-Sorted before o y [] a = (tt, tt)
  insert_by-Sorted before o y (x ∷ xs) a = elim (Bool-cases (before y x)) [
    | inl e ↦ rw e ((e, All-transitive before o y x xs e a.0), a)
    | inr e ↦ rw e (
      All-insert_by before (λ z. before x z ≡ true) y xs (o.total y x e) a.0,
      insert_by-Sorted before o y xs a.1,
    )
  ]

  pub sort_by-Sorted :
      (before : A → A → Bool) (o : TotalOrder before) (xs : List A)
      → Sorted before (sort_by before xs)
  sort_by-Sorted before o [] = tt
  sort_by-Sorted before o (x ∷ xs) =
      insert_by-Sorted before o x (sort_by before xs) (sort_by-Sorted before o xs)

  pub All-sort_by :
      (before : A → A → Bool) (P : A → Type 0) (xs : List A) → All P xs → All P (sort_by before xs)
  All-sort_by before P [] a = tt
  All-sort_by before P (x ∷ xs) a =
      All-insert_by before P x (sort_by before xs) a.0 (All-sort_by before P xs a.1)

  pub take-drop : (n : ℕ) (xs : List A) → take n xs ++ drop n xs ≡ xs
  take-drop zero xs = refl
  take-drop (suc n) [] = refl
  take-drop (suc n) (x ∷ xs) = ap (◌∷◌ x) (take-drop n xs)

  pub All-take : (P : A → Type 0) (n : ℕ) (xs : List A) → All P xs → All P (take n xs)
  All-take P zero xs a = tt
  All-take P (suc n) [] a = tt
  All-take P (suc n) (x ∷ xs) a = (a.0, All-take P n xs a.1)

  pub length-count : (xs : List A) → length xs ≡ count (λ _. true) xs
  length-count [] = refl
  length-count (x ∷ xs) = ap suc (length-count xs)
