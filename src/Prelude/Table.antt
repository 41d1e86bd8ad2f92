-- ===== src/Prelude/Table.antt =====
-- A database table as the services use it: an object-relational mapper keeps the rows, which this
-- repository does not implement, so its operations are the fields of a record, with the laws that
-- the services rely on.
use Prim.Native.Nat.{◌+◌}
use mathlib.Core.Path.{◌≡◌, refl}
use mathlib.Core.Bool.{Bool}
use mathlib.Core.List.{List, [], ◌∷◌}
use mathlib.Core.Option.{Option, none, some}
use native.Mathlib.Omega.{arith}
use senior_io_t_platform_arc.Prelude.Tests.{if◌then◌else◌}
use senior_io_t_platform_arc.Prelude.Lists.{count, find_first}
use senior_io_t_platform_arc.Prelude.Texts.{Text, text_eq, text_eq_iff}

abbrev pub first : {A : Type 0} → Option A → List A
first none = []
first (some a) = a ∷ []

module _ {Row : Type 0} (key : Row → Text) where
  -- The rows after a save: the row with the same primary key is replaced, else the row is added.
  abbrev pub put : Row → List Row → List Row
  put r [] = r ∷ []
  put r (x ∷ xs) = let rest = put r xs in if text_eq (key x) (key r) then r ∷ xs else x ∷ rest

  pub record Table : Type 1 where
    pub Store : Type 0
    -- `find()`: all rows, in the table's order.
    pub rows : Store → List Row
    -- `findOne({ where })` by the primary key.
    pub find_one : Text → Store → Option Row
    -- `save(row)`.
    pub save : Row → Store → Store
    -- Both read the same rows.
    pub find_one-rows :
        (k : Text) (s : Store) → find_one k s ≡ find_first (λ r. text_eq (key r) k) (rows s)
    pub find_one-save :
        (k : Text) (r : Row) (s : Store)
        → find_one k (save r s) ≡ (if text_eq (key r) k then some r else find_one k s)
    -- A save leaves the rows of a put, in some order.
    pub count-save :
        (p : Row → Bool) (r : Row) (s : Store)
        → count p (rows (save r s)) ≡ count p (put r (rows s))

  abbrev pub has_key : Text → Row → Bool
  has_key k r = text_eq (key r) k

  pub find_first-put :
      (k : Text) (r : Row) (xs : List Row)
      → find_first (has_key k) (put r xs)
        ≡ (if text_eq (key r) k then some r else find_first (has_key k) xs)
  find_first-put k r [] = refl
  find_first-put k r (x ∷ xs) = ground (
    arith,
    text_eq_iff (key r) k,
    text_eq_iff (key x) k,
    text_eq_iff (key x) (key r),
    find_first-put k r xs,
  )

  -- A put exchanges the first row with its key for the new row, or adds it.
  pub count-put :
      (p : Row → Bool) (r : Row) (xs : List Row)
      → count p (put r xs) + count p (first (find_first (has_key (key r)) xs))
        ≡ count p xs + count p (r ∷ [])
  count-put p r [] = omega arith
  count-put p r (x ∷ xs) = ground (arith, count-put p r xs)

  -- A table that keeps its rows in a list.
  abbrev pub list_table : Table
  list_table = record {
    Store = List Row;
    rows = λ s. s;
    find_one = λ k s. find_first (has_key k) s;
    save = put;
    find_one-rows = λ k s. refl;
    find_one-save = find_first-put;
    count-save = λ p r s. refl;
  }

  module _ (t : Table) where
    -- A save exchanges the row with its key for the new row, or adds it.
    pub count-save_put :
        (p : Row → Bool) (r : Row) (s : t.Store)
        → count p (t.rows (t.save r s)) + count p (first (t.find_one (key r) s))
          ≡ count p (t.rows s) + count p (r ∷ [])
    count-save_put p r s =
        rw (t.count-save p r s, t.find_one-rows (key r) s) (count-put p r (t.rows s))
