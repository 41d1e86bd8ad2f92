-- ===== src/Prelude/Throws.antt =====
-- A computation that may throw: its value or its error.
use mathlib.Core.Path.{◌≡◌, refl}
use mathlib.Core.Logic.{◌⊎◌, inl, inr}
use mathlib.Core.Bool.{Bool, true, false}
use senior_io_t_platform_arc.Prelude.Tests.{if◌then◌else◌}

pub data Result (E A : Type 0) : Type 0 where
  ok : A → Result E A
  err : E → Result E A

infixl 5 ◌>>=◌
abbrev pub ◌>>=◌ : {E A B : Type 0} → Result E A → (A → Result E B) → Result E B
ok a >>= f = f a
err e >>= f = err e

-- A guard that throws, of a computation that has returned.
pub if_err-eq-ok :
    {E A : Type 0} (b : Bool) (e : E) (r : Result E A) {a : A}
    → (if b then err e else r) ≡ ok a
    → (b ≡ false) × (r ≡ ok a)
if_err-eq-ok true e r h = cc
if_err-eq-ok false e r h = (refl, h)

-- What a chain that has returned went through.
pub >>=-eq-ok :
    {E X Y : Type 0} (start : Result E X) (continue : X → Result E Y) {y : Y}
    → start >>= continue ≡ ok y
    → (x : X) × (start ≡ ok x) × (continue x ≡ ok y)
>>=-eq-ok (err thrown) continue e = cc
>>=-eq-ok (ok x) continue e = (x, refl, e)

pub ok-injective : {E A : Type 0} {a b : A} → (let r : Result E A = ok a in r) ≡ ok b → a ≡ b
ok-injective h = cc

pub Result-cases :
    {E A : Type 0} (r : Result E A) → ((a : A) × (r ≡ ok a)) ⊎ ((e : E) × (r ≡ err e))
Result-cases (ok a) = inl (a, refl)
Result-cases (err e) = inr (e, refl)
