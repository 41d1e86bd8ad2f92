-- ===== src/Commands/Denials.antt =====
-- commands.service.ts: the texts that DENIAL_PATTERN matches, described by what they contain.
use mathlib.Core.List.{append_assoc}
use senior_io_t_platform_arc.Prelude.{
  ◌≡◌, refl, sym, ap, ◌∙◌, ◌⊎◌, ◌↔◌, inl, inr, Bool, true, ◌&&◌, List, [], ◌∷◌, ◌++◌, any, drop,
  length, Text, units, starts_with, includes, Free, arith, Bool-cases, ◌==◌,
}
use senior_io_t_platform_arc.Commands.{from_quote, is_exec_refusal, token_errors, is_denial}

abbrev pub Begins : Text → Text → Type 0
Begins t s = (r : Text) × (s ≡ t ++ r)

abbrev pub Contains : Text → Text → Type 0
Contains t s = (p : Text) × (r : Text) × (s ≡ p ++ t ++ r)

abbrev pub AnyOf : (Text → Type 0) → List Text → Type 0
AnyOf P [] = ⊥
AnyOf P (x ∷ xs) = P x ⊎ AnyOf P xs

-- A denial by the firmware: of a tool that is hidden, of a call, or an error of platform_exec.
abbrev pub IsDenial : Text → Type 0
IsDenial s =
    Contains (units "is not exposed to the LLM") s
    ⊎ (Begins (units "Denied agent cap call") s
        ⊎ (AnyOf (λ e. Begins (units "Error: " ++ e) s)
              (units "invalid token signature"
                ∷ units "malformed token"
                ∷ units "token expired"
                ∷ units "token was issued for a different device"
                ∷ units "token nonce already used"
                ∷ units "platform secret not configured"
                ∷ [])
            ⊎ ((name : Text) × Free b'\'' name
                × Begins
                    (units "Error: capability '"
                      ++ name
                      ++ units "' cannot be triggered through platform_exec")
                    s)))

starts_with_iff : (t s : Text) → (starts_with t s ≡ true) ↔ Begins t s
unfolding starts_with
starts_with_iff [] s = (λ e. (s, refl), λ b. refl)
starts_with_iff (x ∷ t) [] = (λ e. absurd (cc e), λ (r, e). absurd (cc e))
starts_with_iff (x ∷ t) (y ∷ s) =
    let (to, from) = starts_with_iff t s in
    (
      λ e.
          let (r, f) = to (ground (arith, e)) in
          let same : x ≡ y = ground (arith, e) in
          (r, ap (λ c. c ∷ s) (sym same) ∙ ap (λ q. x ∷ q) f),
      λ (r, e).
          let same : x ≡ y = cc e in
          let rest : s ≡ t ++ r = cc e in ground (arith, same, from (r, rest)),
    )

pub includes_iff : (t s : Text) → (includes t s ≡ true) ↔ Contains t s
unfolding includes
includes_iff t [] = (empty t, contained t)
  where
    empty : (t : Text) → includes t [] ≡ true → Contains t []
    empty [] e = ([], [], refl)
    empty (x ∷ t) e = absurd (cc e)

    contained : (t : Text) → Contains t [] → includes t [] ≡ true
    contained [] c = refl
    contained (x ∷ t) ([], r, e) = absurd (cc e)
    contained (x ∷ t) (y ∷ p, r, e) = absurd (cc e)
includes_iff t (x ∷ s) =
    let (to, from) = includes_iff t s in
    let (begin, starts) = starts_with_iff t (x ∷ s) in
    (
      λ e. elim (Bool-cases (starts_with t (x ∷ s))) [
        | inl h ↦ let (r, f) = begin h in ([], r, f)
        | inr h ↦ let (p, r, f) = to (ground (arith, h, e)) in (x ∷ p, r, ap (λ q. x ∷ q) f)
      ],
      λ c. contained from c,
    )
  where
    contained :
        (Contains t s → includes t s ≡ true) → Contains t (x ∷ s) → includes t (x ∷ s) ≡ true
    contained inner ([], r, e) = ground (arith, (starts_with_iff t (x ∷ s)).1 (r, e))
    contained inner (y ∷ p, r, e) =
        let rest : s ≡ p ++ t ++ r = cc e in ground (arith, inner (p, r, rest))

-- The quoted name ends where the rest of the text starts.
from_quote-split : (s : Text) → (name : Text) × Free b'\'' name × (s ≡ name ++ from_quote s)
unfolding from_quote
from_quote-split [] = ([], tt, refl)
from_quote-split (c ∷ s) =
    let (name, free, e) = from_quote-split s in
    elim (Bool-cases (c == b'\'')) [
      | inl q ↦ ([], tt, rw q refl)
      | inr n ↦ (c ∷ name, (n, free), rw n (ap (λ r. c ∷ r) e))
    ]

from_quote-Free :
    (name rest : Text) → Free b'\'' name → from_quote (name ++ b'\'' ∷ rest) ≡ b'\'' ∷ rest
unfolding from_quote
from_quote-Free [] rest f = refl
from_quote-Free (c ∷ name) rest f = rw f.0 (from_quote-Free name rest f.1)

-- What a text begins with, and what its rest begins with.
Begins-append :
    (t u s : Text) → (starts_with t s ≡ true) → Begins u (drop (length t) s) → Begins (t ++ u) s
unfolding starts_with
Begins-append [] u s e b = b
Begins-append (x ∷ t) u [] e b = absurd (cc e)
Begins-append (x ∷ t) u (y ∷ s) e b =
    let (r, f) = Begins-append t u s (ground (arith, e)) b in
    let same : x ≡ y = ground (arith, e) in (r, ap (λ c. c ∷ s) (sym same) ∙ ap (λ q. x ∷ q) f)

both : (a b : Bool) → (a && b) ≡ true → (a ≡ true) × (b ≡ true)
both a b e = (ground (arith, e), ground (arith, e))

AnyOf-any :
    (s : Text) (errors : List Text)
    → starts_with (units "Error: ") s ≡ true
    → any (λ e. starts_with e (drop 7 s)) errors ≡ true
    → AnyOf (λ e. Begins (units "Error: " ++ e) s) errors
AnyOf-any s [] h a = absurd (cc a)
AnyOf-any s (e ∷ errors) h a = elim (Bool-cases (starts_with e (drop 7 s))) [
  | inl f ↦ inl (Begins-append (units "Error: ") e s h ((starts_with_iff e (drop 7 s)).0 f))
  | inr f ↦ inr (AnyOf-any s errors h (ground (arith, f, a)))
]

any-AnyOf :
    (s : Text) (errors : List Text)
    → AnyOf (λ e. Begins (units "Error: " ++ e) s) errors
    → (starts_with (units "Error: ") s && any (λ e. starts_with e (drop 7 s)) errors) ≡ true
unfolding starts_with
any-AnyOf s [] a = absurd a
any-AnyOf s (e ∷ errors) (inl (r, f)) =
    rw f (ground (arith, (starts_with_iff e (e ++ r)).1 (r, refl)))
any-AnyOf s (e ∷ errors) (inr a) = ground (arith, any-AnyOf s errors a)

abbrev IsExecRefusal : Text → Type 0
IsExecRefusal s =
    (name : Text) × Free b'\'' name
    × Begins
        (units "Error: capability '" ++ name ++ units "' cannot be triggered through platform_exec")
        s

quoted :
    (s : Text)
    → starts_with (units "Error: ") s ≡ true
    → is_exec_refusal (drop 7 s) ≡ true
    → IsExecRefusal s
unfolding is_exec_refusal starts_with
quoted s h e =
    let after = drop 12 (drop 7 s) in
    let (starts, ends) =
      both (starts_with (units "capability '") (drop 7 s))
        (starts_with (units "' cannot be triggered through platform_exec") (from_quote after)) e in
    let (name, free, split) = from_quote-split after in
    let (r, f) =
      (starts_with_iff (units "' cannot be triggered through platform_exec") (from_quote after)).0
        ends in
    let named : after ≡ (name ++ units "' cannot be triggered through platform_exec") ++ r =
      split
      ∙ ap (λ q. name ++ q) f
      ∙ sym (append_assoc name (units "' cannot be triggered through platform_exec") r) in
    let inner =
      Begins-append (units "capability '")
        (name ++ units "' cannot be triggered through platform_exec") (drop 7 s) starts
        (r, named) in
    (
      name,
      free,
      Begins-append (units "Error: ")
          (units "capability '" ++ name ++ units "' cannot be triggered through platform_exec") s h
          inner,
    )

refusal :
    (s : Text)
    → IsExecRefusal s
    → (starts_with (units "Error: ") s && is_exec_refusal (drop 7 s)) ≡ true
unfolding is_exec_refusal starts_with
refusal s (name, free, (r, e)) =
    let flat : s
        ≡ units "Error: capability '"
          ++ (name ++ (units "' cannot be triggered through platform_exec" ++ r)) =
      e
      ∙ ap (λ q. units "Error: capability '" ++ q)
          (append_assoc name (units "' cannot be triggered through platform_exec") r) in
    rw (flat, from_quote-Free name (units " cannot be triggered through platform_exec" ++ r) free)
      ((starts_with_iff (units " cannot be triggered through platform_exec")
          (units " cannot be triggered through platform_exec" ++ r)).1
        (r, refl))

pub is_denial_iff : (s : Text) → (is_denial s ≡ true) ↔ IsDenial s
unfolding is_denial
is_denial_iff s = (λ e. denial e, λ d. matched d)
  where
    denial : is_denial s ≡ true → IsDenial s
    denial e = elim (Bool-cases (includes (units "is not exposed to the LLM") s)) [
      | inl f ↦ inl ((includes_iff (units "is not exposed to the LLM") s).0 f)
      | inr f ↦ elim (Bool-cases (starts_with (units "Denied agent cap call") s)) [
        | inl g ↦ inr (inl ((starts_with_iff (units "Denied agent cap call") s).0 g))
        | inr g ↦
            let h : starts_with (units "Error: ") s ≡ true = ground (arith, e, f, g) in
            elim (Bool-cases (any (λ e. starts_with e (drop 7 s)) token_errors)) [
              | inl k ↦ inr (inr (inl (AnyOf-any s token_errors h k)))
              | inr k ↦ inr (inr (inr (quoted s h (ground (arith, e, f, g, h, k)))))
            ]
      ]
    ]

    matched : IsDenial s → is_denial s ≡ true
    matched (inl c) = ground (arith, (includes_iff (units "is not exposed to the LLM") s).1 c)
    matched (inr (inl b)) = ground (arith, (starts_with_iff (units "Denied agent cap call") s).1 b)
    matched (inr (inr (inl a))) = ground (arith, any-AnyOf s token_errors a)
    matched (inr (inr (inr q))) = ground (arith, refusal s q)
