-- ===== src/Protocol/Topics/Joins.antt =====
-- Laws of joined topic levels, for the round trip of topics.ts.
use senior_io_t_platform_arc.Prelude.{
  ℕ, zero, suc, ◌≡◌, refl, sym, ap, ◌∙◌, false, not, List, [], ◌∷◌, ◌++◌, arith, ◌==◌, is_nil,
  filter, All, Text, split, join, Free, Bool-cases, inl, inr, split-Free, split-append,
}
use mathlib.Core.List.{append_assoc}
use senior_io_t_platform_arc.Protocol.Topics.{trim_trailing_slashes, levels}

-- One topic level: not empty, and without a slash.
abbrev pub IsLevel : Text → Type 0
IsLevel s = (is_nil s ≡ false) × Free b'/' s

-- That many slashes.
abbrev pub slashes : ℕ → Text
slashes zero = []
slashes (suc n) = b'/' ∷ slashes n

trim_trailing_slashes-slashes : (n : ℕ) → trim_trailing_slashes (slashes n) ≡ []
unfolding trim_trailing_slashes
trim_trailing_slashes-slashes zero = refl
trim_trailing_slashes-slashes (suc n) = rw (trim_trailing_slashes-slashes n)

-- Trimming reaches into the text before only if nothing is left of what follows.
trim_trailing_slashes-append :
    (s t : Text)
    → is_nil (trim_trailing_slashes t) ≡ false
    → trim_trailing_slashes (s ++ t) ≡ s ++ trim_trailing_slashes t
unfolding trim_trailing_slashes
trim_trailing_slashes-append [] t h = refl
trim_trailing_slashes-append (c ∷ []) t h = rw h (ground arith)
trim_trailing_slashes-append (c ∷ d ∷ s) t h =
    rw (trim_trailing_slashes-append (d ∷ s) t h) (ground arith)

trim_trailing_slashes-cons :
    (c : ℕ) (s : Text)
    → is_nil (trim_trailing_slashes s) ≡ false
    → trim_trailing_slashes (c ∷ s) ≡ c ∷ trim_trailing_slashes s
unfolding trim_trailing_slashes
trim_trailing_slashes-cons c s h = elim (Bool-cases (c == b'/')) [
  | inl e ↦ rw (e, h)
  | inr e ↦ rw e
]

trim_trailing_slashes-level :
    (s : Text) (n : ℕ) → Free b'/' s → trim_trailing_slashes (s ++ slashes n) ≡ s
unfolding trim_trailing_slashes
trim_trailing_slashes-level [] n h = trim_trailing_slashes-slashes n
trim_trailing_slashes-level (c ∷ s) n h = rw (trim_trailing_slashes-level s n h.1, h.0)

pub is_nil-join :
    (s : Text) (ss : List Text) → is_nil s ≡ false → is_nil (join b'/' (s ∷ ss)) ≡ false
unfolding join
is_nil-join s [] h = h
is_nil-join (c ∷ s) (t ∷ ts) h = refl
is_nil-join [] (t ∷ ts) h = cc

-- Joined levels lose exactly the slashes that follow them.
pub trim_trailing_slashes-join :
    (s : Text) (ss : List Text) (n : ℕ)
    → All IsLevel (s ∷ ss)
    → trim_trailing_slashes (join b'/' (s ∷ ss) ++ slashes n) ≡ join b'/' (s ∷ ss)
unfolding join
trim_trailing_slashes-join s [] n h = trim_trailing_slashes-level s n h.0.1
trim_trailing_slashes-join s (t ∷ ts) n h =
    let ih = trim_trailing_slashes-join t ts n h.1 in
    let kept : is_nil (trim_trailing_slashes (join b'/' (t ∷ ts) ++ slashes n)) ≡ false =
      ap is_nil ih ∙ is_nil-join t ts h.1.0.0 in
    let more = trim_trailing_slashes-cons b'/' (join b'/' (t ∷ ts) ++ slashes n) kept in
    ap trim_trailing_slashes (append_assoc s _ _)
    ∙ trim_trailing_slashes-append s _ (ap is_nil more)
    ∙ ap (◌++◌ s) (more ∙ ap (◌∷◌ b'/') ih)

pub split-join :
    (s : Text) (ss : List Text) → All IsLevel (s ∷ ss) → split b'/' (join b'/' (s ∷ ss)) ≡ s ∷ ss
unfolding join
split-join s [] h = split-Free b'/' s h.0.1
split-join s (t ∷ ts) h =
    split-append b'/' s (join b'/' (t ∷ ts)) h.0.1 ∙ ap (◌∷◌ s) (split-join t ts h.1)

filter-levels : (ss : List Text) → All IsLevel ss → filter (λ p. not (is_nil p)) ss ≡ ss
filter-levels [] h = refl
filter-levels (s ∷ ss) h = rw (h.0.0, filter-levels ss h.1)

-- The levels of joined levels are those levels.
pub levels-join :
    (s : Text) (ss : List Text) → All IsLevel (s ∷ ss) → levels (join b'/' (s ∷ ss)) ≡ s ∷ ss
unfolding levels
levels-join s ss h = rw (split-join s ss h) (filter-levels (s ∷ ss) h)

-- Joining a list of levels to two more ones.
pub join-two :
    (s : Text) (ss : List Text) (d l : Text)
    → join b'/' (s ∷ (ss ++ d ∷ l ∷ [])) ≡ join b'/' (s ∷ ss) ++ (b'/' ∷ d ++ (b'/' ∷ l))
unfolding join
join-two s [] d l = refl
join-two s (t ∷ ts) d l = rw (join-two t ts d l) (sym (append_assoc s _ _))
