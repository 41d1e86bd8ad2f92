-- ===== src/Identity/Throttle/Windows.antt =====
-- login-throttle.ts: what one window holds after each operation on the map.
use senior_io_t_platform_arc.Prelude.{
  ℕ, ◌+◌, ◌<◌, ◌≡◌, refl, ap, ◌∙◌, Bool, true, List, [], ◌∷◌, filter, count, is_nil, ltb, leb,
  length, or_else, Text, arith, Bool-cases, Option-cases, inl, inr, length-append,
}
use senior_io_t_platform_arc.Prelude.Dict.{get}
use senior_io_t_platform_arc.Identity.Throttle.{
  Windows, is_recent, prune, prune_window, wait_of, retry_after_ms, push,
}

-- The failures of a key within the last 15 minutes.
abbrev pub recent : ℕ → Windows → Text → ℕ
recent now map key = count (is_recent now) (or_else (get key map) [])

length-filter : (p : ℕ → Bool) (xs : List ℕ) → length (filter p xs) ≡ count p xs
length-filter p [] = refl
length-filter p (x ∷ xs) = ground (arith, length-filter p xs)

filter-first :
    (p : ℕ → Bool) (xs : List ℕ) (t : ℕ) (ts : List ℕ) → filter p xs ≡ t ∷ ts → p t ≡ true
filter-first p [] t ts e = cc
filter-first p (x ∷ xs) t ts e = elim (Bool-cases (p x)) [
  | inl h ↦ let e' : x ∷ filter p xs ≡ t ∷ ts = rw h at e in rw (← (let q : x ≡ t = cc in q)) h
  | inr h ↦ filter-first p xs t ts (rw h at e)
]

filter_twice : (p : ℕ → Bool) (xs : List ℕ) → count p (filter p xs) ≡ count p xs
filter_twice p [] = refl
filter_twice p (x ∷ xs) = ground (arith, filter_twice p xs)

module _ (now : ℕ) (map : Windows) (key : Text) where
  length-prune_window :
      (fs : List ℕ) → length (or_else (prune_window now key fs map).0 []) ≡ count (is_recent now) fs
  unfolding prune_window
  length-prune_window fs = elim (Bool-cases (is_nil (filter (is_recent now) fs))) [
    | inl e ↦ rw e (empty (filter (is_recent now) fs) e ∙ length-filter (is_recent now) fs)
    | inr e ↦ rw e (length-filter (is_recent now) fs)
  ]
    where
      empty : (l : List ℕ) → is_nil l ≡ true → 0 ≡ length l
      empty [] h = refl
      empty (x ∷ xs) h = cc

  -- The window that pruning returns holds the recent failures.
  pub length-prune : length (or_else (prune now map key).0 []) ≡ recent now map key
  unfolding prune
  length-prune = elim (Option-cases (get key map)) [
    | inl e ↦ rw (e, prune)
    | inr (fs, e) ↦ rw (e, prune) (length-prune_window fs)
  ]

  wait_of-prune_window :
      (limit : ℕ) (fs kept : List ℕ)
      → 0 < limit
      → filter (is_recent now) fs ≡ kept
      → ltb 0 (wait_of now limit (prune_window now key fs map).0) ≡ leb limit (length kept)
  unfolding prune_window wait_of
  wait_of-prune_window limit fs [] h e = rw e (ground arith)
  wait_of-prune_window limit fs (t ∷ ts) h e =
      rw e (ground (arith, filter-first (is_recent now) fs t ts e))

  -- There is something to wait for exactly when the recent failures reach the limit.
  pub retry_after_ms_lem :
      (limit : ℕ)
      → 0 < limit
      → ltb 0 (retry_after_ms now map key limit).0 ≡ leb limit (recent now map key)
  unfolding retry_after_ms wait_of
  retry_after_ms_lem limit h = elim (Option-cases (get key map)) [
    | inl e ↦ rw (e, prune) (ground arith)
    | inr (fs, e) ↦
        rw (e, prune)
          (wait_of-prune_window limit fs _ h refl
            ∙ ap (leb limit) (length-filter (is_recent now) fs))
  ]

  -- A failure is counted on top of the recent ones.
  pub push-recent : (push now map key).0 ≡ recent now map key + 1
  unfolding push
  push-recent =
      omega (arith, length-prune, length-append (or_else (prune now map key).0 []) (now ∷ []))
