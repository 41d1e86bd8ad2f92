-- ===== src/Identity/Throttle/Capacity.antt =====
-- login-throttle.ts: the bound on the tracked keys.
use senior_io_t_platform_arc.Prelude.{
  ℕ, ◌≤◌, ◌≡◌, true, List, [], ◌∷◌, ◌++◌, any, if◌then◌else◌, All, ltb, length, or_else, Text,
  text_eq, text_eq_refl, arith, Bool-cases, inl, inr,
}
use senior_io_t_platform_arc.Prelude.Dict.{set, delete, keys}
use senior_io_t_platform_arc.Identity.Throttle.{
  Windows, LoginThrottle, evict_oldest, evict_stale, evict_expired, prune, push, record_failure,
  max_tracked_keys, normalize,
}

-- Every key of the map is listed.
abbrev Covers : List Text → Windows → Type 0
Covers ks map = All (λ e. any (text_eq e.0) ks ≡ true) map

Covers-delete :
    (key : Text) (ks : List Text) (map : Windows)
    → Covers (key ∷ ks) map
    → Covers ks (delete key map)
unfolding delete
Covers-delete key ks [] h = tt
Covers-delete key ks ((j, w) ∷ map) h = elim (Bool-cases (text_eq j key)) [
  | inl e ↦ rw e (Covers-delete key ks map h.1)
  | inr e ↦ rw e ((rw e at (h.0)), Covers-delete key ks map h.1)
]

Covers-cons : (key : Text) (ks : List Text) (map : Windows) → Covers ks map → Covers (key ∷ ks) map
Covers-cons key ks [] h = tt
Covers-cons key ks ((j, w) ∷ map) h = (ground (arith, h.0), Covers-cons key ks map h.1)

Covers-keys : (map : Windows) → Covers (keys map) map
Covers-keys [] = tt
Covers-keys ((j, w) ∷ map) = (rw (text_eq_refl j), Covers-cons j (keys map) map (Covers-keys map))

evict_oldest-le :
    (ks : List Text) (map : Windows)
    → Covers ks map
    → length (evict_oldest ks map) ≤ max_tracked_keys
unfolding evict_oldest
evict_oldest-le [] [] h = omega arith
evict_oldest-le [] (e ∷ map) h = cc (h.0)
evict_oldest-le (key ∷ ks) map h =
    ground (arith, evict_oldest-le ks (delete key map) (Covers-delete key ks map h))

evict_expired-le : (now : ℕ) (map : Windows) → length (evict_expired now map) ≤ max_tracked_keys
unfolding evict_expired
evict_expired-le now map =
    evict_oldest-le (keys (evict_stale now (keys map) map)) (evict_stale now (keys map) map)
      (Covers-keys (evict_stale now (keys map) map))

evict_if_full-le :
    (now : ℕ) (map : Windows)
    → length (if ltb max_tracked_keys (length map) then evict_expired now map else map)
      ≤ max_tracked_keys
evict_if_full-le now map = ground (arith, evict_expired-le now map)

push-capacity :
    (now : ℕ) (map : Windows) (key : Text) → length (push now map key).1 ≤ max_tracked_keys
unfolding push
push-capacity now map key =
    let (window, left) = prune now map key in
    evict_if_full-le now (set key (or_else window [] ++ now ∷ []) left)

-- After a failure neither map tracks more than 10000 keys, whatever it tracked before.
pub record_failure-capacity :
    (lower : Text → Text) (now : ℕ) (email client : Text) (t : LoginThrottle)
    → (length (record_failure lower now email client t).1.by_account ≤ 10000)
      × (length (record_failure lower now email client t).1.by_address ≤ 10000)
unfolding record_failure
record_failure-capacity lower now email client t =
    (push-capacity now t.by_account (normalize lower email), push-capacity now t.by_address client)
