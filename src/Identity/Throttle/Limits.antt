-- ===== src/Identity/Throttle/Limits.antt =====
-- login-throttle.ts: when a login attempt is refused, and when a failure starts a lockout.
use senior_io_t_platform_arc.Prelude.{
  ℕ, ◌≤◌, ◌<◌, ◌≡◌, refl, ◌↔◌, Bool, true, List, [], ◌∷◌, filter, count, if◌then◌else◌, is_nil,
  none, some, Text, text_eq, text_eq_iff, arith, Bool-cases, Option-cases, inl, inr, ok,
}
use senior_io_t_platform_arc.Prelude.Dict.{get, get-set, get-delete}
use senior_io_t_platform_arc.Identity.Throttle.{
  Windows, LoginThrottle, is_recent, prune, prune_window, retry_after_ms, assert_allowed,
  record_failure, record_success, normalize,
}
use senior_io_t_platform_arc.Identity.Throttle.Windows.{recent, retry_after_ms_lem, push-recent}

module _ (lower : Text → Text) (now : ℕ) (email client : Text) (t : LoginThrottle) where
  -- An attempt passes exactly when in the last 15 minutes the account has failed fewer than 5 times
  -- and the address fewer than 20 times.
  pub assert_allowed_iff : ((assert_allowed lower now email client t).0 ≡ ok tt) ↔ (
      (recent now t.by_account (normalize lower email) < 5) × (recent now t.by_address client < 20))
  unfolding assert_allowed
  assert_allowed_iff = ground (
    arith,
    retry_after_ms_lem now t.by_account (normalize lower email) 5 (omega arith),
    retry_after_ms_lem now t.by_address client 20 (omega arith),
  )

  -- A failure reports a lockout exactly when it is the 5th recent one of the account, and one of the
  -- address exactly when it is its 20th.
  pub record_failure-Locked :
      (((record_failure lower now email client t).0.account ≡ true)
        ↔ (recent now t.by_account (normalize lower email) ≡ 4))
      × (((record_failure lower now email client t).0.address ≡ true)
          ↔ (recent now t.by_address client ≡ 19))
  unfolding record_failure
  record_failure-Locked = ground (
    arith,
    push-recent now t.by_account (normalize lower email),
    push-recent now t.by_address client,
  )

-- A success forgets the failures of the account, whose name is compared without case and outer
-- spaces, and leaves all other accounts and every address as they were.
pub record_success-recent :
    (lower : Text → Text) (email key : Text) (t : LoginThrottle)
    → (get key (record_success lower email t).by_account
        ≡ (if text_eq (normalize lower email) key then none else get key t.by_account))
      × ((record_success lower email t).by_address ≡ t.by_address)
unfolding record_success
record_success-recent lower email key t =
    (get-delete (normalize lower email) key t.by_account, refl)

pub recent_later :
    (now later : ℕ) (fs : List ℕ)
    → now ≤ later
    → count (is_recent later) (filter (is_recent now) fs) ≡ count (is_recent later) fs
recent_later now later [] h = refl
recent_later now later (x ∷ fs) h = ground (arith, recent_later now later fs h)

pub no_recent : (p : ℕ → Bool) (fs : List ℕ) → is_nil fs ≡ true → count p fs ≡ 0
no_recent p [] h = refl
no_recent p (x ∷ fs) h = cc

-- Pruning a key at one time changes no count at that time or later.
pub recent-prune :
    (now later : ℕ) (map : Windows) (key j : Text)
    → now ≤ later
    → recent later (prune now map key).1 j ≡ recent later map j
unfolding prune prune_window
recent-prune now later map key j h = elim (Option-cases (get key map)) [
  | inl e ↦ rw (e, prune)
  | inr (fs, e) ↦
      rw (e, prune)
        (elim (Bool-cases (is_nil (filter (is_recent now) fs))) [
          | inl n ↦
              rw (n, get-delete)
                (elim (Bool-cases (text_eq key j)) [
                  | inl s ↦
                      let found : get j map ≡ some fs = rw ((text_eq_iff key j).0 s) at e in
                      rw (s, found)
                        (omega
                          (arith, recent_later now later fs h, no_recent (is_recent later) _ n))
                  | inr d ↦ rw d
                ])
          | inr n ↦
              rw (n, get-set)
                (elim (Bool-cases (text_eq key j)) [
                  | inl s ↦
                      let found : get j map ≡ some fs = rw ((text_eq_iff key j).0 s) at e in
                      rw (s, found) (recent_later now later fs h)
                  | inr d ↦ rw d
                ])
        ])
]

-- An attempt, refused or not, changes no later count.
pub recent-assert_allowed :
    (lower : Text → Text) (now later : ℕ) (email client key : Text) (t : LoginThrottle)
    → now ≤ later
    → (recent later (assert_allowed lower now email client t).1.by_account key
        ≡ recent later t.by_account key)
      × (recent later (assert_allowed lower now email client t).1.by_address key
          ≡ recent later t.by_address key)
unfolding assert_allowed retry_after_ms
recent-assert_allowed lower now later email client key t h = (
  recent-prune now later t.by_account (normalize lower email) key h,
  recent-prune now later t.by_address client key h,
)
