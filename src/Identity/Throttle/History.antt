-- ===== src/Identity/Throttle/History.antt =====
-- login-throttle.ts against its contract: a log of all failures and successes since the start, on
-- which the limits are counts. The maps forget what is old; within their bound nothing else is lost.
use senior_io_t_platform_arc.Prelude.{
  if_false, count-append_one, ℕ, suc, ◌+◌, ◌≤◌, ◌<◌, ◌≡◌, refl, ap, ◌∙◌, ◌↔◌, true, false, ◌&&◌,
  List, [], ◌∷◌, ◌++◌, count, filter, if◌then◌else◌, is_nil, ltb, length, or_else, Text, text_eq,
  text_eq_iff, arith, Bool-cases, Option-cases, inl, inr, ok,
}
use senior_io_t_platform_arc.Prelude.Dict.{
  get, set, get-set, get-delete, length-set-le, length-delete-le, length-set-get,
}
use senior_io_t_platform_arc.Identity.Throttle.{
  Windows, LoginThrottle, is_recent, prune, prune_window, push, assert_allowed, record_failure,
  record_success, normalize,
}
use senior_io_t_platform_arc.Identity.Throttle.Windows.{recent}
use senior_io_t_platform_arc.Identity.Throttle.Limits.{
  recent-prune, recent_later, no_recent, assert_allowed_iff, record_failure-Locked,
  recent-assert_allowed,
}

-- What happened, newest first.
pub data Attempt : Type 0 where
  failed : (at : ℕ) (account client : Text) → Attempt
  succeeded : (account : Text) → Attempt

-- The failures of an account within the last 15 minutes and since its last success.
abbrev pub account_failures : ℕ → Text → List Attempt → ℕ
account_failures now key [] = 0
account_failures now key (failed at account client ∷ log) =
    let rest = account_failures now key log in
    if text_eq account key && is_recent now at then suc rest else rest
account_failures now key (succeeded account ∷ log) =
    let rest = account_failures now key log in if text_eq account key then 0 else rest

-- The failures from an address within the last 15 minutes.
abbrev pub address_failures : ℕ → Text → List Attempt → ℕ
address_failures now key [] = 0
address_failures now key (failed at account client ∷ log) =
    let rest = address_failures now key log in
    if text_eq client key && is_recent now at then suc rest else rest
address_failures now key (succeeded account ∷ log) = address_failures now key log

ltb-false : (m n : ℕ) → n ≤ m → ltb m n ≡ false
ltb-false m n h = ground arith

length-prune-le : (now : ℕ) (map : Windows) (key : Text) → length (prune now map key).1 ≤ length map
unfolding prune prune_window
length-prune-le now map key = elim (Option-cases (get key map)) [
  | inl e ↦ rw (e, prune) (omega arith)
  | inr (fs, e) ↦
      rw (e, prune)
        (elim (Bool-cases (is_nil (filter (is_recent now) fs))) [
          | inl n ↦ rw n (length-delete-le key map)
          | inr n ↦ rw n (omega (arith, length-set-get key (filter (is_recent now) fs) map e))
        ])
]

window-recent :
    (now later : ℕ) (map : Windows) (key : Text)
    → now ≤ later
    → count (is_recent later) (or_else (prune now map key).0 []) ≡ recent later map key
unfolding prune prune_window
window-recent now later map key h = elim (Option-cases (get key map)) [
  | inl e ↦ rw (e, prune)
  | inr (fs, e) ↦
      rw (e, prune)
        (elim (Bool-cases (is_nil (filter (is_recent now) fs))) [
          | inl n ↦
              rw n (omega (arith, recent_later now later fs h, no_recent (is_recent later) _ n))
          | inr n ↦ rw n (recent_later now later fs h)
        ])
]

recent-set :
    (later now : ℕ) (key j : Text) (window : List ℕ) (left map : Windows)
    → count (is_recent later) window ≡ recent later map key
    → recent later left j ≡ recent later map j
    → recent later (set key (window ++ now ∷ []) left) j
      ≡ recent later map j + (if text_eq key j && is_recent later now then 1 else 0)
recent-set later now key j window left map e f = elim (Bool-cases (text_eq key j)) [
  | inl same ↦
      rw (get-set, same)
        (count-append_one (is_recent later) window now
          ∙ ap (λ n. n + (if is_recent later now then 1 else 0))
              (e ∙ ap (recent later map) ((text_eq_iff key j).0 same)))
  | inr other ↦ rw (get-set, other) (omega (arith, f))
]

-- A failure adds one to the counts of its key, as long as the map does not overflow.
recent-push :
    (now later : ℕ) (map : Windows) (key j : Text)
    → now ≤ later
    → length map < 10000
    → recent later (push now map key).1 j
      ≡ recent later map j + (if text_eq key j && is_recent later now then 1 else 0)
unfolding push
recent-push now later map key j h bound =
    let pruned = prune now map key in
    let failures = or_else pruned.0 [] ++ now ∷ [] in
    let room =
      ltb-false 10000 (length (set key failures pruned.1))
        (omega (arith, length-set-le key failures pruned.1, length-prune-le now map key)) in
    ap (λ (m : Windows). recent later m j) (if_false _ _ room)
    ∙ recent-set later now key j (or_else pruned.0 []) pruned.1 map
        (window-recent now later map key h) (recent-prune now later map key j h)

module _ (lower : Text → Text) where
  -- A run of the service: its log, what the throttle holds, and the time. The clock does not run
  -- backwards, and a failure is counted while fewer than 10000 accounts and addresses are tracked.
  pub data Run : List Attempt → LoginThrottle → ℕ → Type 0 where
    starts : (now : ℕ) → Run [] (record { by_account = []; by_address = [] }) now
    fails :
        {log : List Attempt} {t : LoginThrottle} {last : ℕ} (now : ℕ) (email client : Text)
        → Run log t last
        → last ≤ now
        → length t.by_account < 10000
        → length t.by_address < 10000
        → Run
            (failed now (normalize lower email) client ∷ log)
            (record_failure lower now email client t).1
            now
    succeeds :
        {log : List Attempt} {t : LoginThrottle} {last : ℕ} (email : Text)
        → Run log t last
        → Run (succeeded (normalize lower email) ∷ log) (record_success lower email t) last
    asks :
        {log : List Attempt} {t : LoginThrottle} {last : ℕ} (now : ℕ) (email client : Text)
        → Run log t last
        → last ≤ now
        → Run log (assert_allowed lower now email client t).1 now

  -- The maps stand for the log: every count that can be asked for is the log's.
  pub record StandsFor (log : List Attempt) (t : LoginThrottle) (last : ℕ) : Type 0 where
    pub accounts :
        (later : ℕ) (key : Text)
        → last ≤ later
        → recent later t.by_account key ≡ account_failures later key log
    pub addresses :
        (later : ℕ) (key : Text)
        → last ≤ later
        → recent later t.by_address key ≡ address_failures later key log

  Run-StandsFor :
      {log : List Attempt} {t : LoginThrottle} {last : ℕ} → Run log t last → StandsFor log t last
  unfolding record_failure record_success get
  Run-StandsFor (starts now) = record {
    accounts = λ later key h. refl;
    addresses = λ later key h. refl;
  }
  Run-StandsFor (fails {log} {t} now email client r order room room') =
      let ih = Run-StandsFor r in
      record {
        accounts = λ later key h. ground (
          arith,
          recent-push now later t.by_account (normalize lower email) key h room,
          ih.accounts later key (omega arith),
        );
        addresses = λ later key h. ground (
          arith,
          recent-push now later t.by_address client key h room',
          ih.addresses later key (omega arith),
        );
      }
  Run-StandsFor (succeeds {log} {t} email r) =
      let ih = Run-StandsFor r in
      record {
        accounts = λ later key h.
            rw (get-delete (normalize lower email) key t.by_account)
              (elim (Bool-cases (text_eq (normalize lower email) key)) [
                | inl same ↦ rw same
                | inr other ↦ rw other (ih.accounts later key h)
              ]);
        addresses = ih.addresses;
      }
  Run-StandsFor (asks {log} {t} now email client r order) =
      let ih = Run-StandsFor r in
      record {
        accounts = λ later key h.
            (recent-assert_allowed lower now later email client key t h).0
            ∙ ih.accounts later key (omega arith);
        addresses = λ later key h.
            (recent-assert_allowed lower now later email client key t h).1
            ∙ ih.addresses later key (omega arith);
      }

  -- After any run in which no map is full, the throttle decides as the whole log says: an attempt
  -- passes exactly when the account has failed fewer than 5 times in the last 15 minutes and since its
  -- last success, and the address fewer than 20 times in the last 15 minutes; and a failure reports a
  -- lockout exactly when it makes the account's 5th or the address's 20th.
  pub Run-refines :
      {log : List Attempt} {t : LoginThrottle} {last : ℕ} (now : ℕ) (email client : Text)
      → Run log t last
      → last ≤ now
      → (((assert_allowed lower now email client t).0 ≡ ok tt) ↔ (
          (account_failures now (normalize lower email) log < 5)
          × (address_failures now client log < 20)))
        × (((record_failure lower now email client t).0.account ≡ true)
            ↔ (account_failures now (normalize lower email) log ≡ 4))
        × (((record_failure lower now email client t).0.address ≡ true)
            ↔ (address_failures now client log ≡ 19))
  Run-refines {log} {t} now email client r h =
      let s = Run-StandsFor r in
      rw (← s.accounts now (normalize lower email) h, ← s.addresses now client h)
        (
          assert_allowed_iff lower now email client t,
          (record_failure-Locked lower now email client t).0,
          (record_failure-Locked lower now email client t).1,
        )
