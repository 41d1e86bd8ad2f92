-- ===== src/Identity/Throttle.antt =====
-- apps/backend/src/identity/login-throttle.ts: counters of failed logins. Times are milliseconds; each
-- public method reads the clock once, as `now`. The runtime's table for `toLowerCase` is a
-- parameter, `lower`.
pub mod Windows
pub mod Limits
pub mod Capacity
pub mod History
pub mod Tests
use senior_io_t_platform_arc.Prelude.{
  ℕ, ◌+◌, ◌-◌, ◌/◌, Bool, List, [], ◌∷◌, ◌++◌, filter, if◌then◌else◌, is_nil, ltb, leb, ◌==◌,
  length, max, Option, none, some, or_else, Text, trim, Result, ok, err,
}
use senior_io_t_platform_arc.Prelude.Dict.{Dict, get, set, delete, keys}

abbrev pub login_window_ms : ℕ
login_window_ms = 900000

abbrev pub max_failures_per_account : ℕ
max_failures_per_account = 5

abbrev pub max_failures_per_address : ℕ
max_failures_per_address = 20

abbrev pub max_tracked_keys : ℕ
max_tracked_keys = 10000

-- The times of the failures of each key.
abbrev pub Windows : Type 0
Windows = Dict (List ℕ)

pub record LoginThrottle : Type 0 where
  pub by_account : Windows
  pub by_address : Windows

-- `t > now - LOGIN_WINDOW_MS`.
abbrev pub is_recent : ℕ → ℕ → Bool
is_recent now t = ltb now (t + login_window_ms)

prune_window : ℕ → Text → List ℕ → Windows → Option (List ℕ) × Windows
prune_window now key failures map =
    let kept = filter (is_recent now) failures in
    if is_nil kept then (none, delete key map) else (some kept, set key kept map)

-- The window that is left, if any, and the map.
pub prune : ℕ → Windows → Text → Option (List ℕ) × Windows
unfolding prune_window
prune now map key = elim (get key map) [
  | none ↦ (none, map)
  | some failures ↦ prune_window now key failures map
]

wait_of : ℕ → ℕ → Option (List ℕ) → ℕ
wait_of now limit none = 0
wait_of now limit (some []) = 0
wait_of now limit (some (t ∷ ts)) =
    if ltb (length (t ∷ ts)) limit then 0 else t + login_window_ms - now

pub retry_after_ms : ℕ → Windows → Text → ℕ → ℕ × Windows
unfolding prune wait_of
retry_after_ms now map key limit =
    let (window, left) = prune now map key in (wait_of now limit window, left)

-- The first loop of `evictExpired`, over the keys at its start.
evict_stale : ℕ → List Text → Windows → Windows
unfolding prune
evict_stale now [] map = map
evict_stale now (key ∷ ks) map = evict_stale now ks (prune now map key).1

-- The second loop: the oldest entries go until the bound is met.
evict_oldest : List Text → Windows → Windows
evict_oldest [] map = map
evict_oldest (key ∷ ks) map =
    let rest = evict_oldest ks (delete key map) in
    if leb (length map) max_tracked_keys then map else rest

pub evict_expired : ℕ → Windows → Windows
unfolding evict_stale evict_oldest
evict_expired now map = let live = evict_stale now (keys map) map in evict_oldest (keys live) live

-- How many failures are now in the window, and the map.
pub push : ℕ → Windows → Text → ℕ × Windows
unfolding prune evict_expired
push now map key =
    let (window, left) = prune now map key in
    let failures = or_else window [] ++ now ∷ [] in
    let grown = set key failures left in
    (
      length failures,
      (if ltb max_tracked_keys (length grown) then evict_expired now grown else grown),
    )

-- Which limits a failure reached.
pub record Locked : Type 0 where
  pub account : Bool
  pub address : Bool

module _ (lower : Text → Text) where
  abbrev pub normalize : Text → Text
  normalize email = lower (trim email)

  -- 429 with the seconds to wait, rounded up. A refused attempt prunes the maps too.
  pub assert_allowed : ℕ → Text → Text → LoginThrottle → Result ℕ (Unit {0}) × LoginThrottle
  unfolding retry_after_ms
  assert_allowed now email client t =
      let (account_wait, accounts) =
        retry_after_ms now t.by_account (normalize email) max_failures_per_account in
      let (address_wait, addresses) =
        retry_after_ms now t.by_address client max_failures_per_address in
      let retry_after = max account_wait address_wait in
      (
        (if ltb 0 retry_after then err ((retry_after + 999) / 1000) else ok tt),
        record { by_account = accounts; by_address = addresses },
      )

  pub record_failure : ℕ → Text → Text → LoginThrottle → Locked × LoginThrottle
  unfolding push
  record_failure now email client t =
      let (account_failures, accounts) = push now t.by_account (normalize email) in
      let (address_failures, addresses) = push now t.by_address client in
      (
        record {
          account = account_failures == max_failures_per_account;
          address = address_failures == max_failures_per_address;
        },
        record { by_account = accounts; by_address = addresses },
      )

  pub record_success : Text → LoginThrottle → LoginThrottle
  record_success email t = record t { by_account = delete (normalize email) t.by_account }
