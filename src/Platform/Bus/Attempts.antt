-- ===== src/Platform/Bus/Attempts.antt =====
-- in-process-event-bus.ts: what `runHandler` counts.
use senior_io_t_platform_arc.Prelude.{
  ℕ, zero, suc, ◌+◌, ◌≤◌, ◌≡◌, Bool, true, false, ◌||◌, arith, if◌then◌else◌,
}
use senior_io_t_platform_arc.Platform.Events.{DomainEvent}
use senior_io_t_platform_arc.Platform.Bus.{
  Subscription, EventBusStats, Outcome, settled, run_attempts, run_handler,
}

abbrev is_settled : Outcome → Bool
is_settled settled = true
is_settled _ = false

-- Does one of the attempts from this one on, with so many left after it, settle?
abbrev pub settles : (ℕ → Outcome) → ℕ → ℕ → Bool
settles outcome zero attempt = is_settled (outcome attempt)
settles outcome (suc left) attempt =
    is_settled (outcome attempt) || settles outcome left (attempt + 1)

pub record Accounts (settles : Bool) (allowed : ℕ) (before after : EventBusStats) : Type 0 where
  pub published : after.published ≡ before.published
  pub delivered : after.delivered ≡ before.delivered + (if settles then 1 else 0)
  pub failed : after.failed ≡ before.failed + (if settles then 0 else 1)
  pub timed_out : after.timed_out ≤ before.timed_out + allowed

run_attempts-Accounts :
    (outcome : ℕ → Outcome) (left attempt : ℕ) (s : EventBusStats)
    → Accounts (settles outcome left attempt) (left + 1) s (run_attempts outcome left attempt s)
unfolding run_attempts
run_attempts-Accounts outcome zero attempt s = ground arith
run_attempts-Accounts outcome (suc left) attempt s = ground (
  arith,
  run_attempts-Accounts outcome left (attempt + 1) s,
  run_attempts-Accounts outcome left (attempt + 1) (record s { timed_out = s.timed_out + 1 }),
)

-- A handler is counted once for each event: as delivered if one of its first `retries + 1` attempts
-- settles, else as failed; no more than `retries + 1` of its attempts time out.
pub run_handler-Accounts :
    {P : Type 0} (attempt_outcome : Subscription → DomainEvent P → ℕ → Outcome) (sub : Subscription)
    (event : DomainEvent P) (s : EventBusStats)
    → Accounts
        (settles (attempt_outcome sub event) sub.retries 0)
        (sub.retries + 1)
        s
        (run_handler attempt_outcome sub event s)
unfolding run_handler
run_handler-Accounts attempt_outcome sub event s =
    run_attempts-Accounts (attempt_outcome sub event) sub.retries 0 s
