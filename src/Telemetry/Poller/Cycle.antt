-- ===== src/Telemetry/Poller/Cycle.antt =====
-- telemetry-poller.service.ts: the steps of a cycle, with ticks of the timer and other code between them.
use senior_io_t_platform_arc.Prelude.{
  ℕ, zero, suc, ◌≤◌, ◌≡◌, refl, ap, ◌∙◌, Bool, true, false, List, [], ◌∷◌, ◌++◌, count, length,
  drop, Option, Text, arith,
}
use senior_io_t_platform_arc.Prelude.Json.{Json}
use senior_io_t_platform_arc.Prelude.Table.{Table}
use senior_io_t_platform_arc.Protocol.Envelopes.{ResponseEnvelope}
use senior_io_t_platform_arc.Devices.{device_key}
use senior_io_t_platform_arc.Commands.{command_key, Outgoing}
use senior_io_t_platform_arc.Telemetry.Poller.{
  PollTarget, Moment, Services, Poller, begin_poll, proceed,
}

module _ {N : Type 0} (devices : Table device_key) (commands : Table (command_key {N = N}))
    (collate : Text → Text → Bool) (parse_json : Text → Option (Json N)) (is_finite : N → Bool)
    (moments : ℕ → Moment) (answer : Outgoing N → ResponseEnvelope) where
  -- A tick of the timer, a step of the cycle, or anything that other code does to the services.
  pub data Happening : Type 0 where
    tick pass : Happening
    elsewhere : (Services devices commands → Services devices commands) → Happening

  happen : Happening → Poller devices commands → Poller devices commands
  happen tick p = begin_poll devices commands collate p
  happen pass p = proceed devices commands parse_json is_finite moments answer p
  happen (elsewhere f) p = record p { services = f p.services }

  unfoldable pub run : List Happening → Poller devices commands → Poller devices commands
  unfolding happen
  run [] p = p
  run (h ∷ hs) p = run hs (happen h p)

  abbrev is_pass : Happening → Bool
  is_pass pass = true
  is_pass _ = false

  abbrev pub passes : List Happening → ℕ
  passes = count is_pass

  abbrev running : List (Text × PollTarget) → Services devices commands → Poller devices commands
  running remaining s = record { polling = true; remaining = remaining; services = s }

  run-running :
      (hs : List Happening) (remaining : List (Text × PollTarget)) (s : Services devices commands)
      → passes hs ≤ length remaining
      → ((run hs (running remaining s)).polling ≡ true)
        × ((run hs (running remaining s)).remaining ≡ drop (passes hs) remaining)
  unfolding run happen begin_poll proceed
  run-running [] remaining s le = (refl, refl)
  run-running (tick ∷ hs) remaining s le = run-running hs remaining s le
  run-running (elsewhere f ∷ hs) remaining s le = run-running hs remaining (f s) le
  run-running (pass ∷ hs) [] s le = absurd (omega (arith, le))
  run-running (pass ∷ hs) ((id, target) ∷ remaining) s le =
      run-running hs remaining _ (omega (arith, le))

  -- A number of steps of the cycle, one after the other.
  abbrev pub steps : ℕ → List Happening
  steps zero = []
  steps (suc n) = pass ∷ steps n

  run-steps :
      (remaining : List (Text × PollTarget)) (s : Services devices commands)
      → (run (steps (suc (length remaining))) (running remaining s)).polling ≡ false
  unfolding run happen proceed
  run-steps [] s = refl
  run-steps ((id, target) ∷ remaining) s = run-steps remaining _

  run-append :
      (hs ks : List Happening) (p : Poller devices commands) → run (hs ++ ks) p ≡ run ks (run hs p)
  unfolding run
  run-append [] ks p = refl
  run-append (h ∷ hs) ks p = run-append hs ks (happen h p)

  -- A cycle under way, after anything that happens with no more of its steps than it has targets left, is
  -- still under way and has lost as many targets as it made steps: a tick starts no second cycle.
  -- As many further steps as there are targets left then, and one, end it.
  pub run-ends :
      (hs : List Happening) (p : Poller devices commands)
      → p.polling ≡ true
      → passes hs ≤ length p.remaining
      → ((run hs p).polling ≡ true)
        × ((run hs p).remaining ≡ drop (passes hs) p.remaining)
        × ((run (hs ++ steps (suc (length (run hs p).remaining))) p).polling ≡ false)
  run-ends hs p e le =
      let q = run hs p in
      let from : p ≡ running p.remaining p.services = ap (λ b. record p { polling = b }) e in
      let (a, b) = run-running hs p.remaining p.services le in
      let on : q.polling ≡ true = ap (λ x. (run hs x).polling) from ∙ a in
      (
        on,
        ap (λ x. (run hs x).remaining) from ∙ b,
        ap (λ x. x.polling) (run-append hs (steps (suc (length q.remaining))) p)
            ∙ ap (λ b. (run (steps (suc (length q.remaining))) (record q { polling = b })).polling)
                on
            ∙ run-steps q.remaining q.services,
      )
