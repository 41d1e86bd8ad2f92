-- ===== src/Commands/Classes.antt =====
-- commands.service.ts: how responses are classified.
use senior_io_t_platform_arc.Prelude.{
  ◌≡◌, refl, ◌↔◌, true, false, [], ◌∷◌, ◌++◌, none, some, or_else, Text, units, starts_with,
  includes, arith, Bool-cases, inl, inr,
}
use senior_io_t_platform_arc.Platform.Events.{CommandStatus, succeeded, rejected, timed_out}
use senior_io_t_platform_arc.Protocol.Envelopes.{ResponseEnvelope}
use senior_io_t_platform_arc.Commands.{is_denial, classify}
use senior_io_t_platform_arc.Commands.Denials.{IsDenial, Contains, is_denial_iff, includes_iff}

not-IsDenial : (text : Text) → ¬ IsDenial text → is_denial text ≡ false
not-IsDenial text n = elim (Bool-cases (is_denial text)) [
  | inl e ↦ absurd (n ((is_denial_iff text).0 e))
  | inr e ↦ e
]

-- Which status a response is to give.
abbrev pub IsClass : ResponseEnvelope → CommandStatus → Type 0
IsClass r status =
    ((status ≡ succeeded) ↔ (r.is_ok ≡ true))
    × ((status ≡ rejected) ↔ ((r.is_ok ≡ false) × IsDenial (or_else r.result [])))
    × ((status ≡ timed_out) ↔ (
        (r.is_ok ≡ false)
        × (¬ IsDenial (or_else r.result []))
        × Contains (units "timed out") (or_else r.result [])))

classify-tests :
    (r : ResponseEnvelope)
    → let text = or_else r.result [] in
      ((classify r ≡ succeeded) ↔ (r.is_ok ≡ true))
      × ((classify r ≡ rejected) ↔ ((r.is_ok ≡ false) × (is_denial text ≡ true)))
      × ((classify r ≡ timed_out) ↔ (
          (r.is_ok ≡ false)
          × (is_denial text ≡ false)
          × (includes (units "timed out") text ≡ true)))
unfolding classify
classify-tests r = (ground arith, ground arith, ground arith)

pub classify-IsClass : (r : ResponseEnvelope) → IsClass r (classify r)
classify-IsClass r =
    let text = or_else r.result [] in
    let (succeeds, rejects, times_out) = classify-tests r in
    let (denies, denied) = is_denial_iff text in
    let (mentions, mentioned) = includes_iff (units "timed out") text in
    (
      succeeds,
      (λ e. let (bad, d) = rejects.0 e in (bad, denies d), λ (bad, d). rejects.1 (bad, denied d)),
      (
        λ e.
            let (bad, d, m) = times_out.0 e in
            (bad, λ q. let f = denied q in absurd (cc (f, d)), mentions m),
        λ (bad, d, m). times_out.1 (bad, not-IsDenial text d, mentioned m),
      ),
    )

starts_with-append : (t s : Text) → starts_with t (t ++ s) ≡ true
unfolding starts_with
starts_with-append [] s = refl
starts_with-append (x ∷ t) s = ground (arith, starts_with-append t s)

includes-starts : (t s : Text) → starts_with t s ≡ true → includes t s ≡ true
unfolding includes starts_with
includes-starts [] [] h = refl
includes-starts (x ∷ t) [] h = cc
includes-starts t (x ∷ s) h = rw h

-- What a text includes, a longer text includes.
includes-append : (p t s : Text) → includes t s ≡ true → includes t (p ++ s) ≡ true
unfolding includes
includes-append [] t s h = h
includes-append (x ∷ p) t s h = ground (arith, includes-append p t s h)

-- The message of the gateway's time-out.
abbrev pub timeout_message : Text → Text → Text → Text
timeout_message command_id device_id after =
    units "Command "
    ++ (command_id
        ++ (units " to device " ++ (device_id ++ (units " " ++ (units "timed out" ++ after)))))

timeout_message-includes :
    (command_id device_id after : Text)
    → includes (units "timed out") (timeout_message command_id device_id after) ≡ true
timeout_message-includes command_id device_id after =
    let t = units "timed out" in
    includes-append (units "Command ") t _ (
      includes-append command_id t _ (
        includes-append (units " to device ") t _ (
          includes-append device_id t _ (
            includes-append (units " ") t _
              (includes-starts t (t ++ after) (starts_with-append t after))))))

-- The gateway's time-out message, whatever the command, the device and the time, ends a command as
-- timed out, unless it contains the words of a denial.
pub classify-timeout :
    (id command_id device_id after : Text)
    → includes (units "is not exposed to the LLM") (timeout_message command_id device_id after)
      ≡ false
    → classify (record {
      id = id;
      capability = none;
      is_ok = false;
      result = some (timeout_message command_id device_id after);
    })
      ≡ timed_out
unfolding classify is_denial starts_with
classify-timeout id command_id device_id after h =
    rw (h, timeout_message-includes command_id device_id after)
