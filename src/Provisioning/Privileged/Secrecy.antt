-- ===== src/Provisioning/Privileged/Secrecy.antt =====
-- privileged-commands.service.ts: what is kept of a call.
use senior_io_t_platform_arc.Prelude.{ℕ, ◌≡◌, sym, ap, ◌∙◌, List, Option, Text, ok}
use senior_io_t_platform_arc.Prelude.Json.{Props}
use senior_io_t_platform_arc.Prelude.Table.{Table}
use senior_io_t_platform_arc.Devices.{Device}
use senior_io_t_platform_arc.Commands.{Command, command_key, Outgoing, History, open_command}
use senior_io_t_platform_arc.Provisioning.{TokenPayload, SignedToken, redact_props}
use senior_io_t_platform_arc.Provisioning.Redaction.{AgreeProps, agree_props}
use senior_io_t_platform_arc.Provisioning.Privileged.{begin_execute, privileged_input}
use senior_io_t_platform_arc.Provisioning.Privileged.Begun.{begin_execute-Begun}

module _ (hkdf : List ℕ → Text → List ℕ) {N : Type 0} (json_bytes : TokenPayload N → List ℕ)
    (hmac : List ℕ → Text → List ℕ) (table : Table (command_key {N = N})) where
  recorded_alike :
      (id fresh : Text) (now : ℕ) (context : Option Text) (device_id : Text) (row row' : Device)
      (capability : Text) (ps qs : Props N) (timeout_ms : Option ℕ) (s : History N table)
      (signed signed' : SignedToken N)
      → redact_props ps ≡ redact_props qs
      → let p =
          open_command N table id fresh now context device_id row
            (privileged_input hkdf json_bytes hmac capability ps timeout_ms signed)
            s in
        let q =
          open_command N table id fresh now context device_id row'
            (privileged_input hkdf json_bytes hmac capability qs timeout_ms signed')
            s in
        (p.0 ≡ q.0) × (p.2 ≡ q.2)
  unfolding open_command
  recorded_alike id fresh now context device_id row row' capability ps qs timeout_ms s signed
        signed' e =
      (rw e, rw e)

  -- Two privileged calls whose inputs differ only below secret-looking names, at any depth, with any two
  -- master keys, nonces and times of signing, store the same command and announce the same events, if
  -- both get as far: nothing of a secret or of a token is kept.
  pub begin_execute-secrecy :
      (master_key master_key' : Option (List ℕ)) (seconds seconds' now : ℕ)
      (id fresh nonce nonce' : Text) (context : Option Text) (device_id : Text)
      (device : Option Device) (capability : Text) (ps qs : Props N) (timeout_ms : Option ℕ)
      (s : History N table) (command command' : Command N) (out out' : Outgoing N)
      (opened opened' : History N table)
      → AgreeProps ps qs
      → begin_execute hkdf json_bytes hmac table master_key seconds now id fresh nonce context
          device_id device capability ps timeout_ms s
        ≡ ok (command, out, opened)
      → begin_execute hkdf json_bytes hmac table master_key' seconds' now id fresh nonce' context
          device_id device capability qs timeout_ms s
        ≡ ok (command', out', opened')
      → (command ≡ command') × (opened ≡ opened')
  begin_execute-secrecy master_key master_key' seconds seconds' now id fresh nonce nonce' context
        device_id device capability ps qs timeout_ms s command command' out out' opened opened'
        agree e e' =
      let b =
        begin_execute-Begun hkdf json_bytes hmac table master_key seconds now id fresh nonce context
          device_id device capability ps timeout_ms s command out opened e in
      let b' =
        begin_execute-Begun hkdf json_bytes hmac table master_key' seconds' now id fresh nonce'
          context device_id device capability qs timeout_ms s command' out' opened' e' in
      let (commands, histories) =
        recorded_alike id fresh now context device_id b.row b'.row capability ps qs timeout_ms s
          b.signed b'.signed (agree_props agree) in
      (
        sym (ap (λ (r : Command N × Outgoing N × History N table). r.0) b.dispatched)
            ∙ commands
            ∙ ap (λ (r : Command N × Outgoing N × History N table). r.0) b'.dispatched,
        sym (ap (λ (r : Command N × Outgoing N × History N table). r.2) b.dispatched)
            ∙ histories
            ∙ ap (λ (r : Command N × Outgoing N × History N table). r.2) b'.dispatched,
      )
