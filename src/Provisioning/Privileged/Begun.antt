-- ===== src/Provisioning/Privileged/Begun.antt =====
-- privileged-commands.service.ts: what has happened when a call has begun.
use senior_io_t_platform_arc.Prelude.{
  ℕ, ◌≡◌, refl, true, not, List, Option, none, some, Text, Result, ok, err, >>=-eq-ok, if_err-eq-ok,
  arith,
}
use senior_io_t_platform_arc.Prelude.Json.{Props}
use senior_io_t_platform_arc.Prelude.Table.{Table}
use senior_io_t_platform_arc.Devices.{Device}
use senior_io_t_platform_arc.Commands.{
  Command, command_key, DispatchInput, Outgoing, History, start, open_command,
}
use senior_io_t_platform_arc.Provisioning.{
  PlatformTokenError, invalid_target, TokenPayload, SignedToken, sign_platform_token,
  is_platform_exec_target, validate_privileged_input,
}
use senior_io_t_platform_arc.Provisioning.Privileged.{
  KeyError, bad_request, begin_execute, issue, issue_with, refusing, require_key, registered_only,
  privileged_input,
}

refusing-eq-ok :
    {A : Type 0} (r : Result PlatformTokenError A) {a : A} → refusing r ≡ ok a → r ≡ ok a
unfolding refusing
refusing-eq-ok (ok a) e = ground (arith, e)
refusing-eq-ok (err x) e = cc

module _ (hkdf : List ℕ → Text → List ℕ) {N : Type 0} (json_bytes : TokenPayload N → List ℕ)
    (hmac : List ℕ → Text → List ℕ) (table : Table (command_key {N = N})) where
  issue-eq-ok :
      (master_key : Option (List ℕ)) (device_id capability : Text) (input : Props N) (now : ℕ)
      (nonce : Text) (signed : SignedToken N)
      → issue hkdf json_bytes hmac master_key device_id capability input now nonce ≡ ok signed
      → (secret : List ℕ) × (require_key hkdf master_key device_id ≡ ok secret)
        × (sign_platform_token json_bytes hmac secret device_id capability input now nonce
            ≡ ok signed)
  unfolding issue
  issue-eq-ok master_key device_id capability input now nonce signed e =
      by_key (require_key hkdf master_key device_id) e
    where
      by_key :
          (key : Result KeyError (List ℕ))
          → issue_with hkdf json_bytes hmac key device_id capability input now nonce ≡ ok signed
          → (secret : List ℕ) × (key ≡ ok secret)
            × (sign_platform_token json_bytes hmac secret device_id capability input now nonce
                ≡ ok signed)
      by_key (ok secret) h = (secret, refl, refusing-eq-ok _ h)
      by_key (err x) h = cc

  -- The arguments of a call that has begun.
  pub record Begun (master_key : Option (List ℕ)) (seconds now : ℕ) (id fresh nonce : Text)
      (context : Option Text) (device_id : Text) (device : Option Device) (capability : Text)
      (input : Props N) (timeout_ms : Option ℕ) (s : History N table) (command : Command N)
      (out : Outgoing N) (opened : History N table) : Type 0 where
    pub target : is_platform_exec_target capability ≡ true
    pub valid : validate_privileged_input capability input ≡ ok tt
    pub secret : List ℕ
    pub keyed : require_key hkdf master_key device_id ≡ ok secret
    pub signed : SignedToken N
    pub signs :
        sign_platform_token json_bytes hmac secret device_id capability input seconds nonce
        ≡ ok signed
    pub row : Device
    pub registered : device ≡ some row
    pub dispatched :
        open_command N table id fresh now context device_id row
          (privileged_input hkdf json_bytes hmac capability input timeout_ms signed)
          s
        ≡ (command, out, opened)

  registered_only-eq-ok :
      {A : Type 0} (o : Option A) {a : A}
      → registered_only hkdf json_bytes hmac table o ≡ ok a
      → o ≡ some a
  unfolding registered_only
  registered_only-eq-ok none e = cc
  registered_only-eq-ok (some a) e = ground (arith, e)

  start-eq-some :
      (id fresh : Text) (now : ℕ) (context : Option Text) (device_id : Text)
      (device : Option Device) (input : DispatchInput N) (s : History N table)
      (begun : Command N × Outgoing N × History N table)
      → start N table id fresh now context device_id device input s ≡ some begun
      → (row : Device) × (device ≡ some row)
        × (open_command N table id fresh now context device_id row input s ≡ begun)
  unfolding start
  start-eq-some id fresh now context device_id none input s begun e = cc
  start-eq-some id fresh now context device_id (some row) input s begun e = (row, refl, cc)

  pub begin_execute-Begun :
      (master_key : Option (List ℕ)) (seconds now : ℕ) (id fresh nonce : Text)
      (context : Option Text) (device_id : Text) (device : Option Device) (capability : Text)
      (input : Props N) (timeout_ms : Option ℕ) (s : History N table) (command : Command N)
      (out : Outgoing N) (opened : History N table)
      → begin_execute hkdf json_bytes hmac table master_key seconds now id fresh nonce context
          device_id device capability input timeout_ms s
        ≡ ok (command, out, opened)
      → Begun master_key seconds now id fresh nonce context device_id device capability input
          timeout_ms s command out opened
  unfolding begin_execute
  begin_execute-Begun master_key seconds now id fresh nonce context device_id device capability
        input timeout_ms s command out opened e =
      let (listed, past) =
        if_err-eq-ok (not (is_platform_exec_target capability)) (bad_request invalid_target) _ e in
      let (u, valid, issued) =
        >>=-eq-ok (refusing (validate_privileged_input capability input)) _ past in
      let (signed, token, sent) =
        >>=-eq-ok (issue hkdf json_bytes hmac master_key device_id capability input seconds nonce) _
          issued in
      let (secret, keyed, signs) =
        issue-eq-ok master_key device_id capability input seconds nonce signed token in
      let (row, registered, dispatched) =
        start-eq-some id fresh now context device_id device
          (privileged_input hkdf json_bytes hmac capability input timeout_ms signed) s
          (command, out, opened) (registered_only-eq-ok _ sent) in
      record {
        target = ground (arith, listed);
        valid = refusing-eq-ok _ valid;
        secret = secret;
        keyed = keyed;
        signed = signed;
        signs = signs;
        row = row;
        registered = registered;
        dispatched = dispatched;
      }
