-- ===== src/Commands/Startup.antt =====
-- commands.service.ts, `onModuleInit`: the sweep of a restart.
use senior_io_t_platform_arc.Prelude.{
  ℕ, ◌≡◌, refl, sym, ap, ◌∙◌, ◌≢◌, ◌⊎◌, inl, inr, true, List, [], ◌∷◌, find_first, Option, none,
  some, Text, text_eq, Bool-cases, Option-cases,
}
use senior_io_t_platform_arc.Prelude.Table.{Table}
use senior_io_t_platform_arc.Platform.Events.{
  CommandStatus, pending, succeeded, failed, rejected, timed_out,
}
use senior_io_t_platform_arc.Commands.{Command, command_key, History, swept, is_pending}

is_pending-eq : (s : CommandStatus) → is_pending s ≡ true → s ≡ pending
is_pending-eq pending e = refl
is_pending-eq succeeded e = cc
is_pending-eq failed e = cc
is_pending-eq rejected e = cc
is_pending-eq timed_out e = cc

timed_out≢pending : timed_out ≢ pending
timed_out≢pending e = cc

module _ {N : Type 0} where
  swept-id : (now : ℕ) (c : Command N) → (swept now c).id ≡ c.id
  unfolding swept
  swept-id now c = elim (Bool-cases (is_pending c.status)) [ inl e ↦ rw e refl | inr e ↦ rw e refl ]

  -- A row after the sweep: closed as timed out if it was pending, else as it was.
  abbrev pub IsSwept : ℕ → Command N → Command N → Type 0
  IsSwept now before after =
      ((before.status ≡ pending)
        × (after ≡ record before { status = timed_out; resolved_at = some now }))
      ⊎ ((before.status ≢ pending) × (after ≡ before))

  swept-IsSwept : (now : ℕ) (c : Command N) → IsSwept now c (swept now c)
  unfolding swept
  swept-IsSwept now c = elim (Bool-cases (is_pending c.status)) [
    | inl e ↦ rw e (inl (is_pending-eq c.status e, refl))
    | inr e ↦ rw e (inr (λ p. cc (ap is_pending p, e), refl))
  ]

  swept-closed : (now : ℕ) (c : Command N) → (swept now c).status ≢ pending
  unfolding swept
  swept-closed now c = elim (Bool-cases (is_pending c.status)) [
    | inl e ↦ rw e timed_out≢pending
    | inr e ↦ rw e (λ p. cc (ap is_pending p, e))
  ]

module _ (N : Type 0) (table : Table (command_key {N = N})) where
  -- `onModuleInit`: one update of the pending rows; a row that is not pending is saved as it is.
  sweep_rows : ℕ → List (Command N) → table.Store → table.Store
  unfolding swept
  sweep_rows now [] s = s
  sweep_rows now (c ∷ rows) s = table.save (swept now c) (sweep_rows now rows s)

  pub sweep : ℕ → History N table → History N table
  unfolding sweep_rows
  sweep now s = record s { commands = sweep_rows now (table.rows s.commands) s.commands }

  find_one-sweep_rows :
      (now : ℕ) (id : Text) (rows : List (Command N)) (s : table.Store)
      → table.find_one id (sweep_rows now rows s) ≡ (
          let found = find_first (λ (c : Command N). text_eq c.id id) rows in
          elim found as (λ _. Option (Command N)) [
            | none ↦ table.find_one id s
            | some c ↦ some (swept now c)
          ])
  unfolding sweep_rows
  find_one-sweep_rows now id [] s = refl
  find_one-sweep_rows now id (c ∷ rows) s =
      let rest = sweep_rows now rows s in
      let saved = table.find_one-save id (swept now c) rest in
      elim (Bool-cases (text_eq c.id id)) [
        | inl e ↦ rw e (saved ∙ rw (swept-id now c, e) refl)
        | inr e ↦ rw e (saved ∙ rw (swept-id now c, e) (find_one-sweep_rows now id rows s))
      ]

  -- After the sweep at start-up no command is pending: each command that was is closed as timed out at the
  -- time of the sweep, each other one is as it was, and no command is lost or new.
  pub find_one-sweep :
      (now : ℕ) (id : Text) (s : History N table)
      → ((table.find_one id s.commands ≡ none) × (table.find_one id (sweep now s).commands ≡ none))
        ⊎ ((before : Command N) × (after : Command N) × (table.find_one id s.commands ≡ some before)
            × (table.find_one id (sweep now s).commands ≡ some after)
            × IsSwept now before after
            × (after.status ≢ pending))
  unfolding sweep
  find_one-sweep now id s =
      let found = sym (table.find_one-rows id s.commands) in
      let swept_of : Option (Command N) → Option (Command N) = λ o.
        elim o as (λ _. Option (Command N)) [
          | none ↦ table.find_one id s.commands
          | some c ↦ some (swept now c)
        ] in
      let after =
        find_one-sweep_rows now id (table.rows s.commands) s.commands ∙ ap swept_of found in
      elim (Option-cases (table.find_one id s.commands)) [
        | inl e ↦ inl (e, after ∙ ap swept_of e ∙ e)
        | inr (c, e) ↦
            inr (c, swept now c, e, after ∙ ap swept_of e, swept-IsSwept now c, swept-closed now c)
      ]
