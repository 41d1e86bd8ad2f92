-- ===== src/Identity/Service/Accounts/Admins.antt =====
-- identity.service.ts: the accounts that can administer the platform.
use senior_io_t_platform_arc.Prelude.{
  ℕ, Bool, true, not, ◌||◌, ◌≤◌, ◌≡◌, refl, sym, ap, ◌∙◌, count, find_first, Option, none, some,
  Text, arith, text_eq, text_eq_iff, Option-cases, inl, inr, find_first-holds, count-le-length,
}
use senior_io_t_platform_arc.Prelude.Table.{count-save_put}
use senior_io_t_platform_arc.Platform.Permissions.{Role}
use senior_io_t_platform_arc.Platform.Events.{PasswordBy}
use senior_io_t_platform_arc.Identity.Users.{User, user_key, is_active_admin, Services}
use senior_io_t_platform_arc.Identity.Service.{
  UserChange, IdentityState, register, login, get_active_user,
}
use senior_io_t_platform_arc.Identity.Service.Accounts.{
  next_user, stays_active_admin, create_user, update_user, apply_update, reset_password,
  change_own_password, with_password, apply_password,
}

next_user-id : (now : ℕ) (change : UserChange) (u : User) → (next_user now change u).id ≡ u.id
unfolding next_user
next_user-id now change u = ground arith

next_user-is_active_admin :
    (now : ℕ) (change : UserChange) (u : User)
    → is_active_admin (next_user now change u) ≡ stays_active_admin change u
unfolding next_user
next_user-is_active_admin now change u = ground arith

module _ (d : Services) where
  open d use {table}

  -- How many accounts are enabled admins.
  abbrev pub active_admins : IdentityState d → ℕ
  active_admins s = count is_active_admin (table.rows s.users)

  -- A save of a row whose standing is that of the row it replaces.
  active_admins-save :
      (u old : User) (users : table.Store)
      → table.find_one u.id users ≡ some old
      → is_active_admin u ≡ is_active_admin old
      → count is_active_admin (table.rows (table.save u users))
        ≡ count is_active_admin (table.rows users)
  active_admins-save u old users e h =
      ground (arith, count-save_put user_key table is_active_admin u users)

  apply_update-active_admins :
      (now : ℕ) (u : User) (change : UserChange) (actor : Option Text) (s : IdentityState d)
      → table.find_one u.id s.users ≡ some u
      → 1 ≤ active_admins s
      → 1 ≤ active_admins (apply_update d now u change actor s).1
  unfolding apply_update
  apply_update-active_admins now u change actor s e h = ground (
    arith,
    next_user-is_active_admin now change u,
    next_user-id now change u,
    count-save_put user_key table is_active_admin (next_user now change u) s.users,
  )

  update_user-active_admins :
      (now : ℕ) (id : Text) (change : UserChange) (actor : Option Text) (s : IdentityState d)
      → 1 ≤ active_admins s
      → 1 ≤ active_admins (update_user d now id change actor s).1
  unfolding update_user
  update_user-active_admins now id change actor s h =
      elim (Option-cases (find_first (λ u. text_eq u.id id) (table.rows s.users))) [
        | inl e ↦ rw (e, update_user) h
        | inr (u, e) ↦
            rw (e, update_user) (apply_update-active_admins now u change actor s (stored u e) h)
      ]
    where
      stored :
          (u : User)
          → find_first (λ u. text_eq u.id id) (table.rows s.users) ≡ some u
          → table.find_one u.id s.users ≡ some u
      stored u e =
          let named =
            (text_eq_iff u.id id).0
              (find_first-holds (λ u. text_eq u.id id) (table.rows s.users) u e) in
          ap (λ (k : Text). table.find_one k s.users) named ∙ table.find_one-rows id s.users ∙ e

  create_user-active_admins :
      (new_id : Text) (salt now : ℕ) (email password : Text) (role : Role) (actor : Option Text)
      (s : IdentityState d)
      → table.find_one new_id s.users ≡ none
      → 1 ≤ active_admins s
      → 1 ≤ active_admins (create_user d new_id salt now email password role actor s).1
  unfolding create_user
  create_user-active_admins new_id salt now email password role actor s fresh h = ground (
    arith,
    count-save_put user_key table is_active_admin
        (record {
          id = new_id;
          email = email;
          password_hash = d.hash salt password;
          role = role;
          disabled_at = none;
          token_version = 0;
          created_at = now;
        })
        s.users,
  )

  apply_password-active_admins :
      (salt : ℕ) (u : User) (password : Text) (changed_by : PasswordBy) (actor : Option Text)
      (s : IdentityState d)
      → table.find_one u.id s.users ≡ some u
      → active_admins (apply_password d salt u password changed_by actor s) ≡ active_admins s
  unfolding apply_password
  apply_password-active_admins salt u password changed_by actor s e =
      active_admins-save (with_password d salt password u) u s.users e refl

  -- A save of the row as it was read does not take a standing as an active admin away.
  abbrev pub keeps_standing : User → User → Bool
  keeps_standing read current = not (is_active_admin current) || is_active_admin read

  stale_password-active_admins :
      (salt : ℕ) (read current : User) (password : Text) (changed_by : PasswordBy)
      (actor : Option Text) (s : IdentityState d)
      → table.find_one read.id s.users ≡ some current
      → keeps_standing read current ≡ true
      → 1 ≤ active_admins s
      → 1 ≤ active_admins (apply_password d salt read password changed_by actor s)
  unfolding apply_password
  stale_password-active_admins salt read current password changed_by actor s e k h = ground (
    arith,
    count-save_put user_key table is_active_admin (with_password d salt password read) s.users,
  )

  find_one-id :
      (id : Text) (users : table.Store) (u : User)
      → table.find_one id users ≡ some u
      → table.find_one u.id users ≡ some u
  find_one-id id users u e =
      let found = sym (table.find_one-rows id users) ∙ e in
      let named =
        (text_eq_iff u.id id).0
          (find_first-holds (λ u. text_eq u.id id) (table.rows users) u found) in
      ap (λ (k : Text). table.find_one k users) named ∙ e

  reset_password-active_admins :
      (salt : ℕ) (id password : Text) (actor : Option Text) (s : IdentityState d)
      → active_admins (reset_password d salt id password actor s).1 ≡ active_admins s
  unfolding reset_password
  reset_password-active_admins salt id password actor s =
      elim (Option-cases (table.find_one id s.users)) [
        | inl e ↦ rw (e, reset_password)
        | inr (u, e) ↦
            rw (e, reset_password)
              (apply_password-active_admins salt u password PasswordBy.admin actor s
                (find_one-id id s.users u e))
      ]

  change_own_password-active_admins :
      (salt : ℕ) (id current next : Text) (s : IdentityState d)
      → active_admins (change_own_password d salt id current next s).1 ≡ active_admins s
  unfolding change_own_password
  change_own_password-active_admins salt id current next s =
      elim (Option-cases (table.find_one id s.users)) [
        | inl e ↦ rw (e, change_own_password)
        | inr (u, e) ↦
            rw (e, change_own_password)
              (ground (
                arith,
                apply_password-active_admins salt u next PasswordBy.self (some id) s
                    (find_one-id id s.users u e),
              ))
      ]

  register-active_admins :
      (configured : Option Text) (new_id : Text) (salt now : ℕ) (email password : Text)
      (presented : Option Text) (s : IdentityState d)
      → 1 ≤ active_admins s
      → 1 ≤ active_admins (register d configured new_id salt now email password presented s).1
  unfolding register
  register-active_admins configured new_id salt now email password presented s h =
      ground (arith, count-le-length is_active_admin (table.rows s.users))

  users-login :
      (now : ℕ) (email password client : Text) (s : IdentityState d)
      → (login d now email password client s).1.users ≡ s.users
  unfolding login
  users-login now email password client s = ground arith

  users-get_active_user :
      (now : ℕ) (id : Text) (s : IdentityState d) → (get_active_user d now id s).1.users ≡ s.users
  unfolding get_active_user
  users-get_active_user now id s = ground arith

  -- One call of the service, or the save of a new password by a call that read the account earlier, with
  -- other calls since. A created account gets an id that no account has. An account that became an active
  -- admin since it was read is not saved as it was: the code does not see to this.
  pub data Step (s : IdentityState d) : IdentityState d → Type 0 where
    registers :
        (configured : Option Text) (new_id : Text) (salt now : ℕ) (email password : Text)
        (presented : Option Text)
        → Step s (register d configured new_id salt now email password presented s).1
    logs_in :
        (now : ℕ) (email password client : Text) → Step s (login d now email password client s).1
    is_authorized : (now : ℕ) (id : Text) → Step s (get_active_user d now id s).1
    creates :
        (new_id : Text) (salt now : ℕ) (email password : Text) (role : Role) (actor : Option Text)
        → table.find_one new_id s.users ≡ none
        → Step s (create_user d new_id salt now email password role actor s).1
    updates :
        (now : ℕ) (id : Text) (change : UserChange) (actor : Option Text)
        → Step s (update_user d now id change actor s).1
    resets :
        (salt : ℕ) (id password : Text) (actor : Option Text)
        → Step s (reset_password d salt id password actor s).1
    changes :
        (salt : ℕ) (id current next : Text)
        → Step s (change_own_password d salt id current next s).1
    saves_password :
        (salt : ℕ) (read current : User) (password : Text) (changed_by : PasswordBy)
        (actor : Option Text)
        → table.find_one read.id s.users ≡ some current
        → keeps_standing read current ≡ true
        → Step s (apply_password d salt read password changed_by actor s)

  pub data Reach (s : IdentityState d) : IdentityState d → Type 0 where
    here : Reach s s
    next : {t u : IdentityState d} → Reach s t → Step t u → Reach s u

  Step-active_admins :
      {s t : IdentityState d} → Step s t → 1 ≤ active_admins s → 1 ≤ active_admins t
  Step-active_admins {s} (registers configured new_id salt now email password presented) h =
      register-active_admins configured new_id salt now email password presented s h
  Step-active_admins {s} (logs_in now email password client) h =
      rw (users-login now email password client s) h
  Step-active_admins {s} (is_authorized now id) h = rw (users-get_active_user now id s) h
  Step-active_admins {s} (creates new_id salt now email password role actor fresh) h =
      create_user-active_admins new_id salt now email password role actor s fresh h
  Step-active_admins {s} (updates now id change actor) h =
      update_user-active_admins now id change actor s h
  Step-active_admins {s} (resets salt id password actor) h =
      rw (reset_password-active_admins salt id password actor s) h
  Step-active_admins {s} (changes salt id current new_password) h =
      rw (change_own_password-active_admins salt id current new_password s) h
  Step-active_admins {s} (saves_password salt read current password changed_by actor e k) h =
      stale_password-active_admins salt read current password changed_by actor s e k h

  -- From a state with an enabled admin, no sequence of steps reaches one without. A step is a call of the
  -- service, or the save that ends a change of a password, of an account as it was read some steps before.
  -- The conditions: each created account has an id that was not in use, and no account that has become an
  -- active admin since its read is saved as it was before.
  pub Reach-active_admins :
      {s t : IdentityState d} → Reach s t → 1 ≤ active_admins s → 1 ≤ active_admins t
  Reach-active_admins here h = h
  Reach-active_admins (next r st) h = Step-active_admins st (Reach-active_admins r h)
