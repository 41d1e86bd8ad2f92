-- ===== src/Identity/Service/Accounts.antt =====
-- identity.service.ts, account administration: `createUser`, `updateUser` and the passwords.
pub mod Admins
pub mod Sessions
use senior_io_t_platform_arc.Prelude.{
  ℕ, ◌+◌, Bool, true, false, not, ◌&&◌, ◌||◌, count, find_first, if◌then◌else◌, leb, Option, none,
  some, or_else, is_some, Text, text_eq, Result, ok, err,
}
use senior_io_t_platform_arc.Prelude.Dict.{delete}
use senior_io_t_platform_arc.Platform.Permissions.{Role, admin, role_text}
use senior_io_t_platform_arc.Platform.Catalog.{
  security_user_created, security_user_updated, security_password_changed,
}
use senior_io_t_platform_arc.Platform.Events.{
  user_created, user_updated, password_changed, PasswordBy, RoleChange,
}
use senior_io_t_platform_arc.Identity.Users.{
  User, is_admin, role_eq, is_active_admin, AuthResult, UserView, to_user_view, Services,
}
use senior_io_t_platform_arc.Identity.Service.{
  IdentityError, email_taken, user_not_found, last_active_admin, wrong_password, UserChange,
  IdentityState, publish, find_by_email, issue_token,
}

-- `change.role !== undefined && change.role !== user.role`, as the change to announce.
role_change : Option Role → User → Option RoleChange
role_change none user = none
role_change (some r) user =
    if role_eq r user.role
    then none
    else some (record { from = role_text user.role; to = role_text r })

bool_eq : Bool → Bool → Bool
bool_eq true b = b
bool_eq false b = not b

-- `change.disabled !== undefined && change.disabled !== Boolean(user.disabledAt)`.
disabled_change : Option Bool → User → Option Bool
unfolding bool_eq
disabled_change none user = none
disabled_change (some b) user = if bool_eq b (is_some user.disabled_at) then none else some b

with_role : Option RoleChange → Role → User → User
with_role none r user = user
with_role (some c) r user = record user { role = r }

with_disabled : ℕ → Option Bool → User → User
with_disabled now none user = user
with_disabled now (some true) user = record user {
  disabled_at = some now;
  token_version = user.token_version + 1;
}
with_disabled now (some false) user = record user { disabled_at = none }

-- The row after a change, and whether it would cost an active admin.
abbrev next_role : UserChange → User → Role
next_role change user = or_else change.role user.role

unfoldable pub next_user : ℕ → UserChange → User → User
unfolding with_role with_disabled role_change disabled_change
next_user now change user =
    with_disabled now (disabled_change change.disabled user)
      (with_role (role_change change.role user) (next_role change user) user)

abbrev stays_active_admin : UserChange → User → Bool
stays_active_admin change user =
    is_admin (next_role change user) && not (or_else change.disabled (is_some user.disabled_at))

module _ (d : Services) where
  open d use {Number, table, hash, compare}

  pub create_user :
      Text
      → ℕ
      → ℕ
      → Text
      → Text
      → Role
      → Option Text
      → IdentityState d
      → Result IdentityError UserView × IdentityState d
  create_user new_id salt now email password role actor s =
      let user : User = record {
        id = new_id;
        email = email;
        password_hash = hash salt password;
        role = role;
        disabled_at = none;
        token_version = 0;
        created_at = now;
      } in
      if is_some (find_by_email d email s.users) then (err email_taken, s) else (
        ok (to_user_view user),
        publish d security_user_created (user_created new_id email (role_text role) actor)
            (record s { users = table.save user s.users }),
      )

  announce_update :
      Text
      → Text
      → Option RoleChange
      → Option Bool
      → Option Text
      → IdentityState d
      → IdentityState d
  announce_update id email role disabled actor s =
      if is_some role || is_some disabled
      then publish d security_user_updated (user_updated id email role disabled actor) s
      else s

  -- `updateUser`, once the account is found. Nothing is saved if nothing changes.
  apply_update :
      ℕ
      → User
      → UserChange
      → Option Text
      → IdentityState d
      → Result IdentityError UserView × IdentityState d
  unfolding announce_update next_user
  apply_update now user change actor s =
      let role = role_change change.role user in
      let disabled = disabled_change change.disabled user in
      let updated = next_user now change user in
      let saved =
        if is_some role || is_some disabled
        then record s { users = table.save updated s.users }
        else s in
      if is_active_admin user
        && not (stays_active_admin change user)
        && leb (count is_active_admin (table.rows s.users)) 1
      then (err last_active_admin, s)
      else (
        ok (to_user_view updated),
        announce_update user.id user.email role disabled actor
            (record saved { state_cache = delete user.id s.state_cache }),
      )

  unfoldable pub update_user :
      ℕ
      → Text
      → UserChange
      → Option Text
      → IdentityState d
      → Result IdentityError UserView × IdentityState d
  unfolding apply_update
  update_user now id change actor s =
      elim (find_first (λ u. text_eq u.id id) (table.rows s.users)) [
        | none ↦ (err user_not_found, s)
        | some user ↦ apply_update now user change actor s
      ]

  abbrev pub with_password : ℕ → Text → User → User
  with_password salt password user = record user {
    password_hash = hash salt password;
    token_version = user.token_version + 1;
  }

  -- `applyPassword` of a row that was read. The save writes the row as it was read: other calls can
  -- run while the password is hashed.
  unfoldable pub apply_password :
      ℕ → User → Text → PasswordBy → Option Text → IdentityState d → IdentityState d
  apply_password salt user password changed_by actor s =
      publish d security_password_changed (password_changed user.id user.email changed_by actor)
        (record s {
          users = table.save (with_password salt password user) s.users;
          state_cache = delete user.id s.state_cache;
        })

  -- `resetPassword`, where no other call runs between the read and the save.
  pub reset_password :
      ℕ
      → Text
      → Text
      → Option Text
      → IdentityState d
      → Result IdentityError (Unit {0}) × IdentityState d
  unfolding apply_password
  reset_password salt id password actor s = elim (table.find_one id s.users) [
    | none ↦ (err user_not_found, s)
    | some user ↦ (ok tt, apply_password salt user password PasswordBy.admin actor s)
  ]

  change_password_of :
      ℕ
      → Text
      → Text
      → Text
      → Option User
      → IdentityState d
      → Result IdentityError AuthResult × IdentityState d
  unfolding apply_password issue_token
  change_password_of salt id current next none s = (err wrong_password, s)
  change_password_of salt id current next (some user) s =
      if is_some user.disabled_at || not (compare current user.password_hash)
      then (err wrong_password, s)
      else (
        ok (issue_token d (with_password salt next user)),
        apply_password salt user next PasswordBy.self (some id) s,
      )

  -- `changeOwnPassword`, where no other call runs between the read and the save.
  pub change_own_password :
      ℕ → Text → Text → Text → IdentityState d → Result IdentityError AuthResult × IdentityState d
  unfolding change_password_of
  change_own_password salt id current next s =
      change_password_of salt id current next (table.find_one id s.users) s
