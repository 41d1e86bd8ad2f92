-- ===== src/Identity/Tests.antt =====
-- Inputs for apps/backend/src/identity.
use senior_io_t_platform_arc.Prelude.{
  ℕ, ◌≤◌, ◌≡◌, refl, true, false, [], ◌∷◌, Option, none, some, Text, units, text_eq, text_eq_refl,
  starts_with, ok, err, arith, if◌then◌else◌, find_first,
}
use senior_io_t_platform_arc.Prelude.Dict.{get, set}
use senior_io_t_platform_arc.Prelude.Table.{list_table}
use senior_io_t_platform_arc.Platform.Permissions.{
  users_manage, admin, operator, viewer, role_text, role_has_permission,
}
use senior_io_t_platform_arc.Platform.Events.{PasswordBy}
use senior_io_t_platform_arc.Identity.Users.{
  User, user_key, JwtPayload, UserView, Services, to_user_view,
}
use senior_io_t_platform_arc.Identity.Service.{IdentityState, UserChange, get_active_user}
use senior_io_t_platform_arc.Identity.Service.Accounts.{update_user, reset_password, apply_password}
use senior_io_t_platform_arc.Identity.Service.Accounts.Admins.{
  Reach, Step, active_admins, Reach-active_admins,
}
use senior_io_t_platform_arc.Identity.Guards.{
  Route, account_gone, session_revoked, missing_permission, extract_token, enter,
  permissions_can_activate,
}
use senior_io_t_platform_arc.Identity.Guards.Access.{Passes, enter-Passes}
use senior_io_t_platform_arc.Identity.Guards.Revocation.{
  reset_password-revokes, update_user-disables, update_user-new_role,
}

-- A hash is the password, and a signature the account's id.
abbrev plain : Services
plain = record {
  Number = ℕ;
  table = list_table user_key;
  hash = λ salt password. password;
  compare = text_eq;
  sha256 = λ s. s;
  sign = λ claims. claims.sub;
  lower = λ s. s;
  compare-hash = λ salt password. text_eq_refl password;
}

abbrev root : User
root = record {
  id = units "u1";
  email = units "root@x";
  password_hash = units "pw";
  role = admin;
  disabled_at = none;
  token_version = 2;
  created_at = 1;
}

abbrev bob : User
bob = record {
  id = units "u2";
  email = units "bob@x";
  password_hash = units "pw";
  role = operator;
  disabled_at = none;
  token_version = 0;
  created_at = 2;
}

abbrev state : IdentityState plain
state = record {
  users = root ∷ bob ∷ [];
  state_cache = [];
  throttle = record { by_account = []; by_address = [] };
  published = [];
}

abbrev claims : JwtPayload
claims = record { sub = units "u1"; email = units "root@x"; role = units "admin"; tv = some 2 }

abbrev bobs : JwtPayload
bobs = record { sub = units "u2"; email = units "bob@x"; role = units "operator"; tv = none }

abbrev verify : Text → Option JwtPayload
verify token = if text_eq token (units "t") then some claims else none

abbrev users_route : Route
users_route = record {
  is_public = false;
  any_authenticated = false;
  permission = some users_manage;
}

abbrev disable : UserChange
disable = record { role = none; disabled = some true }

abbrev demote : UserChange
demote = record { role = some viewer; disabled = none }

-- The first call is refused, since no other admin would be left; the second one disables an operator.
-- Then the change of the admin's password, which read the account before both, saves it.
abbrev two_calls : IdentityState plain
two_calls =
    (update_user plain 8 (units "u2") disable none
      (update_user plain 7 (units "u1") disable none state).1).1

still_root : find_first (λ u. text_eq u.id (units "u1")) two_calls.users ≡ some root
unfolding update_user text_eq
still_root = refl

Reach-active_admins_example :
    1
    ≤ active_admins plain
        (apply_password plain 3 root (units "new") PasswordBy.self (some (units "u1")) two_calls)
Reach-active_admins_example =
    Reach-active_admins plain
      (Reach.next
        (Reach.next (Reach.next Reach.here (Step.updates 7 (units "u1") disable none))
          (Step.updates 8 (units "u2") disable none))
        (Step.saves_password 3 root root (units "new") PasswordBy.self (some (units "u1"))
          still_root refl))
      (ground arith)

-- A password is reset for a disabled admin; while it is hashed, the account is enabled and the other
-- admin disabled. The save writes the row as it was read: no active admin is left.
abbrev old_admin : User
old_admin = record root { id = units "u0"; email = units "old@x"; disabled_at = some 1 }

abbrev enable : UserChange
enable = record { role = none; disabled = some false }

abbrev exchanged : IdentityState plain
exchanged =
    (update_user plain 8 (units "u1") disable none
      (update_user plain 7 (units "u0") enable none
        (record state { users = old_admin ∷ root ∷ [] })).1).1

exchanged_test : active_admins plain exchanged ≡ 1
unfolding update_user text_eq
exchanged_test = refl

stale_save_test :
    active_admins plain (
      apply_password plain 3 old_admin (units "new") PasswordBy.admin (some (units "u1")) exchanged)
    ≡ 0
unfolding update_user apply_password text_eq
stale_save_test = refl

enters :
    (enter plain verify 9 users_route (some (units "Bearer t")) state).0
    ≡ ok (some (record claims { role = units "admin" }))
unfolding enter text_eq starts_with get set role_text role_has_permission get_active_user
enters = refl

enter-Passes_example :
    (seen : JwtPayload) × (u : User) × (verify (extract_token (some (units "Bearer t")))
      ≡ some seen)
    × ((get_active_user plain 9 seen.sub state).0 ≡ some u)
    × Passes seen u users_route
    × (record claims { role = units "admin" } ≡ record seen { role = role_text u.role })
enter-Passes_example =
    enter-Passes plain verify 9 users_route (some (units "Bearer t")) state
      (record claims { role = units "admin" }) refl enters

reset_password-revokes_example :
    (permissions_can_activate plain 9 users_route
      (some claims)
      (reset_password plain 3 (units "u1") (units "new") none state).1).0
    ≡ err session_revoked
unfolding text_eq
reset_password-revokes_example =
    reset_password-revokes plain 9 users_route claims 3 (units "new") none state root refl refl
      (ground arith)

abbrev disabled_bob : UserView
disabled_bob = record {
  id = units "u2";
  email = units "bob@x";
  role = operator;
  disabled = true;
  created_at = 2;
}

abbrev demoted_bob : UserView
demoted_bob = record {
  id = units "u2";
  email = units "bob@x";
  role = viewer;
  disabled = false;
  created_at = 2;
}

disables : (update_user plain 7 (units "u2") disable none state).0 ≡ ok disabled_bob
unfolding update_user text_eq to_user_view
disables = refl

demotes : (update_user plain 7 (units "u2") demote none state).0 ≡ ok demoted_bob
unfolding update_user text_eq to_user_view
demotes = refl

update_user-disables_example :
    (permissions_can_activate plain 9 users_route
      (some bobs)
      (update_user plain 7 (units "u2") disable none state).1).0
    ≡ err account_gone
unfolding text_eq
update_user-disables_example =
    update_user-disables plain 9 users_route bobs 7 disable none state bob disabled_bob refl refl
      refl disables

update_user-new_role_example :
    (permissions_can_activate plain 9 users_route
      (some bobs)
      (update_user plain 7 (units "u2") demote none state).1).0
    ≡ (if role_has_permission (role_text viewer) users_manage
        then ok (some (record bobs { role = role_text viewer }))
        else err missing_permission)
unfolding text_eq
update_user-new_role_example =
    update_user-new_role plain 9 users_route bobs 7 demote none state bob demoted_bob viewer
      users_manage refl refl refl refl refl refl refl refl demotes
