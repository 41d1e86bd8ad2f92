-- ===== src/Identity/Guards/Revocation.antt =====
-- permissions.guard.ts after identity.service.ts: resets, disabling and demotions bind the next request.
use senior_io_t_platform_arc.Prelude.{
  ℕ, ◌≤◌, ◌≡◌, ap, ◌∙◌, true, false, if◌then◌else◌, Option, none, some, or_else, is_some, Text,
  Result, ok, err, arith, if_false,
}
use senior_io_t_platform_arc.Platform.Permissions.{Permission, Role, role_text, role_has_permission}
use senior_io_t_platform_arc.Identity.Users.{User, JwtPayload, Services, UserView}
use senior_io_t_platform_arc.Identity.Service.{IdentityState, UserChange, get_active_user, active}
use senior_io_t_platform_arc.Identity.Service.Accounts.{
  next_user, update_user, reset_password, with_password,
}
use senior_io_t_platform_arc.Identity.Service.Accounts.Sessions.{
  reset_password-user, update_user-user,
}
use senior_io_t_platform_arc.Identity.Guards.{
  Route, Refusal, account_gone, session_revoked, missing_permission, permissions_can_activate,
  check_account,
}

module _ (d : Services) (now : ℕ) (route : Route) (claims : JwtPayload) where
  open d use {table}

  -- What the guard decides on, for a route that is not public.
  decided :
      (s : IdentityState d) (account : Option User)
      → route.is_public ≡ false
      → (get_active_user d now claims.sub s).0 ≡ account
      → (permissions_can_activate d now route (some claims) s).0
        ≡ check_account route claims account
  unfolding permissions_can_activate
  decided s account closed e =
      ap (λ (r : Result Refusal (Option JwtPayload) × IdentityState d). r.0) (if_false _ _ closed)
      ∙ ap (check_account route claims) e

  old_version :
      (salt : ℕ) (password : Text) (u : User)
      → or_else claims.tv 0 ≤ u.token_version
      → check_account route claims (active (some (with_password d salt password u)))
        ≡ err (if is_some u.disabled_at then account_gone else session_revoked)
  unfolding check_account
  old_version salt password u h = ground arith

  -- Once a password has been reset, a token of its account with the version of before, or an older
  -- one, is refused on every route that is not public: as revoked, or the account as gone if it is
  -- disabled.
  pub reset_password-revokes :
      (salt : ℕ) (password : Text) (actor : Option Text) (s : IdentityState d) (u : User)
      → route.is_public ≡ false
      → table.find_one claims.sub s.users ≡ some u
      → or_else claims.tv 0 ≤ u.token_version
      → (permissions_can_activate d now route
          (some claims)
          (reset_password d salt claims.sub password actor s).1).0
        ≡ err (if is_some u.disabled_at then account_gone else session_revoked)
  reset_password-revokes salt password actor s u closed e old =
      decided _ _ closed (reset_password-user d salt now claims.sub password actor s u e)
      ∙ old_version salt password u old

  disabled_user :
      (changed : ℕ) (change : UserChange) (u : User)
      → change.disabled ≡ some true
      → active (some (next_user changed change u)) ≡ none
  unfolding next_user
  disabled_user changed change u h = ground arith

  -- Once an update that disables an account has succeeded, its tokens are refused on every route that
  -- is not public.
  pub update_user-disables :
      (changed : ℕ) (change : UserChange) (actor : Option Text) (s : IdentityState d) (u : User)
      (view : UserView)
      → route.is_public ≡ false
      → table.find_one claims.sub s.users ≡ some u
      → change.disabled ≡ some true
      → (update_user d changed claims.sub change actor s).0 ≡ ok view
      → (permissions_can_activate d now route
          (some claims)
          (update_user d changed claims.sub change actor s).1).0
        ≡ err account_gone
  unfolding check_account
  update_user-disables changed change actor s u view closed e off h = decided _ none closed (
      update_user-user d changed now claims.sub change actor s u view e h
      ∙ disabled_user changed change u off)

  demoted :
      (changed : ℕ) (change : UserChange) (u : User) (r : Role) (p : Permission)
      → change.role ≡ some r
      → change.disabled ≡ none
      → u.disabled_at ≡ none
      → or_else claims.tv 0 ≡ u.token_version
      → route.any_authenticated ≡ false
      → route.permission ≡ some p
      → check_account route claims (active (some (next_user changed change u))) ≡ (
          if role_has_permission (role_text r) p
          then ok (some (record claims { role = role_text r }))
          else err missing_permission)
  unfolding check_account next_user
  demoted changed change u r p hr hd hu hv ha hp = ground arith

  -- Once an update of the role alone has succeeded on an enabled account, a request with a token of
  -- the account's version, on a route that asks for a permission and is not public, passes exactly if
  -- the new role has the permission, whatever role the token says, and then carries the new role.
  pub update_user-new_role :
      (changed : ℕ) (change : UserChange) (actor : Option Text) (s : IdentityState d) (u : User)
      (view : UserView) (r : Role) (p : Permission)
      → route.is_public ≡ false
      → route.any_authenticated ≡ false
      → route.permission ≡ some p
      → table.find_one claims.sub s.users ≡ some u
      → u.disabled_at ≡ none
      → or_else claims.tv 0 ≡ u.token_version
      → change.role ≡ some r
      → change.disabled ≡ none
      → (update_user d changed claims.sub change actor s).0 ≡ ok view
      → (permissions_can_activate d now route
          (some claims)
          (update_user d changed claims.sub change actor s).1).0
        ≡ (if role_has_permission (role_text r) p
            then ok (some (record claims { role = role_text r }))
            else err missing_permission)
  update_user-new_role changed change actor s u view r p closed ha hp e hu hv hr hd h =
      decided _ _ closed (update_user-user d changed now claims.sub change actor s u view e h)
      ∙ demoted changed change u r p hr hd hu hv ha hp
