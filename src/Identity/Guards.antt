-- ===== src/Identity/Guards.antt =====
-- apps/backend/src/identity/jwt-auth.guard.ts and permissions.guard.ts, the two global guards, and the
-- route annotations of apps/backend/src/platform/auth/decorators.ts. Verifying a token's signature is
-- the parameter `verify`.
pub mod Access
pub mod Revocation
use senior_io_t_platform_arc.Prelude.{
  ℕ, Bool, ◌==◌, [], if◌then◌else◌, is_nil, drop, Option, none, some, or_else, Text, units,
  starts_with, Result, ok, err, ◌>>=◌,
}
use senior_io_t_platform_arc.Platform.Permissions.{Permission, role_text, role_has_permission}
use senior_io_t_platform_arc.Identity.Users.{User, JwtPayload, Services}
use senior_io_t_platform_arc.Identity.Service.{IdentityState, get_active_user}

-- The annotations of a route, the handler's before the controller's.
pub record Route : Type 0 where
  pub is_public : Bool
  pub any_authenticated : Bool
  pub permission : Option Permission

pub data Refusal : Type 0 where
  missing_token invalid_token not_authenticated account_gone session_revoked : Refusal
  no_permission_declared missing_permission : Refusal

-- A header `Bearer <token>`.
pub extract_token : Option Text → Text
extract_token none = []
extract_token (some header) = if starts_with (units "Bearer ") header then drop 7 header else []

verified : Option JwtPayload → Result Refusal (Option JwtPayload)
verified none = err invalid_token
verified (some claims) = ok (some claims)

-- `JwtAuthGuard.canActivate`: the claims that the request carries from then on.
pub jwt_can_activate :
    (Text → Option JwtPayload) → Route → Option Text → Result Refusal (Option JwtPayload)
unfolding extract_token verified
jwt_can_activate verify route authorization =
    if route.is_public
    then ok none
    else (if is_nil (extract_token authorization)
        then err missing_token
        else verified (verify (extract_token authorization)))

-- `PermissionsGuard.canActivate` from the annotations on, for a live account: the claims with its
-- current role.
check_route : Route → JwtPayload → User → Result Refusal (Option JwtPayload)
check_route route claims account =
    let live = record claims { role = role_text account.role } in
    if route.any_authenticated then ok (some live) else elim route.permission [
      | none ↦ err no_permission_declared
      | some required ↦
          if role_has_permission (role_text account.role) required
          then ok (some live)
          else err missing_permission
    ]

check_account : Route → JwtPayload → Option User → Result Refusal (Option JwtPayload)
unfolding check_route
check_account route claims none = err account_gone
check_account route claims (some account) =
    if or_else claims.tv 0 == account.token_version
    then check_route route claims account
    else err session_revoked

module _ (d : Services) where
  permissions_of :
      ℕ
      → Route
      → Option JwtPayload
      → IdentityState d
      → Result Refusal (Option JwtPayload) × IdentityState d
  unfolding check_account
  permissions_of now route none s = (err not_authenticated, s)
  permissions_of now route (some claims) s =
      let (account, seen) = get_active_user d now claims.sub s in
      (check_account route claims account, seen)

  pub permissions_can_activate :
      ℕ
      → Route
      → Option JwtPayload
      → IdentityState d
      → Result Refusal (Option JwtPayload) × IdentityState d
  unfolding permissions_of
  permissions_can_activate now route claims s =
      if route.is_public then (ok claims, s) else permissions_of now route claims s

  -- Both guards, in the order in which the module registers them.
  unfoldable pub enter :
      (Text → Option JwtPayload)
      → ℕ
      → Route
      → Option Text
      → IdentityState d
      → Result Refusal (Option JwtPayload) × IdentityState d
  unfolding jwt_can_activate permissions_can_activate
  enter verify now route authorization s = elim (jwt_can_activate verify route authorization) [
    | ok claims ↦ permissions_can_activate now route claims s
    | err refusal ↦ (err refusal, s)
  ]
