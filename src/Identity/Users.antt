-- ===== src/Identity/Users.antt =====
-- apps/backend/src/identity/user.entity.ts, and the data of identity.service.ts.
use senior_io_t_platform_arc.Prelude.{ℕ, ◌≡◌, Bool, true, false, ◌&&◌, not, Option, Text, is_some}
use senior_io_t_platform_arc.Prelude.Table.{Table}
use senior_io_t_platform_arc.Platform.Permissions.{Role, admin, operator, viewer}

pub record User : Type 0 where
  pub id : Text
  pub email : Text
  pub password_hash : Text
  pub role : Role
  pub disabled_at : Option ℕ
  pub token_version : ℕ
  pub created_at : ℕ

abbrev pub user_key : User → Text
user_key u = u.id

abbrev pub is_admin : Role → Bool
is_admin admin = true
is_admin _ = false

abbrev pub role_eq : Role → Role → Bool
role_eq admin admin = true
role_eq operator operator = true
role_eq viewer viewer = true
role_eq _ _ = false

-- `user.role === "admin" && !user.disabledAt`.
abbrev pub is_active_admin : User → Bool
is_active_admin u = is_admin u.role && not (is_some u.disabled_at)

pub record JwtPayload : Type 0 where
  pub sub : Text
  pub email : Text
  pub role : Text
  pub tv : Option ℕ

pub record AuthResult : Type 0 where
  pub access_token : Text
  pub id : Text
  pub email : Text
  pub role : Text

pub record UserView : Type 0 where
  pub id : Text
  pub email : Text
  pub role : Role
  pub disabled : Bool
  pub created_at : ℕ

unfoldable pub to_user_view : User → UserView
to_user_view u = record {
  id = u.id;
  email = u.email;
  role = u.role;
  disabled = is_some u.disabled_at;
  created_at = u.created_at;
}

-- What the service calls and this repository does not implement: the database table, password
-- hashing with a salt, the digest, signing of tokens and its numbers.
pub record Services : Type 1 where
  pub Number : Type 0
  pub table : Table user_key
  pub hash : ℕ → Text → Text
  pub compare : Text → Text → Bool
  pub sha256 : Text → Text
  pub sign : JwtPayload → Text
  pub lower : Text → Text
  -- A hash matches the password that it was made of.
  pub compare-hash : (salt : ℕ) (password : Text) → compare password (hash salt password) ≡ true
