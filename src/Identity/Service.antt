-- ===== src/Identity/Service.antt =====
-- apps/backend/src/identity/identity.service.ts. A method takes the state, the time and what the
-- database generates, and returns its result or error and the new state; a transaction is one
-- method's run, since the advisory lock admits one at a time. Events go to the list `published`.
pub mod Accounts
pub mod Bootstrap
use senior_io_t_platform_arc.Prelude.{
  ℕ, ◌-◌, Bool, not, ◌&&◌, ◌||◌, List, [], ◌∷◌, ◌++◌, map, find_first, sort_by, if◌then◌else◌,
  is_nil, ltb, leb, length, Option, none, some, or_else, is_some, Text, text_eq, Result, ok, err,
}
use senior_io_t_platform_arc.Prelude.Dict.{Dict, get, set}
use senior_io_t_platform_arc.Platform.Permissions.{Role, admin, role_text}
use senior_io_t_platform_arc.Platform.Catalog.{
  EventType, security_user_created, security_login_succeeded, security_login_locked,
}
use senior_io_t_platform_arc.Platform.Events.{
  Payload, user_created, login_succeeded, login_locked, LockScope,
}
use senior_io_t_platform_arc.Platform.Events
use senior_io_t_platform_arc.Identity.Throttle.{
  LoginThrottle, assert_allowed, record_failure, record_success,
}
use senior_io_t_platform_arc.Identity.Users.{User, AuthResult, UserView, to_user_view, Services}

abbrev pub user_state_ttl_ms : ℕ
user_state_ttl_ms = 10000

pub data IdentityError : Type 0 where
  bootstrap_token_required registration_closed too_many_attempts : IdentityError
  invalid_credentials email_taken user_not_found last_active_admin wrong_password : IdentityError

pub record CacheEntry : Type 0 where
  pub user : Option User
  pub at : ℕ

pub record UserChange : Type 0 where
  pub role : Option Role
  pub disabled : Option Bool

-- `row && !row.disabledAt ? row : null`.
abbrev pub active : Option User → Option User
active none = none
active (some u) = if is_some u.disabled_at then none else some u

module _ (d : Services) where
  open d use {Number, table, hash, compare, sha256, sign, lower}

  pub record IdentityState : Type 0 where
    pub users : table.Store
    pub state_cache : Dict CacheEntry
    pub throttle : LoginThrottle
    pub published : List (EventType × Payload Number)

  abbrev publish : EventType → Payload Number → IdentityState → IdentityState
  publish type payload s = record s { published = s.published ++ (type, payload) ∷ [] }

  issue_token : User → AuthResult
  issue_token u = record {
    access_token = sign (record {
      sub = u.id;
      email = u.email;
      role = role_text u.role;
      tv = some u.token_version;
    });
    id = u.id;
    email = u.email;
    role = role_text u.role;
  }

  -- Does `assertBootstrapToken` pass, for the configured and the presented token?
  bootstrap_token_passes : Option Text → Option Text → Bool
  bootstrap_token_passes configured presented =
      is_nil (or_else configured [])
      || (not (is_nil (or_else presented []))
          && text_eq (sha256 (or_else configured [])) (sha256 (or_else presented [])))

  pub register :
      Option Text
      → Text
      → ℕ
      → ℕ
      → Text
      → Text
      → Option Text
      → IdentityState
      → Result IdentityError AuthResult × IdentityState
  unfolding issue_token bootstrap_token_passes
  register configured new_id salt now email password presented s =
      let user : User = record {
        id = new_id;
        email = email;
        password_hash = hash salt password;
        role = admin;
        disabled_at = none;
        token_version = 0;
        created_at = now;
      } in
      let stored = record s { users = table.save user s.users } in
      if not (bootstrap_token_passes configured presented)
      then (err bootstrap_token_required, s)
      else (if ltb 0 (length (table.rows s.users)) then (err registration_closed, s) else (
        ok (issue_token user),
        publish security_user_created (user_created new_id email (role_text admin) none) stored,
      ))

  -- `findOne({ where: { email } })`.
  abbrev find_by_email : Text → table.Store → Option User
  find_by_email email users = find_first (λ u. text_eq u.email email) (table.rows users)

  -- The account that may sign in with a password, if the password is right. For an unknown account
  -- the code compares with a dummy hash, for the time that it takes; it refuses either way.
  authenticate : Text → Option User → Option User
  authenticate password none = none
  authenticate password (some u) =
      if not (compare password u.password_hash) || is_some u.disabled_at then none else some u

  -- A lockout is announced by the failure that starts it.
  fail_login : ℕ → Text → Text → IdentityState → IdentityState
  fail_login now email client s =
      let (locked, throttle) = record_failure lower now email client s.throttle in
      let failed = record s { throttle = throttle } in
      let scope = if locked.account then LockScope.account else LockScope.address in
      if locked.account || locked.address
      then publish security_login_locked (login_locked scope email client) failed
      else failed

  complete_login :
      ℕ
      → Text
      → Text
      → Option User
      → IdentityState
      → Result IdentityError AuthResult × IdentityState
  unfolding issue_token fail_login
  complete_login now email client none s = (err invalid_credentials, fail_login now email client s)
  complete_login now email client (some u) s = (
    ok (issue_token u),
    publish security_login_succeeded (login_succeeded u.id u.email client)
        (record s { throttle = record_success lower email s.throttle }),
  )

  pub login :
      ℕ → Text → Text → Text → IdentityState → Result IdentityError AuthResult × IdentityState
  unfolding authenticate complete_login
  login now email password client s =
      let (allowed, throttle) = assert_allowed lower now email client s.throttle in
      let entered = record s { throttle = throttle } in
      let next =
        complete_login now email client (authenticate password (find_by_email email s.users))
          entered in
      elim allowed [ ok _ ↦ next | err wait ↦ (err too_many_attempts, entered) ]

  load_active_user : ℕ → Text → IdentityState → Option User × IdentityState
  load_active_user now id s =
      let user = active (table.find_one id s.users) in
      (user, record s { state_cache = set id (record { user = user; at = now }) s.state_cache })

  unfoldable pub get_active_user : ℕ → Text → IdentityState → Option User × IdentityState
  unfolding load_active_user
  get_active_user now id s = elim (get id s.state_cache) [
    | none ↦ load_active_user now id s
    | some cached ↦
        if ltb (now - cached.at) user_state_ttl_ms
        then (cached.user, s)
        else load_active_user now id s
  ]

  pub list_users : IdentityState → List UserView
  unfolding to_user_view
  list_users s =
      map to_user_view (sort_by (λ u v. leb u.created_at v.created_at) (table.rows s.users))
