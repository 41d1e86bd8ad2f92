-- ===== src/Identity/Service/Accounts/Sessions.antt =====
-- identity.service.ts: what ends the sessions of an account, and how soon.
use senior_io_t_platform_arc.Prelude.{
  ℕ, ◌+◌, ◌≤◌, ◌≡◌, sym, ap, ◌∙◌, Bool, false, ◌||◌, Option, none, some, is_some, Text, arith,
  text_eq, text_eq_iff, text_eq_refl, ok, Option-cases, inl, inr, find_first-holds,
}
use senior_io_t_platform_arc.Prelude.Dict.{get, delete, get-delete}
use senior_io_t_platform_arc.Platform.Events.{PasswordBy, RoleChange}
use senior_io_t_platform_arc.Identity.Users.{User, Services, UserView}
use senior_io_t_platform_arc.Identity.Service.{
  IdentityState, UserChange, get_active_user, active, CacheEntry,
}
use senior_io_t_platform_arc.Identity.Service.Accounts.{
  next_user, update_user, apply_update, announce_update, reset_password, apply_password,
  with_password, role_change, disabled_change,
}

module _ (d : Services) where
  open d use {table, hash, compare}

  -- What the guard sees once the cache has no fresh entry: the database.
  load-database :
      (now : ℕ) (id : Text) (s : IdentityState d)
      → get id s.state_cache ≡ none
      → (get_active_user d now id s).0 ≡ active (table.find_one id s.users)
  unfolding get_active_user
  load-database now id s e = rw (e, get_active_user)

  -- An account is never seen as it was 10 seconds ago or more: with an entry that old, or with none,
  -- the answer is read from the database.
  pub get_active_user-fresh :
      (now : ℕ) (id : Text) (s : IdentityState d)
      → ((c : CacheEntry) → get id s.state_cache ≡ some c → c.at + 10000 ≤ now)
      → (get_active_user d now id s).0 ≡ active (table.find_one id s.users)
  unfolding get_active_user
  get_active_user-fresh now id s h = elim (Option-cases (get id s.state_cache)) [
    | inl e ↦ load-database now id s e
    | inr (c, e) ↦ rw (e, get_active_user) (ground (arith, h c e))
  ]

  apply_password-user :
      (salt now : ℕ) (u : User) (password : Text) (changed_by : PasswordBy) (actor : Option Text)
      (s : IdentityState d)
      → (get_active_user d now u.id (apply_password d salt u password changed_by actor s)).0
        ≡ active (some (with_password d salt password u))
  unfolding apply_password
  apply_password-user salt now u password changed_by actor s =
      load-database now u.id _ (rw (get-delete, text_eq_refl u.id))
      ∙ ap active {y = some (with_password d salt password u)}
          (rw (table.find_one-save, text_eq_refl u.id))

  find_one-id :
      (id : Text) (users : table.Store) (u : User) → table.find_one id users ≡ some u → u.id ≡ id
  find_one-id id users u e = (text_eq_iff u.id id).0 (
      find_first-holds (λ u. text_eq u.id id) (table.rows users) u
        (sym (table.find_one-rows id users) ∙ e))

  -- After a reset the next request is judged by the row with the new hash and the next version.
  pub reset_password-user :
      (salt now : ℕ) (id password : Text) (actor : Option Text) (s : IdentityState d) (u : User)
      → table.find_one id s.users ≡ some u
      → (get_active_user d now id (reset_password d salt id password actor s).1).0
        ≡ active (some (with_password d salt password u))
  unfolding reset_password
  reset_password-user salt now id password actor s u e =
      rw (e, reset_password, ← find_one-id id s.users u e)
        (apply_password-user salt now u password PasswordBy.admin actor s)

  announce_update-kept :
      (id email : Text) (role : Option RoleChange) (disabled : Option Bool) (actor : Option Text)
      (s : IdentityState d)
      → ((announce_update d id email role disabled actor s).users ≡ s.users)
        × ((announce_update d id email role disabled actor s).state_cache ≡ s.state_cache)
  unfolding announce_update
  announce_update-kept id email role disabled actor s = ground arith

  -- Nothing changes only if both changes are void.
  next_user-void :
      (now : ℕ) (change : UserChange) (u : User)
      → (is_some (role_change change.role u) || is_some (disabled_change change.disabled u)) ≡ false
      → next_user now change u ≡ u
  unfolding next_user
  next_user-void now change u h = ground arith

  next_user-id : (now : ℕ) (change : UserChange) (u : User) → (next_user now change u).id ≡ u.id
  unfolding next_user
  next_user-id now change u = ground arith

  apply_update-row :
      (now : ℕ) (u : User) (change : UserChange) (actor : Option Text) (s : IdentityState d)
      (view : UserView)
      → table.find_one u.id s.users ≡ some u
      → (apply_update d now u change actor s).0 ≡ ok view
      → (table.find_one u.id (apply_update d now u change actor s).1.users
          ≡ some (next_user now change u))
        × ((apply_update d now u change actor s).1.state_cache ≡ delete u.id s.state_cache)
  unfolding apply_update announce_update
  apply_update-row now u change actor s view e h = ground (
    arith,
    next_user-void now change u,
    next_user-id now change u,
    table.find_one-save u.id (next_user now change u) s.users,
    text_eq_refl u.id,
  )

  -- So is one after a successful update, by the changed row.
  pub update_user-user :
      (now later : ℕ) (id : Text) (change : UserChange) (actor : Option Text) (s : IdentityState d)
      (u : User) (view : UserView)
      → table.find_one id s.users ≡ some u
      → (update_user d now id change actor s).0 ≡ ok view
      → (get_active_user d later id (update_user d now id change actor s).1).0
        ≡ active (some (next_user now change u))
  unfolding update_user
  update_user-user now later id change actor s u view e h =
      let listed = sym (table.find_one-rows id s.users) ∙ e in
      let named = find_one-id id s.users u e in
      let kept : table.find_one u.id s.users ≡ some u =
        ap (λ (k : Text). table.find_one k s.users) named ∙ e in
      let done = rw (listed, update_user) at h in
      let (row, cache) = apply_update-row now u change actor s view kept done in
      rw (listed, update_user)
        (ap (λ (k : Text). (get_active_user d later k (apply_update d now u change actor s).1).0)
            (sym named)
          ∙ load-database later u.id _ (ap (get u.id) cache ∙ rw (get-delete, text_eq_refl u.id))
          ∙ ap active row)
