-- ===== src/Identity/Guards/Access.antt =====
-- jwt-auth.guard.ts and permissions.guard.ts: who passes both guards.
use senior_io_t_platform_arc.Prelude.{
  ℕ, ◌≡◌, refl, true, false, is_nil, Option, none, some, or_else, Text, Result, ok, ◌⊎◌, inl, inr,
  arith, Bool-cases, Option-cases, sym, ap, ◌∙◌, if_false, if_err-eq-ok, Result-cases,
}
use senior_io_t_platform_arc.Platform.Permissions.{Permission, role_text, role_has_permission}
use senior_io_t_platform_arc.Identity.Users.{User, JwtPayload, Services}
use senior_io_t_platform_arc.Identity.Service.{IdentityState, get_active_user}
use senior_io_t_platform_arc.Identity.Guards.{
  Route, Refusal, missing_token, extract_token, jwt_can_activate, permissions_can_activate, enter,
  check_account, check_route,
}

-- What a request needs to pass a route that is not public: a token that verifies, a live account,
-- the account's current token version, and an annotation that its current role meets.
pub record Passes (claims : JwtPayload) (account : User) (route : Route) : Type 0 where
  pub current : or_else claims.tv 0 ≡ account.token_version
  pub granted :
      (route.any_authenticated ≡ true)
      ⊎ ((p : Permission) × (route.permission ≡ some p)
          × (role_has_permission (role_text account.role) p ≡ true))

check_route-granted :
    (route : Route) (claims live : JwtPayload) (u : User)
    → check_route route claims u ≡ ok (some live)
    → (route.any_authenticated ≡ true)
      ⊎ ((p : Permission) × (route.permission ≡ some p)
          × (role_has_permission (role_text u.role) p ≡ true))
unfolding check_route
check_route-granted route claims live u e = elim (Bool-cases route.any_authenticated) [
  | inl any ↦ inl any
  | inr no_any ↦ elim (Option-cases route.permission) [
    | inl undeclared ↦ absurd (ground (arith, e, no_any, undeclared))
    | inr (p, declared) ↦ inr (p, declared, ground (arith, e, no_any, declared))
  ]
]

check_account-Passes :
    (route : Route) (claims live : JwtPayload) (account : Option User)
    → check_account route claims account ≡ ok (some live)
    → (u : User) × (account ≡ some u)
      × Passes claims u route
      × (live ≡ record claims { role = role_text u.role })
unfolding check_account
check_account-Passes route claims live none e = cc
check_account-Passes route claims live (some u) e =
    let routed : check_route route claims u ≡ ok (some live) = ground arith in
    (
      u,
      refl,
      record { current = ground arith; granted = check_route-granted route claims live u routed },
      live_claims routed,
    )
  where
    live_claims :
        check_route route claims u ≡ ok (some live)
        → live ≡ record claims { role = role_text u.role }
    live_claims e = ground (arith, e)

jwt_can_activate-ok :
    (verify : Text → Option JwtPayload) (route : Route) (authorization : Option Text)
    (seen : Option JwtPayload)
    → route.is_public ≡ false
    → jwt_can_activate verify route authorization ≡ ok seen
    → (claims : JwtPayload) × (verify (extract_token authorization) ≡ some claims)
      × (seen ≡ some claims)
unfolding jwt_can_activate
jwt_can_activate-ok verify route authorization seen closed e =
    let past = sym (if_false _ _ closed) ∙ e in
    let (token, checked) =
      if_err-eq-ok (is_nil (extract_token authorization)) missing_token _ past in
    elim (Option-cases (verify (extract_token authorization))) [
      | inl forged ↦ absurd (ground (arith, checked, forged))
      | inr (claims, genuine) ↦ (claims, genuine, ground (arith, checked, genuine))
    ]

module _ (d : Services) (verify : Text → Option JwtPayload) (now : ℕ) (route : Route) where
  -- A request that both guards let into a route which is not public carries a token that verifies;
  -- its account is live, with the token's version and a role that meets the route's annotation; and
  -- the handler sees the token's claims with the account's role of now.
  pub enter-Passes :
      (authorization : Option Text) (s : IdentityState d) (live : JwtPayload)
      → route.is_public ≡ false
      → (enter d verify now route authorization s).0 ≡ ok (some live)
      → (claims : JwtPayload) × (u : User) × (verify (extract_token authorization) ≡ some claims)
        × ((get_active_user d now claims.sub s).0 ≡ some u)
        × Passes claims u route
        × (live ≡ record claims { role = role_text u.role })
  unfolding enter jwt_can_activate
  enter-Passes authorization s live closed e =
      elim (Result-cases (jwt_can_activate verify route authorization)) [
        | inr (refusal, refused) ↦ absurd (let f = rw (refused, enter) at e in cc f)
        | inl (seen, entered) ↦
            let (claims, genuine, same) =
              jwt_can_activate-ok verify route authorization seen closed entered in
            let f = rw (entered, enter, same, permissions_can_activate) at e in
            let g =
              sym (
                ap (λ (r : Result Refusal (Option JwtPayload) × IdentityState d). r.0)
                  (if_false _ _ closed))
              ∙ f in
            let (u, found, passes, live_claims) = check_account-Passes route claims live _ g in
            (claims, u, genuine, found, passes, live_claims)
      ]
