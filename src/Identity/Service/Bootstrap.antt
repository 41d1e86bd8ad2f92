-- ===== src/Identity/Service/Bootstrap.antt =====
-- identity.service.ts, `register`: the first administrator.
use senior_io_t_platform_arc.Prelude.{
  ℕ, ◌≡◌, refl, ◌⊎◌, inl, inr, true, false, [], is_nil, Option, some, or_else, Text, text_eq, err,
  arith,
}
use senior_io_t_platform_arc.Identity.Users.{Services}
use senior_io_t_platform_arc.Identity.Service.{
  IdentityState, bootstrap_token_required, register, bootstrap_token_passes,
}

-- Nothing presented, or another digest than that of the configured token.
abbrev pub IsNotToken : Services → Text → Option Text → Type 0
IsNotToken d token presented =
    (is_nil (or_else presented []) ≡ true)
    ⊎ (text_eq (d.sha256 token) (d.sha256 (or_else presented [])) ≡ false)

module _ (d : Services) where
  bootstrap_token_passes-false :
      (token : Text) (presented : Option Text)
      → is_nil token ≡ false
      → IsNotToken d token presented
      → bootstrap_token_passes d (some token) presented ≡ false
  unfolding bootstrap_token_passes
  bootstrap_token_passes-false token presented h (inl e) = ground (arith, h, e)
  bootstrap_token_passes-false token presented h (inr e) = ground (arith, h, e)

  -- With a configured token, a registration that does not present it is refused and changes nothing.
  pub register-refuses :
      (token id : Text) (salt now : ℕ) (email password : Text) (presented : Option Text)
      (s : IdentityState d)
      → is_nil token ≡ false
      → IsNotToken d token presented
      → register d (some token) id salt now email password presented s
        ≡ (err bootstrap_token_required, s)
  unfolding register
  register-refuses token id salt now email password presented s h e =
      rw (bootstrap_token_passes-false token presented h e) refl
