-- ===== src/Config/Keys.antt =====
-- env.validation.ts with apps/backend/src/provisioning/platform-token.service.ts: the platform's master key.
use mathlib.Core.Path.{subst}
use senior_io_t_platform_arc.Prelude.{
  ℕ, ◌≤◌, ◌≡◌, sym, ◌⊎◌, inl, inr, Bool, true, List, ◌∷◌, length, all, Option, none, some, Text, ok,
  arith,
}
use senior_io_t_platform_arc.Prelude.Dict.{Dict}
use senior_io_t_platform_arc.Provisioning.Privileged.{master_key_of, require_key}
use senior_io_t_platform_arc.Provisioning.Privileged.Keys.{master_key_of-serves}
use senior_io_t_platform_arc.Config.{Env, validate_env, is_key_char}
use senior_io_t_platform_arc.Config.Production.{validate_env-master_key}

module _ (is_url : Text → Bool) (positive_int : Text → Option ℕ)
    (hkdf : List ℕ → Text → List ℕ) where
  -- A key that reads, has 32 bytes at least, and gives each device its secret.
  abbrev pub IsUsable : Option Text → Type 0
  IsUsable configured =
      (key : List ℕ) × (master_key_of configured ≡ ok (some key))
      × (32 ≤ length key)
      × ((c : ℕ) (id : Text) → require_key hkdf (some key) (c ∷ id) ≡ ok (hkdf key (c ∷ id)))

  -- Under a configuration that is accepted the token service starts: without a master key, or with one of 32
  -- bytes at least, from which the secret of every device with a name is derived.
  pub validate_env-IsUsable :
      (config : Dict Text) (env : Env)
      → validate_env is_url positive_int config ≡ ok env
      → (env.platform_master_key ≡ none) ⊎ IsUsable env.platform_master_key
  validate_env-IsUsable config env e =
      elim (validate_env-master_key is_url positive_int config env e) [
        | inl f ↦ inl f
        | inr (s, f, valid) ↦
            let long : 43 ≤ length s = ground (arith, valid) in
            let chars : all is_key_char s ≡ true = ground (arith, valid) in
            inr (subst IsUsable (sym f) (master_key_of-serves hkdf s long chars))
      ]
