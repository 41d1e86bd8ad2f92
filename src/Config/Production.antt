-- ===== src/Config/Production.antt =====
-- env.validation.ts: what a configuration that is accepted holds, and the first administrator in production
-- (apps/backend/src/identity/identity.service.ts).
use mathlib.Core.Path.{subst}
use senior_io_t_platform_arc.Prelude.{
  ℕ, ◌≤◌, ◌≡◌, refl, sym, ap, ◌∙◌, ◌⊎◌, inl, inr, Bool, true, false, ◌&&◌, [], ◌∷◌, length, is_nil,
  Option, none, some, or_else, Text, units, ok, err, >>=-eq-ok, if_err-eq-ok, ok-injective, arith,
  Bool-cases,
}
use senior_io_t_platform_arc.Prelude.Dict.{Dict, get}
use senior_io_t_platform_arc.Identity.Users.{Services}
use senior_io_t_platform_arc.Identity.Service.{IdentityState, bootstrap_token_required, register}
use senior_io_t_platform_arc.Identity.Service.Bootstrap.{IsNotToken, register-refuses}
use senior_io_t_platform_arc.Config.{
  Env, NodeEnv, production, is_production, validate_env, parse_object, refine, required, optional,
  min_length, is_master_key, node_env_of, log_format_of, port_of, interval_of,
}

long_is_nil : (t : Text) → 16 ≤ length t → is_nil t ≡ false
long_is_nil [] h = absurd (omega (arith, h))
long_is_nil (c ∷ t) h = refl

absent :
    (e : NodeEnv) (o : Option Text)
    → o ≡ none
    → (is_production e && is_nil (or_else o [])) ≡ false
    → is_production e ≡ false
absent e none f h = ground (arith, h)
absent e (some t) f h = cc

module _ (is_url : Text → Bool) (positive_int : Text → Option ℕ) where
  -- Each setting that has a test is what its test gives of its variable.
  record Parsed (config : Dict Text) (env : Env) : Type 0 where
    pub node_env : node_env_of (get (units "NODE_ENV") config) ≡ ok env.node_env
    pub database_url :
        required (units "DATABASE_URL") is_url (get (units "DATABASE_URL") config)
        ≡ ok env.database_url
    pub jwt_secret :
        required (units "JWT_SECRET") (min_length 16) (get (units "JWT_SECRET") config)
        ≡ ok env.jwt_secret
    pub master_key :
        optional
          (units "PLATFORM_MASTER_KEY")
          is_master_key
          (get (units "PLATFORM_MASTER_KEY") config)
        ≡ ok env.platform_master_key
    pub token :
        optional
          (units "ADMIN_BOOTSTRAP_TOKEN")
          (min_length 16)
          (get (units "ADMIN_BOOTSTRAP_TOKEN") config)
        ≡ ok env.admin_bootstrap_token

  parse_object-Parsed :
      (config : Dict Text) (env : Env)
      → parse_object is_url positive_int config ≡ ok env
      → Parsed config env
  unfolding parse_object
  parse_object-Parsed config env h0 =
      let (a, node_env, h1) = >>=-eq-ok (node_env_of (get (units "NODE_ENV") config)) _ h0 in
      let (b, port, h2) =
        >>=-eq-ok (port_of is_url positive_int (get (units "PORT") config)) _ h1 in
      let (c, mqtt_url, h3) =
        >>=-eq-ok (optional (units "MQTT_URL") is_url (get (units "MQTT_URL") config)) _ h2 in
      let (d, prefix, h4) =
        >>=-eq-ok
          (required (units "MQTT_BASE_TOPIC_PREFIX") (min_length 1)
            (some (or_else (get (units "MQTT_BASE_TOPIC_PREFIX") config) (units "espclaw"))))
          _ h3 in
      let (f, database_url, h5) =
        >>=-eq-ok (required (units "DATABASE_URL") is_url (get (units "DATABASE_URL") config)) _
          h4 in
      let (g, redis_url, h6) =
        >>=-eq-ok (optional (units "REDIS_URL") is_url (get (units "REDIS_URL") config)) _ h5 in
      let (i, jwt_secret, h7) =
        >>=-eq-ok (required (units "JWT_SECRET") (min_length 16) (get (units "JWT_SECRET") config))
          _ h6 in
      let (j, interval, h8) =
        >>=-eq-ok
          (interval_of is_url positive_int (get (units "TELEMETRY_POLL_INTERVAL_MS") config)) _
          h7 in
      let (k, master_key, h9) =
        >>=-eq-ok
          (optional (units "PLATFORM_MASTER_KEY") is_master_key
            (get (units "PLATFORM_MASTER_KEY") config))
          _ h8 in
      let (l, log_format, h10) = >>=-eq-ok (log_format_of (get (units "LOG_FORMAT") config)) _ h9 in
      let (m, token, h11) =
        >>=-eq-ok
          (optional (units "ADMIN_BOOTSTRAP_TOKEN") (min_length 16)
            (get (units "ADMIN_BOOTSTRAP_TOKEN") config))
          _ h10 in
      let q = ok-injective h11 in
      record {
        node_env = node_env ∙ ap (λ (v : Env). ok v.node_env) q;
        database_url = database_url ∙ ap (λ (v : Env). ok v.database_url) q;
        jwt_secret = jwt_secret ∙ ap (λ (v : Env). ok v.jwt_secret) q;
        master_key = master_key ∙ ap (λ (v : Env). ok v.platform_master_key) q;
        token = token ∙ ap (λ (v : Env). ok v.admin_bootstrap_token) q;
      }

  required-eq-ok :
      (name : Text) (allowed : Text → Bool) (o : Option Text) (s : Text)
      → required name allowed o ≡ ok s
      → allowed s ≡ true
  unfolding required
  required-eq-ok name allowed none s e = cc
  required-eq-ok name allowed (some t) s e = elim (Bool-cases (allowed t)) [
    | inl h ↦ subst (λ x. allowed x ≡ true) (ok-injective (rw h at e)) h
    | inr h ↦ absurd (cc (rw h at e))
  ]

  optional-eq-ok :
      (name : Text) (allowed : Text → Bool) (o result : Option Text)
      → optional name allowed o ≡ ok result
      → (result ≡ none) ⊎ ((s : Text) × (result ≡ some s) × (allowed s ≡ true))
  unfolding optional
  optional-eq-ok name allowed none result e = inl (sym (ok-injective e))
  optional-eq-ok name allowed (some t) result e = elim (Bool-cases (allowed t)) [
    | inl h ↦ inr (t, sym (ok-injective (rw h at e)), h)
    | inr h ↦ absurd (cc (rw h at e))
  ]

  refined :
      (config : Dict Text) (env : Env)
      → validate_env is_url positive_int config ≡ ok env
      → Parsed config env
        × ((is_production env.node_env && is_nil (or_else env.admin_bootstrap_token [])) ≡ false)
  unfolding validate_env refine
  refined config env e =
      let (parsed, first, rest) = >>=-eq-ok (parse_object is_url positive_int config) _ e in
      let (passed, same) =
        if_err-eq-ok
          (is_production parsed.node_env && is_nil (or_else parsed.admin_bootstrap_token []))
          (units "ADMIN_BOOTSTRAP_TOKEN") (ok parsed) rest in
      let q = ok-injective same in
      (
        parse_object-Parsed config env (first ∙ ap (λ (v : Env). ok v) q),
        subst
            (λ (v : Env).
              (is_production v.node_env && is_nil (or_else v.admin_bootstrap_token [])) ≡ false)
            q passed,
      )

  -- The master key of an accepted configuration, if there is one.
  pub validate_env-master_key :
      (config : Dict Text) (env : Env)
      → validate_env is_url positive_int config ≡ ok env
      → (env.platform_master_key ≡ none)
        ⊎ ((s : Text) × (env.platform_master_key ≡ some s) × (is_master_key s ≡ true))
  validate_env-master_key config env e =
      optional-eq-ok (units "PLATFORM_MASTER_KEY") is_master_key _ _
        (refined config env e).0.master_key

  -- The tokens of an accepted configuration: the signing secret has 16 code units at least, and so has the
  -- bootstrap token, which production cannot be without.
  pub record Guarded (env : Env) : Type 0 where
    pub secret : 16 ≤ length env.jwt_secret
    pub token :
        ((t : Text) × (env.admin_bootstrap_token ≡ some t) × (16 ≤ length t))
        ⊎ ((env.admin_bootstrap_token ≡ none) × (is_production env.node_env ≡ false))

  validate_env-Guarded :
      (config : Dict Text) (env : Env)
      → validate_env is_url positive_int config ≡ ok env
      → Guarded env
  validate_env-Guarded config env e =
      let (parsed, passed) = refined config env e in
      let secret =
        required-eq-ok (units "JWT_SECRET") (min_length 16) _ env.jwt_secret parsed.jwt_secret in
      record {
        secret = ground (arith, secret);
        token =
            elim (optional-eq-ok (units "ADMIN_BOOTSTRAP_TOKEN") (min_length 16) _ _ parsed.token) [
              | inr (t, f, long) ↦ inl (t, f, ground (arith, long))
              | inl f ↦ inr (f, absent env.node_env env.admin_bootstrap_token f passed)
            ];
      }

  -- In production, under a configuration that is accepted, whoever does not present the configured bootstrap
  -- token is refused the registration of the first administrator, whatever the accounts, and it changes
  -- nothing.
  pub validate_env-register :
      (config : Dict Text) (env : Env) (d : Services) (id : Text) (salt now : ℕ)
      (email password : Text) (presented : Option Text) (s : IdentityState d)
      → validate_env is_url positive_int config ≡ ok env
      → env.node_env ≡ production
      → IsNotToken d (or_else env.admin_bootstrap_token []) presented
      → register d env.admin_bootstrap_token id salt now email password presented s
        ≡ (err bootstrap_token_required, s)
  validate_env-register config env d id salt now email password presented s e p n =
      elim (validate_env-Guarded config env e).token [
        | inl (t, f, long) ↦
            subst
              (λ o.
                register d o id salt now email password presented s
                ≡ (err bootstrap_token_required, s))
              (sym f)
              (register-refuses d t id salt now email password presented s (long_is_nil t long)
                (subst (λ o. IsNotToken d (or_else o []) presented) f n))
        | inr (f, dev) ↦ absurd (cc (ap is_production p, dev))
      ]
