-- ===== src/Provisioning/Redaction.antt =====
-- platform-exec.ts: what `redactSecrets` leaves of a value.
use senior_io_t_platform_arc.Prelude.{◌≡◌, refl, ap, true, Text, Bool-cases, inl, inr}
use senior_io_t_platform_arc.Prelude.Json.{
  Json, null, bool, num, str, arr, obj, Elems, nil, cons, Props, end, prop,
}
use senior_io_t_platform_arc.Provisioning.{
  is_secret_key, redact_secrets, redact_elems, redact_props,
}

-- Two values that differ at most in what their secret-looking properties hold, at any depth.
mutual
  pub data Agree {N : Type 0} : Json N → Json N → Type 0 where
    same : {v : Json N} → Agree v v
    arrs : {xs ys : Elems N} → AgreeElems xs ys → Agree (arr xs) (arr ys)
    objs : {ps qs : Props N} → AgreeProps ps qs → Agree (obj ps) (obj qs)

  pub data AgreeElems {N : Type 0} : Elems N → Elems N → Type 0 where
    no_elems : AgreeElems nil nil
    more :
        {v w : Json N} {vs ws : Elems N}
        → Agree v w
        → AgreeElems vs ws
        → AgreeElems (cons v vs) (cons w ws)

  pub data AgreeProps {N : Type 0} : Props N → Props N → Type 0 where
    no_props : AgreeProps end end
    secret :
        {k : Text} {v w : Json N} {ps qs : Props N}
        → is_secret_key k ≡ true
        → AgreeProps ps qs
        → AgreeProps (prop k v ps) (prop k w qs)
    plain :
        {k : Text} {v w : Json N} {ps qs : Props N}
        → Agree v w
        → AgreeProps ps qs
        → AgreeProps (prop k v ps) (prop k w qs)

mutual
  unfolding redact_secrets

  agree : {N : Type 0} {v w : Json N} → Agree v w → redact_secrets v ≡ redact_secrets w
  agree same = refl
  agree (arrs e) = ap arr (agree_elems e)
  agree (objs e) = ap obj (agree_props e)

  agree_elems :
      {N : Type 0} {vs ws : Elems N} → AgreeElems vs ws → redact_elems vs ≡ redact_elems ws
  agree_elems no_elems = refl
  agree_elems (more e es) = rw (agree e, agree_elems es)

  pub agree_props :
      {N : Type 0} {ps qs : Props N} → AgreeProps ps qs → redact_props ps ≡ redact_props qs
  agree_props no_props = refl
  agree_props (secret h es) = rw (h, agree_props es)
  agree_props (plain e es) = rw (agree e, agree_props es)

-- Two values that differ only below secret-looking property names, at any depth, are redacted to the
-- same value: nothing of a secret is left.
pub redact_secrets-Agree :
    {N : Type 0} {v w : Json N} → Agree v w → redact_secrets v ≡ redact_secrets w
redact_secrets-Agree e = agree e

mutual
  unfolding redact_secrets

  idempotent : {N : Type 0} (v : Json N) → redact_secrets (redact_secrets v) ≡ redact_secrets v
  idempotent null = refl
  idempotent (bool b) = refl
  idempotent (num n) = refl
  idempotent (str s) = refl
  idempotent (arr xs) = ap arr (idempotent_elems xs)
  idempotent (obj ps) = ap obj (idempotent_props ps)

  idempotent_elems : {N : Type 0} (xs : Elems N) → redact_elems (redact_elems xs) ≡ redact_elems xs
  idempotent_elems nil = refl
  idempotent_elems (cons v vs) = rw (idempotent v, idempotent_elems vs)

  idempotent_props : {N : Type 0} (ps : Props N) → redact_props (redact_props ps) ≡ redact_props ps
  idempotent_props end = refl
  idempotent_props (prop k v ps) = elim (Bool-cases (is_secret_key k)) [
    | inl s ↦ rw (s, idempotent_props ps)
    | inr p ↦ rw (p, idempotent v, idempotent_props ps)
  ]

-- Redacting what is redacted changes nothing.
pub redact_secrets_idem :
    {N : Type 0} (v : Json N) → redact_secrets (redact_secrets v) ≡ redact_secrets v
redact_secrets_idem v = idempotent v
