-- ===== src/Provisioning/Tokens.antt =====
-- platform-exec.ts: the sizes and times of a token.
use senior_io_t_platform_arc.Prelude.{
  ℕ, ◌+◌, ◌-◌, ◌*◌, ◌/◌, ◌≤◌, ◌≡◌, refl, ◌≢◌, ◌↔◌, true, List, [], ◌∷◌, map, length, Text, ok, err,
  arith,
}
use senior_io_t_platform_arc.Prelude.Json.{Props}
use senior_io_t_platform_arc.Provisioning.{
  to_base64_url, base64, url_char, strip_padding, TokenPayload, SignedToken, sign_platform_token,
  token_payload, segment_too_large, is_platform_exec_target,
}

length-strip_padding : (s : Text) → length (strip_padding s) ≤ length s
unfolding strip_padding
length-strip_padding [] = omega arith
length-strip_padding (c ∷ s) = ground (arith, length-strip_padding s)

length-map : (f : ℕ → ℕ) (s : Text) → length (map f s) ≡ length s
length-map f [] = refl
length-map f (c ∷ s) = omega (arith, length-map f s)

length-base64 : (buf : List ℕ) → length (base64 buf) ≡ 4 * ((length buf + 2) / 3)
unfolding base64
length-base64 [] = refl
length-base64 (a ∷ []) = refl
length-base64 (a ∷ b ∷ []) = refl
length-base64 (a ∷ b ∷ c ∷ rest) = omega (arith, length-base64 rest)

length-to_base64_url : (buf : List ℕ) → length buf ≤ 768 → length (to_base64_url buf) ≤ 1024
unfolding to_base64_url
length-to_base64_url buf h =
    let s = map url_char (base64 buf) in
    omega (arith, length-strip_padding s, length-map url_char (base64 buf), length-base64 buf)

-- Signing never fails at the check that the encoded payload fits the device's limit of 1024 characters:
-- a payload that passed the check before it, of at most 768 bytes, does.
pub sign_platform_token-segment :
    {N : Type 0} (json_bytes : TokenPayload N → List ℕ) (hmac : List ℕ → Text → List ℕ)
    (secret : List ℕ) (device_id capability : Text) (input : Props N) (now : ℕ) (nonce : Text)
    → sign_platform_token json_bytes hmac secret device_id capability input now nonce
      ≢ err segment_too_large
unfolding sign_platform_token
sign_platform_token-segment json_bytes hmac secret device_id capability input now nonce e =
    let bytes = json_bytes (token_payload json_bytes hmac device_id capability input now nonce) in
    ground (arith, e, length-to_base64_url bytes)

-- What the device demands of a token's times at a reading of its clock.
abbrev pub InWindow : {N : Type 0} → ℕ → TokenPayload N → Type 0
InWindow clock p =
    (p.issued_at ≤ clock + 5) × (clock ≤ p.expires_at) × (p.expires_at ≤ p.issued_at + 60)

-- When signing succeeds at a time `now` of 25 seconds or more, the token is for the device and the
-- capability that were asked for, the capability is one of the listed targets, the payload has at most
-- 768 bytes; and its times are those that the device accepts exactly when the device's clock is at most
-- 30 seconds behind and at most 35 ahead.
pub sign_platform_token-window :
    {N : Type 0} (json_bytes : TokenPayload N → List ℕ) (hmac : List ℕ → Text → List ℕ)
    (secret : List ℕ) (device_id capability : Text) (input : Props N) (now : ℕ) (nonce : Text)
    (signed : SignedToken N) (clock : ℕ)
    → 25 ≤ now
    → sign_platform_token json_bytes hmac secret device_id capability input now nonce ≡ ok signed
    → (signed.payload.device_id ≡ device_id)
      × (signed.payload.capability ≡ capability)
      × (is_platform_exec_target capability ≡ true)
      × (length (json_bytes signed.payload) ≤ 768)
      × (InWindow clock signed.payload ↔ ((now ≤ clock + 30) × (clock ≤ now + 35)))
unfolding sign_platform_token
sign_platform_token-window json_bytes hmac secret device_id capability input now nonce signed clock
      h e =
    let i : signed.payload.issued_at ≡ now - 25 = ground (arith, e) in
    let x : signed.payload.expires_at ≡ now - 25 + 60 = ground (arith, e) in
    (
      ground (arith, e),
      ground (arith, e),
      ground (arith, e),
      ground (arith, e),
      ((λ w. omega (arith, i, x, h, w.0, w.1, w.2)), (λ w. omega (arith, i, x, h, w.0, w.1))),
    )
