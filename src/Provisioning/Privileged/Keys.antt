-- ===== src/Provisioning/Privileged/Keys.antt =====
-- platform-token.service.ts: a configured master key that is long enough serves every device.
use senior_io_t_platform_arc.Prelude.{
  ℕ, ◌≤◌, ◌≡◌, refl, true, false, List, [], ◌∷◌, length, all, ltb, some, Text, ok, arith,
}
use senior_io_t_platform_arc.Provisioning.{is_base64_url_char}
use senior_io_t_platform_arc.Provisioning.Encoding.{from_base64_url-size}
use senior_io_t_platform_arc.Provisioning.Privileged.{
  master_key_of, require_key, derive_device_secret,
}

-- From 43 digits on a key has 32 bytes at least, and with it no device is refused its secret.
pub master_key_of-serves :
    (hkdf : List ℕ → Text → List ℕ) (s : Text)
    → 43 ≤ length s
    → all is_base64_url_char s ≡ true
    → (key : List ℕ) × (master_key_of (some s) ≡ ok (some key))
      × (32 ≤ length key)
      × ((c : ℕ) (id : Text) → require_key hkdf (some key) (c ∷ id) ≡ ok (hkdf key (c ∷ id)))
unfolding master_key_of require_key derive_device_secret
master_key_of-serves hkdf [] h a = absurd (omega (arith, h))
master_key_of-serves hkdf (c ∷ s) h a =
    let (key, e, size) = from_base64_url-size (c ∷ s) a in
    let long : 32 ≤ length key = omega (arith, h, size) in
    let enough : ltb (length key) 32 ≡ false = ground (arith, long) in
    (key, rw (e, master_key_of) refl, long, λ x id. rw enough refl)
