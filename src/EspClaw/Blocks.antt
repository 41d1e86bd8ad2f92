-- ===== src/EspClaw/Blocks.antt =====
-- local-target.ts: the targets that pass are in the private address blocks, or listed.
use senior_io_t_platform_arc.Prelude.{
  ℕ, ◌+◌, ◌*◌, ◌/◌, ◌≤◌, ◌≡◌, ◌≢◌, ◌⊎◌, inl, inr, ◌↔◌, true, false, List, any, Option, none, some,
  Text, units, text_eq, text_eq_iff, ok, arith, if_err-eq-ok, sym, ap, ◌∙◌, Option-cases, or_else,
  is_nil,
}
use senior_io_t_platform_arc.EspClaw.{
  Octets, Url, octets_of, is_private_ipv4, private_octets, in_private_range, is_octet,
  cloud_metadata_ip, assert_safe_local_target, checked, checked_url, empty_url,
}

-- The 32-bit address of four octets.
abbrev pub address : Octets → ℕ
address o = ((o.a * 256 + o.b) * 256 + o.c) * 256 + o.d

-- The blocks 10.0.0.0/8, 172.16.0.0/12, 192.168.0.0/16 and 100.64.0.0/10, by the address's prefix.
abbrev pub InBlock : ℕ → Type 0
InBlock n = (n / 16777216 ≡ 10) ⊎ (n / 1048576 ≡ 2753) ⊎ (n / 65536 ≡ 49320) ⊎ (n / 4194304 ≡ 401)

abbrev pub IsAddress : Octets → Type 0
IsAddress o = (o.a ≤ 255) × (o.b ≤ 255) × (o.c ≤ 255) × (o.d ≤ 255)

-- What the two leading octets are tested for.
abbrev InRange : ℕ → ℕ → Type 0
InRange a b =
    (a ≡ 10)
    ⊎ ((a ≡ 172) × (16 ≤ b) × (b ≤ 31))
    ⊎ ((a ≡ 192) × (b ≡ 168))
    ⊎ ((a ≡ 100) × (64 ≤ b) × (b ≤ 127))

in_private_range_iff : (a b : ℕ) → (in_private_range a b ≡ true) ↔ InRange a b
unfolding in_private_range
in_private_range_iff a b = ground arith

InRange-InBlock : (o : Octets) → IsAddress o → InRange o.a o.b ↔ InBlock (address o)
InRange-InBlock o h = (
  (λ r. elim r [
    | inl x ↦ inl (omega arith)
    | inr (inl x) ↦ inr (inl (omega arith))
    | inr (inr (inl x)) ↦ inr (inr (inl (omega arith)))
    | inr (inr (inr x)) ↦ inr (inr (inr (omega arith)))
  ]),
  (λ r. elim r [
    | inl x ↦ inl (omega arith)
    | inr (inl x) ↦ inr (inl (omega arith, omega arith, omega arith))
    | inr (inr (inl x)) ↦ inr (inr (inl (omega arith, omega arith)))
    | inr (inr (inr x)) ↦ inr (inr (inr (omega arith, omega arith, omega arith)))
  ]),
)

private_octets_iff :
    (host : Text) (o : Octets)
    → (private_octets host (some o) ≡ true)
      ↔ (IsAddress o × (host ≢ cloud_metadata_ip) × InBlock (address o))
unfolding private_octets is_octet
private_octets_iff host o = (
  (λ e.
      let h : IsAddress o = ground arith in
      let r : in_private_range o.a o.b ≡ true = ground arith in
      (
        h,
        ground (arith, text_eq_iff host cloud_metadata_ip),
        (InRange-InBlock o h).0 ((in_private_range_iff o.a o.b).0 r),
      )),
  (λ w.
      let r = (in_private_range_iff o.a o.b).1 ((InRange-InBlock o w.0).1 w.2) in
      ground (arith, w.0, w.1, r, text_eq_iff host cloud_metadata_ip)),
)

-- A text passes the test for private addresses exactly when it is a dotted address of four octets up to
-- 255, is not the metadata service's, and its 32-bit value is in one of the four blocks.
pub is_private_ipv4_iff :
    (host : Text)
    → (is_private_ipv4 host ≡ true) ↔ (
        (o : Octets) × (octets_of host ≡ some o)
        × IsAddress o
        × (host ≢ cloud_metadata_ip)
        × InBlock (address o))
unfolding is_private_ipv4
is_private_ipv4_iff host = (
  (λ e. elim (Option-cases (octets_of host)) [
    | inl n ↦ absurd (let f : false ≡ true = rw (n, is_private_ipv4, private_octets) at e in cc)
    | inr (o, m) ↦
        let found = (private_octets_iff host o).0 (ap (private_octets host) (sym m) ∙ e) in
        (o, m, found.0, found.1, found.2)
  ]),
  (λ w. ap (private_octets host) w.1 ∙ (private_octets_iff host w.0).1 (w.2, w.3, w.4)),
)

checked-safe :
    (lower : Text → Text) (allowed_hosts : List Text) (parsed : Option Url) (url : Url)
    → checked_url lower allowed_hosts parsed ≡ ok url
    → (url.protocol ≡ units "http:")
      × (is_nil url.username ≡ true)
      × (is_nil url.password ≡ true)
      × ((or_else url.port 80 ≡ 80) ⊎ (or_else url.port 80 ≡ 8080))
      × ((is_private_ipv4 (lower url.hostname) ≡ true)
          ⊎ (any (λ h. text_eq h (lower url.hostname)) allowed_hosts ≡ true))
unfolding checked_url checked
checked-safe lower allowed_hosts none url e = cc
checked-safe lower allowed_hosts (some u) url e =
    ground (arith, e, text_eq_iff u.protocol (units "http:"))

-- A target that passes is plain HTTP, without credentials, on port 80 or 8080, and its host is a
-- private address or on the operator's list.
pub assert_safe_local_target-safe :
    (lower : Text → Text) (parse_url : Text → Option Url) (base_url : Text)
    (allowed_hosts : List Text) (url : Url)
    → assert_safe_local_target lower parse_url base_url allowed_hosts ≡ ok url
    → (url.protocol ≡ units "http:")
      × (is_nil url.username ≡ true)
      × (is_nil url.password ≡ true)
      × ((or_else url.port 80 ≡ 80) ⊎ (or_else url.port 80 ≡ 8080))
      × ((is_private_ipv4 (lower url.hostname) ≡ true)
          ⊎ (any (λ h. text_eq h (lower url.hostname)) allowed_hosts ≡ true))
unfolding assert_safe_local_target
assert_safe_local_target-safe lower parse_url base_url allowed_hosts url e =
    checked-safe lower allowed_hosts _ url (if_err-eq-ok _ empty_url _ e).1
