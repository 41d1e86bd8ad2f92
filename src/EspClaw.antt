-- ===== src/EspClaw.antt =====
-- apps/backend/src/esp-claw/local-target.ts: the guard in front of requests to a device's local API. The
-- parser of URLs and Unicode lower case are parameters; the URL's empty port is `none`.
pub mod Blocks
pub mod LocalApi
pub mod Tests
use senior_io_t_platform_arc.Prelude.{
  ℕ, ◌+◌, ◌-◌, ◌*◌, Bool, false, not, ◌&&◌, ◌||◌, List, [], ◌∷◌, ◌++◌, map, filter, all, any,
  length, if◌then◌else◌, is_nil, leb, ◌==◌, Option, none, some, or_else, Text, units, text_eq,
  starts_with, split, trim, Result, ok, err,
}

pub data LocalTargetError : Type 0 where
  empty_url invalid_url scheme_not_allowed credentials_not_allowed : LocalTargetError
  port_not_allowed host_not_allowed : LocalTargetError

pub record Url : Type 0 where
  pub protocol : Text
  pub username : Text
  pub password : Text
  pub port : Option ℕ
  pub hostname : Text
  pub origin : Text

abbrev pub allowed_ports : List ℕ
allowed_ports = 80 ∷ 8080 ∷ []

abbrev pub cloud_metadata_ip : Text
cloud_metadata_ip = units "100.100.100.200"

is_digit : ℕ → Bool
is_digit c = leb b'0' c && leb c b'9'

-- `Number` of digits, after a part whose value is given.
decimal : ℕ → Text → ℕ
decimal value [] = value
decimal value (c ∷ s) = decimal (value * 10 + (c - b'0')) s

-- A group `(\d{1,3})`, as its number.
octet : Text → Option ℕ
unfolding is_digit decimal
octet s =
    if leb 1 (length s) && leb (length s) 3 && all is_digit s then some (decimal 0 s) else none

pub record Octets : Type 0 where
  pub a : ℕ
  pub b : ℕ
  pub c : ℕ
  pub d : ℕ

all_four : Option ℕ → Option ℕ → Option ℕ → Option ℕ → Option Octets
all_four (some a) (some b) (some c) (some d) = some (record { a = a; b = b; c = c; d = d })
all_four _ _ _ _ = none

four : List Text → Option Octets
unfolding octet all_four
four (p ∷ q ∷ r ∷ s ∷ []) = all_four (octet p) (octet q) (octet r) (octet s)
four _ = none

-- The match of the dotted pattern: no group holds a dot, so the groups are the parts between dots.
pub octets_of : Text → Option Octets
unfolding four
octets_of host = four (split b'.' host)

in_private_range : ℕ → ℕ → Bool
in_private_range a b =
    a == 10
    || (a == 172 && leb 16 b && leb b 31)
    || (a == 192 && b == 168)
    || (a == 100 && leb 64 b && leb b 127)

is_octet : ℕ → Bool
is_octet n = leb n 255

private_octets : Text → Option Octets → Bool
unfolding in_private_range is_octet
private_octets host none = false
private_octets host (some o) =
    if not (is_octet o.a && is_octet o.b && is_octet o.c && is_octet o.d)
    then false
    else (if text_eq host cloud_metadata_ip then false else in_private_range o.a o.b)

pub is_private_ipv4 : Text → Bool
unfolding private_octets octets_of
is_private_ipv4 host = private_octets host (octets_of host)

is_letter : ℕ → Bool
is_letter c = (leb b'a' c && leb c b'z') || (leb b'A' c && leb c b'Z')

is_scheme_char : ℕ → Bool
unfolding is_letter is_digit
is_scheme_char c = is_letter c || is_digit c || c == b'+' || c == b'.' || c == b'-'

skip_scheme : Text → Text
unfolding is_scheme_char
skip_scheme [] = []
skip_scheme (c ∷ s) = let rest = skip_scheme s in if is_scheme_char c then rest else c ∷ s

-- `/^[a-z][a-z0-9+.-]*:\/\//i.test`.
has_scheme : Text → Bool
unfolding skip_scheme
has_scheme [] = false
has_scheme (c ∷ s) = is_letter c && starts_with (units "://") (skip_scheme s)

module _ (lower : Text → Text) where
  parse_allowed_hosts : Option Text → List Text
  parse_allowed_hosts raw =
      filter (λ h. not (is_nil h)) (map (λ h. lower (trim h)) (split b',' (or_else raw [])))

  -- The checks on a parsed URL.
  checked : List Text → Url → Result LocalTargetError Url
  checked allowed_hosts url =
      let host = lower url.hostname in
      let port = or_else url.port 80 in
      if not (text_eq url.protocol (units "http:"))
      then err scheme_not_allowed
      else (if not (is_nil url.username) || not (is_nil url.password)
          then err credentials_not_allowed
          else (if not (any (λ p. p == port) allowed_ports)
              then err port_not_allowed
              else (if is_private_ipv4 host
                  then ok url
                  else (if any (λ h. text_eq h host) allowed_hosts
                      then ok url
                      else err host_not_allowed))))

  checked_url : List Text → Option Url → Result LocalTargetError Url
  unfolding checked
  checked_url allowed_hosts none = err invalid_url
  checked_url allowed_hosts (some url) = checked allowed_hosts url

  pub assert_safe_local_target :
      (Text → Option Url) → Text → List Text → Result LocalTargetError Url
  unfolding checked_url has_scheme
  assert_safe_local_target parse_url base_url allowed_hosts =
      let trimmed = trim base_url in
      let with_scheme = if has_scheme trimmed then trimmed else units "http://" ++ trimmed in
      if is_nil trimmed then err empty_url else checked_url allowed_hosts (parse_url with_scheme)
