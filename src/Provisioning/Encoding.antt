-- ===== src/Provisioning/Encoding.antt =====
-- platform-exec.ts: what is encoded as base64url is decoded again.
use mathlib.Core.List.{map-append, append-nil}
use senior_io_t_platform_arc.Prelude.{
  ℕ, zero, suc, ◌+◌, ◌*◌, ◌/◌, ◌%◌, ◌<◌, ◌≤◌, ◌≡◌, refl, ap, ◌∙◌, Bool, true, false, not, ◌&&◌,
  List, [], ◌∷◌, ◌++◌, map, length, all, All, if◌then◌else◌, ◌==◌, ==_iff, some, Text, arith,
}
use senior_io_t_platform_arc.Provisioning.{
  digit, base64, url_char, strip_padding, to_base64_url, is_base64_url_char, plain_char, sextet,
  decode, from_base64_url,
}

-- The values below a bound, from the last one down.
countdown : ℕ → List ℕ
countdown zero = []
countdown (suc last) = last ∷ countdown last

all-countdown :
    (good : ℕ → Bool) (bound v : ℕ) → v < bound → all good (countdown bound) ≡ true → good v ≡ true
unfolding countdown
all-countdown good zero v lt every = absurd (omega (arith, lt))
all-countdown good (suc last) v lt every = ground (arith, every, all-countdown good last v)

abbrev url_digit : ℕ → ℕ
url_digit n = url_char (digit n)

-- What a digit of the encoding is good for, at each of the 64 values.
is_good_digit : ℕ → Bool
is_good_digit n =
    not (url_digit n == b'=')
    && is_base64_url_char (url_digit n)
    && sextet (plain_char (url_digit n)) == n

good_digits : all is_good_digit (countdown 64) ≡ true
unfolding countdown is_good_digit digit url_char sextet plain_char
good_digits = refl

url_digit_lem :
    (n : ℕ)
    → n < 64
    → ((url_digit n == b'=') ≡ false)
      × (is_base64_url_char (url_digit n) ≡ true)
      × (sextet (plain_char (url_digit n)) ≡ n)
unfolding is_good_digit
url_digit_lem n h = ground (
  arith,
  all-countdown is_good_digit 64 n h good_digits,
  ==_iff (sextet (plain_char (url_digit n))) n,
)

strip_padding-cons :
    (c : ℕ) (s : Text) → (c == b'=') ≡ false → strip_padding (c ∷ s) ≡ c ∷ strip_padding s
unfolding strip_padding
strip_padding-cons c s h =
    elim (strip_padding s)
      as (λ rest.
        (elim rest [ [] ↦ (if c == b'=' then [] else c ∷ []) | d ∷ r ↦ c ∷ d ∷ r ]) ≡ c ∷ rest) [
          | [] ↦ rw h
          | d ∷ r ↦ refl
        ]

strip_padding-digit :
    (n : ℕ) (s : Text) → n < 64 → strip_padding (url_digit n ∷ s) ≡ url_digit n ∷ strip_padding s
strip_padding-digit n s h = strip_padding-cons (url_digit n) s (url_digit_lem n h).0

-- The six-bit values of bytes, the padding after them, and the bytes of such values.
sextets : List ℕ → List ℕ
sextets [] = []
sextets (a ∷ []) = (a / 4) ∷ (a % 4 * 16) ∷ []
sextets (a ∷ b ∷ []) = (a / 4) ∷ (a % 4 * 16 + b / 16) ∷ (b % 16 * 4) ∷ []
sextets (a ∷ b ∷ c ∷ rest) =
    (a / 4) ∷ (a % 4 * 16 + b / 16) ∷ (b % 16 * 4 + c / 64) ∷ (c % 64) ∷ sextets rest

padding : List ℕ → Text
padding [] = []
padding (a ∷ []) = b'=' ∷ b'=' ∷ []
padding (a ∷ b ∷ []) = b'=' ∷ []
padding (a ∷ b ∷ c ∷ rest) = padding rest

bytes : List ℕ → List ℕ
bytes [] = []
bytes (p ∷ []) = []
bytes (p ∷ q ∷ []) = (p * 4 + q / 16) ∷ []
bytes (p ∷ q ∷ r ∷ []) = (p * 4 + q / 16) ∷ (q % 16 * 16 + r / 4) ∷ []
bytes (p ∷ q ∷ r ∷ s ∷ rest) =
    (p * 4 + q / 16) ∷ (q % 16 * 16 + r / 4) ∷ (r % 4 * 64 + s) ∷ bytes rest

base64-sextets : (buf : List ℕ) → base64 buf ≡ map digit (sextets buf) ++ padding buf
unfolding base64 sextets padding
base64-sextets [] = refl
base64-sextets (a ∷ []) = refl
base64-sextets (a ∷ b ∷ []) = refl
base64-sextets (a ∷ b ∷ c ∷ rest) = rw (base64-sextets rest)

sextets-lt : (buf : List ℕ) → All (λ b. b < 256) buf → All (λ n. n < 64) (sextets buf)
unfolding sextets
sextets-lt [] h = tt
sextets-lt (a ∷ []) h = omega arith
sextets-lt (a ∷ b ∷ []) h = omega arith
sextets-lt (a ∷ b ∷ c ∷ rest) h =
    (omega arith, (omega arith, (omega arith, (omega arith, sextets-lt rest h.1.1.1))))

bytes-sextets : (buf : List ℕ) → All (λ b. b < 256) buf → bytes (sextets buf) ≡ buf
unfolding sextets bytes
bytes-sextets [] h = refl
bytes-sextets (a ∷ []) h = ground arith
bytes-sextets (a ∷ b ∷ []) h = ground arith
bytes-sextets (a ∷ b ∷ c ∷ rest) h = ground (arith, bytes-sextets rest)

strip_padding-padding : (buf : List ℕ) → strip_padding (map url_char (padding buf)) ≡ []
unfolding strip_padding padding url_char
strip_padding-padding [] = refl
strip_padding-padding (a ∷ []) = refl
strip_padding-padding (a ∷ b ∷ []) = refl
strip_padding-padding (a ∷ b ∷ c ∷ rest) = strip_padding-padding rest

strip_padding-digits :
    (ns : List ℕ) (rest : Text)
    → All (λ n. n < 64) ns
    → strip_padding (map url_digit ns ++ rest) ≡ map url_digit ns ++ strip_padding rest
strip_padding-digits [] rest h = refl
strip_padding-digits (n ∷ ns) rest h =
    strip_padding-digit n (map url_digit ns ++ rest) h.0
    ∙ ap (◌∷◌ (url_digit n)) (strip_padding-digits ns rest h.1)

url_digits : (ns : List ℕ) → map url_char (map digit ns) ≡ map url_digit ns
url_digits [] = refl
url_digits (n ∷ ns) = ap (◌∷◌ (url_digit n)) (url_digits ns)

-- The encoding of bytes is the digits of their six-bit values.
to_base64_url-sextets :
    (buf : List ℕ) → All (λ b. b < 256) buf → to_base64_url buf ≡ map url_digit (sextets buf)
unfolding to_base64_url
to_base64_url-sextets buf h =
    ap (λ t. strip_padding (map url_char t)) (base64-sextets buf)
    ∙ ap strip_padding (map-append url_char (map digit (sextets buf)) (padding buf))
    ∙ ap (λ t. strip_padding (t ++ map url_char (padding buf))) (url_digits (sextets buf))
    ∙ strip_padding-digits (sextets buf) (map url_char (padding buf)) (sextets-lt buf h)
    ∙ ap (◌++◌ (map url_digit (sextets buf))) (strip_padding-padding buf)
    ∙ append-nil (map url_digit (sextets buf))

value : (n : ℕ) → n < 64 → sextet (plain_char (url_digit n)) ≡ n
value n h = (url_digit_lem n h).2

decode-digits :
    (ns : List ℕ) → All (λ n. n < 64) ns → decode (map plain_char (map url_digit ns)) ≡ bytes ns
unfolding decode bytes
decode-digits [] h = refl
decode-digits (p ∷ []) h = refl
decode-digits (p ∷ q ∷ []) h = rw (value p h.0, value q h.1.0)
decode-digits (p ∷ q ∷ r ∷ []) h = rw (value p h.0, value q h.1.0, value r h.1.1.0)
decode-digits (p ∷ q ∷ r ∷ s ∷ rest) h =
    rw
      (value p h.0, value q h.1.0, value r h.1.1.0, value s h.1.1.1.0, decode-digits rest h.1.1.1.1)

all-digits : (ns : List ℕ) → All (λ n. n < 64) ns → all is_base64_url_char (map url_digit ns) ≡ true
all-digits [] h = refl
all-digits (n ∷ ns) h = ground (arith, url_digit_lem n, all-digits ns)

-- Bytes that are encoded are decoded to themselves.
pub from_base64_url-to_base64_url :
    (buf : List ℕ) → All (λ b. b < 256) buf → from_base64_url (to_base64_url buf) ≡ some buf
unfolding from_base64_url
from_base64_url-to_base64_url buf h =
    let ns = sextets buf in
    let e = to_base64_url-sextets buf h in
    rw (e, all-digits ns (sextets-lt buf h))
      (ap some (decode-digits ns (sextets-lt buf h) ∙ bytes-sextets buf h))

length-decode : (s : Text) → 3 * length s ≤ 4 * length (decode s) + 3
unfolding decode
length-decode [] = omega arith
length-decode (p ∷ []) = omega arith
length-decode (p ∷ q ∷ []) = omega arith
length-decode (p ∷ q ∷ r ∷ []) = omega arith
length-decode (p ∷ q ∷ r ∷ s ∷ rest) = omega (arith, length-decode rest)

length-map : (f : ℕ → ℕ) (s : Text) → length (map f s) ≡ length s
length-map f [] = refl
length-map f (c ∷ s) = omega (arith, length-map f s)

-- A base64url text reads as bytes, three for four digits.
pub from_base64_url-size :
    (s : Text)
    → all is_base64_url_char s ≡ true
    → (key : List ℕ) × (from_base64_url s ≡ some key) × (3 * length s ≤ 4 * length key + 3)
unfolding from_base64_url
from_base64_url-size s a = (
  decode (map plain_char s),
  rw a refl,
  omega (arith, length-decode (map plain_char s), length-map plain_char s),
)
