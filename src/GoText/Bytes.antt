-- ===== src/GoText/Bytes.antt =====
-- Lengths in bytes, and the hexadecimal digits of Go's `encoding/hex`.
use srvgov_cli.Prelude.{
  ◌/◌, ◌%◌, ℕ, suc, ◌+◌, ◌-◌, ◌*◌, ◌≡◌, refl, Option, none, some, List, [], ◌∷◌, arith, ltb,
  if◌then◌else◌, length,
}
use srvgov_cli.GoText.Search.{Text}
use srvgov_cli.GoText.Cases.{between}

-- The bytes of one unit: those of its UTF-8 form, or one byte that does not decode.
unfoldable pub unit_bytes : ℕ → ℕ
unit_bytes r =
    if ltb r 0x80
    then 1
    else if ltb r 0x800
    then 2
    else if ltb r 0x10000
    then 3
    else if ltb r 0x110000
    then 4
    else 1

-- len(value)
unfoldable pub byte_length : Text → ℕ
unfolding unit_bytes
byte_length [] = 0
byte_length (r ∷ rs) = unit_bytes r + byte_length rs

unfoldable pub hex_digit : ℕ → Option ℕ
hex_digit r =
    if between b'0' b'9' r
    then some (r - b'0')
    else if between b'a' b'f' r
    then some (r - b'a' + 10)
    else if between b'A' b'F' r
    then some (r - b'A' + 10)
    else none

-- One byte from its two digits, before the bytes behind it.
unfoldable pub hex_pair : Option ℕ → Option ℕ → Option (List ℕ) → Option (List ℕ)
hex_pair (some a) (some b) (some bytes) = some ((a * 16 + b) ∷ bytes)
hex_pair _ _ _ = none

-- hex.DecodeString; `none` is its error.
unfoldable pub decode_string : Text → Option (List ℕ)
unfolding hex_digit hex_pair
decode_string [] = some []
decode_string (x ∷ []) = none
decode_string (x ∷ y ∷ rest) = hex_pair (hex_digit x) (hex_digit y) (decode_string rest)

-- The digit of a number below 16.
unfoldable pub hex_unit : ℕ → ℕ
hex_unit d = if ltb d 10 then b'0' + d else b'a' + (d - 10)

-- hex.EncodeToString
unfoldable pub encode_to_string : List ℕ → Text
unfolding hex_unit
encode_to_string [] = []
encode_to_string (b ∷ bytes) = hex_unit (b / 16) ∷ hex_unit (b % 16) ∷ encode_to_string bytes

hex_digit-bytes : (x : ℕ) {a : ℕ} → hex_digit x ≡ some a → unit_bytes x ≡ 1
unfolding hex_digit unit_bytes
hex_digit-bytes x e = ground arith

pub hex_pair-some :
    (p q : Option ℕ) (r : Option (List ℕ)) {bytes : List ℕ}
    → hex_pair p q r ≡ some bytes
    → (a b : ℕ) × (bs : List ℕ) × (p ≡ some a)
      × (q ≡ some b)
      × (r ≡ some bs)
      × (length bytes ≡ suc (length bs))
unfolding hex_pair
hex_pair-some (some a) (some b) (some bs) e = (a, b, bs, refl, refl, refl, ground arith)
hex_pair-some (some a) (some b) none e = cc
hex_pair-some (some a) none r e = cc
hex_pair-some none q r e = cc

-- Two digits are one byte.
pub decode_string-length :
    (t : Text) {bytes : List ℕ} → decode_string t ≡ some bytes → byte_length t ≡ 2 * length bytes
unfolding decode_string byte_length
decode_string-length [] e = ground arith
decode_string-length (x ∷ []) e = cc
decode_string-length (x ∷ y ∷ rest) e =
    let (a, b, bs, p, q, r, n) = hex_pair-some (hex_digit x) (hex_digit y) (decode_string rest) e in
    omega (arith, hex_digit-bytes x p, hex_digit-bytes y q, decode_string-length rest r)
