-- ===== src/GoText/Numbers.antt =====
-- `strconv.Atoi` and `strconv.ParseInt(text, 10, 64)`, for a 64-bit `int`.
use srvgov_cli.Prelude.{
  ℕ, zero, suc, ◌+◌, ◌-◌, ◌*◌, ◌≡◌, refl, Bool, true, false, ◌&&◌, Option, none, some, [], ◌∷◌, ltb,
  leb, ◌==◌, if◌then◌else◌, ℤ, pos, negsuc,
}
use srvgov_cli.GoText.Search.{Text}

abbrev is_digit_unit : ℕ → Bool
is_digit_unit c = leb b'0' c && leb c b'9'

unfoldable pub digits_loop : ℕ → Text → Option ℕ
digits_loop acc [] = some acc
digits_loop acc (x ∷ xs) =
    let rest = digits_loop (acc * 10 + (x - b'0')) xs in if is_digit_unit x then rest else none

-- The value of a text of digits, of which there is one at least.
unfoldable pub digits_value : Text → Option ℕ
unfolding digits_loop
digits_value [] = none
digits_value (x ∷ xs) = digits_loop 0 (x ∷ xs)

-- -n
unfoldable pub negated : ℕ → ℤ
negated zero = pos 0
negated (suc n) = negsuc n

unfoldable pub signed : Bool → Option ℕ → Option ℤ
unfolding negated
signed minus none = none
signed minus (some n) =
    if minus
    then (if leb n 9223372036854775808 then some (negated n) else none)
    else if ltb n 9223372036854775808
    then some (pos n)
    else none

-- strconv.Atoi; `none` is its error.
unfoldable pub atoi : Text → Option ℤ
unfolding digits_value signed
atoi [] = none
atoi (x ∷ xs) =
    if x == b'-'
    then signed true (digits_value xs)
    else if x == b'+'
    then signed false (digits_value xs)
    else signed false (digits_value (x ∷ xs))

atoi_values : (atoi (b'-' ∷ b'1' ∷ b'2' ∷ []) ≡ some (negsuc 11)) × (atoi (b'+' ∷ []) ≡ none)
unfolding atoi
atoi_values = (refl, refl)
