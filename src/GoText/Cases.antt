-- ===== src/GoText/Cases.antt =====
-- Letter case, white space and character classes of Go's `unicode` and `strings` packages.
-- The Unicode tables beyond ASCII, and `url.Parse`, are parameters.
use srvgov_cli.Prelude.{
  ℕ, ◌-◌, ◌+◌, String, Bool, true, false, ◌&&◌, ◌||◌, [], ◌∷◌, Option, ◌==◌, leb, ltb,
  if◌then◌else◌,
}
use srvgov_cli.GoText.Search.{Text, codes}

-- The fields of `url.URL` that the source reads.
pub record Url : Type 0 where
  pub scheme : Text
  pub host : Text
  pub path : Text

-- What the source takes from Go's library and this model does not define: the case mapping and the
-- classes of the code points above ASCII, and the URL parser.
pub record Std : Type 0 where
  pub lower_wide : ℕ → ℕ
  pub upper_wide : ℕ → ℕ
  pub fold_wide : ℕ → ℕ → Bool
  pub letter_wide : ℕ → Bool
  pub digit_wide : ℕ → Bool
  pub url_parse : Text → Option Url

abbrev pub between : ℕ → ℕ → ℕ → Bool
between lo hi c = leb lo c && leb c hi

-- '0' <= c <= '9'
unfoldable pub is_ascii_digit : ℕ → Bool
is_ascii_digit c = between b'0' b'9' c

is_upper : ℕ → Bool
is_upper c = between b'A' b'Z' c

is_lower : ℕ → Bool
is_lower c = between b'a' b'z' c

ascii_lower : ℕ → ℕ
unfolding is_upper
ascii_lower c = if is_upper c then c + 32 else c

ascii_upper : ℕ → ℕ
unfolding is_lower
ascii_upper c = if is_lower c then c - 32 else c

-- unicode.IsSpace
unfoldable pub is_space : ℕ → Bool
is_space r =
    between 9 13 r
    || r == 32
    || r == 0x85
    || r == 0xa0
    || r == 0x1680
    || between 0x2000 0x200a r
    || r == 0x2028
    || r == 0x2029
    || r == 0x202f
    || r == 0x205f
    || r == 0x3000

trim_left : Text → Text
unfolding is_space
trim_left [] = []
trim_left (x ∷ xs) = if is_space x then trim_left xs else x ∷ xs

trim_right : Text → Text
unfolding is_space
trim_right [] = []
trim_right (x ∷ xs) = elim (trim_right xs) [
  | [] ↦ if is_space x then [] else x ∷ []
  | y ∷ r ↦ x ∷ y ∷ r
]

-- strings.TrimSpace
unfoldable pub trim_space : Text → Text
unfolding trim_left trim_right
trim_space s = trim_left (trim_right s)

module _ ⦃std : Std⦄ where
  lower_unit : ℕ → ℕ
  unfolding ascii_lower
  lower_unit c = if ltb c 128 then ascii_lower c else std.lower_wide c

  -- strings.ToLower
  unfoldable pub to_lower : Text → Text
  unfolding lower_unit
  to_lower [] = []
  to_lower (x ∷ xs) = lower_unit x ∷ to_lower xs

  upper_unit : ℕ → ℕ
  unfolding ascii_upper
  upper_unit c = if ltb c 128 then ascii_upper c else std.upper_wide c

  -- strings.ToUpper
  unfoldable pub to_upper : Text → Text
  unfolding upper_unit
  to_upper [] = []
  to_upper (x ∷ xs) = upper_unit x ∷ to_upper xs

  -- Two units that differ only by simple case folding.
  fold_units : ℕ → ℕ → Bool
  unfolding ascii_lower
  fold_units a b =
      if ltb a 128 && ltb b 128 then ascii_lower a == ascii_lower b else a == b || std.fold_wide a b

  fold_texts : Text → Text → Bool
  unfolding fold_units
  fold_texts [] [] = true
  fold_texts (x ∷ xs) (y ∷ ys) = fold_units x y && fold_texts xs ys
  fold_texts _ _ = false

  -- strings.EqualFold with a literal
  unfoldable pub equal_fold : Text → String → Bool
  unfolding fold_texts
  equal_fold s t = fold_texts s (codes t)

  -- unicode.IsLetter
  unfoldable pub is_letter : ℕ → Bool
  unfolding is_upper is_lower
  is_letter c = if ltb c 128 then is_upper c || is_lower c else std.letter_wide c

  -- unicode.IsDigit
  unfoldable pub is_digit : ℕ → Bool
  unfolding is_ascii_digit
  is_digit c = if ltb c 128 then is_ascii_digit c else std.digit_wide c
