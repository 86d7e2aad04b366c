-- ===== src/Remote/Digits.antt =====
-- What `strconv.Itoa` prints is a plain word, and names no command.
use srvgov_cli.Prelude.{
  ◌/◌, ℕ, zero, suc, ◌≤◌, ◌≡◌, refl, ap, ◌∙◌, ◌≢◌, false, [], ◌∷◌, ◌++◌, arith, ltb, All,
  All-append, All-map, split_if,
}
use srvgov_cli.GoText.{
  Text, codes, is, base, strip_slashes, last_part, split_on, replace_unit, to_lower, Std,
}
use srvgov_cli.Cmdclass.Scan.Arguments.{is_bare, IsBare}
use srvgov_cli.Cmdclass.Words.{command_name}
use srvgov_cli.Cmdclass.Commands.{is_sudo}
use srvgov_cli.Remote.{itoa, itoa_loop}

abbrev pub IsDigit : ℕ → Type 0
IsDigit c = (48 ≤ c) × (c ≤ 57)

itoa_loop-IsDigit : (fuel n : ℕ) → All IsDigit (itoa_loop fuel n)
unfolding itoa_loop
itoa_loop-IsDigit zero n = tt
itoa_loop-IsDigit (suc fuel) n =
    split_if (All IsDigit) (ltb n 10) (λ h. (ground arith, tt))
      λ h.
        All-append IsDigit (itoa_loop fuel (n / 10)) _ (itoa_loop-IsDigit fuel (n / 10))
          ((omega arith, omega arith), tt)

pub itoa-IsDigit : (n : ℕ) → All IsDigit (itoa n)
unfolding itoa
itoa-IsDigit n = itoa_loop-IsDigit (suc n) n

append-ne-nil : (w : Text) (c : ℕ) → w ++ c ∷ [] ≢ []
append-ne-nil [] c e = cc
append-ne-nil (x ∷ w) c e = cc

pub itoa-ne-nil : (n : ℕ) → itoa n ≢ []
unfolding itoa itoa_loop
itoa-ne-nil n =
    split_if (λ t. t ≢ []) (ltb n 10) (λ h e. cc) λ h. append-ne-nil (itoa_loop n (n / 10)) _

digit-IsBare : (c : ℕ) → IsDigit c → IsBare c
unfolding is_bare
digit-IsBare c h = ground arith

pub digits-IsBare : (w : Text) → All IsDigit w → All IsBare w
digits-IsBare w h = All-map IsDigit IsBare digit-IsBare w h

replace_unit_digits : (w : Text) → All IsDigit w → replace_unit 92 b'/' w ≡ w
unfolding replace_unit
replace_unit_digits [] h = refl
replace_unit_digits (c ∷ w) h = ground (arith, replace_unit_digits w h.1)

strip_slashes_digits : (w : Text) → All IsDigit w → strip_slashes w ≡ w
unfolding strip_slashes
strip_slashes_digits [] h = refl
strip_slashes_digits (c ∷ []) h = ground arith
strip_slashes_digits (c ∷ d ∷ w) h = rw (strip_slashes_digits (d ∷ w) h.1) refl

split_on_digits : (w : Text) → All IsDigit w → split_on b'/' w ≡ w ∷ []
unfolding split_on
split_on_digits [] h = refl
split_on_digits (c ∷ w) h = ground (arith, split_on_digits w h.1)

base_of : Text → Text
base_of stripped = elim stripped [ [] ↦ codes "/" | y ∷ r ↦ last_part (split_on b'/' (y ∷ r)) ]

base_stripped : (c : ℕ) (w : Text) → base (c ∷ w) ≡ base_of (strip_slashes (c ∷ w))
unfolding base base_of
base_stripped c w = refl

base_of_stripped : (c : ℕ) (w : Text) → base_of (c ∷ w) ≡ last_part (split_on b'/' (c ∷ w))
unfolding base_of
base_of_stripped c w = refl

base_digits : (c : ℕ) (w : Text) → All IsDigit (c ∷ w) → base (c ∷ w) ≡ c ∷ w
unfolding last_part
base_digits c w h =
    base_stripped c w
    ∙ ap base_of (strip_slashes_digits (c ∷ w) h)
    ∙ base_of_stripped c w
    ∙ ap last_part (split_on_digits (c ∷ w) h)

module _ ⦃std : Std⦄ where
  sudo_digits : (c : ℕ) (w : Text) → IsDigit c → is (to_lower (c ∷ w)) "sudo" ≡ false
  unfolding is to_lower
  sudo_digits c w h = ground arith

  digits_not_sudo : (w : Text) → w ≢ [] → All IsDigit w → is_sudo w ≡ false
  unfolding is_sudo command_name
  digits_not_sudo [] n h = absurd (n refl)
  digits_not_sudo (c ∷ w) n h =
      rw (replace_unit_digits (c ∷ w) h) (rw (base_digits c w h) (sudo_digits c w h.0))

  pub itoa_not_sudo : (n : ℕ) → is_sudo (itoa n) ≡ false
  itoa_not_sudo n = digits_not_sudo (itoa n) (itoa-ne-nil n) (itoa-IsDigit n)
