-- ===== src/GoText/Sorting.antt =====
-- `sort.Strings`: the order of the bytes of UTF-8.
use srvgov_cli.Prelude.{
  ◌/◌, ◌%◌, ℕ, ◌+◌, ◌-◌, ◌≡◌, refl, ap, ◌∙◌, Bool, true, false, ◌&&◌, ◌||◌, List, [], ◌∷◌, ◌++◌,
  arith, ltb, ◌==◌, if◌then◌else◌, any,
}
use srvgov_cli.GoText.Search.{Text}

-- The bytes of one unit.
unfoldable pub utf8_bytes : ℕ → List ℕ
utf8_bytes r =
    if ltb r 0x80
    then r ∷ []
    else if ltb r 0x800
    then (0xC0 + r / 0x40) ∷ (0x80 + r % 0x40) ∷ []
    else if ltb r 0x10000
    then (0xE0 + r / 0x1000) ∷ (0x80 + r / 0x40 % 0x40) ∷ (0x80 + r % 0x40) ∷ []
    else if ltb r 0x110000
    then (0xF0 + r / 0x40000)
      ∷ (0x80 + r / 0x1000 % 0x40)
      ∷ (0x80 + r / 0x40 % 0x40)
      ∷ (0x80 + r % 0x40)
      ∷ []
    else (r - 0x110000) ∷ []

unfoldable pub text_bytes : Text → List ℕ
unfolding utf8_bytes
text_bytes [] = []
text_bytes (r ∷ rs) = utf8_bytes r ++ text_bytes rs

unfoldable pub bytes_less : List ℕ → List ℕ → Bool
bytes_less xs [] = false
bytes_less [] (y ∷ ys) = true
bytes_less (x ∷ xs) (y ∷ ys) = ltb x y || x == y && bytes_less xs ys

unfoldable pub insert_text : Text → List Text → List Text
unfolding text_bytes bytes_less
insert_text t [] = t ∷ []
insert_text t (u ∷ us) =
    let rest = insert_text t us in
    if bytes_less (text_bytes u) (text_bytes t) then u ∷ rest else t ∷ u ∷ us

unfoldable pub sort_strings : List Text → List Text
unfolding insert_text
sort_strings [] = []
sort_strings (t ∷ ts) = insert_text t (sort_strings ts)

any-insert_text :
    (p : Text → Bool) (t : Text) (ts : List Text) → any p (insert_text t ts) ≡ (p t || any p ts)
unfolding insert_text
any-insert_text p t [] = refl
any-insert_text p t (u ∷ us) = ground (arith, any-insert_text p t us)

-- The sort keeps what is in the list.
pub any-sort_strings : (p : Text → Bool) (ts : List Text) → any p (sort_strings ts) ≡ any p ts
unfolding sort_strings
any-sort_strings p [] = refl
any-sort_strings p (t ∷ ts) =
    any-insert_text p t (sort_strings ts) ∙ ap (λ b. p t || b) (any-sort_strings p ts)
