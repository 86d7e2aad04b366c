-- ===== src/GoText/Search.antt =====
-- Comparison, prefixes and searches of Go's `strings` package.
use Prim.Native.Char.{code}
use srvgov_cli.Prelude.{
  ℕ, ◌≤◌, ◌<◌, String, ◌≡◌, refl, ◌↔◌, inl, inr, Bool, true, false, ◌&&◌, ◌||◌, Option, none, some,
  List, [], ◌∷◌, arith, ◌==◌, if◌then◌else◌, Bool-cases, or_resolve, Option-cases, length, all,
}

abbrev pub Text : Type 0
Text = List ℕ

-- The units of a text that is written as a literal.
abbrev pub codes : String → Text
codes String.[] = []
codes (String.◌∷◌ c s) = code c ∷ codes s

unfoldable pub equal : Text → Text → Bool
equal [] [] = true
equal (x ∷ xs) (y ∷ ys) = x == y && equal xs ys
equal _ _ = false

-- `word == "literal"`
unfoldable pub is : Text → String → Bool
unfolding equal
is w s = equal w (codes s)

-- a test of a word against several literals
unfoldable pub has_exact_word : Text → List String → Bool
has_exact_word word [] = false
has_exact_word word (c ∷ cs) = is word c || has_exact_word word cs

unfoldable pub starts : Text → Text → Bool
starts s [] = true
starts [] (p ∷ ps) = false
starts (x ∷ xs) (p ∷ ps) = x == p && starts xs ps

-- strings.HasPrefix
unfoldable pub has_prefix : Text → String → Bool
unfolding starts
has_prefix s p = starts s (codes p)

drop_units : Text → Text → Text
drop_units s [] = s
drop_units [] (p ∷ ps) = []
drop_units (x ∷ xs) (p ∷ ps) = drop_units xs ps

-- strings.TrimPrefix
unfoldable pub trim_prefix : Text → String → Text
unfolding has_prefix drop_units
trim_prefix s p = if has_prefix s p then drop_units s (codes p) else s

-- strings.HasSuffix
unfoldable pub has_suffix : Text → String → Bool
unfolding is
has_suffix [] p = is [] p
has_suffix (x ∷ xs) p = is (x ∷ xs) p || has_suffix xs p

-- strings.TrimSuffix for a suffix of one unit
unfoldable pub trim_suffix_unit : Text → ℕ → Text
trim_suffix_unit [] c = []
trim_suffix_unit (x ∷ []) c = if x == c then [] else x ∷ []
trim_suffix_unit (x ∷ y ∷ r) c = x ∷ trim_suffix_unit (y ∷ r) c

-- strings.Contains
unfoldable pub contains : Text → String → Bool
unfolding has_prefix
contains [] p = has_prefix [] p
contains (x ∷ xs) p = has_prefix (x ∷ xs) p || contains xs p

unfoldable pub mem_unit : Text → ℕ → Bool
mem_unit [] r = false
mem_unit (x ∷ xs) r = x == r || mem_unit xs r

-- strings.ContainsRune of a literal
unfoldable pub contains_rune : String → ℕ → Bool
unfolding mem_unit
contains_rune s r = mem_unit (codes s) r

-- strings.ContainsAny
unfoldable pub contains_any : Text → String → Bool
unfolding contains_rune
contains_any [] chars = false
contains_any (x ∷ xs) chars = contains_rune chars x || contains_any xs chars

-- What stands before and behind the first occurrence of a unit: strings.IndexByte with the two
-- slices, and strings.Cut.
unfoldable pub cut : Text → ℕ → Option (Text × Text)
cut [] sep = none
cut (x ∷ xs) sep =
    let rest = cut xs sep in
    if x == sep then some ([], xs) else elim rest [ none ↦ none | some (a, b) ↦ some (x ∷ a, b) ]

-- What stands behind the first occurrence of a text: strings.Index with the slice behind it.
unfoldable pub after : Text → String → Option Text
unfolding has_prefix drop_units
after [] p = if has_prefix [] p then some [] else none
after (x ∷ xs) p =
    let rest = after xs p in
    if has_prefix (x ∷ xs) p then some (drop_units (x ∷ xs) (codes p)) else rest

-- strings.ReplaceAll of one unit by another
unfoldable pub replace_unit : ℕ → ℕ → Text → Text
replace_unit old new [] = []
replace_unit old new (x ∷ xs) = (if x == old then new else x) ∷ replace_unit old new xs

-- The pieces between separators: strings.Split by one unit.
unfoldable pub split_on : ℕ → Text → List Text
split_on sep [] = [] ∷ []
split_on sep (x ∷ xs) =
    if x == sep
    then [] ∷ split_on sep xs
    else elim (split_on sep xs) [ [] ↦ (x ∷ []) ∷ [] | p ∷ ps ↦ (x ∷ p) ∷ ps ]

pub equal_iff : (a b : Text) → (equal a b ≡ true) ↔ (a ≡ b)
unfolding equal
equal_iff (x ∷ a) (y ∷ b) = ground (arith, equal_iff a b)
equal_iff _ _ = ground arith

pub is_iff : (w : Text) (s : String) → (is w s ≡ true) ↔ (w ≡ codes s)
unfolding is
is_iff w s = equal_iff w (codes s)

-- What holds of each literal holds of a word that is one of them.
pub has_exact_word-all :
    (p : Text → Bool) (w : Text) (cs : List String)
    → all (λ c. p (codes c)) cs ≡ true
    → has_exact_word w cs ≡ true
    → p w ≡ true
unfolding has_exact_word
has_exact_word-all p w [] h m = cc
has_exact_word-all p w (c ∷ cs) h m = elim (Bool-cases (is w c)) [
  | inl e ↦ rw ((is_iff w c).0 e) (ground arith)
  | inr n ↦ has_exact_word-all p w cs (ground arith) (or_resolve _ _ m n)
]

-- Prefixes of options.
pub dashes-has_prefix : (a : Text) → is a "--" ≡ true → has_prefix a "-" ≡ true
dashes-has_prefix a h = rw ((is_iff a "--").0 h) (unfold has_prefix in refl)

pub longs-has_prefix : (a : Text) → has_prefix a "--" ≡ true → has_prefix a "-" ≡ true
unfolding has_prefix
longs-has_prefix [] h = cc
longs-has_prefix (x ∷ []) h = ground arith
longs-has_prefix (x ∷ y ∷ a) h = ground arith

-- A search never lengthens what is left.
length-drop_units : (s p : Text) → length (drop_units s p) ≤ length s
unfolding drop_units
length-drop_units s [] = omega arith
length-drop_units [] (p ∷ ps) = omega arith
length-drop_units (x ∷ s) (p ∷ ps) = omega (arith, length-drop_units s ps)

pub length-after : (s : Text) (p : String) {b : Text} → after s p ≡ some b → length b ≤ length s
unfolding after
length-after [] p e = ground arith
length-after (x ∷ s) p {b} e = elim (Bool-cases (has_prefix (x ∷ s) p)) [
  | inl h ↦ ground (arith, length-drop_units (x ∷ s) (codes p))
  | inr n ↦ ground (arith, length-after s p {b = b})
]

pub length-cut : (s : Text) (c : ℕ) {a b : Text} → cut s c ≡ some (a, b) → length b < length s
unfolding cut
length-cut [] c e = cc
length-cut (x ∷ s) c {a} {b} e = elim (Option-cases (cut s c)) [
  | inl n ↦ ground arith
  | inr ((a', b'), f) ↦ ground (arith, length-cut s c f)
]
