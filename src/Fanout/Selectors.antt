-- ===== src/Fanout/Selectors.antt =====
-- `parseSelector` and `labelsMatch` of cmd/fanout.go. A map is a list of its keys with their values.
use mathlib.Core.Path.{subst}
use srvgov_cli.Prelude.{
  ◌≡◌, refl, ap, ◌∙◌, inl, inr, Bool, true, false, not, ◌||◌, Option, none, some, List, [], ◌∷◌,
  arith, if◌then◌else◌, Option-cases, ◌>>=◌, All, IfSome, split_if, IfSome-eq,
}
use srvgov_cli.GoText.{Text, equal, equal_iff, is, cut, split_on, trim_space}

abbrev pub Pairs : Type 0
Pairs = List (Text × Text)

-- `m[key] = value`
set_key : Pairs → Text → Text → Pairs
unfolding equal
set_key [] key value = (key, value) ∷ []
set_key ((k, v) ∷ pairs) key value =
    let rest = set_key pairs key value in
    if equal k key then (key, value) ∷ pairs else (k, v) ∷ rest

-- `m[key]` with its test for the key
unfoldable pub lookup : Pairs → Text → Option Text
unfolding equal
lookup [] key = none
lookup ((k, v) ∷ pairs) key = let rest = lookup pairs key in if equal k key then some v else rest

-- `m[key]`: the empty text where the key is missing
unfoldable pub value_of : Pairs → Text → Text
unfolding lookup
value_of pairs key = elim (lookup pairs key) [ none ↦ [] | some v ↦ v ]

-- One round of the loop, from what `strings.Cut` returns; `none` is the usage error.
selector_pair : Pairs → Option (Text × Text) → Option Pairs
unfolding is trim_space set_key
selector_pair selector none = none
selector_pair selector (some (key, value)) =
    if is (trim_space key) "" || is (trim_space value) ""
    then none
    else some (set_key selector (trim_space key) (trim_space value))

selector_step : Pairs → Text → Option Pairs
unfolding selector_pair cut
selector_step selector part = selector_pair selector (cut part b'=')

selector_loop : Pairs → List Text → Option Pairs
unfolding selector_step
selector_loop selector [] = some selector
selector_loop selector (part ∷ parts) = selector_step selector part >>= λ s. selector_loop s parts

unfoldable pub parse_selector : Text → Option Pairs
unfolding selector_loop split_on
parse_selector raw = elim (selector_loop [] (split_on b',' raw)) [
  | none ↦ none
  | some [] ↦ none
  | some (p ∷ ps) ↦ some (p ∷ ps)
]

unfoldable pub labels_match : Pairs → Pairs → Bool
unfolding value_of equal
labels_match labels [] = true
labels_match labels ((key, value) ∷ selector) =
    let rest = labels_match labels selector in
    if not (equal (value_of labels key) value) then false else rest

abbrev IsFull : Text × Text → Type 0
IsFull pair = is pair.1 "" ≡ false

set_key-IsFull :
    (pairs : Pairs) (key value : Text)
    → is value "" ≡ false
    → All IsFull pairs
    → All IsFull (set_key pairs key value)
unfolding set_key
set_key-IsFull [] key value n h = (n, tt)
set_key-IsFull ((k, v) ∷ pairs) key value n h =
    split_if (All IsFull) (equal k key) (λ _. (n, h.1))
      λ _. (h.0, set_key-IsFull pairs key value n h.1)

selector_pair-IsFull :
    (selector : Pairs) (o : Option (Text × Text))
    → All IsFull selector
    → IfSome (All IsFull) (selector_pair selector o)
unfolding selector_pair
selector_pair-IsFull selector none h = tt
selector_pair-IsFull selector (some (key, value)) h =
    split_if (IfSome (All IsFull)) (is (trim_space key) "" || is (trim_space value) "") (λ _. tt)
      λ n. set_key-IsFull selector (trim_space key) (trim_space value) (ground arith) h

selector_step-IsFull :
    (selector : Pairs) (part : Text)
    → All IsFull selector
    → IfSome (All IsFull) (selector_step selector part)
unfolding selector_step
selector_step-IsFull selector part h = selector_pair-IsFull selector (cut part b'=') h

nonempty :
    (o : Option Pairs)
    → IfSome (All IsFull) o
    → IfSome (All IsFull) (elim o [ none ↦ none | some [] ↦ none | some (p ∷ ps) ↦ some (p ∷ ps) ])
nonempty none h = tt
nonempty (some []) h = tt
nonempty (some (p ∷ ps)) h = h

selector_loop-IsFull :
    (selector : Pairs) (parts : List Text)
    → All IsFull selector
    → IfSome (All IsFull) (selector_loop selector parts)
unfolding selector_loop selector_step
selector_loop-IsFull selector [] h = h
selector_loop-IsFull selector (part ∷ parts) h = elim (Option-cases (selector_step selector part)) [
  | inl e ↦ rw e tt
  | inr (s, e) ↦ rw e (
      selector_loop-IsFull s parts
        (IfSome-eq (All IsFull) (selector_step-IsFull selector part h) e))
]

parse_selector-IsFull : (raw : Text) → IfSome (All IsFull) (parse_selector raw)
unfolding parse_selector
parse_selector-IsFull raw =
    nonempty (selector_loop [] (split_on b',' raw)) (selector_loop-IsFull [] (split_on b',' raw) tt)

-- The labels have each key of the selector, with its value: a label that is missing never matches.
abbrev pub HasPairs : Pairs → Pairs → Type 0
HasPairs labels selector = All (λ (pair : Text × Text). lookup labels pair.0 ≡ some pair.1) selector

missing : (labels : Pairs) (key : Text) → lookup labels key ≡ none → value_of labels key ≡ []
unfolding value_of
missing labels key e = rw (e, value_of) refl

present :
    (labels : Pairs) (key : Text) {x : Text} → lookup labels key ≡ some x → value_of labels key ≡ x
unfolding value_of
present labels key e = rw (e, value_of) refl

empty_value : (v : Text) → equal [] v ≡ true → is v "" ≡ true
unfolding equal is
empty_value [] e = refl
empty_value (x ∷ v) e = absurd (ground arith)

full : {b : Bool} → b ≡ false → b ≡ true → ⊥
full e f = cc

labels_match-HasPairs :
    (labels selector : Pairs)
    → All IsFull selector
    → labels_match labels selector ≡ true
    → HasPairs labels selector
unfolding labels_match value_of
labels_match-HasPairs labels [] h m = tt
labels_match-HasPairs labels ((k, v) ∷ selector) h m =
    let same : equal (value_of labels k) v ≡ true = ground arith in
    let found : lookup labels k ≡ some v = elim (Option-cases (lookup labels k)) [
      | inl e ↦
          absurd
            (full h.0 (empty_value v (subst (λ t. equal t v ≡ true) (missing labels k e) same)))
      | inr (x, e) ↦
          e ∙ ap some ((equal_iff x v).0 (subst (λ t. equal t v ≡ true) (present labels k e) same))
    ] in
    (found, labels_match-HasPairs labels selector h.1 (ground arith))

-- Where the labels match a selector that was parsed, they have each of its keys, with its value: a
-- label that is missing matches nothing.
pub parse_selector_match :
    (raw : Text) (labels : Pairs) {selector : Pairs}
    → parse_selector raw ≡ some selector
    → labels_match labels selector ≡ true
    → HasPairs labels selector
parse_selector_match raw labels {selector} e m =
    labels_match-HasPairs labels selector (IfSome-eq (All IsFull) (parse_selector-IsFull raw) e) m
