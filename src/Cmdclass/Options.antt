-- ===== src/Cmdclass/Options.antt =====
-- The loops over `args` of internal/cmdclass/cmdclass.go. Where the source holds `args` and an index,
-- the model holds the argument at the index and those behind it; an index that comes back is the same
-- one or the one after it.
pub mod Visits
use srvgov_cli.Prelude.{Option, none, some, List, [], ◌∷◌, if◌then◌else◌}
use srvgov_cli.GoText.{Text, cut, is}

pub data Next : Type 0 where
  same following : Next

-- `for i := 0; i < len(args); i++` with a state, where `i = next` skips an argument and `none` is
-- `return safety.R3`.
unfoldable pub walk {ℓ} :
    {S : Type ℓ} → (S → Text → List Text → Option (Next × S)) → Next → S → List Text → Option S
walk body next s [] = some s
walk body following s (arg ∷ rest) = walk body same s rest
walk body same s (arg ∷ rest) = elim (body s arg rest) [
  | none ↦ none
  | some (next, s') ↦ walk body next s' rest
]

-- An option's name, and the value behind its first equals sign.
unfoldable pub split_long_option : Text → Text × Option Text
unfolding cut
split_long_option arg = elim (cut arg b'=') [
  | none ↦ (arg, none)
  | some (name, value) ↦ (name, some value)
]

-- `none` where the source returns false.
unfoldable pub long_option_value : List Text → Option Text → Option (Text × Next)
unfolding is
long_option_value rest (some value) = if is value "" then none else some (value, same)
long_option_value [] none = none
long_option_value (v ∷ rest) none = if is v "" then none else some (v, following)

unfoldable pub joined_or_next_option_value : Text → List Text → Option (Text × Next)
unfolding is
joined_or_next_option_value (c ∷ joined) rest = some (c ∷ joined, same)
joined_or_next_option_value [] [] = none
joined_or_next_option_value [] (v ∷ rest) = if is v "" then none else some (v, following)
