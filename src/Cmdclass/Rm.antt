-- ===== src/Cmdclass/Rm.antt =====
-- `classifyRM` of internal/cmdclass/cmdclass.go.
pub mod Refusals
use srvgov_cli.Prelude.{
  Bool, true, false, not, ◌&&◌, ◌||◌, Option, none, some, List, [], ◌∷◌, ◌==◌, if◌then◌else◌,
}
use srvgov_cli.GoText.{Text, is, has_exact_word, has_prefix, trim_prefix, contains_rune, Std}
use srvgov_cli.Cmdclass.Risk.{Risk, r2, r3}
use srvgov_cli.Cmdclass.Options.{Next, same, walk}
use srvgov_cli.Cmdclass.Targets.{is_sensitive_write_target}

-- the short flags that are accepted
rm_flags : Text → Bool
unfolding contains_rune
rm_flags [] = true
rm_flags (flag ∷ flags) =
    if flag == b'r' || flag == b'R'
    then false
    else if not (contains_rune "dfiIv" flag)
    then false
    else rm_flags flags

-- the `switch` over a long option
rm_long_option : Text → Bool
unfolding is has_exact_word has_prefix
rm_long_option arg =
    if is arg "--recursive"
    then false
    else has_exact_word arg (
        "--dir" ∷ "--force" ∷ "--help" ∷ "--interactive" ∷ "--no-preserve-root"
        ∷ "--one-file-system" ∷ "--preserve-root" ∷ "--verbose" ∷ "--version" ∷ [])
      || has_prefix arg "--interactive="
      || is arg "--preserve-root=all"

module _ ⦃std : Std⦄ where
  -- One round; the state is `parseOptions`.
  rm_step : Bool → Text → List Text → Option (Next × Bool)
  rm_step parse_options arg rest =
      if parse_options && is arg "--"
      then some (same, false)
      else if parse_options && has_prefix arg "--"
      then (if rm_long_option arg then some (same, parse_options) else none)
      else if parse_options && has_prefix arg "-" && not (is arg "-")
      then (if rm_flags (trim_prefix arg "-") then some (same, parse_options) else none)
      else if is_sensitive_write_target arg
      then none
      else some (same, parse_options)

  unfoldable pub classify_rm : List Text → Risk
  unfolding rm_step walk is has_prefix trim_prefix rm_flags rm_long_option is_sensitive_write_target
  classify_rm args = elim (walk rm_step same true args) [ none ↦ r3 | some _ ↦ r2 ]
