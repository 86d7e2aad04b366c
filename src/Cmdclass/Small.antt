-- ===== src/Cmdclass/Small.antt =====
-- `classifyDate`, `classifyHostname`, `classifySystemctl`, `ssKillsSockets` and `findWriteTarget` of
-- internal/cmdclass/cmdclass.go.
use srvgov_cli.Prelude.{
  Bool, true, false, not, ◌&&◌, ◌||◌, Option, none, some, List, [], ◌∷◌, if◌then◌else◌,
}
use srvgov_cli.GoText.{Text, is, has_exact_word, has_prefix, trim_prefix, mem_unit, to_lower, Std}
use srvgov_cli.Cmdclass.Risk.{Risk, r0, r2, r3}
use srvgov_cli.Cmdclass.Options.{Next, same, following, walk}
use srvgov_cli.Cmdclass.Words.{has_any_word}

-- an option whose value is the next argument
take_next : List Text → Option (Next × Unit {0})
take_next [] = none
take_next (_ ∷ _) = some (following, tt)

date_step : Unit {0} → Text → List Text → Option (Next × Unit {0})
unfolding take_next is has_prefix has_exact_word
date_step u arg rest =
    if has_prefix arg "-s" || is arg "--set" || has_prefix arg "--set="
    then none
    else if has_prefix arg "+"
    then some (same, tt)
    else if has_exact_word arg (
        "-u" ∷ "-R" ∷ "-I" ∷ "--utc" ∷ "--universal" ∷ "--rfc-email" ∷ "--debug" ∷ "--resolution"
        ∷ "--help" ∷ "--version" ∷ "--iso-8601" ∷ [])
    then some (same, tt)
    else if has_exact_word arg ("-d" ∷ "-f" ∷ "-r" ∷ "--date" ∷ "--file" ∷ "--reference" ∷ [])
    then take_next rest
    else if has_prefix arg "-d"
        || has_prefix arg "-f"
        || has_prefix arg "-r"
        || has_prefix arg "--date="
        || has_prefix arg "--file="
        || has_prefix arg "--reference="
        || has_prefix arg "--iso-8601="
        || has_prefix arg "--rfc-3339="
    then some (same, tt)
    else none

unfoldable pub classify_date : List Text → Risk
unfolding date_step walk
classify_date args = elim (walk date_step same tt args) [ none ↦ r3 | some _ ↦ r0 ]

unfoldable pub classify_hostname : List Text → Risk
unfolding has_exact_word is
classify_hostname [] = r0
classify_hostname (arg ∷ args) =
    if not (
      has_exact_word arg (
        "-a" ∷ "--alias" ∷ "-d" ∷ "--domain" ∷ "-f" ∷ "--fqdn" ∷ "--long" ∷ "-i" ∷ "--ip-address"
        ∷ "-I" ∷ "--all-ip-addresses" ∷ "-s" ∷ "--short" ∷ "-y" ∷ "--yp" ∷ "--nis" ∷ "-V"
        ∷ "--version" ∷ "-h" ∷ "--help" ∷ []))
    then r3
    else classify_hostname args

unfoldable pub ss_kills_sockets : List Text → Bool
unfolding is has_prefix trim_prefix mem_unit
ss_kills_sockets [] = false
ss_kills_sockets (arg ∷ args) =
    if is arg "--kill" || has_prefix arg "--kill="
    then true
    else if has_prefix arg "-" && not (has_prefix arg "--") && mem_unit (trim_prefix arg "-") b'K'
    then true
    else ss_kills_sockets args

module _ ⦃std : Std⦄ where
  -- The arguments behind the command's name.
  unfoldable pub classify_systemctl : List Text → Risk
  unfolding to_lower has_prefix has_any_word
  classify_systemctl [] = r3
  classify_systemctl (word ∷ _) =
      let subcommand = to_lower word in
      if has_prefix subcommand "-"
      then r3
      else if has_any_word (subcommand ∷ []) (
          "reboot" ∷ "poweroff" ∷ "halt" ∷ "kexec" ∷ "suspend" ∷ "hibernate" ∷ "hybrid-sleep"
          ∷ "emergency" ∷ "rescue" ∷ "isolate" ∷ "switch-root" ∷ "mask" ∷ [])
      then r3
      else if has_any_word (subcommand ∷ [])
          ("status" ∷ "show" ∷ "is-active" ∷ "is-enabled" ∷ "list-units" ∷ "list-unit-files" ∷ [])
      then r0
      else r2

  -- The file that `find` writes: `some` of an empty text where the option's value is missing.
  unfoldable pub find_write_target : List Text → Option Text
  unfolding to_lower has_exact_word is
  find_write_target [] = none
  find_write_target (arg ∷ []) =
      if has_exact_word (to_lower arg) ("-fprintf" ∷ "-fprint" ∷ "-fprint0" ∷ "-fls" ∷ [])
      then some []
      else none
  find_write_target (arg ∷ target ∷ rest) =
      if has_exact_word (to_lower arg) ("-fprintf" ∷ "-fprint" ∷ "-fprint0" ∷ "-fls" ∷ [])
      then some target
      else find_write_target (target ∷ rest)
