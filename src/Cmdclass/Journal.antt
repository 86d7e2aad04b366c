-- ===== src/Cmdclass/Journal.antt =====
-- `classifyJournalctl` of internal/cmdclass/cmdclass.go.
use srvgov_cli.Prelude.{
  Bool, false, not, ◌&&◌, ◌||◌, Option, none, some, List, [], ◌∷◌, ◌==◌, if◌then◌else◌, all,
}
use srvgov_cli.GoText.{
  Text, is, has_exact_word, has_prefix, trim_prefix, contains_rune, to_lower, Std, is_ascii_digit,
}
use srvgov_cli.Cmdclass.Risk.{Risk, r0, r3}
use srvgov_cli.Cmdclass.Options.{Next, same, following, walk}
use srvgov_cli.Cmdclass.Words.{has_any_word, has_option_prefix}

is_journal_boot_offset : Text → Bool
unfolding trim_prefix is is_ascii_digit
is_journal_boot_offset value =
    let digits = trim_prefix (trim_prefix value "-") "+" in
    if is digits "" then false else all is_ascii_digit digits

-- `index+1 < len(args) && isJournalBootOffset(args[index+1])`
offset_follows : List Text → Bool
unfolding is_journal_boot_offset
offset_follows [] = false
offset_follows (v ∷ _) = is_journal_boot_offset v

-- a value that must follow and may not look like a long option
value_follows : List Text → Option Next
unfolding has_prefix
value_follows [] = none
value_follows (v ∷ _) = if has_prefix v "--" then none else some following

-- The flags of one short option, from some position on; `none` where the source returns false.
journal_flags : Text → List Text → Option Next
unfolding is_journal_boot_offset value_follows is contains_rune
journal_flags [] rest = some same
journal_flags (flag ∷ more) rest =
    let others = journal_flags more rest in
    if flag == b'b' && not (is more "") && is_journal_boot_offset more
    then some same
    else if contains_rune "abefhklmNqrxV" flag
    then others
    else if not (contains_rune "cDFgMnopStuU" flag)
    then none
    else if not (is more "")
    then some same
    else value_follows rest

classify_journal_short_option : Text → List Text → Option Next
unfolding trim_prefix is journal_flags
classify_journal_short_option arg rest =
    let option = trim_prefix arg "-" in if is option "" then none else journal_flags option rest

-- The round's part for a long option.
module _ ⦃std : Std⦄ where
  journal_long_option : Text → List Text → Option Next
  unfolding offset_follows value_follows is has_exact_word has_option_prefix
  journal_long_option arg rest =
      if has_exact_word arg (
        "--all" ∷ "--boot" ∷ "--case-sensitive" ∷ "--catalog" ∷ "--disk-usage" ∷ "--dmesg"
        ∷ "--fields" ∷ "--follow" ∷ "--full" ∷ "--header" ∷ "--help" ∷ "--list-boots"
        ∷ "--list-fields" ∷ "--local" ∷ "--merge" ∷ "--no-hostname" ∷ "--no-pager" ∷ "--no-tail"
        ∷ "--pager-end" ∷ "--quiet" ∷ "--reverse" ∷ "--show-cursor" ∷ "--system" ∷ "--user"
        ∷ "--utc" ∷ "--verify" ∷ "--version" ∷ [])
      then (if is arg "--boot" && offset_follows rest then some following else some same)
      else if has_exact_word arg (
          "--after-cursor" ∷ "--cursor" ∷ "--directory" ∷ "--facility" ∷ "--field" ∷ "--file"
          ∷ "--grep" ∷ "--identifier" ∷ "--image" ∷ "--interval" ∷ "--lines" ∷ "--machine"
          ∷ "--namespace" ∷ "--output" ∷ "--output-fields" ∷ "--priority" ∷ "--root" ∷ "--since"
          ∷ "--unit" ∷ "--until" ∷ "--user-unit" ∷ "--verify-key" ∷ [])
      then value_follows rest
      else if has_option_prefix (arg ∷ []) (
          "--after-cursor=" ∷ "--boot=" ∷ "--cursor=" ∷ "--directory=" ∷ "--facility=" ∷ "--field="
          ∷ "--file=" ∷ "--grep=" ∷ "--identifier=" ∷ "--image=" ∷ "--interval=" ∷ "--lines="
          ∷ "--machine=" ∷ "--namespace=" ∷ "--output=" ∷ "--output-fields=" ∷ "--priority="
          ∷ "--root=" ∷ "--since=" ∷ "--unit=" ∷ "--until=" ∷ "--user-unit=" ∷ "--verify-key=" ∷ [])
      then some same
      else none

  -- Options that change the journal.
  is_maintenance : Text → Bool
  unfolding has_any_word has_prefix
  is_maintenance lower =
      has_any_word (lower ∷ []) (
        "--rotate" ∷ "--flush" ∷ "--sync" ∷ "--relinquish-var" ∷ "--smart-relinquish-var"
        ∷ "--setup-keys" ∷ "--update-catalog" ∷ "--cursor-file" ∷ [])
      || has_prefix lower "--vacuum-"
      || has_prefix lower "--cursor-file="

  journal_next : Text → List Text → Option Next
  unfolding is_maintenance journal_long_option classify_journal_short_option offset_follows to_lower
      is has_prefix
  journal_next arg rest =
      if is_maintenance (to_lower arg)
      then none
      else if not (has_prefix arg "-")
      then some same
      else if not (has_prefix arg "--")
      then (if is arg "-b" && offset_follows rest
          then some following
          else classify_journal_short_option arg rest)
      else journal_long_option arg rest

  journal_step : Unit {0} → Text → List Text → Option (Next × Unit {0})
  unfolding journal_next
  journal_step u arg rest = elim (journal_next arg rest) [ none ↦ none | some n ↦ some (n, tt) ]

  unfoldable pub classify_journalctl : List Text → Risk
  unfolding journal_step walk
  classify_journalctl args = elim (walk journal_step same tt args) [ none ↦ r3 | some _ ↦ r0 ]
