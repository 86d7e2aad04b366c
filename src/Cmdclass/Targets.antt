-- ===== src/Cmdclass/Targets.antt =====
-- The paths that may not be written: `isSystemPath`, `isSensitiveWriteTarget` and
-- `isUnsafeOutputTarget` of internal/cmdclass/cmdclass.go.
use srvgov_cli.Prelude.{ℕ, zero, suc, Bool, true, ◌||◌, none, some, [], ◌∷◌, ◌++◌, if◌then◌else◌}
use srvgov_cli.GoText.{
  Text, codes, is, has_exact_word, has_prefix, has_suffix, contains, trim_prefix, replace_unit, cut,
  clean, base, to_lower, Std,
}

-- `for strings.HasPrefix(cleaned, "../")`: `skip` units of a removed prefix are still to come.
strip_parents : ℕ → Text → Text
unfolding has_prefix
strip_parents skip [] = []
strip_parents (suc skip) (x ∷ xs) = strip_parents skip xs
strip_parents zero (x ∷ xs) =
    let rest = strip_parents 2 xs in if has_prefix (x ∷ xs) "../" then rest else x ∷ xs

-- `strings.SplitN(value, "/", 2)[0]`
first_part : Text → Text
unfolding cut
first_part value = elim (cut value b'/') [ none ↦ value | some (a, _) ↦ a ]

unfoldable pub is_system_path : Text → Bool
unfolding strip_parents first_part clean replace_unit trim_prefix has_prefix is has_exact_word
is_system_path value =
    let cleaned = strip_parents 0 (clean (replace_unit 92 b'/' value)) in
    let first = first_part (trim_prefix cleaned "/") in
    if is cleaned "/"
    then true
    else if has_prefix first "lib"
    then true
    else has_exact_word first (
        "bin" ∷ "boot" ∷ "dev" ∷ "etc" ∷ "proc" ∷ "root" ∷ "run" ∷ "sbin" ∷ "sys" ∷ "usr" ∷ "var"
        ∷ [])

module _ ⦃std : Std⦄ where
  unfoldable pub is_sensitive_write_target : Text → Bool
  unfolding is_system_path to_lower clean base replace_unit trim_prefix has_prefix has_suffix is
      has_exact_word contains
  is_sensitive_write_target value =
      let normalized = to_lower (replace_unit 92 b'/' value) in
      let plain = clean normalized in
      let cleaned =
        if has_prefix plain "~/" then codes "/home/~/" ++ trim_prefix plain "~/" else plain in
      if is_system_path value
      then true
      else if is cleaned ".ssh"
          || has_prefix cleaned ".ssh/"
          || contains cleaned "/.ssh/"
          || has_suffix cleaned "/.ssh"
      then true
      else if has_exact_word (base cleaned) (
          "authorized_keys" ∷ ".bashrc" ∷ ".profile" ∷ ".bash_profile" ∷ ".zshrc" ∷ ".ssh" ∷ "cron"
          ∷ "cron.d" ∷ "crontab" ∷ [])
      then true
      else is cleaned "/var/spool/cron" || has_prefix cleaned "/var/spool/cron/"

  unfoldable pub is_unsafe_output_target : Text → Bool
  unfolding is_sensitive_write_target is
  is_unsafe_output_target value = is value "" || is_sensitive_write_target value
