-- ===== src/Cmdclass/Words.antt =====
-- The word tests of internal/cmdclass/cmdclass.go and its tables of commands.
use srvgov_cli.Prelude.{
  String, Bool, true, false, not, ◌&&◌, ◌||◌, none, some, List, [], ◌∷◌, ◌==◌, if◌then◌else◌,
}
use srvgov_cli.GoText.{
  is, Text, has_exact_word, has_prefix, base, replace_unit, to_lower, Std, cut, trim_suffix_unit,
  is_letter, is_digit,
}

unfoldable pub read_only_commands : List String
read_only_commands =
    "cat" ∷ "df" ∷ "du" ∷ "echo" ∷ "free" ∷ "grep" ∷ "head" ∷ "id" ∷ "ls" ∷ "netstat" ∷ "pgrep"
    ∷ "printf" ∷ "ps" ∷ "pwd" ∷ "readlink" ∷ "stat" ∷ "tail" ∷ "uname" ∷ "uptime" ∷ "wc" ∷ "whoami"
    ∷ []

unfoldable pub dangerous_commands : List String
dangerous_commands =
    "." ∷ "bash" ∷ "builtin" ∷ "busybox" ∷ "chrt" ∷ "command" ∷ "dash" ∷ "dd" ∷ "doas"
    ∷ "docker-compose" ∷ "exec" ∷ "expect" ∷ "fdisk" ∷ "firewall-cmd" ∷ "flock" ∷ "halt" ∷ "init"
    ∷ "ionice" ∷ "iptables" ∷ "ksh" ∷ "lua" ∷ "luajit" ∷ "lvremove" ∷ "mkfs" ∷ "ncat" ∷ "nc"
    ∷ "nice" ∷ "nohup" ∷ "parted" ∷ "php" ∷ "php-cgi" ∷ "pkexec" ∷ "poweroff" ∷ "reboot" ∷ "setsid"
    ∷ "shutdown" ∷ "sh" ∷ "socat" ∷ "source" ∷ "stdbuf" ∷ "su" ∷ "sudo" ∷ "taskset" ∷ "tclsh"
    ∷ "time" ∷ "timeout" ∷ "trap" ∷ "ufw" ∷ "watch" ∷ "wipefs" ∷ "wish" ∷ "zsh" ∷ []

unfoldable pub write_commands : List String
write_commands =
    "chmod" ∷ "chown" ∷ "cp" ∷ "install" ∷ "ln" ∷ "mkdir" ∷ "mv" ∷ "tee" ∷ "touch" ∷ "truncate" ∷ []

-- strings.HasPrefix against several literals
has_some_prefix : Text → List String → Bool
unfolding has_prefix
has_some_prefix word [] = false
has_some_prefix word (p ∷ ps) = has_prefix word p || has_some_prefix word ps

module _ ⦃std : Std⦄ where
  unfoldable pub has_any_word : List Text → List String → Bool
  unfolding has_exact_word is to_lower
  has_any_word [] candidates = false
  has_any_word (w ∷ ws) candidates =
      has_exact_word (to_lower w) candidates || has_any_word ws candidates

  unfoldable pub has_option_prefix : List Text → List String → Bool
  unfolding has_some_prefix to_lower
  has_option_prefix [] prefixes = false
  has_option_prefix (w ∷ ws) prefixes =
      has_some_prefix (to_lower w) prefixes || has_option_prefix ws prefixes

  unfoldable pub command_name : Text → Text
  unfolding base replace_unit to_lower
  command_name value = to_lower (base (replace_unit 92 b'/' value))

  is_name_rest : Text → Bool
  unfolding is_letter is_digit
  is_name_rest [] = true
  is_name_rest (r ∷ rs) =
      if not (r == b'_') && not (is_letter r) && not (is_digit r) then false else is_name_rest rs

  is_name : Text → Bool
  unfolding is_name_rest
  is_name [] = false
  is_name (r ∷ rs) = if not (r == b'_') && not (is_letter r) then false else is_name_rest rs

  unfoldable pub is_shell_assignment : Text → Bool
  unfolding cut trim_suffix_unit is_name
  is_shell_assignment value = elim (cut value b'=') [
    | none ↦ false
    | some (before, _) ↦ is_name (trim_suffix_unit before b'+')
  ]
