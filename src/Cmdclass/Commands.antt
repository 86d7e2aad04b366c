-- ===== src/Cmdclass/Commands.antt =====
-- `classifyWords` of internal/cmdclass/cmdclass.go: the rule table of the commands.
use srvgov_cli.Prelude.{Bool, ◌||◌, none, some, List, [], ◌∷◌, if◌then◌else◌, any}
use srvgov_cli.GoText.{Text, is, has_exact_word, has_prefix, Std}
use srvgov_cli.Cmdclass.Risk.{Risk, r0, r1, r2, r3}
use srvgov_cli.Cmdclass.Words.{
  command_name, is_shell_assignment, dangerous_commands, write_commands, read_only_commands,
  has_any_word,
}
use srvgov_cli.Cmdclass.Targets.{is_sensitive_write_target}
use srvgov_cli.Cmdclass.Rm.{classify_rm}
use srvgov_cli.Cmdclass.Small.{
  classify_date, classify_hostname, classify_systemctl, ss_kills_sockets, find_write_target,
}
use srvgov_cli.Cmdclass.Journal.{classify_journalctl}
use srvgov_cli.Cmdclass.Ip.{classify_ip}
use srvgov_cli.Cmdclass.Docker.{classify_docker}
use srvgov_cli.Cmdclass.Curl.{classify_curl}
use srvgov_cli.Cmdclass.Wget.{classify_wget}

module _ ⦃std : Std⦄ where
  -- the first test of `classifyWords`
  unfoldable pub is_refused_command : Text → Bool
  is_refused_command word =
      is (command_name word) "!"
      || is_shell_assignment word
      || has_exact_word (command_name word) dangerous_commands
      || has_prefix (command_name word) "mkfs."

  unfoldable pub is_sudo : Text → Bool
  is_sudo word = is (command_name word) "sudo"

  unfoldable pub classify_find : List Text → Risk
  classify_find args =
      if has_any_word args ("-exec" ∷ "-execdir" ∷ "-delete" ∷ "-ok" ∷ "-okdir" ∷ [])
      then r3
      else elim (find_write_target args) [
        | none ↦ r0
        | some target ↦ if is target "" || is_sensitive_write_target target then r3 else r2
      ]

  -- The part behind the `switch`.
  unfoldable pub classify_other : Text → List Text → Risk
  classify_other command args =
      if has_exact_word command write_commands
      then (if any is_sensitive_write_target args
          then r3
          else if is command "mkdir" || is command "touch"
          then r1
          else r2)
      else if has_exact_word command read_only_commands
      then r0
      else r2

  -- The `switch command`.
  unfoldable pub classify_command : Text → List Text → Risk
  classify_command command args =
      if is command "rm"
      then classify_rm args
      else if is command "date"
      then classify_date args
      else if is command "hostname"
      then classify_hostname args
      else if is command "journalctl"
      then classify_journalctl args
      else if is command "curl"
      then classify_curl args
      else if is command "wget"
      then classify_wget args
      else if is command "find"
      then classify_find args
      else if is command "ss"
      then (if ss_kills_sockets args then r3 else r0)
      else if has_exact_word command (
          "awk" ∷ "gawk" ∷ "mawk" ∷ "perl" ∷ "python" ∷ "python3" ∷ "ruby" ∷ "node" ∷ "eval"
          ∷ "xargs" ∷ "env" ∷ [])
      then r3
      else if is command "systemctl"
      then classify_systemctl args
      else if is command "docker"
      then classify_docker args
      else if is command "ip"
      then classify_ip args
      else classify_other command args

  -- The source's callers pass one word at least.
  unfoldable pub classify_words : List Text → Risk
  classify_words [] = r3
  classify_words (word ∷ args) =
      if is_refused_command word
      then r3
      else if any is_sudo (word ∷ args)
      then r3
      else classify_command (command_name word) args
