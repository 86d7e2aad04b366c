-- ===== src/Remote/Names.antt =====
-- The command names and options of the remote commands, as the tables of internal/cmdclass see them.
use srvgov_cli.Prelude.{◌≡◌, refl, Bool, true, false, ◌||◌, List, ◌∷◌, if◌then◌else◌, any}
use srvgov_cli.GoText.{Text, codes, is, has_exact_word, has_prefix, Std}
use srvgov_cli.Cmdclass.Risk.{r0, r2, r3}
use srvgov_cli.Cmdclass.Words.{
  command_name, read_only_commands, dangerous_commands, write_commands, is_shell_assignment,
}
use srvgov_cli.Cmdclass.Targets.{is_sensitive_write_target}
use srvgov_cli.Cmdclass.Commands.{
  classify_words, is_sudo, is_refused_command, classify_command, classify_other,
}

pub or_false : (b : Bool) → (b || false) ≡ b
or_false false = refl
or_false true = refl

module _ ⦃std : Std⦄ where
  -- A command name from the table of the commands that read.
  abbrev pub IsReader : Text → Type 0
  IsReader w =
      (is_refused_command w ≡ false)
      × (is_sudo w ≡ false)
      × (classify_command (command_name w) ≡ classify_other (command_name w))
      × (has_exact_word (command_name w) write_commands ≡ false)
      × (has_exact_word (command_name w) read_only_commands ≡ true)

  pub reader_class :
      (w : Text) (args : List Text)
      → IsReader w
      → classify_words (w ∷ args) ≡ (if any is_sudo args then r3 else r0)
  unfolding classify_words classify_other
  reader_class w args (refused, sudo, other, writes, reads) =
      rw (refused, sudo, other, writes, reads) refl

  pub stat-IsReader : IsReader (codes "stat")
  unfolding is_refused_command is_sudo classify_command command_name has_exact_word is
      read_only_commands write_commands dangerous_commands is_shell_assignment has_prefix
  stat-IsReader = (refl, refl, refl, refl, refl)

  pub readlink-IsReader : IsReader (codes "readlink")
  unfolding is_refused_command is_sudo classify_command command_name has_exact_word is
      read_only_commands write_commands dangerous_commands is_shell_assignment has_prefix
  readlink-IsReader = (refl, refl, refl, refl, refl)

  pub head-IsReader : IsReader (codes "head")
  unfolding is_refused_command is_sudo classify_command command_name has_exact_word is
      read_only_commands write_commands dangerous_commands is_shell_assignment has_prefix
  head-IsReader = (refl, refl, refl, refl, refl)

  pub tail-IsReader : IsReader (codes "tail")
  unfolding is_refused_command is_sudo classify_command command_name has_exact_word is
      read_only_commands write_commands dangerous_commands is_shell_assignment has_prefix
  tail-IsReader = (refl, refl, refl, refl, refl)

  pub is_sudo_c : is_sudo (codes "-c") ≡ false
  unfolding is_sudo command_name is
  is_sudo_c = refl

  pub is_sudo_dashes : is_sudo (codes "--") ≡ false
  unfolding is_sudo command_name is
  is_sudo_dashes = refl

  pub is_sudo_format : is_sudo (codes "%F\t%s\t%a\t%U\t%G\t%Y") ≡ false
  unfolding is_sudo command_name is
  is_sudo_format = refl

  pub is_sudo_n : is_sudo (codes "-n") ≡ false
  unfolding is_sudo command_name is
  is_sudo_n = refl

  pub is_sudo_f : is_sudo (codes "-f") ≡ false
  unfolding is_sudo command_name is
  is_sudo_f = refl

  either_test :
      (a b : Bool) → (if a then r3 else if b then r3 else r2) ≡ (if a || b then r3 else r2)
  either_test true b = refl
  either_test false b = refl

  -- A command name from the table of the commands that write, with no rule of its own.
  abbrev pub IsWriter : Text → Type 0
  IsWriter w =
      (is_refused_command w ≡ false)
      × (is_sudo w ≡ false)
      × (classify_command (command_name w) ≡ classify_other (command_name w))
      × (has_exact_word (command_name w) write_commands ≡ true)
      × ((is (command_name w) "mkdir" || is (command_name w) "touch") ≡ false)

  pub writer_class :
      (w : Text) (args : List Text)
      → IsWriter w
      → classify_words (w ∷ args)
        ≡ (if any is_sudo args || any is_sensitive_write_target args then r3 else r2)
  unfolding classify_words classify_other
  writer_class w args (refused, sudo, other, writes, makes) =
      rw (refused, sudo, other, writes, makes)
        (either_test (any is_sudo args) (any is_sensitive_write_target args))

  pub tee-IsWriter : IsWriter (codes "tee")
  unfolding is_refused_command is_sudo classify_command command_name has_exact_word is
      read_only_commands write_commands dangerous_commands is_shell_assignment has_prefix
  tee-IsWriter = (refl, refl, refl, refl, refl)

  pub dashes_not_sensitive : is_sensitive_write_target (codes "--") ≡ false
  unfolding is_sensitive_write_target
  dashes_not_sensitive = refl
