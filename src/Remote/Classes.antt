-- ===== src/Remote/Classes.antt =====
-- What `Classify` says of the commands that are put together around an operator's text.
use srvgov_cli.Prelude.{
  ℕ, ◌+◌, ◌≡◌, refl, ap, ◌∙◌, ◌||◌, List, [], ◌∷◌, ◌++◌, map, if◌then◌else◌, any, All,
}
use srvgov_cli.GoText.{Text, codes, Std}
use srvgov_cli.Cmdclass.Risk.{r0, r2, r3}
use srvgov_cli.Cmdclass.Targets.{is_sensitive_write_target}
use srvgov_cli.Cmdclass.Commands.{classify_words, is_sudo}
use srvgov_cli.Cmdclass.Scan.Quote.{IsClean}
use srvgov_cli.Cmdclass.Scan.Arguments.{Arg, bare, quoted, arg_word, IsArg, line, is_bare}
use srvgov_cli.Cmdclass.Classify.{classify}
use srvgov_cli.Observe.ShellQuote.{shell_quote}
use srvgov_cli.Remote.{
  file_stat_command, file_read_command, file_write_policy_command, file_command, LogOptions,
  file_write_resolve_directory_command, itoa,
}
use srvgov_cli.Remote.Digits.{itoa-IsDigit, itoa-ne-nil, itoa_not_sudo, digits-IsBare}
use srvgov_cli.Cmdclass.Classify.Lines.{classify-line, is_plain, plain_word, any-IsClean}
use srvgov_cli.Remote.Names.{
  or_false, IsReader, reader_class, stat-IsReader, readlink-IsReader, head-IsReader, tail-IsReader,
  is_sudo_c, is_sudo_dashes, is_sudo_format, is_sudo_n, is_sudo_f, writer_class, tee-IsWriter,
  dashes_not_sensitive,
}

number_word : (n : ℕ) → IsArg (bare (itoa n))
number_word n = (itoa-ne-nil n, digits-IsBare (itoa n) (itoa-IsDigit n))

module _ ⦃std : Std⦄ where
  -- A command of the reading table, sent with a path as its last argument, behind words none of which
  -- names sudo.
  reader_line :
      (name path : Text) (before : List Arg)
      → IsReader name
      → All IsArg (bare name ∷ before ++ quoted path ∷ [])
      → any is_sudo (map arg_word (before ++ quoted path ∷ [])) ≡ is_sudo path
      → classify (line (bare name) (before ++ quoted path ∷ [])) ≡ (if is_sudo path then r3 else r0)
  reader_line name path before reader args sudo =
      classify-line (bare name) (before ++ quoted path ∷ []) args
      ∙ reader_class name (map arg_word (before ++ quoted path ∷ [])) reader
      ∙ rw sudo refl

  stat_line :
      (path : Text)
      → file_stat_command path
        ≡ line (bare (codes "stat")) (
            bare (codes "-c")
            ∷ quoted (codes "%F\t%s\t%a\t%U\t%G\t%Y")
            ∷ bare (codes "--")
            ∷ quoted path
            ∷ [])
  unfolding file_stat_command line shell_quote
  stat_line path = refl

  -- `stat` on any path is R0, unless the path's last component is named sudo.
  pub classify-file_stat_command :
      (path : Text)
      → All IsClean path
      → classify (file_stat_command path) ≡ (if is_sudo path then r3 else r0)
  unfolding is_plain is_bare
  classify-file_stat_command path h =
      ap classify (stat_line path)
      ∙ reader_line (codes "stat") path
          (bare (codes "-c") ∷ quoted (codes "%F\t%s\t%a\t%U\t%G\t%Y") ∷ bare (codes "--") ∷ [])
          stat-IsReader
          (
            plain_word (codes "stat") refl,
            (
              plain_word (codes "-c") refl,
              (
                any-IsClean (codes "%F\t%s\t%a\t%U\t%G\t%Y") refl,
                (plain_word (codes "--") refl, (h, tt)),
              ),
            ),
          )
          (rw (is_sudo_c, is_sudo_format, is_sudo_dashes) (or_false (is_sudo path)))

  head_line :
      (path : Text) (max_bytes : ℕ)
      → file_read_command path max_bytes
        ≡ line
            (bare (codes "head"))
            (bare (codes "-c") ∷ bare (itoa (max_bytes + 1)) ∷ bare (codes "--") ∷ quoted path ∷ [])
  unfolding file_read_command line shell_quote
  head_line path max_bytes = refl

  -- `head` of any path and byte limit is R0, unless the path's last component is named sudo.
  pub classify-file_read_command :
      (path : Text) (max_bytes : ℕ)
      → All IsClean path
      → classify (file_read_command path max_bytes) ≡ (if is_sudo path then r3 else r0)
  unfolding is_plain is_bare
  classify-file_read_command path max_bytes h =
      ap classify (head_line path max_bytes)
      ∙ reader_line (codes "head") path
          (bare (codes "-c") ∷ bare (itoa (max_bytes + 1)) ∷ bare (codes "--") ∷ []) head-IsReader
          (
            plain_word (codes "head") refl,
            (
              plain_word (codes "-c") refl,
              (number_word (max_bytes + 1), (plain_word (codes "--") refl, (h, tt))),
            ),
          )
          (rw (is_sudo_c, itoa_not_sudo (max_bytes + 1), is_sudo_dashes) (or_false (is_sudo path)))

  tail_line :
      (opts : LogOptions)
      → file_command opts
        ≡ line
            (bare (codes "tail"))
            (bare (codes "-n") ∷ bare (itoa opts.lines) ∷ bare (codes "--") ∷ quoted opts.file ∷ [])
  unfolding file_command line shell_quote
  tail_line opts = refl

  -- `tail` of any log file is R0, unless the file's last component is named sudo.
  pub classify-file_command :
      (opts : LogOptions)
      → All IsClean opts.file
      → classify (file_command opts) ≡ (if is_sudo opts.file then r3 else r0)
  unfolding is_plain is_bare
  classify-file_command opts h =
      ap classify (tail_line opts)
      ∙ reader_line (codes "tail") opts.file
          (bare (codes "-n") ∷ bare (itoa opts.lines) ∷ bare (codes "--") ∷ []) tail-IsReader
          (
            plain_word (codes "tail") refl,
            (
              plain_word (codes "-n") refl,
              (number_word opts.lines, (plain_word (codes "--") refl, (h, tt))),
            ),
          )
          (rw (is_sudo_n, itoa_not_sudo opts.lines, is_sudo_dashes) (or_false (is_sudo opts.file)))

  readlink_line :
      (directory : Text)
      → file_write_resolve_directory_command directory
        ≡ line
            (bare (codes "readlink"))
            (bare (codes "-f") ∷ bare (codes "--") ∷ quoted directory ∷ [])
  unfolding file_write_resolve_directory_command line shell_quote
  readlink_line directory = refl

  -- `readlink` of any directory is R0, unless the directory's last component is named sudo.
  pub classify-file_write_resolve_directory_command :
      (directory : Text)
      → All IsClean directory
      → classify (file_write_resolve_directory_command directory)
        ≡ (if is_sudo directory then r3 else r0)
  unfolding is_plain is_bare
  classify-file_write_resolve_directory_command directory h =
      ap classify (readlink_line directory)
      ∙ reader_line (codes "readlink") directory (bare (codes "-f") ∷ bare (codes "--") ∷ [])
          readlink-IsReader
          (
            plain_word (codes "readlink") refl,
            (plain_word (codes "-f") refl, (plain_word (codes "--") refl, (h, tt))),
          )
          (rw (is_sudo_f, is_sudo_dashes) (or_false (is_sudo directory)))

  tee_line :
      (path : Text)
      → file_write_policy_command path
        ≡ line (bare (codes "tee")) (bare (codes "--") ∷ quoted path ∷ [])
  unfolding file_write_policy_command line shell_quote
  tee_line path = refl

  tee_class :
      (path : Text)
      → classify_words (codes "tee" ∷ codes "--" ∷ path ∷ [])
        ≡ (if is_sudo path || is_sensitive_write_target path then r3 else r2)
  tee_class path =
      writer_class (codes "tee") (codes "--" ∷ path ∷ []) tee-IsWriter
      ∙ rw
          (
            is_sudo_dashes,
            dashes_not_sensitive,
            or_false (is_sudo path),
            or_false (is_sensitive_write_target path),
          )
          refl

  -- The command that stands for a file write is R2 for any path, and R3 where the path is one of the
  -- sensitive write targets or its last component is named sudo.
  pub classify-file_write_policy_command :
      (path : Text)
      → All IsClean path
      → classify (file_write_policy_command path)
        ≡ (if is_sudo path || is_sensitive_write_target path then r3 else r2)
  unfolding is_plain is_bare
  classify-file_write_policy_command path h =
      ap classify (tee_line path)
      ∙ classify-line (bare (codes "tee")) (bare (codes "--") ∷ quoted path ∷ [])
          (plain_word (codes "tee") refl, (plain_word (codes "--") refl, (h, tt)))
      ∙ tee_class path
