-- ===== src/Cmdclass/Wget.antt =====
-- `classifyWget` and its option tables of internal/cmdclass/cmdclass.go.
use srvgov_cli.Prelude.{
  String, Bool, true, false, not, ◌&&◌, ◌||◌, Option, none, some, List, [], ◌∷◌, ◌++◌, ◌==◌,
  if◌then◌else◌, any,
}
use srvgov_cli.GoText.{Text, is, has_exact_word, has_prefix, trim_prefix, contains_rune, Std}
use srvgov_cli.Cmdclass.Risk.{Risk, r2, r3}
use srvgov_cli.Cmdclass.Options.{
  Next, same, walk, split_long_option, long_option_value, joined_or_next_option_value,
}
use srvgov_cli.Cmdclass.Targets.{is_unsafe_output_target}
use srvgov_cli.Cmdclass.Transfer.{
  accept_value, accept_flag, header_refused, method_refused, classify_http_header,
}
use srvgov_cli.Cmdclass.Urls.{
  is_safe_transfer_url, is_read_only_http_method, has_sensitive_download_name,
}
use srvgov_cli.Cmdclass.Curl.{any_value}

wget_refused_options : List String
wget_refused_options =
    "--config" ∷ "--execute" ∷ "--use-askpass" ∷ "--delete-after" ∷ "--unlink" ∷ "--post-data"
    ∷ "--post-file" ∷ "--body-data" ∷ "--body-file" ∷ "--input-file" ∷ "--mirror" ∷ "--recursive"
    ∷ "--page-requisites" ∷ "--content-disposition" ∷ "--trust-server-names" ∷ "--default-page"
    ∷ "--certificate" ∷ "--private-key" ∷ "--load-cookies" ∷ "--netrc-file" ∷ "--backup-converted"
    ∷ "--follow-ftp" ∷ "--preserve-permissions" ∷ "--retr-symlinks" ∷ "--span-hosts" ∷ []

wget_output_options : List String
wget_output_options =
    "--directory-prefix" ∷ "--output-file" ∷ "--append-output" ∷ "--save-cookies" ∷ "--hsts-file"
    ∷ "--warc-file" ∷ "--warc-tempdir" ∷ []

wget_flag_options : List String
wget_flag_options =
    "--adjust-extension" ∷ "--auth-no-challenge" ∷ "--background" ∷ "--cache" ∷ "--content-on-error"
    ∷ "--continue" ∷ "--convert-file-only" ∷ "--convert-links" ∷ "--debug" ∷ "--dns-cache"
    ∷ "--force-directories" ∷ "--force-html" ∷ "--ftp-stmlf" ∷ "--help" ∷ "--hsts" ∷ "--https-only"
    ∷ "--if-modified-since" ∷ "--ignore-case" ∷ "--ignore-length" ∷ "--iri" ∷ "--keep-badhash"
    ∷ "--keep-session-cookies" ∷ "--no-cache" ∷ "--no-check-certificate" ∷ "--no-clobber"
    ∷ "--no-config" ∷ "--no-cookies" ∷ "--no-directories" ∷ "--no-glob" ∷ "--no-dns-cache"
    ∷ "--no-host-directories" ∷ "--no-http-keep-alive" ∷ "--no-hsts" ∷ "--no-if-modified-since"
    ∷ "--no-iri" ∷ "--no-passive-ftp" ∷ "--no-parent" ∷ "--no-proxy" ∷ "--no-remove-listing"
    ∷ "--no-use-server-timestamps" ∷ "--no-verbose" ∷ "--no-xattr" ∷ "--passive-ftp"
    ∷ "--protocol-directories" ∷ "--quiet" ∷ "--random-wait" ∷ "--relative" ∷ "--retry-connrefused"
    ∷ "--save-headers" ∷ "--server-response" ∷ "--show-progress" ∷ "--timestamping"
    ∷ "--use-server-timestamps" ∷ "--verbose" ∷ "--version" ∷ "--xattr" ∷ []

wget_value_options : List String
wget_value_options =
    "--accept" ∷ "--accept-regex" ∷ "--base" ∷ "--bind-address" ∷ "--bind-dns-address"
    ∷ "--ca-directory" ∷ "--ciphers" ∷ "--compression" ∷ "--connect-timeout" ∷ "--cut-dirs"
    ∷ "--dns-timeout" ∷ "--domains" ∷ "--exclude-directories" ∷ "--exclude-domains"
    ∷ "--ftp-password" ∷ "--ftp-user" ∷ "--http-password" ∷ "--http-user" ∷ "--https-proxy"
    ∷ "--include-directories" ∷ "--level" ∷ "--limit-rate" ∷ "--local-encoding" ∷ "--max-redirect"
    ∷ "--password" ∷ "--prefer-family" ∷ "--progress" ∷ "--proxy-password" ∷ "--proxy-user"
    ∷ "--quota" ∷ "--read-timeout" ∷ "--referer" ∷ "--reject" ∷ "--reject-regex"
    ∷ "--remote-encoding" ∷ "--report-speed" ∷ "--restrict-file-names" ∷ "--retry-on-http-error"
    ∷ "--secure-protocol" ∷ "--start-pos" ∷ "--timeout" ∷ "--tries" ∷ "--user" ∷ "--user-agent"
    ∷ "--wait" ∷ "--waitretry" ∷ []

abbrev pub wget_schemes : List String
wget_schemes = "http" ∷ "https" ∷ "ftp" ∷ []

-- The variables of the loop of `classifyWget`.
pub record WgetState : Type 0 where
  pub parse_options : Bool
  pub explicit_output : Bool
  pub no_output : Bool
  pub urls : List Text

-- The results `output` and `spider` of one option.
pub data Effect : Type 0 where
  no_effect output spider : Effect

tagged : Effect → Option Next → Option (Next × Effect)
tagged e none = none
tagged e (some next) = some (next, e)

is_warc_refused : Text → Bool
is_warc_refused name =
    has_prefix name "--warc-" && not (is name "--warc-file") && not (is name "--warc-tempdir")

module _ ⦃std : Std⦄ where
  wget_named_option : Text → Option Text → Option (Text × Next) → Option (Next × Effect)
  wget_named_option name inline value =
      if is name "--method"
      then tagged no_effect (accept_value value method_refused)
      else if is name "--header"
      then tagged no_effect (accept_value value header_refused)
      else if is name "--output-document"
      then tagged output (accept_value value is_unsafe_output_target)
      else if has_exact_word name wget_output_options
      then tagged no_effect (accept_value value is_unsafe_output_target)
      else if is name "--spider"
      then tagged spider (accept_flag inline)
      else if has_exact_word name wget_flag_options
      then tagged no_effect (accept_flag inline)
      else if has_exact_word name wget_value_options
      then tagged no_effect (accept_value value any_value)
      else none

  classify_wget_long_option : Text → List Text → Option (Next × Effect)
  classify_wget_long_option arg rest =
      let (name, inline) = split_long_option arg in
      if has_exact_word name wget_refused_options || is_warc_refused name
      then none
      else wget_named_option name inline (long_option_value rest inline)

  -- The flags of one short option, from some position on.
  wget_flags : Text → List Text → Option (Next × Effect)
  wget_flags [] rest = some (same, no_effect)
  wget_flags (flag ∷ more) rest =
      let others = wget_flags more rest in
      let value = joined_or_next_option_value more rest in
      if contains_rune "eHiKmpr" flag
      then none
      else if contains_rune "OPoa" flag
      then tagged (if flag == b'O' then output else no_effect)
          (accept_value value is_unsafe_output_target)
      else if contains_rune "ABDIlQRtTUwX" flag
      then tagged no_effect (accept_value value any_value)
      else if not (contains_rune "46bcdEFhLNSqvVxk" flag)
      then none
      else others

  classify_wget_short_option : Text → List Text → Option (Next × Effect)
  classify_wget_short_option arg rest =
      let option = trim_prefix arg "-" in
      if is option ""
      then none
      else if has_exact_word option ("nc" ∷ "nd" ∷ "nH" ∷ "np" ∷ "nv" ∷ [])
      then some (same, no_effect)
      else wget_flags option rest

  -- `explicitOutput = explicitOutput || output` and `noOutput = noOutput || spider`
  record_effect : WgetState → Effect → WgetState
  record_effect s no_effect = s
  record_effect s output = record s { explicit_output = true }
  record_effect s spider = record s { no_output = true }

  wget_operand : WgetState → Text → Option (Next × WgetState)
  wget_operand s arg =
      if not (is_safe_transfer_url arg wget_schemes)
      then none
      else some (same, record s { urls = s.urls ++ arg ∷ [] })

  wget_option : WgetState → Option (Next × Effect) → Option (Next × WgetState)
  wget_option s none = none
  wget_option s (some (next, effect)) = some (next, record_effect s effect)

  wget_step : WgetState → Text → List Text → Option (Next × WgetState)
  wget_step s arg rest =
      if not s.parse_options
      then wget_operand s arg
      else if is arg "--"
      then some (same, record s { parse_options = false })
      else if has_prefix arg "--"
      then wget_option s (classify_wget_long_option arg rest)
      else if has_prefix arg "-" && not (is arg "-")
      then wget_option s (classify_wget_short_option arg rest)
      else wget_operand s arg

  wget_config_disabled : List Text → Bool
  wget_config_disabled [] = false
  wget_config_disabled (first ∷ _) = is first "--no-config"

  abbrev pub wget_start : WgetState
  wget_start = record {
    parse_options = true;
    explicit_output = false;
    no_output = false;
    urls = [];
  }

  -- The tests behind the loop.
  wget_finish : List Text → WgetState → Risk
  wget_finish args s =
      if not s.explicit_output && not s.no_output && any has_sensitive_download_name s.urls
      then r3
      else if not (wget_config_disabled args)
      then r3
      else r2

  unfoldable pub classify_wget : List Text → Risk
  unfolding has_prefix is is_warc_refused wget_output_options wget_flag_options wget_value_options
      has_exact_word accept_value accept_flag tagged is_read_only_http_method
      is_unsafe_output_target classify_http_header wget_named_option split_long_option
      long_option_value wget_refused_options classify_wget_long_option joined_or_next_option_value
      contains_rune wget_flags trim_prefix classify_wget_short_option is_safe_transfer_url
      wget_operand record_effect wget_option wget_step wget_config_disabled
      has_sensitive_download_name wget_finish walk
  classify_wget args = elim (walk wget_step same wget_start args) [
    | none ↦ r3
    | some s ↦ wget_finish args s
  ]
