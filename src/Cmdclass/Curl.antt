-- ===== src/Cmdclass/Curl.antt =====
-- `classifyCurl` and its option tables of internal/cmdclass/cmdclass.go.
pub mod Accepted
use srvgov_cli.Prelude.{
  ◌/◌, ◌%◌, ℕ, zero, suc, ◌+◌, ◌-◌, ◌*◌, ◌≤◌, ◌<◌, String, ◌≡◌, refl, sym, ap, ◌∙◌, ◌≢◌, ◌↔◌, ◌⊎◌,
  inl, inr, Bool, true, false, not, ◌&&◌, ◌||◌, Option, none, some, List, [], ◌∷◌, ◌++◌, map,
  append-nil, append_assoc, arith, ltb, leb, ◌==◌, if◌then◌else◌, ==_iff, Bool-cases, or_resolve,
  Option-cases, ◌>>=◌, >>=-eq-some, length, take, any, all, length-append, any-append, All,
  All-append, All-map, All-of, IfSome, split_if, IfSome-eq, holds_below, holds_below-at,
}
use srvgov_cli.GoText.{Text, is, has_exact_word, has_prefix, trim_prefix, contains_rune, Std}
use srvgov_cli.Cmdclass.Risk.{Risk, r2, r3}
use srvgov_cli.Cmdclass.Options.{
  Next, same, walk, split_long_option, long_option_value, joined_or_next_option_value,
}
use srvgov_cli.Cmdclass.Targets.{is_unsafe_output_target, is_sensitive_write_target}
use srvgov_cli.Cmdclass.Transfer.{
  accept_value, accept_flag, curl_cookie_reads_file, curl_query_reads_file, write_out_refused,
  header_refused, method_refused, classify_curl_write_out, classify_http_header,
}
use srvgov_cli.Cmdclass.Urls.{is_safe_transfer_url, is_read_only_http_method}

unfoldable pub curl_refused_options : List String
curl_refused_options =
    "--config" ∷ "--upload-file" ∷ "--form" ∷ "--form-string" ∷ "--data" ∷ "--data-ascii"
    ∷ "--data-binary" ∷ "--data-raw" ∷ "--data-urlencode" ∷ "--json" ∷ "--quote" ∷ "--prequote"
    ∷ "--postquote" ∷ "--remote-name" ∷ "--remote-name-all" ∷ "--remote-header-name"
    ∷ "--create-dirs" ∷ "--remove-on-error" ∷ "--metalink" ∷ "--variable" ∷ "--netrc"
    ∷ "--netrc-file" ∷ "--netrc-optional" ∷ "--cert" ∷ "--cert-type" ∷ "--key" ∷ "--key-type"
    ∷ "--pass" ∷ "--delegation" ∷ "--engine" ∷ "--egd-file" ∷ "--random-file" ∷ "--location-trusted"
    ∷ "--ftp-create-dirs" ∷ "--ftp-port" ∷ "--ftp-alternative-to-user" ∷ "--mail-auth"
    ∷ "--mail-from" ∷ "--mail-rcpt" ∷ "--ssl-auto-client-cert" ∷ "--telnet-option" ∷ "--proto"
    ∷ "--proto-default" ∷ "--proto-redir" ∷ []

unfoldable pub curl_output_options : List String
curl_output_options =
    "--output" ∷ "--output-dir" ∷ "--cookie-jar" ∷ "--dump-header" ∷ "--trace" ∷ "--trace-ascii"
    ∷ "--stderr" ∷ "--etag-save" ∷ "--alt-svc" ∷ "--hsts" ∷ "--libcurl" ∷ []

unfoldable pub curl_flag_options : List String
curl_flag_options =
    "--anyauth" ∷ "--append" ∷ "--basic" ∷ "--ca-native" ∷ "--compressed" ∷ "--compressed-ssh"
    ∷ "--crlf" ∷ "--digest" ∷ "--disable" ∷ "--disable-eprt" ∷ "--disable-epsv"
    ∷ "--disallow-username-in-url" ∷ "--doh-cert-status" ∷ "--doh-insecure" ∷ "--fail"
    ∷ "--fail-early" ∷ "--fail-with-body" ∷ "--false-start" ∷ "--ftp-ccc" ∷ "--ftp-pasv"
    ∷ "--ftp-pret" ∷ "--ftp-skip-pasv-ip" ∷ "--ftp-ssl-ccc" ∷ "--ftp-ssl-control" ∷ "--get"
    ∷ "--globoff" ∷ "--head" ∷ "--haproxy-protocol" ∷ "--help" ∷ "--http0.9" ∷ "--http1.0"
    ∷ "--http1.1" ∷ "--http2" ∷ "--http2-prior-knowledge" ∷ "--http3" ∷ "--http3-only"
    ∷ "--ignore-content-length" ∷ "--include" ∷ "--insecure" ∷ "--ipv4" ∷ "--ipv6"
    ∷ "--junk-session-cookies" ∷ "--list-only" ∷ "--location" ∷ "--manual" ∷ "--negotiate"
    ∷ "--no-alpn" ∷ "--no-buffer" ∷ "--no-clobber" ∷ "--no-keepalive" ∷ "--no-npn"
    ∷ "--no-progress-meter" ∷ "--no-sessionid" ∷ "--ntlm" ∷ "--ntlm-wb" ∷ "--parallel"
    ∷ "--parallel-immediate" ∷ "--path-as-is" ∷ "--post301" ∷ "--post302" ∷ "--post303"
    ∷ "--progress-bar" ∷ "--proxy-anyauth" ∷ "--proxy-basic" ∷ "--proxy-ca-native"
    ∷ "--proxy-digest" ∷ "--proxy-insecure" ∷ "--proxy-negotiate" ∷ "--proxy-ntlm"
    ∷ "--proxy-ssl-allow-beast" ∷ "--proxy-tlsv1" ∷ "--raw" ∷ "--remote-time" ∷ "--retry-all-errors"
    ∷ "--retry-connrefused" ∷ "--sasl-ir" ∷ "--show-error" ∷ "--silent" ∷ "--socks5-basic"
    ∷ "--socks5-gssapi" ∷ "--ssl" ∷ "--ssl-allow-beast" ∷ "--ssl-reqd" ∷ "--ssl-revoke-best-effort"
    ∷ "--styled-output" ∷ "--suppress-connect-headers" ∷ "--tcp-fastopen" ∷ "--tcp-nodelay"
    ∷ "--tls-earlydata" ∷ "--tlsv1" ∷ "--tlsv1.0" ∷ "--tlsv1.1" ∷ "--tlsv1.2" ∷ "--tlsv1.3"
    ∷ "--trace-ids" ∷ "--trace-time" ∷ "--tr-encoding" ∷ "--use-ascii" ∷ "--verbose" ∷ "--version"
    ∷ "--xattr" ∷ []

unfoldable pub curl_value_options : List String
curl_value_options =
    "--abstract-unix-socket" ∷ "--aws-sigv4" ∷ "--connect-timeout" ∷ "--connect-to"
    ∷ "--continue-at" ∷ "--curves" ∷ "--dns-interface" ∷ "--dns-ipv4-addr" ∷ "--dns-ipv6-addr"
    ∷ "--dns-servers" ∷ "--doh-url" ∷ "--expect100-timeout" ∷ "--ftp-account" ∷ "--ftp-method"
    ∷ "--happy-eyeballs-timeout-ms" ∷ "--haproxy-clientip" ∷ "--hostpubmd5" ∷ "--hostpubsha256"
    ∷ "--interface" ∷ "--ip-tos" ∷ "--keepalive-cnt" ∷ "--keepalive-time" ∷ "--limit-rate"
    ∷ "--local-port" ∷ "--login-options" ∷ "--max-filesize" ∷ "--max-redirs" ∷ "--max-time"
    ∷ "--noproxy" ∷ "--oauth2-bearer" ∷ "--parallel-max" ∷ "--pinnedpubkey" ∷ "--preproxy"
    ∷ "--proxy" ∷ "--proxy-cacert" ∷ "--proxy-capath" ∷ "--proxy-ciphers" ∷ "--proxy-crlfile"
    ∷ "--proxy-service-name" ∷ "--proxy-tls13-ciphers" ∷ "--proxy-tlsauthtype"
    ∷ "--proxy-tlspassword" ∷ "--proxy-tlsuser" ∷ "--proxy-user" ∷ "--proxy1.0" ∷ "--rate"
    ∷ "--range" ∷ "--referer" ∷ "--request-target" ∷ "--resolve" ∷ "--retry" ∷ "--retry-delay"
    ∷ "--retry-max-time" ∷ "--sasl-authzid" ∷ "--service-name" ∷ "--socks4" ∷ "--socks4a"
    ∷ "--socks5" ∷ "--socks5-hostname" ∷ "--speed-limit" ∷ "--speed-time" ∷ "--tls-max"
    ∷ "--tls13-ciphers" ∷ "--tlsauthtype" ∷ "--tlspassword" ∷ "--tlsuser" ∷ "--tftp-blksize"
    ∷ "--time-cond" ∷ "--unix-socket" ∷ "--user" ∷ "--user-agent" ∷ []

abbrev pub curl_schemes : List String
curl_schemes = "http" ∷ "https" ∷ "ftp" ∷ "ftps" ∷ []

-- an option whose value may be any text
abbrev pub any_value : Text → Bool
any_value value = false

-- The test behind the loop of `classifyCurl`.
abbrev pub curl_finish : Bool → Option Bool → Risk
curl_finish config_disabled none = r3
curl_finish config_disabled (some _) = if not config_disabled then r3 else r2

module _ ⦃std : Std⦄ where
  -- The `switch name` of the options whose value is inspected, and the two tables behind it.
  unfoldable pub curl_named_option : Text → Option Text → Option (Text × Next) → Option Next
  curl_named_option name inline value =
      if is name "--request"
      then accept_value value method_refused
      else if has_exact_word name curl_output_options
      then accept_value value is_unsafe_output_target
      else if is name "--write-out"
      then accept_value value write_out_refused
      else if has_exact_word name ("--header" ∷ "--proxy-header" ∷ [])
      then accept_value value header_refused
      else if is name "--cookie"
      then accept_value value curl_cookie_reads_file
      else if is name "--url-query"
      then accept_value value curl_query_reads_file
      else if is name "--url"
      then accept_value value (λ v. not (is_safe_transfer_url v curl_schemes))
      else if has_exact_word name curl_flag_options
      then accept_flag inline
      else if has_exact_word name curl_value_options
      then accept_value value any_value
      else none

  -- `some next` where the source returns R2, `none` where it returns R3.
  unfoldable pub classify_curl_long_option : Text → List Text → Option Next
  classify_curl_long_option arg rest =
      let (name, inline) = split_long_option arg in
      if is name "--next"
      then accept_flag inline
      else if has_prefix name "--expand-" || has_exact_word name curl_refused_options
      then none
      else curl_named_option name inline (long_option_value rest inline)

  -- The flags of one short option, from some position on.
  unfoldable pub curl_flags : Text → List Text → Option Next
  curl_flags [] rest = some same
  curl_flags (flag ∷ more) rest =
      let others = curl_flags more rest in
      let value = joined_or_next_option_value more rest in
      if contains_rune "dEFJKnOPQtT" flag
      then none
      else if flag == b'X'
      then accept_value value method_refused
      else if flag == b'o'
      then accept_value value (λ target. is target "" || is_sensitive_write_target target)
      else if flag == b'c' || flag == b'D'
      then accept_value value is_unsafe_output_target
      else if flag == b'w'
      then accept_value value write_out_refused
      else if flag == b'H'
      then accept_value value header_refused
      else if flag == b'b'
      then accept_value value curl_cookie_reads_file
      else if contains_rune "ACemruUxyYz" flag
      then accept_value value any_value
      else if not (contains_rune "012346aBfgGhIijkLlMNRpqRsSvVZ#" flag)
      then none
      else others

  unfoldable pub classify_curl_short_option : Text → List Text → Option Next
  classify_curl_short_option arg rest =
      let option = trim_prefix arg "-" in if is option "" then none else curl_flags option rest

  -- One round: the next index and `parseOptions`.
  unfoldable pub curl_step : Bool → Text → List Text → Option (Next × Bool)
  curl_step parse_options arg rest =
      if not parse_options
      then (if not (is_safe_transfer_url arg curl_schemes)
          then none
          else some (same, parse_options))
      else if is arg "--"
      then some (same, false)
      else if has_prefix arg "--"
      then elim (classify_curl_long_option arg rest) [
        | none ↦ none
        | some next ↦ some (next, parse_options)
      ]
      else if has_prefix arg "-" && not (is arg "-")
      then elim (classify_curl_short_option arg rest) [
        | none ↦ none
        | some next ↦ some (next, parse_options)
      ]
      else if not (is_safe_transfer_url arg curl_schemes)
      then none
      else some (same, parse_options)

  pub curl_config_disabled : List Text → Bool
  curl_config_disabled [] = false
  curl_config_disabled (first ∷ _) = if is first "--disable" then true else has_prefix first "-q"

  unfoldable pub classify_curl : List Text → Risk
  unfolding curl_output_options curl_flag_options curl_value_options is has_exact_word accept_value
      accept_flag is_read_only_http_method is_unsafe_output_target classify_curl_write_out
      classify_http_header curl_cookie_reads_file curl_query_reads_file is_safe_transfer_url
      curl_named_option split_long_option long_option_value curl_refused_options has_prefix
      classify_curl_long_option joined_or_next_option_value is_sensitive_write_target contains_rune
      curl_flags trim_prefix classify_curl_short_option curl_step curl_config_disabled walk
  classify_curl args = curl_finish (curl_config_disabled args) (walk curl_step same true args)
