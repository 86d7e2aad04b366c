-- ===== src/Cmdclass/Urls.antt =====
-- URLs and HTTP methods of internal/cmdclass/cmdclass.go. `url.Parse` is the parameter `url_parse`.
use srvgov_cli.Prelude.{
  String, Bool, true, false, not, ◌&&◌, ◌||◌, Option, none, some, List, [], ◌∷◌, ◌++◌,
  if◌then◌else◌, all,
}
use srvgov_cli.GoText.{
  Text, codes, is, has_exact_word, contains, contains_any, cut, equal_fold, replace_unit, base,
  to_upper, is_ascii_digit, Std, Url,
}
use srvgov_cli.Cmdclass.Targets.{is_sensitive_write_target}

-- `parsed.Host != ""` of a parse that may fail
has_host : Option Url → Bool
unfolding is
has_host none = false
has_host (some u) = not (is u.host "")

module _ ⦃std : Std⦄ where
  -- The part between the colon and the first slash behind it.
  port_part : Text → Text
  unfolding cut
  port_part remainder = elim (cut remainder b'/') [ none ↦ remainder | some (p, _) ↦ p ]

  unfoldable pub is_host_port_shorthand : Text → Bool
  unfolding cut contains equal_fold port_part is has_host is_ascii_digit
  is_host_port_shorthand value = elim (cut value b':') [
    | none ↦ false
    | some (host, remainder) ↦
        if is host "" || contains host "/"
        then false
        else if not (equal_fold host "localhost") && not (contains host ".")
        then false
        else if is (port_part remainder) ""
        then false
        else if not (all is_ascii_digit (port_part remainder))
        then false
        else has_host (std.url_parse (codes "http://" ++ value))
  ]

  is_allowed_scheme : Text → List String → Bool
  unfolding equal_fold
  is_allowed_scheme scheme [] = false
  is_allowed_scheme scheme (a ∷ allowed) = equal_fold scheme a || is_allowed_scheme scheme allowed

  unfoldable pub is_safe_transfer_url : Text → List String → Bool
  unfolding is contains_any is_allowed_scheme is_host_port_shorthand
  is_safe_transfer_url value allowed_schemes =
      if is value "" then false else elim (std.url_parse value) [
        | none ↦ is_host_port_shorthand value
        | some parsed ↦
            if contains_any value "{}[]" || contains_any parsed.path "*?"
            then false
            else if is parsed.scheme ""
            then true
            else if is_allowed_scheme parsed.scheme allowed_schemes
            then true
            else is_host_port_shorthand value
      ]

  unfoldable pub has_sensitive_download_name : Text → Bool
  unfolding base replace_unit is is_sensitive_write_target
  has_sensitive_download_name raw_url = elim (std.url_parse raw_url) [
    | none ↦ true
    | some parsed ↦
        let name = base (replace_unit 92 b'/' parsed.path) in
        if is name "." || is name "/" || is name "" then false else is_sensitive_write_target name
  ]

  unfoldable pub is_read_only_http_method : Text → Bool
  unfolding has_exact_word is to_upper
  is_read_only_http_method value =
      has_exact_word (to_upper value) ("GET" ∷ "HEAD" ∷ "OPTIONS" ∷ "TRACE" ∷ [])
