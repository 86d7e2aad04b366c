-- ===== src/Cmdclass/Transfer.antt =====
-- The option values that `classifyCurl` and `classifyWget` of internal/cmdclass/cmdclass.go inspect.
pub mod WriteOut
use srvgov_cli.Prelude.{
  ℕ, zero, suc, ◌+◌, ◌-◌, ◌*◌, ◌≤◌, ◌<◌, String, ◌≡◌, refl, sym, ap, ◌∙◌, ◌≢◌, ◌↔◌, ◌⊎◌, inl, inr,
  Bool, true, false, not, ◌&&◌, ◌||◌, Option, none, some, List, [], ◌∷◌, ◌++◌, map, append-nil,
  append_assoc, arith, ltb, leb, ◌==◌, if◌then◌else◌, ==_iff, Bool-cases, or_resolve, Option-cases,
  ◌>>=◌, >>=-eq-some, length, take, any, all, length-append, any-append, All, All-append, All-map,
  All-of, IfSome, split_if, IfSome-eq,
}
use srvgov_cli.GoText.{
  Text, is, has_prefix, trim_prefix, trim_space, contains, contains_any, cut, after, equal_fold,
  mem_unit, Std,
}
use srvgov_cli.Cmdclass.Risk.{Risk, r2, r3}
use srvgov_cli.Cmdclass.Options.{Next, same}
use srvgov_cli.Cmdclass.Targets.{is_unsafe_output_target}
use srvgov_cli.Cmdclass.Urls.{is_read_only_http_method}

-- `if !ok || refused(value) { return safety.R3 }`, and else the next index.
unfoldable pub accept_value : Option (Text × Next) → (Text → Bool) → Option Next
accept_value none refused = none
accept_value (some (value, next)) refused = if refused value then none else some next

-- An option that takes no value.
unfoldable pub accept_flag : Option Text → Option Next
accept_flag none = some same
accept_flag (some _) = none

unfoldable pub curl_cookie_reads_file : Text → Bool
unfolding trim_space is has_prefix contains
curl_cookie_reads_file value =
    let trimmed = trim_space value in
    is trimmed "" || has_prefix trimmed "@" || not (contains trimmed "=")

-- Some `@` stands before every `=`.
at_before_equals : Text → Bool
unfolding cut mem_unit
at_before_equals trimmed = elim (cut trimmed b'@') [
  | none ↦ false
  | some (before, _) ↦ not (mem_unit before b'=')
]

unfoldable pub curl_query_reads_file : Text → Bool
unfolding trim_space is has_prefix at_before_equals
curl_query_reads_file value =
    let trimmed = trim_space value in
    if is trimmed "" || has_prefix trimmed "@" then true else at_before_equals trimmed

module _ ⦃std : Std⦄ where
  -- The loop over `remaining`, on fuel; each round removes the directive's nine units at least.
  unfoldable pub write_out_loop : ℕ → Text → Risk
  write_out_loop zero remaining = r3
  write_out_loop (suc fuel) remaining = elim (after remaining "%output{") [
    | none ↦ r2
    | some behind ↦ elim (cut behind b'}') [
      | none ↦ r3
      | some (target, rest) ↦
          let next = write_out_loop fuel rest in
          if is_unsafe_output_target (trim_prefix target ">>") then r3 else next
    ]
  ]

  unfoldable pub classify_curl_write_out : Text → Risk
  unfolding after cut trim_prefix is_unsafe_output_target write_out_loop is has_prefix
  classify_curl_write_out value =
      if is value "" || has_prefix value "@" then r3 else write_out_loop (suc (length value)) value

  is_http_method_override_header : Text → Bool
  unfolding equal_fold
  is_http_method_override_header name =
      equal_fold name "X-HTTP-Method-Override"
      || equal_fold name "X-HTTP-Method"
      || equal_fold name "X-Method-Override"

  -- `strings.Cut(trimmed, ":")` and the tests behind it.
  header_method : Text → Option (Text × Text) → Risk
  unfolding is_http_method_override_header trim_space is_read_only_http_method
  header_method trimmed none =
      if not (is_http_method_override_header (trim_space trimmed)) then r2 else r3
  header_method trimmed (some (name, method)) =
      if not (is_http_method_override_header (trim_space name))
      then r2
      else if not (is_read_only_http_method (trim_space method))
      then r3
      else r2

  unfoldable pub classify_http_header : Text → Risk
  unfolding trim_space is has_prefix contains_any header_method cut
  classify_http_header value =
      let trimmed = trim_space value in
      if is trimmed "" || has_prefix trimmed "@" || contains_any trimmed "\r\n"
      then r3
      else header_method trimmed (cut trimmed b':')

  abbrev pub write_out_refused : Text → Bool
  write_out_refused value = classify_curl_write_out value == r3

  abbrev pub header_refused : Text → Bool
  header_refused value = classify_http_header value == r3

  abbrev pub method_refused : Text → Bool
  method_refused value = not (is_read_only_http_method value)
