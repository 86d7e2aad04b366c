-- ===== src/Cmdclass/Curl/Accepted.antt =====
-- What every command line that `classifyCurl` accepts keeps to.
use srvgov_cli.Prelude.{
  ◌≡◌, refl, sym, ◌∙◌, ◌⊎◌, inl, inr, Bool, true, false, not, ◌&&◌, ◌||◌, Option, none, some, List,
  arith, Bool-cases, Option-cases, all,
}
use srvgov_cli.GoText.{
  Text, codes, is, is_iff, has_exact_word, has_exact_word-all, dashes-has_prefix, longs-has_prefix,
  has_prefix, Std, cut,
}
use srvgov_cli.Cmdclass.Risk.{r2}
use srvgov_cli.Cmdclass.Options.{Next, same, walk, split_long_option, long_option_value}
use srvgov_cli.Cmdclass.Options.Visits.{Visits, walk-Visits}
use srvgov_cli.Cmdclass.Targets.{is_unsafe_output_target}
use srvgov_cli.Cmdclass.Transfer.{accept_value}
use srvgov_cli.Cmdclass.Urls.{is_safe_transfer_url}
use srvgov_cli.Cmdclass.Curl.{
  curl_step, curl_finish, curl_schemes, curl_output_options, curl_refused_options,
  curl_config_disabled, classify_curl, classify_curl_long_option, curl_named_option,
}

-- What the tests in front of the output options say of such an option.
abbrev is_passed_on : Text → Bool
is_passed_on w =
    not (is w "--next")
    && not (has_prefix w "--expand-" || has_exact_word w curl_refused_options)
    && not (is w "--request")
    && not (is w "--")

outputs_passed_on : all (λ c. is_passed_on (codes c)) curl_output_options ≡ true
unfolding curl_output_options curl_refused_options is has_prefix has_exact_word
outputs_passed_on = refl

separator-passed : ¬ (is_passed_on (split_long_option (codes "--")).0 ≡ true)
unfolding split_long_option cut is has_prefix has_exact_word curl_refused_options
separator-passed h = cc

curl_finish_inv :
    (c : Bool) (o : Option Bool) → curl_finish c o ≡ r2 → (c ≡ true) × ((p : Bool) × (o ≡ some p))
curl_finish_inv c none h = absurd (omega arith)
curl_finish_inv true (some p) h = (refl, (p, refl))
curl_finish_inv false (some p) h = absurd (omega arith)

module _ ⦃std : Std⦄ where
  classify_curl-finish :
      (args : List Text)
      → classify_curl args ≡ curl_finish (curl_config_disabled args) (walk curl_step same true args)
  unfolding classify_curl
  classify_curl-finish args = refl

  curl_ended :
      (args : List Text)
      → classify_curl args ≡ r2
      → (curl_config_disabled args ≡ true) × ((p : Bool) × (walk curl_step same true args ≡ some p))
  curl_ended args h =
      curl_finish_inv (curl_config_disabled args) (walk curl_step same true args)
        (sym (classify_curl-finish args) ∙ h)

  curl_visited :
      (args : List Text) {p : Bool} {arg : Text} {r : List Text}
      → classify_curl args ≡ r2
      → Visits curl_step p arg r same true args
      → (step : Next × Bool) × (curl_step p arg r ≡ some step)
  curl_visited args h v = let (_, (end, e)) = curl_ended args h in walk-Visits curl_step end v e

  curl_step_operand :
      (p : Bool) (arg : Text) (r : List Text) {step : Next × Bool}
      → curl_step p arg r ≡ some step
      → (p ≡ false) ⊎ (has_prefix arg "-" ≡ false)
      → is_safe_transfer_url arg curl_schemes ≡ true
  unfolding curl_step
  curl_step_operand p arg r e h = ground (arith, dashes-has_prefix arg, longs-has_prefix arg)

  -- `accept_value` accepts only a value that is there and not refused.
  accept_value_inv :
      (value : Option (Text × Next)) (refused : Text → Bool) {next : Next}
      → accept_value value refused ≡ some next
      → (v : Text × Next) × (value ≡ some v) × (refused v.0 ≡ false)
  unfolding accept_value
  accept_value_inv none refused e = cc
  accept_value_inv (some (t, n)) refused e = ((t, n), refl, ground arith)

  long_option_output :
      (arg : Text) (r : List Text) {next : Next}
      → is_passed_on (split_long_option arg).0 ≡ true
      → has_exact_word (split_long_option arg).0 curl_output_options ≡ true
      → classify_curl_long_option arg r ≡ some next
      → accept_value (long_option_value r (split_long_option arg).1) is_unsafe_output_target
        ≡ some next
  unfolding classify_curl_long_option curl_named_option
  long_option_output arg r p m e = ground arith

  curl_step_long :
      (arg : Text) (r : List Text) {step : Next × Bool}
      → curl_step true arg r ≡ some step
      → has_prefix arg "--" ≡ true
      → is arg "--" ≡ false
      → (next : Next) × (classify_curl_long_option arg r ≡ some next)
  unfolding curl_step
  curl_step_long arg r e h d = elim (Option-cases (classify_curl_long_option arg r)) [
    | inl n ↦ absurd (ground arith)
    | inr v ↦ v
  ]

  not_separator : (arg : Text) → is_passed_on (split_long_option arg).0 ≡ true → is arg "--" ≡ false
  not_separator arg p = elim (Bool-cases (is arg "--")) [
    | inl e ↦ absurd (separator-passed (rw ((is_iff arg "--").0 e) at p))
    | inr n ↦ n
  ]

  -- In a `curl` command that is not R3 the configuration file is disabled, and each operand that the
  -- loop comes to is a safe URL.
  pub curl_operand :
      (args : List Text) {p : Bool} {arg : Text} {r : List Text}
      → classify_curl args ≡ r2
      → Visits curl_step p arg r same true args
      → (p ≡ false) ⊎ (has_prefix arg "-" ≡ false)
      → (curl_config_disabled args ≡ true) × (is_safe_transfer_url arg curl_schemes ≡ true)
  curl_operand args {p} {arg} {r} h v o =
      let (step, e) = curl_visited args h v in
      ((curl_ended args h).0, curl_step_operand p arg r e o)

  -- In a `curl` command that is not R3, each long option that writes a file and that the loop comes
  -- to, before `--`, has a value, inline or behind it, which is neither empty nor a sensitive target.
  pub curl_output :
      (args : List Text) {arg : Text} {r : List Text}
      → classify_curl args ≡ r2
      → Visits curl_step true arg r same true args
      → has_prefix arg "--" ≡ true
      → has_exact_word (split_long_option arg).0 curl_output_options ≡ true
      → (v : Text × Next) × (long_option_value r (split_long_option arg).1 ≡ some v)
        × (is_unsafe_output_target v.0 ≡ false)
  curl_output args {arg} {r} h v l m =
      let passed : is_passed_on (split_long_option arg).0 ≡ true =
        has_exact_word-all is_passed_on _ curl_output_options outputs_passed_on m in
      let (step, e) = curl_visited args h v in
      let (next, accepted) = curl_step_long arg r e l (not_separator arg passed) in
      accept_value_inv _ is_unsafe_output_target (long_option_output arg r passed m accepted)
