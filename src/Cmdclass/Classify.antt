-- ===== src/Cmdclass/Classify.antt =====
-- `Classify` and `classifySegment` of internal/cmdclass/cmdclass.go.
pub mod Spec
pub mod Leaves
pub mod Bounds
pub mod ReadOnly
pub mod Lines
use srvgov_cli.Prelude.{
  ℕ, zero, suc, ◌+◌, ◌-◌, ◌*◌, ◌≤◌, ◌<◌, String, ◌≡◌, refl, sym, ap, ◌∙◌, ◌≢◌, ◌↔◌, ◌⊎◌, inl, inr,
  Bool, true, false, not, ◌&&◌, ◌||◌, Option, none, some, List, [], ◌∷◌, ◌++◌, map, append-nil,
  append_assoc, arith, ltb, leb, ◌==◌, if◌then◌else◌, ==_iff, Bool-cases, or_resolve, Option-cases,
  ◌>>=◌, >>=-eq-some, length, take, any, all, length-append, any-append, All, All-append, All-map,
  IfSome, split_if, IfSome-eq,
}
use srvgov_cli.GoText.{Text, is, has_exact_word, has_prefix, to_lower, Std}
use srvgov_cli.Cmdclass.Risk.{Risk, r0, r3, max_risk, raise}
use srvgov_cli.Cmdclass.Scan.{Item, ItemKind, word_item, operator_item, scan}
use srvgov_cli.Cmdclass.Words.{
  command_name, is_shell_assignment, dangerous_commands, write_commands, read_only_commands,
  has_any_word,
}
use srvgov_cli.Cmdclass.Targets.{is_sensitive_write_target}
use srvgov_cli.Cmdclass.Rm.{classify_rm}
use srvgov_cli.Cmdclass.Small.{
  classify_date, classify_hostname, classify_systemctl, ss_kills_sockets, find_write_target,
}
use srvgov_cli.Cmdclass.Journal.{classify_journalctl}
use srvgov_cli.Cmdclass.Ip.{
  classify_ip, ip_object, ip_command, is_ip_show_action, ip_action, ip_operands, ip_plain_options,
  ip_value_options,
}
use srvgov_cli.Cmdclass.Docker.{classify_docker, docker_action, docker_operands}
use srvgov_cli.Cmdclass.Curl.{classify_curl}
use srvgov_cli.Cmdclass.Wget.{classify_wget}
use srvgov_cli.Cmdclass.Commands.{
  classify_words, is_refused_command, is_sudo, classify_command, classify_find, classify_other,
}

abbrev pub is_word : Item → Bool
is_word i = elim i.kind [ word_item ↦ true | operator_item ↦ false ]

abbrev pub expands : Item → Bool
expands i = i.unquoted_expansion

unfoldable pub has_unquoted_expansion : List Item → Bool
has_unquoted_expansion parts = any expands parts

abbrev pub texts : List Item → List Text
texts parts = map (λ (i : Item). i.text) parts

-- The variables of `Classify`'s loop, and the redirection whose target comes next.
pub record Progress : Type 0 where
  pub base : Risk
  pub has_operator : Bool
  pub has_command : Bool
  pub segment : List Item
  pub redirect : Option Item

abbrev pub start : Progress
start = record {
  base = r0;
  has_operator = false;
  has_command = false;
  segment = [];
  redirect = none;
}

unfoldable pub is_redirect : Item → Bool
is_redirect i = has_exact_word i.text (">" ∷ ">>" ∷ "<" ∷ [])

unfoldable pub is_background : Item → Bool
is_background i = is i.text "&"

module _ ⦃std : Std⦄ where
  unfoldable pub classify_segment : List Item → Risk
  classify_segment parts = if has_unquoted_expansion parts then r3 else classify_words (texts parts)

  -- The source's `if len(segment) > 0`.
  unfoldable pub close_segment : Progress → Progress
  close_segment s = elim s.segment [
    | [] ↦ s
    | part ∷ parts ↦ record s {
      base = max_risk s.base (classify_segment (part ∷ parts));
      segment = [];
      has_command = true;
    }
  ]

  -- What a redirection may not go to.
  unfoldable pub is_refused_target : Item → Item → Bool
  is_refused_target op target =
      not (is_word target)
      || target.unquoted_expansion
      || not (is op.text "<") && is_sensitive_write_target target.text

  -- One round of the loop; `none` is `return safety.R3`.
  unfoldable pub classify_step : Progress → Item → Option Progress
  classify_step s current = elim s.redirect [
    | some op ↦
        if is_refused_target op current
        then none
        else some (record s { has_operator = true; redirect = none })
    | none ↦
        if is_word current
        then some (record s { segment = s.segment ++ current ∷ [] })
        else if is_background current
        then none
        else if is_redirect current
        then some (record s { redirect = some current })
        else some (record (close_segment s) { has_operator = true })
  ]

  unfoldable pub classify_loop : Progress → List Item → Option Progress
  classify_loop s [] = some s
  classify_loop s (current ∷ items) = classify_step s current >>= λ s'. classify_loop s' items

  -- The tests behind the loop. A redirection with no target is `return safety.R3` there.
  unfoldable pub conclude : Progress → Risk
  conclude s =
      let closed = close_segment s in
      elim s.redirect [
        | some _ ↦ r3
        | none ↦
            if not closed.has_command
            then r3
            else if closed.base == r3
            then closed.base
            else if closed.has_operator
            then raise closed.base
            else closed.base
      ]

  unfoldable pub classify_items : List Item → Risk
  classify_items [] = r3
  classify_items (i ∷ items) = elim (classify_loop start (i ∷ items)) [
    | none ↦ r3
    | some s ↦ conclude s
  ]

  abbrev pub of_scan : Option (List Item) → Risk
  of_scan none = r3
  of_scan (some items) = classify_items items

  unfoldable pub classify : Text → Risk
  unfolding scan classify_items classify_loop classify_step conclude close_segment classify_segment
      max_risk raise has_unquoted_expansion is_refused_target is_redirect is_background is
      has_exact_word is_sensitive_write_target classify_words is_refused_command is_sudo
      command_name is_shell_assignment has_prefix dangerous_commands classify_command classify_find
      has_any_word find_write_target classify_other write_commands read_only_commands classify_rm
      classify_date classify_hostname classify_journalctl classify_curl classify_wget
      ss_kills_sockets classify_systemctl classify_docker classify_ip docker_action docker_operands
      ip_object ip_command is_ip_show_action ip_action ip_operands ip_plain_options ip_value_options
      to_lower
  classify command = of_scan (scan command)

  classify-of_scan : (command : Text) → classify command ≡ of_scan (scan command)
  unfolding classify
  classify-of_scan command = refl

  pub classify_scanned :
      (command : Text) {items : List Item}
      → scan command ≡ some items
      → classify command ≡ classify_items items
  classify_scanned command e = classify-of_scan command ∙ ap of_scan e

  pub classify_unscanned : (command : Text) → scan command ≡ none → classify command ≡ r3
  classify_unscanned command e = classify-of_scan command ∙ ap of_scan e
