-- ===== src/Cmdclass/Ip.antt =====
-- `classifyIP` of internal/cmdclass/cmdclass.go.
use srvgov_cli.Prelude.{
  String, Bool, not, ◌&&◌, ◌||◌, Option, none, some, List, [], ◌∷◌, if◌then◌else◌,
}
use srvgov_cli.GoText.{Text, is, has_exact_word, has_prefix, to_lower, Std}
use srvgov_cli.Cmdclass.Risk.{Risk, r0, r3}
use srvgov_cli.Cmdclass.Words.{has_any_word}

unfoldable pub ip_plain_options : List String
ip_plain_options =
    "-0" ∷ "-4" ∷ "-6" ∷ "-B" ∷ "-M" ∷ "-a" ∷ "-all" ∷ "-br" ∷ "-brief" ∷ "-c" ∷ "-color" ∷ "-d"
    ∷ "-details" ∷ "-h" ∷ "-human" ∷ "-iec" ∷ "-j" ∷ "-json" ∷ "-o" ∷ "-oneline" ∷ "-p" ∷ "-pretty"
    ∷ "-r" ∷ "-resolve" ∷ "-s" ∷ "-statistics" ∷ "-t" ∷ "-timestamp" ∷ "-ts" ∷ []

unfoldable pub ip_value_options : List String
ip_value_options = "-f" ∷ "-family" ∷ "-netns" ∷ "-rcvbuf" ∷ []

-- The loop over the options in front: the arguments behind them, or `none` for `safety.R3`.
unfoldable pub ip_operands : List Text → Option (List Text)
ip_operands [] = some []
ip_operands (option ∷ []) =
    if not (has_prefix option "-")
    then some (option ∷ [])
    else if has_exact_word option ip_plain_options
    then some []
    else none
ip_operands (option ∷ value ∷ rest) =
    let behind_option = ip_operands (value ∷ rest) in
    let behind_value = ip_operands rest in
    if not (has_prefix option "-")
    then some (option ∷ value ∷ rest)
    else if has_exact_word option ip_plain_options
    then behind_option
    else if has_exact_word option ip_value_options
    then behind_value
    else none

module _ ⦃std : Std⦄ where
  unfoldable pub is_ip_show_action : Text → Bool
  is_ip_show_action action =
      has_any_word (action ∷ []) ("l" ∷ "list" ∷ "ls" ∷ "lst" ∷ "sh" ∷ "sho" ∷ "show" ∷ [])

  -- `strings.ToLower(args[index])`, or the empty text where there is no argument.
  unfoldable pub ip_action : List Text → Text
  ip_action [] = []
  ip_action (action ∷ _) = to_lower action

  -- The `switch object`; `more` stands behind the action.
  unfoldable pub ip_object : Text → Text → List Text → Risk
  ip_object object action more =
      let shows = is action "" || is_ip_show_action action in
      if has_exact_word object ("a" ∷ "addr" ∷ "address" ∷ [])
      then (if shows then r0 else r3)
      else if has_exact_word object ("l" ∷ "link" ∷ [])
      then (if shows
          then r0
          else if is action "property" && is_ip_show_action (ip_action more)
          then r0
          else r3)
      else if has_exact_word object ("r" ∷ "route" ∷ [])
      then (if shows || has_any_word (action ∷ []) ("g" ∷ "get" ∷ []) then r0 else r3)
      else if has_exact_word object ("ru" ∷ "rule" ∷ [])
      then (if shows then r0 else r3)
      else if has_exact_word object ("neighbor" ∷ "neigh" ∷ [])
      then (if shows then r0 else r3)
      else if is object "netns"
      then (if has_any_word (action ∷ []) ("l" ∷ "list" ∷ "list-id" ∷ "identify" ∷ "pids" ∷ [])
          then r0
          else r3)
      else r3

  -- the arguments from the object on
  unfoldable pub ip_command : List Text → Risk
  ip_command [] = r3
  ip_command (object ∷ []) = ip_object (to_lower object) [] []
  ip_command (object ∷ action ∷ more) = ip_object (to_lower object) (to_lower action) more

  unfoldable pub classify_ip : List Text → Risk
  classify_ip args = elim (ip_operands args) [ none ↦ r3 | some operands ↦ ip_command operands ]
