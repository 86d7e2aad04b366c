-- ===== src/Cmdclass/Docker.antt =====
-- `classifyDocker` of internal/cmdclass/cmdclass.go.
use srvgov_cli.Prelude.{List, [], ◌∷◌, if◌then◌else◌}
use srvgov_cli.GoText.{Text, has_prefix, to_lower, Std}
use srvgov_cli.Cmdclass.Risk.{Risk, r0, r2, r3}
use srvgov_cli.Cmdclass.Words.{has_any_word}

module _ ⦃std : Std⦄ where
  unfoldable pub docker_action : Text → Risk
  docker_action word =
      let action = to_lower word in
      if has_any_word (action ∷ []) (
        "run" ∷ "create" ∷ "exec" ∷ "build" ∷ "commit" ∷ "cp" ∷ "import" ∷ "save" ∷ "load"
        ∷ "export" ∷ "prune" ∷ "rm" ∷ "remove" ∷ "rmi" ∷ [])
      then r3
      else if has_any_word (action ∷ []) (
          "ps" ∷ "ls" ∷ "images" ∷ "inspect" ∷ "logs" ∷ "version" ∷ "info" ∷ "stats" ∷ "top"
          ∷ "port" ∷ "diff" ∷ "history" ∷ "events" ∷ [])
      then r0
      else if has_any_word (action ∷ []) ("start" ∷ "stop" ∷ "restart" ∷ [])
      then r2
      else r3

  -- The arguments from the action on: `len(words) <= actionIndex` where there is none.
  unfoldable pub docker_operands : List Text → Risk
  docker_operands [] = r3
  docker_operands (word ∷ _) = if has_prefix word "-" then r3 else docker_action word

  -- The arguments behind the command's name.
  unfoldable pub classify_docker : List Text → Risk
  classify_docker [] = r3
  classify_docker (word ∷ rest) =
      if has_prefix word "-"
      then r3
      else if has_any_word (word ∷ []) ("compose" ∷ "stack" ∷ [])
      then r3
      else if has_any_word (word ∷ [])
          ("container" ∷ "image" ∷ "volume" ∷ "network" ∷ "system" ∷ "builder" ∷ [])
      then docker_operands rest
      else docker_operands (word ∷ rest)
