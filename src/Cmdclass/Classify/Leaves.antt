-- ===== src/Cmdclass/Classify/Leaves.antt =====
-- No rule of the command table gives a class above R3.
use srvgov_cli.Prelude.{◌≤◌, inl, inr, List, [], ◌∷◌, arith, Option-cases}
use srvgov_cli.GoText.{Text, Std}
use srvgov_cli.Cmdclass.Risk.{r3}
use srvgov_cli.Cmdclass.Scan.{Item}
use srvgov_cli.Cmdclass.Commands.{classify_words, classify_command, classify_find, classify_other}
use srvgov_cli.Cmdclass.Words.{command_name}
use srvgov_cli.Cmdclass.Rm.{classify_rm}
use srvgov_cli.Cmdclass.Small.{classify_date, classify_hostname, classify_systemctl}
use srvgov_cli.Cmdclass.Journal.{classify_journalctl}
use srvgov_cli.Cmdclass.Ip.{classify_ip, ip_object, ip_command, ip_operands}
use srvgov_cli.Cmdclass.Docker.{classify_docker, docker_action, docker_operands}
use srvgov_cli.Cmdclass.Curl.{classify_curl}
use srvgov_cli.Cmdclass.Wget.{classify_wget}
use srvgov_cli.Cmdclass.Classify.{classify_segment, texts}

module _ ⦃std : Std⦄ where
  classify_hostname-le : (args : List Text) → classify_hostname args ≤ r3
  unfolding classify_hostname
  classify_hostname-le [] = omega arith
  classify_hostname-le (a ∷ args) = ground (arith, classify_hostname-le args)

  classify_rm-le : (args : List Text) → classify_rm args ≤ r3
  unfolding classify_rm
  classify_rm-le args = ground arith

  classify_date-le : (args : List Text) → classify_date args ≤ r3
  unfolding classify_date
  classify_date-le args = ground arith

  classify_journalctl-le : (args : List Text) → classify_journalctl args ≤ r3
  unfolding classify_journalctl
  classify_journalctl-le args = ground arith

  classify_curl-le : (args : List Text) → classify_curl args ≤ r3
  unfolding classify_curl
  classify_curl-le args = ground arith

  classify_wget-le : (args : List Text) → classify_wget args ≤ r3
  unfolding classify_wget
  classify_wget-le args = ground arith

  classify_find-le : (args : List Text) → classify_find args ≤ r3
  unfolding classify_find
  classify_find-le args = ground arith

  classify_systemctl-le : (args : List Text) → classify_systemctl args ≤ r3
  unfolding classify_systemctl
  classify_systemctl-le [] = omega arith
  classify_systemctl-le (a ∷ args) = ground arith

  docker_action-le : (word : Text) → docker_action word ≤ r3
  unfolding docker_action
  docker_action-le word = ground arith

  docker_operands-le : (args : List Text) → docker_operands args ≤ r3
  unfolding docker_operands
  docker_operands-le [] = omega arith
  docker_operands-le (w ∷ args) = ground (arith, docker_action-le w)

  classify_docker-le : (args : List Text) → classify_docker args ≤ r3
  unfolding classify_docker
  classify_docker-le [] = omega arith
  classify_docker-le (a ∷ args) =
      ground (arith, docker_operands-le args, docker_operands-le (a ∷ args))

  ip_object-le : (object action : Text) (more : List Text) → ip_object object action more ≤ r3
  unfolding ip_object
  ip_object-le object action more = ground arith

  ip_command-le : (operands : List Text) → ip_command operands ≤ r3
  unfolding ip_command
  ip_command-le [] = omega arith
  ip_command-le (o ∷ []) = ip_object-le _ _ _
  ip_command-le (o ∷ a ∷ more) = ip_object-le _ _ _

  classify_ip-le : (args : List Text) → classify_ip args ≤ r3
  unfolding classify_ip
  classify_ip-le args = elim (Option-cases (ip_operands args)) [
    | inl e ↦ rw (e, classify_ip) (omega arith)
    | inr (o, e) ↦ rw (e, classify_ip) (ip_command-le o)
  ]

  classify_other-le : (command : Text) (args : List Text) → classify_other command args ≤ r3
  unfolding classify_other
  classify_other-le command args = ground arith

  classify_command-le : (command : Text) (args : List Text) → classify_command command args ≤ r3
  unfolding classify_command
  classify_command-le command args = ground (
    arith,
    classify_rm-le args,
    classify_date-le args,
    classify_hostname-le args,
    classify_journalctl-le args,
    classify_curl-le args,
    classify_wget-le args,
    classify_find-le args,
    classify_systemctl-le args,
    classify_docker-le args,
    classify_ip-le args,
    classify_other-le command args,
  )

  classify_words-le : (words : List Text) → classify_words words ≤ r3
  unfolding classify_words
  classify_words-le [] = omega arith
  classify_words-le (w ∷ args) = ground (arith, classify_command-le (command_name w) args)

  pub classify_segment-le : (parts : List Item) → classify_segment parts ≤ r3
  unfolding classify_segment
  classify_segment-le parts = ground (arith, classify_words-le (texts parts))
