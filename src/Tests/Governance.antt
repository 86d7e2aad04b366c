-- ===== src/Tests/Governance.antt =====
-- The theorems of the governed commands, of the captured output and of the remote command lines, at
-- concrete inputs.
use srvgov_cli.Prelude.{◌≡◌, refl, true, false, ◌||◌, none, some, [], ◌∷◌, if◌then◌else◌, any}
use srvgov_cli.GoText.{codes}
use srvgov_cli.Cmdclass.Risk.{r2, r3}
use srvgov_cli.Cmdclass.Commands.{is_sudo}
use srvgov_cli.Cmdclass.Targets.{is_sensitive_write_target}
use srvgov_cli.Cmdclass.Classify.{classify}
use srvgov_cli.Governed.{
  send_read, World, appended, outside_error, no_result, exec_run, classify_governed_command,
  is_remote_mutation, run_governed_command,
}
use srvgov_cli.Governed.Protocol.{idle, follow, is_settled, may_send, run_governed_command-settled}
use srvgov_cli.Governed.Results.{is_sent, run_governed_command-sent}
use srvgov_cli.Governed.Success.{IsSuccess, run_governed_command-IsSuccess}
use srvgov_cli.Sshexec.{write_all, new_bounded_buffer, capture, concat, write_all-capture}
use srvgov_cli.Remote.{file_write_policy_command}
use srvgov_cli.Remote.Classes.{classify-file_write_policy_command}
use srvgov_cli.Governed.Stdin.{
  Prepared, prepared, run_governed_command_with_stdin, Decided, may_write,
  run_governed_command_with_stdin-Decided,
}
use srvgov_cli.Governed.Stdin.Success.{
  IsGranted, IsWritten, run_governed_command_with_stdin-IsWritten,
}
use srvgov_cli.Tests.Sample.{ascii}

-- A world in which the audit log of reads is full.
abbrev full_log : World
full_log = record {
  trusted_operator = none;
  effective_risk = λ r. r;
  authorize = λ r flags allow. none;
  begin_mutation = none;
  begin_read = none;
  ssh = (no_result, none);
  append_read = some (outside_error 1);
  queue_locked = true;
  queue_released = true;
  replayed = true;
  append_outcome = appended;
  spooled = true;
}

run_governed_command-settled_example :
    is_settled (follow idle (run_governed_command full_log (codes "ls") [] false exec_run).trace)
    ≡ true
run_governed_command-settled_example =
    run_governed_command-settled full_log (codes "ls") [] false exec_run

run_governed_command-sent_example :
    any is_sent (run_governed_command full_log (codes "ls") [] false exec_run).trace
    ≡ may_send full_log (codes "ls") [] false exec_run
run_governed_command-sent_example =
    run_governed_command-sent full_log (codes "ls") [] false exec_run

ls_reads :
    is_remote_mutation exec_run (classify_governed_command full_log (codes "ls")).base ≡ false
unfolding is_remote_mutation classify_governed_command classify
ls_reads = refl

-- A world in which nothing fails.
abbrev calm : World
calm = record full_log { append_read = none }

ls_returns : (run_governed_command calm (codes "ls") [] false exec_run).error ≡ none
unfolding run_governed_command is_remote_mutation classify_governed_command classify send_read
ls_returns = refl

run_governed_command-IsSuccess_example :
    (may_send calm (codes "ls") [] false exec_run ≡ true)
    × IsSuccess calm (run_governed_command calm (codes "ls") [] false exec_run)
run_governed_command-IsSuccess_example =
    run_governed_command-IsSuccess calm (codes "ls") [] false exec_run ls_returns

write_all-capture_example :
    write_all (new_bounded_buffer 3) ((1 ∷ 2 ∷ []) ∷ (3 ∷ 4 ∷ []) ∷ [])
    ≡ capture 3 (concat ((1 ∷ 2 ∷ []) ∷ (3 ∷ 4 ∷ []) ∷ []))
write_all-capture_example = write_all-capture 3 ((1 ∷ 2 ∷ []) ∷ (3 ∷ 4 ∷ []) ∷ [])

classify-file_write_policy_command_example :
    classify (file_write_policy_command (codes "a;b"))
    ≡ (if is_sudo (codes "a;b") || is_sensitive_write_target (codes "a;b") then r3 else r2)
classify-file_write_policy_command_example =
    classify-file_write_policy_command (codes "a;b") (refl, (refl, (refl, tt)))

abbrev write_input : Prepared
write_input = prepared (codes "sh -c write")

run_governed_command_with_stdin-Decided_example :
    Decided write_input
      (may_write calm (codes "tee -- a") (codes "fix") false write_input)
      (run_governed_command_with_stdin calm
        (codes "tee -- a")
        (codes "fix")
        false
        write_input
        (some (outside_error 2))).trace
run_governed_command_with_stdin-Decided_example =
    run_governed_command_with_stdin-Decided calm (codes "tee -- a") (codes "fix") false write_input
      (some (outside_error 2))

write_returns :
    (run_governed_command_with_stdin calm
      (codes "tee -- a")
      (codes "fix")
      false
      write_input
      none).error
    ≡ none
unfolding run_governed_command_with_stdin classify
write_returns = refl

run_governed_command_with_stdin-IsWritten_example :
    IsGranted calm (codes "tee -- a") (codes "fix") false write_input
    × IsWritten calm none (
        run_governed_command_with_stdin calm
          (codes "tee -- a")
          (codes "fix")
          false
          write_input
          none)
run_governed_command_with_stdin-IsWritten_example =
    run_governed_command_with_stdin-IsWritten calm (codes "tee -- a") (codes "fix") false
      write_input none write_returns
