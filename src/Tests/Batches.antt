-- ===== src/Tests/Batches.antt =====
-- The theorems of fan-outs at two targets, and at contexts that a label selects.
use srvgov_cli.Prelude.{
  ℕ, String, ◌≡◌, refl, true, false, Option, none, some, List, [], ◌∷◌, ◌++◌, arith, pos,
}
use srvgov_cli.GoText.{codes}
use srvgov_cli.Cmdclass.Classify.{classify}
use srvgov_cli.Governed.{send_mutation, Run, Error, outside_error, World, appended, no_result}
use srvgov_cli.Contexts.{Context, zero_context, Config, returned}
use srvgov_cli.Contexts.Normalize.{Urls}
use srvgov_cli.Fanout.{Target, Result, result_of, state, taken, finished, Schedule, stop, next}
use srvgov_cli.Fanout.Outcomes.{BatchWorld, targets_failed}
use srvgov_cli.Fanout.Batch.{batch_denied, run_target, run_exec_fanout}
use srvgov_cli.Fanout.Batch.Ended.{Ended, run_exec_fanout-Ended}
use srvgov_cli.Fanout.Loading.{FanoutFlags, load_fanout_targets}
use srvgov_cli.Fanout.Loading.Chosen.{IsSelected, load_fanout_targets-IsSelected}
use srvgov_cli.Tests.Sample.{ascii}

-- A server whose safety allows what the test says, and whose shell exits with a code.
abbrev answering : Option Error → ℕ → World
answering refusal code = record {
  trusted_operator = none;
  effective_risk = λ r. r;
  authorize = λ r flags allow. refusal;
  begin_mutation = none;
  begin_read = none;
  ssh = (record no_result { exit_code = code }, none);
  append_read = none;
  queue_locked = true;
  queue_released = true;
  replayed = true;
  append_outcome = appended;
  spooled = true;
}

abbrev server : String → Option Error → ℕ → Target World
server name refusal code = record {
  name = codes name;
  host = codes name;
  value = answering refusal code;
}

abbrev guarded_servers : List (Target World)
guarded_servers = server "a" none 0 ∷ server "b" (some (outside_error 4)) 0 ∷ []

abbrev two_servers : List (Target World)
two_servers = server "a" none 0 ∷ server "b" none 23 ∷ []

abbrev batch : BatchWorld
batch = record {
  trusted_operator = none;
  begin_batch = none;
  finish_batch = λ o. none;
  print = λ results. none;
  error_code = λ e. codes "BACKEND_ERROR";
  known = record {
    backend_error = codes "BACKEND_ERROR";
    partial_failure = codes "PARTIAL_FAILURE";
  };
}

-- The second server refuses, and the first is not run.
refused_batch :
    (run_exec_fanout batch guarded_servers (codes "touch /tmp/x") (codes "why") false []).trace
    ≡ batch_denied (codes "b") 1 (outside_error 4) ∷ []
unfolding run_exec_fanout classify
refused_batch = refl

abbrev touch_on : Target World → Run
touch_on = run_target (codes "touch /tmp/x") (codes "why") false

-- The results of the second server, which fails, and of the first, which ends behind it.
abbrev late_first : List (Result Run)
late_first = result_of touch_on (server "b" none 23) ∷ result_of touch_on (server "a" none 0) ∷ []

-- The failure of a target is an error of the fan-out.
failed_batch :
    (run_exec_fanout batch two_servers (codes "touch /tmp/x") (codes "why") false late_first).error
    ≡ some targets_failed
unfolding run_exec_fanout run_target classify result_of send_mutation
failed_batch = refl

touched : Schedule 2 touch_on (state two_servers [] []) (state [] [] late_first)
touched = next (taken (server "a" none 0) (server "b" none 23 ∷ []) [] [] (omega arith)) (
    next (taken (server "b" none 23) [] (server "a" none 0 ∷ []) [] (omega arith)) (
      next (finished (server "b" none 23) [] (server "a" none 0 ∷ []) [] []) (
        next (finished (server "a" none 0) [] [] [] (result_of touch_on (server "b" none 23) ∷ []))
          stop)))

run_exec_fanout-Ended_example :
    Ended batch two_servers
      (codes "touch /tmp/x")
      (codes "why")
      false
      late_first
      (run_exec_fanout batch two_servers (codes "touch /tmp/x") (codes "why") false late_first)
run_exec_fanout-Ended_example =
    run_exec_fanout-Ended batch two_servers (codes "touch /tmp/x") (codes "why") false 2 late_first
      touched

abbrev no_urls : Urls
no_urls = record { parse = λ server. none; print = λ user host. host }

abbrev labelled : String → String → Context
labelled host env = record zero_context {
  host = codes host;
  labels = (codes "env", codes env) ∷ [];
}

abbrev normal_of : String → String → Context
normal_of host env = record zero_context {
  server = codes host ++ codes ":22";
  host = codes host;
  port = pos 22;
  auth_methods = codes "private-key" ∷ codes "agent" ∷ codes "password" ∷ [];
  labels = (codes "env", codes env) ∷ [];
}

abbrev labelled_contexts : Config
labelled_contexts = record {
  current_context = [];
  contexts =
      (codes "web", labelled "h1" "prod")
      ∷ (codes "dev", labelled "h2" "dev")
      ∷ (codes "db", labelled "h3" "prod")
      ∷ [];
}

abbrev prod_flags : FanoutFlags
prod_flags = record { targets = []; selector = codes "env = prod"; concurrency = pos 4 }

abbrev target_at : String → String → Target Context
target_at name host = record {
  name = codes name;
  host = codes host ++ codes ":22";
  value = normal_of host "prod";
}

load-prod :
    load_fanout_targets no_urls labelled_contexts prod_flags false false true
    ≡ returned (target_at "db" "h3" ∷ target_at "web" "h1" ∷ [])
unfolding load_fanout_targets
load-prod = refl

load_fanout_targets-IsSelected_example :
    IsSelected no_urls labelled_contexts prod_flags
      (target_at "db" "h3" ∷ target_at "web" "h1" ∷ [])
load_fanout_targets-IsSelected_example =
    load_fanout_targets-IsSelected no_urls labelled_contexts prod_flags load-prod
