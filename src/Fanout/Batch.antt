-- ===== src/Fanout/Batch.antt =====
-- A governed command on many targets: the fan-out of `runExec` in cmd/exec.go without `--dry-run`, with
-- its plans, its authorization, its batch audit and its errors. The workers of Fanout run the targets:
-- `arrived` is their results in the order in which they are sent, which is free; what a run does is one
-- event of the trace, at its end.
pub mod Ended
use srvgov_cli.Prelude.{
  ◌/◌, ◌%◌, ℕ, zero, suc, ◌+◌, ◌-◌, ◌*◌, ◌≤◌, ◌<◌, String, ◌≡◌, refl, sym, ap, ◌∙◌, ◌≢◌, ◌↔◌, ◌⊎◌,
  inl, inr, Bool, true, false, not, ◌&&◌, ◌||◌, Option, none, some, List, [], ◌∷◌, ◌++◌, map,
  append-nil, append_assoc, arith, ltb, leb, ◌==◌, if◌then◌else◌, ==_iff, Bool-cases, or_resolve,
  Option-cases, ◌>>=◌, >>=-eq-some, length, take, any, all, length-append, any-append, All,
  All-append, All-map, All-of, IfSome, split_if, IfSome-eq, holds_below, holds_below-at, ℤ, pos,
  negsuc, is_negative, clamp, is_positive,
}
use srvgov_cli.GoText.{Text, is, trim_space, Std}
use srvgov_cli.Cmdclass.Risk.{Risk, r0, r1}
use srvgov_cli.Cmdclass.Classify.{classify}
use srvgov_cli.Governed.{
  EventType, exec_run, Error, missing_reason_error, outside_error, GovernedRisk, World, Event, Run,
  required_allow_flags, is_remote_mutation, classify_governed_command, lacks_reason,
  run_governed_command,
}
use srvgov_cli.Audit.Events.{MutationOutcome}
use srvgov_cli.Fanout.{Target, Result, result_of}
use srvgov_cli.Fanout.Outcomes.{
  BatchWorld, BatchError, caused_by, sort_results, fanout_outcome, finish_fanout_mutation_audit,
  finish_error, printed, print_fanout,
}

-- `governedFanoutPlan`; its policy command is the command itself.
pub record Plan : Type 0 where
  pub target : Target World
  pub risk : GovernedRisk

pub data BatchEvent : Type 0 where
  batch_denied : Text → Risk → Error → BatchEvent
  batch_intent : BatchEvent
  ran : Text → List Event → BatchEvent
  batch_outcome : MutationOutcome → BatchEvent

-- What the fan-out did, the results that it hands to the printer, and the error that it returns.
pub record Batch : Type 0 where
  pub trace : List BatchEvent
  pub results : List (Result Run)
  pub error : Option BatchError

unfoldable pub max_effective : Risk → Risk → Risk
max_effective a b = if ltb a b then b else a

-- fanoutPlansContainMutation
unfoldable pub fanout_plans_contain_mutation : List Plan → EventType → Bool
unfolding is_remote_mutation
fanout_plans_contain_mutation plans event_type =
    any (λ p. is_remote_mutation event_type p.risk.base) plans

-- The denial of a missing reason, for the first plan of the worst risk.
unfoldable pub deny_reason : List Plan → Risk → List BatchEvent
deny_reason [] risk = []
deny_reason (p ∷ plans) risk =
    let rest = deny_reason plans risk in
    if p.risk.effective == risk
    then batch_denied p.target.name risk (missing_reason_error risk) ∷ []
    else rest

-- What a check comes to: its error with the denials that it audits.
pub data Checked : Type 0 where
  granted : Checked
  refused : Error → List BatchEvent → Checked

-- One plan, for what safety answers, before the others.
unfoldable pub check_plan : Plan → Option Error → Checked → Checked
check_plan p none rest = rest
check_plan p (some e) rest = refused e (batch_denied p.target.name p.risk.effective e ∷ [])

-- The loop of authorizeGovernedFanout over the plans.
unfoldable pub authorize_plans : Bool → List Plan → Checked
unfolding check_plan required_allow_flags
authorize_plans allow [] = granted
authorize_plans allow (p ∷ plans) =
    let rest = authorize_plans allow plans in
    check_plan p
      (p.target.value.authorize p.risk.effective (required_allow_flags p.risk.effective) allow) rest

-- The loop of planGovernedFanout, for the worst risk so far.
unfoldable pub worst_effective : Risk → List Plan → Risk
unfolding max_effective
worst_effective worst [] = worst
worst_effective worst (p ∷ plans) = worst_effective (max_effective worst p.risk.effective) plans

-- beginFanoutMutationAudit
unfoldable pub begin_fanout_mutation_audit : BatchWorld → List (Target World) → Option Error
begin_fanout_mutation_audit w [] = some (outside_error 0)
begin_fanout_mutation_audit w (t ∷ targets) = w.begin_batch

module _ ⦃std : Std⦄ where
  unfoldable pub plan_of : Text → Target World → Plan
  unfolding classify_governed_command
  plan_of command t = record { target = t; risk = classify_governed_command t.value command }

  -- planGovernedFanout
  unfoldable pub plan_governed_fanout : List (Target World) → Text → List Plan × Risk
  unfolding plan_of worst_effective
  plan_governed_fanout targets command =
      let plans : List Plan = map (plan_of command) targets in (plans, worst_effective r0 plans)

  unfoldable pub check_operator : Option Error → List Plan → Text → Bool → Risk → Checked
  unfolding lacks_reason deny_reason authorize_plans
  check_operator (some e) plans reason allow worst = refused e []
  check_operator none plans reason allow worst =
      if lacks_reason worst reason
      then refused (missing_reason_error worst) (deny_reason plans worst)
      else authorize_plans allow plans

  -- authorizeGovernedFanout
  unfoldable pub authorize_governed_fanout : BatchWorld → List Plan → Text → Bool → Risk → Checked
  unfolding check_operator
  authorize_governed_fanout w = check_operator w.trusted_operator

  -- The run of one target.
  unfoldable pub run_target : Text → Text → Bool → Target World → Run
  unfolding run_governed_command
  run_target command reason allow t = run_governed_command t.value command reason allow exec_run

abbrev pub ran_result : Result Run → BatchEvent
ran_result r = ran r.target r.data_and_error.trace

-- The end of reads, and of mutations behind the answer to the batch intent.
unfoldable pub run_reads : BatchWorld → List (Result Run) → Batch
unfolding sort_results print_fanout
run_reads w arrived = record {
  trace = map ran_result arrived;
  results = sort_results arrived;
  error = print_fanout w (sort_results arrived);
}

unfoldable pub run_mutations : BatchWorld → Option Error → List (Result Run) → Batch
unfolding sort_results fanout_outcome finish_fanout_mutation_audit printed finish_error print_fanout
run_mutations w (some e) arrived = record { trace = []; results = []; error = some (caused_by e) }
run_mutations w none arrived =
    let results = sort_results arrived in
    let finished = finish_fanout_mutation_audit w results in
    record {
      trace =
          batch_intent ∷ (map ran_result arrived ++ batch_outcome (fanout_outcome w results) ∷ []);
      results = printed finished results;
      error = finish_error w finished results;
    }

unfoldable pub run_plans :
    BatchWorld → Checked → Bool → List (Target World) → List (Result Run) → Batch
unfolding run_reads run_mutations begin_fanout_mutation_audit
run_plans w (refused e denials) mutates targets arrived = record {
  trace = denials;
  results = [];
  error = some (caused_by e);
}
run_plans w granted true targets arrived =
    run_mutations w (begin_fanout_mutation_audit w targets) arrived
run_plans w granted false targets arrived = run_reads w arrived

module _ ⦃std : Std⦄ where
  -- The fan-out of runExec.
  unfoldable pub run_exec_fanout :
      BatchWorld → List (Target World) → Text → Text → Bool → List (Result Run) → Batch
  unfolding plan_governed_fanout authorize_governed_fanout fanout_plans_contain_mutation run_plans
  run_exec_fanout w targets command reason allow arrived =
      let planned : List Plan × Risk = plan_governed_fanout targets command in
      run_plans w (authorize_governed_fanout w planned.0 reason allow planned.1)
        (fanout_plans_contain_mutation planned.0 exec_run) targets arrived
