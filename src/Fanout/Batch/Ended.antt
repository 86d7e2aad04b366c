-- ===== src/Fanout/Batch/Ended.antt =====
-- No target of a fan-out is run unless every target may be.
use srvgov_cli.Prelude.{
  ℕ, ◌≤◌, ◌≡◌, refl, sym, ap, ◌∙◌, Bool, true, false, ◌&&◌, ◌||◌, Option, none, some, List, [], ◌∷◌,
  ◌++◌, map, arith, ◌==◌, any, all, All, split_if,
}
use srvgov_cli.GoText.{Text, Std}
use srvgov_cli.Cmdclass.Risk.{Risk, r0}
use srvgov_cli.Governed.Protocol.{is_nil}
use srvgov_cli.Governed.{
  exec_run, Error, World, Run, required_allow_flags, is_remote_mutation, classify_governed_command,
  lacks_reason,
}
use srvgov_cli.Fanout.{Target, Result, result_of, state, Schedule}
use srvgov_cli.Fanout.Schedules.{count, schedule-results}
use srvgov_cli.Fanout.Outcomes.{
  BatchWorld, caused_by, sort_results, fanout_outcome, finish_fanout_mutation_audit, printed,
}
use srvgov_cli.Fanout.Outcomes.Errors.{
  has_succeeded, is_clean, count-sort_results, print_fanout-clean, finish_error-clean,
}
use srvgov_cli.Fanout.Batch.{
  Plan, BatchEvent, batch_intent, ran, batch_outcome, Batch, max_effective,
  fanout_plans_contain_mutation, deny_reason, Checked, granted, refused, check_plan,
  authorize_plans, plan_of, worst_effective, plan_governed_fanout, check_operator,
  authorize_governed_fanout, run_target, ran_result, run_reads, run_mutations,
  begin_fanout_mutation_audit, run_plans, run_exec_fanout,
}

abbrev is_ran : BatchEvent → Bool
is_ran (ran name trace) = true
is_ran _ = false

-- The event is no run of a target.
abbrev pub NotRan : BatchEvent → Type 0
NotRan e = is_ran e ≡ false

-- A plan that safety authorizes.
abbrev Permitted : Bool → Plan → Type 0
Permitted allow p =
    p.target.value.authorize p.risk.effective (required_allow_flags p.risk.effective) allow ≡ none

-- What a check says where it grants; what it audits is no run.
abbrev Says : Type 0 → Checked → Type 0
Says P granted = P
Says P (refused e denials) = All NotRan denials

check_plan-Says :
    (P Q : Type 0) (p : Plan) (o : Option Error) (rest : Checked)
    → (o ≡ none → P)
    → Says Q rest
    → Says (P × Q) (check_plan p o rest)
unfolding check_plan
check_plan-Says P Q p none granted f h = (f refl, h)
check_plan-Says P Q p none (refused e d) f h = h
check_plan-Says P Q p (some e) rest f h = (refl, tt)

authorize_plans-Says :
    (allow : Bool) (plans : List Plan)
    → Says (All (Permitted allow) plans) (authorize_plans allow plans)
unfolding authorize_plans
authorize_plans-Says allow [] = tt
authorize_plans-Says allow (p ∷ plans) =
    check_plan-Says (Permitted allow p) (All (Permitted allow) plans) p _
      (authorize_plans allow plans) (λ e. e) (authorize_plans-Says allow plans)

Says-map : (P Q : Type 0) (c : Checked) → (P → Q) → Says P c → Says Q c
Says-map P Q granted f h = f h
Says-map P Q (refused e d) f h = h

deny_reason-NotRan : (plans : List Plan) (risk : Risk) → All NotRan (deny_reason plans risk)
unfolding deny_reason
deny_reason-NotRan [] risk = tt
deny_reason-NotRan (p ∷ plans) risk =
    split_if (All NotRan) (p.risk.effective == risk) (λ _. (refl, tt))
      λ _. deny_reason-NotRan plans risk

-- Each plan is at most as risky as the worst.
worst_effective-least : (worst : Risk) (plans : List Plan) → worst ≤ worst_effective worst plans
unfolding worst_effective max_effective
worst_effective-least worst [] = omega arith
worst_effective-least worst (p ∷ plans) =
    ground (arith, worst_effective-least (max_effective worst p.risk.effective) plans)

le-worst_effective :
    (worst : Risk) (plans : List Plan)
    → All (λ (p : Plan). p.risk.effective ≤ worst_effective worst plans) plans
unfolding worst_effective max_effective
le-worst_effective worst [] = tt
le-worst_effective worst (p ∷ plans) =
    let next = max_effective worst p.risk.effective in
    (ground (arith, worst_effective-least next plans), le-worst_effective next plans)

-- A batch audit that has begun.
begun :
    (w : BatchWorld) (targets : List (Target World))
    → begin_fanout_mutation_audit w targets ≡ none
    → w.begin_batch ≡ none
unfolding begin_fanout_mutation_audit
begun w [] h = absurd (cc)
begun w (t ∷ targets) h = h

module _ ⦃std : Std⦄ where
  -- What every target needs: a reason where its risk needs one, and the authorization of its risk.
  abbrev pub IsAllowed : Text → Text → Bool → Target World → Type 0
  IsAllowed command reason allow t =
      (lacks_reason (classify_governed_command t.value command).effective reason ≡ false)
      × Permitted allow (plan_of command t)

  -- The command changes what it runs on.
  abbrev pub mutates : Text → Target World → Bool
  mutates command t = is_remote_mutation exec_run (classify_governed_command t.value command).base

  -- The results are those of running each target once, up to their order.
  abbrev pub AreOnce : Text → Text → Bool → List (Target World) → List (Result Run) → Type 0
  AreOnce command reason allow targets results =
      (p : Result Run → Bool)
      → count p results ≡ count p (map (result_of (run_target command reason allow)) targets)

  -- The end of a fan-out whose workers send the results `arrived`.
  pub data Ended (w : BatchWorld) (targets : List (Target World)) (command reason : Text)
      (allow : Bool) (arrived : List (Result Run)) (end : Batch) : Type 0 where
    stopped :
        (e : Error)
        → end.error ≡ some (caused_by e)
        → All NotRan end.trace
        → end.results ≡ []
        → Ended w targets command reason allow arrived end
    read :
        w.trusted_operator ≡ none
        → All (IsAllowed command reason allow) targets
        → any (mutates command) targets ≡ false
        → end.trace ≡ map ran_result arrived
        → end.results ≡ sort_results arrived
        → AreOnce command reason allow targets (sort_results arrived)
        → is_clean end.error
          ≡ (is_nil (w.print (sort_results arrived)) && all has_succeeded (sort_results arrived))
        → Ended w targets command reason allow arrived end
    mutated :
        w.trusted_operator ≡ none
        → All (IsAllowed command reason allow) targets
        → any (mutates command) targets ≡ true
        → w.begin_batch ≡ none
        → end.trace
          ≡ batch_intent
            ∷ (map ran_result arrived
                ++ batch_outcome (fanout_outcome w (sort_results arrived)) ∷ [])
        → end.results
          ≡ printed (finish_fanout_mutation_audit w (sort_results arrived)) (sort_results arrived)
        → AreOnce command reason allow targets (sort_results arrived)
        → is_clean end.error ≡ (
            is_nil (w.finish_batch (fanout_outcome w (sort_results arrived)))
            && is_nil (w.print (sort_results arrived))
            && all has_succeeded (sort_results arrived))
        → Ended w targets command reason allow arrived end

  lacks_reason_mono :
      (a b : Risk) (reason : Text)
      → a ≤ b
      → lacks_reason b reason ≡ false
      → lacks_reason a reason ≡ false
  unfolding lacks_reason
  lacks_reason_mono a b reason h k = ground arith

  allowed :
      (command reason : Text) (allow : Bool) (worst : Risk) (targets : List (Target World))
      → lacks_reason worst reason ≡ false
      → All (λ (p : Plan). p.risk.effective ≤ worst) (map (plan_of command) targets)
      → All (Permitted allow) (map (plan_of command) targets)
      → All (IsAllowed command reason allow) targets
  unfolding plan_of
  allowed command reason allow worst [] n le ok = tt
  allowed command reason allow worst (t ∷ targets) n le ok = (
    (
      lacks_reason_mono (classify_governed_command t.value command).effective worst reason le.0 n,
      ok.0,
    ),
    allowed command reason allow worst targets n le.1 ok.1,
  )

  mutates_same :
      (command : Text) (targets : List (Target World))
      → fanout_plans_contain_mutation (map (plan_of command) targets) exec_run
        ≡ any (mutates command) targets
  unfolding fanout_plans_contain_mutation plan_of
  mutates_same command [] = refl
  mutates_same command (t ∷ targets) =
      ap (λ b. mutates command t || b) (mutates_same command targets)

  -- What the checks before the runs say.
  check_operator-Says :
      (w : BatchWorld) (o : Option Error) (command reason : Text) (allow : Bool)
      (targets : List (Target World))
      → w.trusted_operator ≡ o
      → Says ((w.trusted_operator ≡ none) × All (IsAllowed command reason allow) targets) (
          check_operator o
            (map (plan_of command) targets)
            reason
            allow
            (worst_effective r0 (map (plan_of command) targets)))
  unfolding check_operator
  check_operator-Says w (some e) command reason allow targets h = tt
  check_operator-Says w none command reason allow targets h =
      let plans = map (plan_of command) targets in
      let worst = worst_effective r0 plans in
      split_if (Says ((w.trusted_operator ≡ none) × All (IsAllowed command reason allow) targets))
        (lacks_reason worst reason) (λ _. deny_reason-NotRan plans worst)
        λ n.
          Says-map (All (Permitted allow) plans) _ (authorize_plans allow plans)
            (λ ok.
              (h, allowed command reason allow worst targets n (le-worst_effective r0 plans) ok))
            (authorize_plans-Says allow plans)

  module _ (w : BatchWorld) (targets : List (Target World)) (command reason : Text) (allow : Bool)
      (arrived : List (Result Run))
      (once : AreOnce command reason allow targets (sort_results arrived)) where
    run_mutations-Ended :
        (o : Option Error)
        → begin_fanout_mutation_audit w targets ≡ o
        → (w.trusted_operator ≡ none) × All (IsAllowed command reason allow) targets
        → any (mutates command) targets ≡ true
        → Ended w targets command reason allow arrived (run_mutations w o arrived)
    unfolding run_mutations
    run_mutations-Ended (some e) b ok m = stopped e refl tt refl
    run_mutations-Ended none b ok m =
        mutated ok.0 ok.1 m (begun w targets b) refl refl once
          (finish_error-clean w (sort_results arrived))

    run_plans-Ended :
        (c : Checked) (m : Bool)
        → any (mutates command) targets ≡ m
        → Says ((w.trusted_operator ≡ none) × All (IsAllowed command reason allow) targets) c
        → Ended w targets command reason allow arrived (run_plans w c m targets arrived)
    unfolding run_plans run_reads
    run_plans-Ended (refused e d) m h says = stopped e refl says refl
    run_plans-Ended granted true h ok =
        run_mutations-Ended (begin_fanout_mutation_audit w targets) refl ok h
    run_plans-Ended granted false h ok =
        read ok.0 ok.1 h refl refl once (print_fanout-clean w (sort_results arrived))

  -- However the workers of a fan-out of exec are scheduled, and whatever the world answers, it
  -- either stops with an error before any run, without results, or the operator is trusted, and
  -- every target has a reason where its own risk needs one and is authorized for that risk. The
  -- results are then, up to their order, those of running each target once. If the command mutates
  -- on none of the targets, the runs are all that is done, and no error is returned exactly when
  -- the printer reports none and every run has succeeded. If it mutates on some, a batch intent has
  -- been persisted before the runs, and the batch outcome, made of the results, is handed to the
  -- audit behind them; no error is returned exactly when the audit and the printer report none and
  -- every run has succeeded, and the results are printed unless the batch outcome is not recorded
  -- or the audit of a target is incomplete.
  pub run_exec_fanout-Ended :
      (w : BatchWorld) (targets : List (Target World)) (command reason : Text) (allow : Bool)
      (limit : ℕ) (arrived : List (Result Run))
      → Schedule limit (run_target command reason allow) (state targets [] []) (state [] [] arrived)
      → Ended w targets command reason allow arrived
          (run_exec_fanout w targets command reason allow arrived)
  unfolding run_exec_fanout plan_governed_fanout authorize_governed_fanout
  run_exec_fanout-Ended w targets command reason allow limit arrived schedule =
      let plans = map (plan_of command) targets in
      let run = run_target command reason allow in
      run_plans-Ended w targets command reason allow arrived
        (λ p. count-sort_results p arrived ∙ schedule-results limit run targets arrived schedule p)
        (check_operator w.trusted_operator plans reason allow (worst_effective r0 plans))
        (fanout_plans_contain_mutation plans exec_run) (sym (mutates_same command targets))
        (check_operator-Says w w.trusted_operator command reason allow targets refl)
