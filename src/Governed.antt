-- ===== src/Governed.antt =====
-- `runGovernedCommand` of cmd/governed_remote.go and what it calls: the class of a command, the
-- authorization, the audit intent, the remote run and the audit outcome. What the call does to the
-- world is a trace of events; what the world answers is the record `World`. An `error` is an
-- `Option Error`, and Go's `nil` is `none`.
pub mod Protocol
pub mod Stdin
pub mod Results
pub mod Success
use srvgov_cli.Prelude.{
  ◌/◌, ◌%◌, ℕ, zero, suc, ◌+◌, ◌-◌, ◌*◌, ◌≤◌, ◌<◌, String, ◌≡◌, refl, sym, ap, ◌∙◌, ◌≢◌, ◌↔◌, ◌⊎◌,
  inl, inr, Bool, true, false, not, ◌&&◌, ◌||◌, Option, none, some, List, [], ◌∷◌, ◌++◌, map,
  append-nil, append_assoc, arith, ltb, leb, ◌==◌, if◌then◌else◌, ==_iff, Bool-cases, or_resolve,
  Option-cases, ◌>>=◌, >>=-eq-some, length, take, any, all, length-append, any-append, All,
  All-append, All-map, All-of, IfSome, split_if, IfSome-eq, holds_below, holds_below-at,
}
use srvgov_cli.GoText.{Text, trim_space, is, Std}
use srvgov_cli.Cmdclass.Risk.{Risk, r0, r1, r2, r3}
use srvgov_cli.Cmdclass.Classify.{classify}

-- internal/srvgovaudit/audit.go
pub data EventType : Type 0 where
  exec_run authorization_denied audit_query audit_verify audit_prune role_assign role_revoke
        context_set context_use context_delete context_export context_import credential_migrate
        status_observe ports_observe logs_observe svc_status svc_action file_read file_stat
        file_list file_write docker_list docker_inspect docker_logs docker_action :
      EventType

pub data Status : Type 0 where
  status_succeeded status_failed status_denied : Status

pub data AllowFlag : Type 0 where
  allow_destructive : AllowFlag

-- `sshexec.Result`
pub record SshResult : Type 0 where
  pub stdout : Text
  pub stderr : Text
  pub exit_code : ℕ
  pub stdout_truncated : Bool
  pub stderr_truncated : Bool

-- Go's zero value of it
abbrev pub no_result : SshResult
no_result = record {
  stdout = [];
  stderr = [];
  exit_code = 0;
  stdout_truncated = false;
  stderr_truncated = false;
}

-- The errors that the call can return; those of code outside are numbered.
pub data Error : Type 0 where
  outside_error : ℕ → Error
  missing_reason_error : Risk → Error
  uncertain_remote_mutation_error : Error → Error
  remote_exit_error : SshResult → Error
  uncertain_atomic_file_write_error : SshResult → Error
  ssh_output_limit_error : SshResult → Bool → Error
  required_read_audit_error : Error → Error
  audit_incomplete_error : Bool → Error
  audit_indeterminate_error : Error

-- `errors.Is(err, errRequiredReadAudit)`, which nothing but `requiredReadAuditError` wraps
abbrev pub is_required_read_audit : Option Error → Bool
is_required_read_audit (some (required_read_audit_error _)) = true
is_required_read_audit _ = false

pub record GovernedRisk : Type 0 where
  pub base : Risk
  pub effective : Risk

-- The fields that a command with no file sets.
pub record MutationAuditOutcome : Type 0 where
  pub status : Status
  pub succeeded : ℕ
  pub failed : ℕ
  pub uncertain : ℕ
  pub output_incomplete : Bool
  pub error : Option Error

-- What happens when the audit record of an outcome is appended.
pub data Append : Type 0 where
  appended not_committed indeterminate : Append
  committed_with : Error → Append

-- What the world answers: `safety` of the shared library, the audit log with its queue, the spool
-- file, and the SSH client.
pub record World : Type 0 where
  pub trusted_operator : Option Error
  pub effective_risk : Risk → Risk
  pub authorize : Risk → List AllowFlag → Bool → Option Error
  pub begin_mutation : Option Error
  pub begin_read : Option Error
  pub ssh : SshResult × Option Error
  pub append_read : Option Error
  pub queue_locked : Bool
  pub queue_released : Bool
  pub replayed : Bool
  pub append_outcome : Append
  pub spooled : Bool

-- What the call did: an outcome event is the call that records the outcome; whether the record is
-- kept is the world's answer to it. The notices of a mutation are printed while it runs.
pub data Event : Type 0 where
  denied : Risk → Error → Event
  mutation_intent : Event
  read_intent : Event
  sent : Text → Event
  mutation_outcome : MutationAuditOutcome → Event
  read_outcome : Status → Option Error → Event
  notices : Event

unfoldable pub required_allow_flags : Risk → List AllowFlag
required_allow_flags risk = if risk == r3 then allow_destructive ∷ [] else []

unfoldable pub is_remote_mutation : EventType → Risk → Bool
is_remote_mutation file_write base = true
is_remote_mutation svc_action base = true
is_remote_mutation docker_action base = true
is_remote_mutation exec_run base = leb r1 base
is_remote_mutation _ base = false

unfoldable pub ssh_output_incomplete : SshResult → Bool
ssh_output_incomplete result = result.stdout_truncated || result.stderr_truncated

unfoldable pub ssh_output_limit : SshResult → Bool → Option Error
unfolding ssh_output_incomplete
ssh_output_limit result mutation =
    if ssh_output_incomplete result then some (ssh_output_limit_error result mutation) else none

-- Whether the work of `finishMutationAudit` under the queue's lock ends without an error.
unfoldable pub is_outcome_kept : World → Bool
is_outcome_kept w = if not w.replayed then w.spooled else elim w.append_outcome [
  | appended ↦ true
  | committed_with _ ↦ true
  | not_committed ↦ w.spooled
  | indeterminate ↦ w.spooled
]

unfoldable pub finish_mutation_audit : World → Option Error → Option Error
unfolding is_outcome_kept
finish_mutation_audit w operation =
    if not (w.queue_locked && is_outcome_kept w && w.queue_released)
    then some (audit_incomplete_error true)
    else if not w.replayed
    then some (audit_incomplete_error false)
    else elim w.append_outcome [
      | appended ↦ operation
      | committed_with e ↦ some e
      | not_committed ↦ some (audit_incomplete_error false)
      | indeterminate ↦ some audit_indeterminate_error
    ]

-- The outcome that `finishRemoteMutationAudit` records for a command with no file.
unfoldable pub remote_mutation_outcome : Option Error → Bool → Bool → MutationAuditOutcome
remote_mutation_outcome none uncertain incomplete = record {
  status = status_succeeded;
  succeeded = 1;
  failed = 0;
  uncertain = 0;
  output_incomplete = incomplete;
  error = none;
}
remote_mutation_outcome (some e) uncertain incomplete = record {
  status = status_failed;
  succeeded = 0;
  failed = if uncertain then 0 else 1;
  uncertain = if uncertain then 1 else 0;
  output_incomplete = incomplete;
  error = some e;
}

unfoldable pub finish_required_read_audit : World → Option Error → Option Error
finish_required_read_audit w operation = elim w.append_read [
  | some e ↦ some (required_read_audit_error e)
  | none ↦ operation
]

-- What the call returns, and what it did.
pub record Run : Type 0 where
  pub trace : List Event
  pub result : SshResult
  pub risk : GovernedRisk
  pub error : Option Error

unfoldable pub governed_read_result : SshResult → Option Error → SshResult
governed_read_result result err = if is_required_read_audit err then no_result else result

-- The end of a mutation: its outcome is recorded, and the error of the recording comes first.
unfoldable pub end_mutation :
    World → GovernedRisk → List Event → SshResult → Option Error → Bool → Bool → Option Error → Run
unfolding finish_mutation_audit remote_mutation_outcome
end_mutation w risk before result operation uncertain incomplete otherwise =
    let trace =
      before ++ mutation_outcome (remote_mutation_outcome operation uncertain incomplete) ∷ [] in
    elim (finish_mutation_audit w operation) [
      | some e ↦ record { trace = trace; result = result; risk = risk; error = some e }
      | none ↦ record { trace = trace; result = result; risk = risk; error = otherwise }
    ]

-- The end of a read: its outcome is recorded, the notices are released, and the result is withheld
-- where the record was not kept.
unfoldable pub end_read :
    World → GovernedRisk → List Event → SshResult → Status → Option Error → Option Error → Run
unfolding finish_required_read_audit governed_read_result
end_read w risk before result status operation otherwise =
    let trace = before ++ read_outcome status operation ∷ notices ∷ [] in
    elim (finish_required_read_audit w operation) [
      | some e ↦ record {
        trace = trace;
        result = governed_read_result result (some e);
        risk = risk;
        error = some e;
      }
      | none ↦ record { trace = trace; result = result; risk = risk; error = otherwise }
    ]

-- Behind the intent: the command is sent, and what comes back is recorded.
unfoldable pub send_mutation : World → GovernedRisk → Text → Run
unfolding end_mutation ssh_output_limit ssh_output_incomplete
send_mutation w risk command =
    let before = mutation_intent ∷ sent command ∷ [] in
    let (result, failure) = w.ssh in
    elim failure [
      | some e ↦
          end_mutation w risk before no_result (some (uncertain_remote_mutation_error e)) true false
            none
      | none ↦
          if not (result.exit_code == 0)
          then end_mutation w risk before result (some (remote_exit_error result)) false
              (ssh_output_incomplete result) none
          else end_mutation w risk before result none false (ssh_output_incomplete result)
              (ssh_output_limit result true)
    ]

unfoldable pub send_read : World → GovernedRisk → Text → Run
unfolding end_read ssh_output_limit
send_read w risk command =
    let before = read_intent ∷ sent command ∷ [] in
    let (result, failure) = w.ssh in
    elim failure [
      | some e ↦ end_read w risk before no_result status_failed (some e) none
      | none ↦
          if not (result.exit_code == 0)
          then end_read w risk before result status_failed (some (remote_exit_error result)) none
          else end_read w risk before result status_succeeded none (ssh_output_limit result false)
    ]

-- A return before the command is sent.
abbrev pub refuse : GovernedRisk → List Event → Error → Run
refuse risk trace e = record { trace = trace; result = no_result; risk = risk; error = some e }

module _ ⦃std : Std⦄ where
  unfoldable pub classify_governed_command : World → Text → GovernedRisk
  classify_governed_command w command =
      let base = classify command in record { base = base; effective = w.effective_risk base }

  unfoldable pub lacks_reason : Risk → Text → Bool
  lacks_reason risk reason = leb r1 risk && is (trim_space reason) ""

  unfoldable pub run_governed_command : World → Text → Text → Bool → EventType → Run
  unfolding classify_governed_command is_remote_mutation required_allow_flags lacks_reason
  run_governed_command w command reason allow event_type =
      let risk = classify_governed_command w command in
      elim w.trusted_operator [
        | some e ↦ refuse risk [] e
        | none ↦
            if lacks_reason risk.effective reason
            then refuse risk (denied risk.effective (missing_reason_error risk.effective) ∷ [])
                (missing_reason_error risk.effective)
            else elim (w.authorize risk.effective (required_allow_flags risk.effective) allow) [
              | some e ↦ refuse risk (denied risk.effective e ∷ []) e
              | none ↦
                  if is_remote_mutation event_type risk.base
                  then elim w.begin_mutation [
                    | some e ↦ refuse risk [] e
                    | none ↦ send_mutation w risk command
                  ]
                  else elim w.begin_read [
                    | some e ↦ refuse risk [] (required_read_audit_error e)
                    | none ↦ send_read w risk command
                  ]
            ]
      ]
