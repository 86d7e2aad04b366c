-- ===== src/Governed/Success.antt =====
-- What it means that `runGovernedCommand` returns no error.
use srvgov_cli.Prelude.{
  ◌≡◌, refl, sym, ap, ◌∙◌, ◌≢◌, inl, inr, Bool, true, false, Option, none, some, List, [], ◌∷◌,
  arith, ◌==◌, Bool-cases, Option-cases,
}
use srvgov_cli.GoText.{Text, Std}
use srvgov_cli.Governed.{
  mutation_intent, read_intent, sent, uncertain_remote_mutation_error, remote_exit_error,
  status_failed, status_succeeded, Event, World, EventType, GovernedRisk, Run, Error, SshResult,
  Status, no_result, end_mutation, end_read, send_mutation, send_read, run_governed_command,
  finish_mutation_audit, finish_required_read_audit, ssh_output_incomplete, ssh_output_limit,
}
use srvgov_cli.Governed.Protocol.{governed_cases, may_send, is_nil}
use srvgov_cli.Governed.Results.{succeeded_remotely}

-- The command was sent and succeeded, and its output was captured whole and is what is returned.
pub record IsSuccess (w : World) (r : Run) : Type 0 where
  pub succeeded : succeeded_remotely w ≡ true
  pub complete : ssh_output_incomplete w.ssh.0 ≡ false
  pub returned : r.result ≡ w.ssh.0

finish_mutation_audit-nil :
    (w : World) (operation : Option Error)
    → finish_mutation_audit w operation ≡ none
    → is_nil operation ≡ true
unfolding finish_mutation_audit
finish_mutation_audit-nil w none h = refl
finish_mutation_audit-nil w (some e) h = absurd (ground arith)

finish_required_read_audit-nil :
    (w : World) (operation : Option Error)
    → finish_required_read_audit w operation ≡ none
    → is_nil operation ≡ true
unfolding finish_required_read_audit
finish_required_read_audit-nil w none h = refl
finish_required_read_audit-nil w (some e) h = absurd (ground arith)

pub end_mutation-nil :
    (w : World) (risk : GovernedRisk) (before : List Event) (result : SshResult)
    (operation : Option Error) (uncertain incomplete : Bool) (otherwise : Option Error)
    → (end_mutation w risk before result operation uncertain incomplete otherwise).error ≡ none
    → (is_nil operation ≡ true)
      × (is_nil otherwise ≡ true)
      × ((end_mutation w risk before result operation uncertain incomplete otherwise).result
          ≡ result)
unfolding end_mutation
end_mutation-nil w risk before result operation uncertain incomplete otherwise h =
    elim (Option-cases (finish_mutation_audit w operation)) [
      | inl e ↦
          let same : (end_mutation w risk before result operation uncertain incomplete
                otherwise).error
              ≡ otherwise =
            rw (e, end_mutation) refl in
          (
            finish_mutation_audit-nil w operation e,
            ap is_nil (sym same ∙ h),
            rw (e, end_mutation) refl,
          )
      | inr (x, e) ↦
          let same : (end_mutation w risk before result operation uncertain incomplete
                otherwise).error
              ≡ some x =
            rw (e, end_mutation) refl in
          cc
    ]

end_read-nil :
    (w : World) (risk : GovernedRisk) (before : List Event) (result : SshResult) (status : Status)
    (operation otherwise : Option Error)
    → (end_read w risk before result status operation otherwise).error ≡ none
    → (is_nil operation ≡ true)
      × (is_nil otherwise ≡ true)
      × ((end_read w risk before result status operation otherwise).result ≡ result)
unfolding end_read
end_read-nil w risk before result status operation otherwise h =
    elim (Option-cases (finish_required_read_audit w operation)) [
      | inl e ↦
          let same : (end_read w risk before result status operation otherwise).error ≡ otherwise =
            rw (e, end_read) refl in
          let ok : is_nil operation ≡ true = finish_required_read_audit-nil w operation e in
          (ok, ap is_nil (sym same ∙ h), rw (e, end_read) refl)
      | inr (x, e) ↦
          let same : (end_read w risk before result status operation otherwise).error ≡ some x =
            rw (e, end_read) refl in
          cc
    ]

pub ssh_output_limit-nil :
    (result : SshResult) (mutation : Bool)
    → is_nil (ssh_output_limit result mutation) ≡ true
    → ssh_output_incomplete result ≡ false
unfolding ssh_output_limit
ssh_output_limit-nil result mutation h = ground arith

false-ne-true : false ≢ true
false-ne-true e = cc

send_mutation-IsSuccess :
    (w : World) (risk : GovernedRisk) (command : Text)
    → (send_mutation w risk command).error ≡ none
    → IsSuccess w (send_mutation w risk command)
unfolding send_mutation
send_mutation-IsSuccess w risk command h = elim (Option-cases w.ssh.1) [
  | inr (x, e) ↦
      let q : send_mutation w risk command
          ≡ end_mutation w risk (mutation_intent ∷ sent command ∷ []) no_result
              (some (uncertain_remote_mutation_error x)) true false none =
        rw e refl in
      let nils =
        end_mutation-nil w risk (mutation_intent ∷ sent command ∷ []) no_result
          (some (uncertain_remote_mutation_error x)) true false none
          (ap (λ (r : Run). r.error) (sym q) ∙ h) in
      absurd (false-ne-true nils.0)
  | inl e ↦ elim (Bool-cases (w.ssh.0.exit_code == 0)) [
    | inl z ↦
        let q : send_mutation w risk command
            ≡ end_mutation w risk (mutation_intent ∷ sent command ∷ []) w.ssh.0 none false
                (ssh_output_incomplete w.ssh.0) (ssh_output_limit w.ssh.0 true) =
          rw (e, z) refl in
        let nils =
          end_mutation-nil w risk (mutation_intent ∷ sent command ∷ []) w.ssh.0 none false
            (ssh_output_incomplete w.ssh.0) (ssh_output_limit w.ssh.0 true)
            (ap (λ (r : Run). r.error) (sym q) ∙ h) in
        record {
          succeeded = rw (e, z) refl;
          complete = ssh_output_limit-nil w.ssh.0 true nils.1;
          returned = ap (λ (r : Run). r.result) q ∙ nils.2;
        }
    | inr z ↦
        let q : send_mutation w risk command
            ≡ end_mutation w risk (mutation_intent ∷ sent command ∷ []) w.ssh.0
                (some (remote_exit_error w.ssh.0)) false (ssh_output_incomplete w.ssh.0) none =
          rw (e, z) refl in
        let nils =
          end_mutation-nil w risk (mutation_intent ∷ sent command ∷ []) w.ssh.0
            (some (remote_exit_error w.ssh.0)) false (ssh_output_incomplete w.ssh.0) none
            (ap (λ (r : Run). r.error) (sym q) ∙ h) in
        absurd (false-ne-true nils.0)
  ]
]

send_read-IsSuccess :
    (w : World) (risk : GovernedRisk) (command : Text)
    → (send_read w risk command).error ≡ none
    → IsSuccess w (send_read w risk command)
unfolding send_read
send_read-IsSuccess w risk command h = elim (Option-cases w.ssh.1) [
  | inr (x, e) ↦
      let q : send_read w risk command
          ≡ end_read w risk (read_intent ∷ sent command ∷ []) no_result status_failed (some x)
              none =
        rw e refl in
      let nils =
        end_read-nil w risk (read_intent ∷ sent command ∷ []) no_result status_failed (some x) none
          (ap (λ (r : Run). r.error) (sym q) ∙ h) in
      absurd (false-ne-true nils.0)
  | inl e ↦ elim (Bool-cases (w.ssh.0.exit_code == 0)) [
    | inl z ↦
        let q : send_read w risk command
            ≡ end_read w risk (read_intent ∷ sent command ∷ []) w.ssh.0 status_succeeded none
                (ssh_output_limit w.ssh.0 false) =
          rw (e, z) refl in
        let nils =
          end_read-nil w risk (read_intent ∷ sent command ∷ []) w.ssh.0 status_succeeded none
            (ssh_output_limit w.ssh.0 false) (ap (λ (r : Run). r.error) (sym q) ∙ h) in
        record {
          succeeded = rw (e, z) refl;
          complete = ssh_output_limit-nil w.ssh.0 false nils.1;
          returned = ap (λ (r : Run). r.result) q ∙ nils.2;
        }
    | inr z ↦
        let q : send_read w risk command
            ≡ end_read w risk (read_intent ∷ sent command ∷ []) w.ssh.0 status_failed
                (some (remote_exit_error w.ssh.0)) none =
          rw (e, z) refl in
        let nils =
          end_read-nil w risk (read_intent ∷ sent command ∷ []) w.ssh.0 status_failed
            (some (remote_exit_error w.ssh.0)) none (ap (λ (r : Run). r.error) (sym q) ∙ h) in
        absurd (false-ne-true nils.0)
  ]
]

module _ ⦃std : Std⦄ where
  -- Where the call returns no error, the command was sent, its session ended without an error, it
  -- exited with 0, its output was captured whole, and that output is what the call returns.
  pub run_governed_command-IsSuccess :
      (w : World) (command reason : Text) (allow : Bool) (event_type : EventType)
      → (run_governed_command w command reason allow event_type).error ≡ none
      → (may_send w command reason allow event_type ≡ true)
        × IsSuccess w (run_governed_command w command reason allow event_type)
  run_governed_command-IsSuccess w command reason allow event_type =
      governed_cases w command reason allow event_type
        (λ r. r.error ≡ none → (may_send w command reason allow event_type ≡ true) × IsSuccess w r)
        (λ e _ h. cc) (λ e _ h. cc) (λ sends _ h. (sends, send_mutation-IsSuccess w _ command h))
        (λ sends _ h. (sends, send_read-IsSuccess w _ command h))
