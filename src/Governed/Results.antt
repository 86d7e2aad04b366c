-- ===== src/Governed/Results.antt =====
-- When `runGovernedCommand` sends the command, what it records of it, and what it returns.
use srvgov_cli.Prelude.{
  ◌≡◌, refl, sym, ◌∙◌, inl, inr, Bool, true, false, ◌&&◌, some, ◌==◌, Bool-cases, Option-cases, any,
}
use srvgov_cli.GoText.{Text, Std}
use srvgov_cli.Governed.{
  Event, sent, mutation_outcome, read_outcome, World, EventType, GovernedRisk, Error, Status,
  status_succeeded, no_result, end_read, send_mutation, send_read, run_governed_command,
  finish_required_read_audit, classify_governed_command, is_remote_mutation,
  remote_mutation_outcome, governed_read_result,
}
use srvgov_cli.Governed.Protocol.{
  end_mutation-trace, end_read-trace, governed_cases, may_send, is_nil,
}

abbrev pub is_sent : Event → Bool
is_sent (sent _) = true
is_sent _ = false

abbrev is_success : Status → Bool
is_success status_succeeded = true
is_success _ = false

-- An outcome that says that the command succeeded.
abbrev pub is_recorded_success : Event → Bool
is_recorded_success (mutation_outcome o) = is_success o.status
is_recorded_success (read_outcome s _) = is_success s
is_recorded_success _ = false

-- The command ran to its end and exited with 0.
abbrev pub succeeded_remotely : World → Bool
succeeded_remotely w = is_nil w.ssh.1 && w.ssh.0.exit_code == 0

send_mutation-sent :
    (w : World) (risk : GovernedRisk) (command : Text)
    → (any is_sent (send_mutation w risk command).trace ≡ true)
      × (any is_recorded_success (send_mutation w risk command).trace ≡ succeeded_remotely w)
unfolding send_mutation remote_mutation_outcome
send_mutation-sent w risk command = elim (Option-cases w.ssh.1) [
  | inr (x, e) ↦ (rw (e, end_mutation-trace) refl, rw (e, end_mutation-trace) refl)
  | inl e ↦ elim (Bool-cases (w.ssh.0.exit_code == 0)) [
    | inl z ↦ (rw (e, z, end_mutation-trace) refl, rw (e, z, end_mutation-trace) refl)
    | inr z ↦ (rw (e, z, end_mutation-trace) refl, rw (e, z, end_mutation-trace) refl)
  ]
]

send_read-sent :
    (w : World) (risk : GovernedRisk) (command : Text)
    → (any is_sent (send_read w risk command).trace ≡ true)
      × (any is_recorded_success (send_read w risk command).trace ≡ succeeded_remotely w)
unfolding send_read
send_read-sent w risk command = elim (Option-cases w.ssh.1) [
  | inr (x, e) ↦ (rw (e, end_read-trace) refl, rw (e, end_read-trace) refl)
  | inl e ↦ elim (Bool-cases (w.ssh.0.exit_code == 0)) [
    | inl z ↦ (rw (e, z, end_read-trace) refl, rw (e, z, end_read-trace) refl)
    | inr z ↦ (rw (e, z, end_read-trace) refl, rw (e, z, end_read-trace) refl)
  ]
]

send_read_withheld :
    (w : World) (risk : GovernedRisk) (command : Text) {e : Error}
    → w.append_read ≡ some e
    → (send_read w risk command).result ≡ no_result
unfolding send_read end_read finish_required_read_audit governed_read_result
send_read_withheld w risk command h = elim (Option-cases w.ssh.1) [
  | inr (x, e) ↦ rw (e, h) refl
  | inl e ↦ elim (Bool-cases (w.ssh.0.exit_code == 0)) [
    | inl z ↦ rw (e, z, h) refl
    | inr z ↦ rw (e, z, h) refl
  ]
]

module _ ⦃std : Std⦄ where
  -- The command is sent exactly when the operator is trusted, a reason is given where the risk needs
  -- one, the authorization succeeds, and the audit intent is persisted.
  pub run_governed_command-sent :
      (w : World) (command reason : Text) (allow : Bool) (event_type : EventType)
      → any is_sent (run_governed_command w command reason allow event_type).trace
        ≡ may_send w command reason allow event_type
  run_governed_command-sent w command reason allow event_type =
      governed_cases w command reason allow event_type
        (λ r. any is_sent r.trace ≡ may_send w command reason allow event_type) (λ e h. sym h)
        (λ e h. sym h) (λ h m. (send_mutation-sent w _ command).0 ∙ sym h)
        (λ h m. (send_read-sent w _ command).0 ∙ sym h)

  -- A success is handed to the audit exactly when the command was sent, its session ended without an error, and
  -- it exited with 0.
  pub run_governed_command_recorded :
      (w : World) (command reason : Text) (allow : Bool) (event_type : EventType)
      → any is_recorded_success (run_governed_command w command reason allow event_type).trace
        ≡ (may_send w command reason allow event_type && succeeded_remotely w)
  run_governed_command_recorded w command reason allow event_type =
      governed_cases w command reason allow event_type
        (λ r.
          any is_recorded_success r.trace
          ≡ (may_send w command reason allow event_type && succeeded_remotely w))
        (λ e h. rw h refl) (λ e h. rw h refl) (λ h m. rw h (send_mutation-sent w _ command).1)
        (λ h m. rw h (send_read-sent w _ command).1)

  -- Where the outcome of a read cannot be recorded, the call returns no result.
  pub run_governed_command_withheld :
      (w : World) (command reason : Text) (allow : Bool) (event_type : EventType) {e : Error}
      → is_remote_mutation event_type (classify_governed_command w command).base ≡ false
      → w.append_read ≡ some e
      → (run_governed_command w command reason allow event_type).result ≡ no_result
  run_governed_command_withheld w command reason allow event_type read h =
      governed_cases w command reason allow event_type (λ r. r.result ≡ no_result) (λ e _. refl)
        (λ e _. refl) (λ _ m. cc) (λ _ m. send_read_withheld w _ command h)
