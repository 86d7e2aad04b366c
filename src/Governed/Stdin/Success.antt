-- ===== src/Governed/Stdin/Success.antt =====
-- When a governed file write returns no error.
use srvgov_cli.Prelude.{
  ◌≡◌, inl, inr, Bool, true, false, Option, none, some, List, [], ◌∷◌, ◌==◌, Bool-cases,
  Option-cases,
}
use srvgov_cli.GoText.{Text, Std}
use srvgov_cli.Governed.{
  Event, mutation_intent, sent, World, GovernedRisk, Run, Error, classify_governed_command,
  lacks_reason, required_allow_flags, ssh_output_incomplete, ssh_output_limit,
  uncertain_remote_mutation_error, no_result,
}
use srvgov_cli.Governed.Success.{end_mutation-nil, ssh_output_limit-nil}
use srvgov_cli.Governed.Stdin.{
  Prepared, prepared, exit_failure, send_with_stdin, run_governed_command_with_stdin,
  Prepared-cases,
}

-- The session ended without an error, the content was read whole, the shell exited with 0, and its output was
-- captured whole and is what the call returns.
abbrev pub IsWritten : World → Option Error → Run → Type 0
IsWritten w validation r =
    (w.ssh.1 ≡ none)
    × (validation ≡ none)
    × ((w.ssh.0.exit_code == 0) ≡ true)
    × (ssh_output_incomplete w.ssh.0 ≡ false)
    × (r.result ≡ w.ssh.0)

send_with_stdin-IsWritten :
    (w : World) (risk : GovernedRisk) (command : Text) (validation : Option Error)
    → (send_with_stdin w risk command validation).error ≡ none
    → IsWritten w validation (send_with_stdin w risk command validation)
unfolding send_with_stdin
send_with_stdin-IsWritten w risk command validation h =
    let before : List Event = mutation_intent ∷ sent command ∷ [] in
    let incomplete = ssh_output_incomplete w.ssh.0 in
    elim (Option-cases w.ssh.1) [
      | inr (x, e) ↦ absurd (
          let nils =
            end_mutation-nil w risk before no_result (some (uncertain_remote_mutation_error x)) true
              false none (rw (e, send_with_stdin) at h) in
          cc)
      | inl e ↦ elim (Option-cases validation) [
        | inr (x, v) ↦ absurd (
            let nils =
              end_mutation-nil w risk before w.ssh.0 (some x) false incomplete none
                (rw (e, v, send_with_stdin) at h) in
            cc)
        | inl v ↦ elim (Bool-cases (w.ssh.0.exit_code == 0)) [
          | inr z ↦ absurd (
              let nils =
                end_mutation-nil w risk before w.ssh.0 (some (exit_failure w.ssh.0).0)
                  (exit_failure w.ssh.0).1 incomplete none (rw (e, v, z, send_with_stdin) at h) in
              cc)
          | inl z ↦
              let nils =
                end_mutation-nil w risk before w.ssh.0 none false incomplete
                  (ssh_output_limit w.ssh.0 true) (rw (e, v, z, send_with_stdin) at h) in
              (
                e,
                v,
                z,
                ssh_output_limit-nil w.ssh.0 true nils.1,
                rw (e, v, z, send_with_stdin) nils.2,
              )
        ]
      ]
    ]

module _ ⦃std : Std⦄ where
  -- The operator is trusted, a reason is given where the risk of the policy command needs one, the
  -- authorization succeeds, the content is accepted, and the audit intent is persisted.
  abbrev pub IsGranted : World → Text → Text → Bool → Prepared → Type 0
  IsGranted w policy reason allow input =
      (w.trusted_operator ≡ none)
      × (lacks_reason (classify_governed_command w policy).effective reason ≡ false)
      × (w.authorize (classify_governed_command w policy).effective
            (required_allow_flags (classify_governed_command w policy).effective) allow
          ≡ none)
      × ((command : Text) × (input ≡ prepared command))
      × (w.begin_mutation ≡ none)

  -- Where a governed file write returns no error, it was authorized for the policy command, its content was
  -- accepted, its intent persisted, the session ended without an error, the content was read whole, the shell
  -- exited with 0, and its output was captured whole and is what the call returns.
  pub run_governed_command_with_stdin-IsWritten :
      (w : World) (policy reason : Text) (allow : Bool) (input : Prepared)
      (validation : Option Error)
      → (run_governed_command_with_stdin w policy reason allow input validation).error ≡ none
      → IsGranted w policy reason allow input
        × IsWritten w validation
            (run_governed_command_with_stdin w policy reason allow input validation)
  unfolding run_governed_command_with_stdin
  run_governed_command_with_stdin-IsWritten w policy reason allow input validation h =
      let risk = classify_governed_command w policy in
      elim (Option-cases w.trusted_operator) [
        | inr (x, o) ↦ absurd (let k = rw (o, run_governed_command_with_stdin) at h in cc)
        | inl o ↦ elim (Bool-cases (lacks_reason risk.effective reason)) [
          | inl l ↦ absurd (let k = rw (o, l, run_governed_command_with_stdin) at h in cc)
          | inr l ↦
              elim (Option-cases
                (w.authorize risk.effective (required_allow_flags risk.effective) allow)) [
                  | inr (x, a) ↦
                      absurd (let k = rw (o, l, a, run_governed_command_with_stdin) at h in cc)
                  | inl a ↦ elim (Prepared-cases input) [
                    | inl (x, p) ↦
                        absurd (let k = rw (o, l, a, p, run_governed_command_with_stdin) at h in cc)
                    | inr (command, p) ↦ elim (Option-cases w.begin_mutation) [
                      | inr (x, b) ↦
                          absurd
                            (let k = rw (o, l, a, p, b, run_governed_command_with_stdin) at h in cc)
                      | inl b ↦
                          let (ended, valid, zero_exit, whole, same) =
                            send_with_stdin-IsWritten w risk command validation
                              (rw (o, l, a, p, b, run_governed_command_with_stdin) at h) in
                          (
                            (o, l, a, (command, p), b),
                            (
                              ended,
                              valid,
                              zero_exit,
                              whole,
                              rw (o, l, a, p, b, run_governed_command_with_stdin) same,
                            ),
                          )
                    ]
                  ]
                ]
        ]
      ]
