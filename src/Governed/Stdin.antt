-- ===== src/Governed/Stdin.antt =====
-- `runGovernedCommandWithStdin` of cmd/governed_remote.go, the governed run of a file write. What its
-- outcomes say of the file is left to Spool.Outcomes.
pub mod Success
use mathlib.Core.Path.{subst}
use srvgov_cli.Prelude.{
  ◌/◌, ◌%◌, ℕ, zero, suc, ◌+◌, ◌-◌, ◌*◌, ◌≤◌, ◌<◌, String, ◌≡◌, refl, sym, ap, ◌∙◌, ◌≢◌, ◌↔◌, ◌⊎◌,
  inl, inr, Bool, true, false, not, ◌&&◌, ◌||◌, Option, none, some, List, [], ◌∷◌, ◌++◌, map,
  append-nil, append_assoc, arith, ltb, leb, ◌==◌, if◌then◌else◌, ==_iff, Bool-cases, or_resolve,
  Option-cases, ◌>>=◌, >>=-eq-some, length, take, any, all, length-append, any-append, All,
  All-append, All-map, All-of, IfSome, split_if, IfSome-eq, holds_below, holds_below-at, ℤ, pos,
  negsuc, is_negative, clamp, is_positive,
}
use srvgov_cli.GoText.{Text, Std}
use srvgov_cli.Governed.{
  Event, denied, mutation_intent, sent, mutation_outcome, MutationAuditOutcome, World, GovernedRisk,
  Run, Error, missing_reason_error, remote_exit_error, uncertain_remote_mutation_error,
  uncertain_atomic_file_write_error, SshResult, no_result, end_mutation, refuse,
  finish_mutation_audit, classify_governed_command, lacks_reason, required_allow_flags,
  ssh_output_incomplete, ssh_output_limit,
}
use srvgov_cli.Governed.Protocol.{end_mutation-trace, is_nil}

-- What `prepareStdin` answers: an error, or the command that is sent.
pub data Prepared : Type 0 where
  prepare_failed : Error → Prepared
  prepared : Text → Prepared

unfoldable pub atomic_file_write_exit_is_definite_failure : ℕ → Bool
atomic_file_write_exit_is_definite_failure exit_code = leb 64 exit_code && leb exit_code 68

-- A nonzero exit of a write: the error, and whether the target's state is uncertain.
unfoldable pub exit_failure : SshResult → Error × Bool
unfolding atomic_file_write_exit_is_definite_failure
exit_failure result =
    if not (atomic_file_write_exit_is_definite_failure result.exit_code)
    then (uncertain_atomic_file_write_error result, true)
    else (remote_exit_error result, false)

-- Behind the intent, for the answer of `validate`.
unfoldable pub send_with_stdin : World → GovernedRisk → Text → Option Error → Run
unfolding end_mutation ssh_output_limit ssh_output_incomplete exit_failure
send_with_stdin w risk command validation =
    let before : List Event = mutation_intent ∷ sent command ∷ [] in
    let result : SshResult = w.ssh.0 in
    elim (w.ssh.1) [
      | some e ↦
          end_mutation w risk before no_result (some (uncertain_remote_mutation_error e)) true false
            none
      | none ↦ elim validation [
        | some e ↦
            end_mutation w risk before result (some e) false (ssh_output_incomplete result) none
        | none ↦
            if not (result.exit_code == 0)
            then end_mutation w risk before result (some (exit_failure result).0)
                (exit_failure result).1 (ssh_output_incomplete result) none
            else end_mutation w risk before result none false (ssh_output_incomplete result)
                (ssh_output_limit result true)
      ]
    ]

module _ ⦃std : Std⦄ where
  unfoldable pub run_governed_command_with_stdin :
      World → Text → Text → Bool → Prepared → Option Error → Run
  unfolding classify_governed_command required_allow_flags lacks_reason send_with_stdin
  run_governed_command_with_stdin w policy reason allow input validation =
      let risk : GovernedRisk = classify_governed_command w policy in
      elim (w.trusted_operator) [
        | some e ↦ refuse risk [] e
        | none ↦
            if lacks_reason risk.effective reason
            then refuse risk (denied risk.effective (missing_reason_error risk.effective) ∷ [])
                (missing_reason_error risk.effective)
            else elim (w.authorize risk.effective (required_allow_flags risk.effective) allow) [
              | some e ↦ refuse risk (denied risk.effective e ∷ []) e
              | none ↦ elim input [
                | prepare_failed e ↦ refuse risk [] e
                | prepared command ↦ elim (w.begin_mutation) [
                  | some e ↦ refuse risk [] e
                  | none ↦ send_with_stdin w risk command validation
                ]
              ]
            ]
      ]

pub Prepared-cases :
    (p : Prepared)
    → ((e : Error) × (p ≡ prepare_failed e)) ⊎ ((command : Text) × (p ≡ prepared command))
Prepared-cases (prepare_failed e) = inl (e, refl)
Prepared-cases (prepared command) = inr (command, refl)

-- An intent, the command behind it, and the outcome behind that.
abbrev IsWhole : Text → List Event → Type 0
IsWhole command trace =
    (o : MutationAuditOutcome) × (trace ≡ mutation_intent ∷ sent command ∷ mutation_outcome o ∷ [])

send_with_stdin-IsWhole :
    (w : World) (risk : GovernedRisk) (command : Text) (validation : Option Error)
    → IsWhole command (send_with_stdin w risk command validation).trace
unfolding send_with_stdin
send_with_stdin-IsWhole w risk command validation = elim (Option-cases w.ssh.1) [
  | inr (x, e) ↦ rw (e, end_mutation-trace) (_, refl)
  | inl e ↦ elim (Option-cases validation) [
    | inr (x, v) ↦ rw (e, v, end_mutation-trace) (_, refl)
    | inl v ↦ elim (Bool-cases (w.ssh.0.exit_code == 0)) [
      | inl z ↦ rw (e, v, z, end_mutation-trace) (_, refl)
      | inr z ↦ rw (e, v, z, end_mutation-trace) (_, refl)
    ]
  ]
]

abbrev is_prepared : Prepared → Bool
is_prepared (prepare_failed e) = false
is_prepared (prepared command) = true

abbrev pub is_denied : Event → Bool
is_denied (denied risk e) = true
is_denied _ = false

-- The events of a write that may begin, or may not.
pub data Decided (input : Prepared) : Bool → List Event → Type 0 where
  withheld : {trace : List Event} → all is_denied trace ≡ true → Decided input false trace
  written :
      (command : Text) (o : MutationAuditOutcome)
      → input ≡ prepared command
      → Decided input true (mutation_intent ∷ sent command ∷ mutation_outcome o ∷ [])

module _ ⦃std : Std⦄ where
  -- Whether a file write may begin: the operator is trusted, a reason is given where the risk needs one, the
  -- authorization succeeds, the content is accepted, and the intent is persisted.
  abbrev pub may_write : World → Text → Text → Bool → Prepared → Bool
  may_write w policy reason allow input =
      let risk = (classify_governed_command w policy).effective in
      is_nil w.trusted_operator
      && not (lacks_reason risk reason)
      && is_nil (w.authorize risk (required_allow_flags risk) allow)
      && is_prepared input
      && is_nil w.begin_mutation

  send_with_stdin-Decided :
      (w : World) (risk : GovernedRisk) (command : Text) (validation : Option Error)
      → Decided (prepared command) true (send_with_stdin w risk command validation).trace
  send_with_stdin-Decided w risk command validation =
      let (o, e) = send_with_stdin-IsWhole w risk command validation in
      subst (Decided (prepared command) true) (sym e) (written command o refl)

  -- A governed file write does nothing but record denials unless the operator is trusted, a reason
  -- is given where the risk needs one, the authorization succeeds, its content is accepted, and the
  -- intent is persisted. Where all of this holds, its events are, whatever the world answers then,
  -- the intent, the command of the accepted content, sent once, and the call that records the
  -- outcome, in this order.
  pub run_governed_command_with_stdin-Decided :
      (w : World) (policy reason : Text) (allow : Bool) (input : Prepared)
      (validation : Option Error)
      → Decided input
          (may_write w policy reason allow input)
          (run_governed_command_with_stdin w policy reason allow input validation).trace
  unfolding run_governed_command_with_stdin
  run_governed_command_with_stdin-Decided w policy reason allow input validation =
      let risk = classify_governed_command w policy in
      elim (Option-cases w.trusted_operator) [
        | inr (x, o) ↦ rw (o, run_governed_command_with_stdin) (withheld refl)
        | inl o ↦ elim (Bool-cases (lacks_reason risk.effective reason)) [
          | inl l ↦ rw (o, l, run_governed_command_with_stdin) (withheld refl)
          | inr l ↦
              elim (Option-cases
                (w.authorize risk.effective (required_allow_flags risk.effective) allow)) [
                  | inr (x, a) ↦ rw (o, l, a, run_governed_command_with_stdin) (withheld refl)
                  | inl a ↦ elim (Prepared-cases input) [
                    | inl (x, p) ↦ rw (o, l, a, p, run_governed_command_with_stdin) (withheld refl)
                    | inr (command, p) ↦ elim (Option-cases w.begin_mutation) [
                      | inr (x, b) ↦
                          rw (o, l, a, p, b, run_governed_command_with_stdin) (withheld refl)
                      | inl b ↦
                          rw (o, l, a, p, b, run_governed_command_with_stdin)
                            (send_with_stdin-Decided w risk command validation)
                    ]
                  ]
                ]
        ]
      ]
