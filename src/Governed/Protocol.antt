-- ===== src/Governed/Protocol.antt =====
-- The order in which `runGovernedCommand` audits and sends.
use srvgov_cli.Prelude.{
  ◌≡◌, refl, inl, inr, Bool, true, false, not, ◌&&◌, Option, none, some, List, [], ◌∷◌, ◌++◌, ◌==◌,
  if◌then◌else◌, Bool-cases, Option-cases,
}
use srvgov_cli.GoText.{Text, Std}
use srvgov_cli.Governed.{
  Event, denied, mutation_intent, read_intent, sent, mutation_outcome, read_outcome, notices, World,
  EventType, GovernedRisk, Run, Error, missing_reason_error, required_read_audit_error, SshResult,
  Status, end_mutation, end_read, send_mutation, send_read, run_governed_command, refuse,
  finish_mutation_audit, finish_required_read_audit, remote_mutation_outcome,
  classify_governed_command, lacks_reason, required_allow_flags, is_remote_mutation,
}

-- How far a governed command has come; an intent is that of a mutation or of a read.
pub data Phase : Type 0 where
  idle closed : Phase
  intended running : Bool → Phase

-- The events that may come next: an intent comes before the command, an outcome of the intent's
-- kind behind it.
unfoldable pub advance : Phase → Event → Option Phase
advance idle (denied _ _) = some closed
advance idle mutation_intent = some (intended true)
advance idle read_intent = some (intended false)
advance (intended m) (sent _) = some (running m)
advance (running true) (mutation_outcome _) = some closed
advance (running false) (read_outcome _ _) = some closed
advance closed notices = some closed
advance _ _ = none

unfoldable pub follow : Phase → List Event → Option Phase
follow p [] = some p
follow p (e ∷ es) = elim (advance p e) [ none ↦ none | some p' ↦ follow p' es ]

-- The phases in which a call may return.
unfoldable pub is_settled : Option Phase → Bool
is_settled (some idle) = true
is_settled (some closed) = true
is_settled _ = false

abbrev pub IsSettled : List Event → Type 0
IsSettled trace = is_settled (follow idle trace) ≡ true

pub end_mutation-trace :
    (w : World) (risk : GovernedRisk) (before : List Event) (result : SshResult)
    (operation : Option Error) (uncertain incomplete : Bool) (otherwise : Option Error)
    → (end_mutation w risk before result operation uncertain incomplete otherwise).trace
      ≡ before ++ mutation_outcome (remote_mutation_outcome operation uncertain incomplete) ∷ []
unfolding end_mutation
end_mutation-trace w risk before result operation uncertain incomplete otherwise =
    elim (Option-cases (finish_mutation_audit w operation)) [
      | inl e ↦ rw (e, end_mutation) refl
      | inr (x, e) ↦ rw (e, end_mutation) refl
    ]

pub end_read-trace :
    (w : World) (risk : GovernedRisk) (before : List Event) (result : SshResult) (status : Status)
    (operation otherwise : Option Error)
    → (end_read w risk before result status operation otherwise).trace
      ≡ before ++ read_outcome status operation ∷ notices ∷ []
unfolding end_read
end_read-trace w risk before result status operation otherwise =
    elim (Option-cases (finish_required_read_audit w operation)) [
      | inl e ↦ rw (e, end_read) refl
      | inr (x, e) ↦ rw (e, end_read) refl
    ]

send_mutation-IsSettled :
    (w : World) (risk : GovernedRisk) (command : Text)
    → IsSettled (send_mutation w risk command).trace
unfolding send_mutation follow advance is_settled
send_mutation-IsSettled w risk command = elim (Option-cases w.ssh.1) [
  | inr (x, e) ↦ rw (e, end_mutation-trace) refl
  | inl e ↦ elim (Bool-cases (w.ssh.0.exit_code == 0)) [
    | inl z ↦ rw (e, z, end_mutation-trace) refl
    | inr z ↦ rw (e, z, end_mutation-trace) refl
  ]
]

send_read-IsSettled :
    (w : World) (risk : GovernedRisk) (command : Text) → IsSettled (send_read w risk command).trace
unfolding send_read follow advance is_settled
send_read-IsSettled w risk command = elim (Option-cases w.ssh.1) [
  | inr (x, e) ↦ rw (e, end_read-trace) refl
  | inl e ↦ elim (Bool-cases (w.ssh.0.exit_code == 0)) [
    | inl z ↦ rw (e, z, end_read-trace) refl
    | inr z ↦ rw (e, z, end_read-trace) refl
  ]
]

abbrev pub is_nil : Option Error → Bool
is_nil none = true
is_nil (some _) = false

module _ ⦃std : Std⦄ where
  -- Whether the command is sent: the operator is trusted, a reason is given where the risk needs one,
  -- the authorization succeeds, and the audit intent is persisted.
  unfoldable pub may_send : World → Text → Text → Bool → EventType → Bool
  may_send w command reason allow event_type =
      let risk = classify_governed_command w command in
      is_nil w.trusted_operator
      && not (lacks_reason risk.effective reason)
      && is_nil (w.authorize risk.effective (required_allow_flags risk.effective) allow)
      && (if is_remote_mutation event_type risk.base
          then is_nil w.begin_mutation
          else is_nil w.begin_read)

  -- The ways in which a governed command ends.
  pub governed_cases :
      (w : World) (command reason : Text) (allow : Bool) (event_type : EventType) (P : Run → Type 0)
      → (let risk = classify_governed_command w command in
          ((e : Error) → may_send w command reason allow event_type ≡ false → P (refuse risk [] e))
          → ((e : Error)
              → may_send w command reason allow event_type ≡ false
              → P (refuse risk (denied risk.effective e ∷ []) e))
          → (may_send w command reason allow event_type ≡ true
              → is_remote_mutation event_type risk.base ≡ true
              → P (send_mutation w risk command))
          → (may_send w command reason allow event_type ≡ true
              → is_remote_mutation event_type risk.base ≡ false
              → P (send_read w risk command))
          → P (run_governed_command w command reason allow event_type))
  unfolding run_governed_command may_send send_mutation send_read
  governed_cases w command reason allow event_type P quiet loud mutation read =
      let risk = classify_governed_command w command in
      elim (Option-cases w.trusted_operator) [
        | inr (x, e) ↦ rw e (quiet x (rw e refl))
        | inl e ↦ elim (Bool-cases (lacks_reason risk.effective reason)) [
          | inl l ↦ rw (e, l) (loud (missing_reason_error risk.effective) (rw (e, l) refl))
          | inr l ↦
              elim (Option-cases
                (w.authorize risk.effective (required_allow_flags risk.effective) allow)) [
                  | inr (x, a) ↦ rw (e, l, a) (loud x (rw (e, l, a) refl))
                  | inl a ↦ elim (Bool-cases (is_remote_mutation event_type risk.base)) [
                    | inl m ↦ elim (Option-cases w.begin_mutation) [
                      | inr (x, b) ↦ rw (e, l, a, m, b) (quiet x (rw (e, l, a, m, b) refl))
                      | inl b ↦ rw (e, l, a, m, b) (mutation (rw (e, l, a, m, b) refl) m)
                    ]
                    | inr m ↦ elim (Option-cases w.begin_read) [
                      | inr (x, b) ↦
                          rw (e, l, a, m, b)
                            (quiet (required_read_audit_error x) (rw (e, l, a, m, b) refl))
                      | inl b ↦ rw (e, l, a, m, b) (read (rw (e, l, a, m, b) refl) m)
                    ]
                  ]
                ]
        ]
      ]

  -- Whatever the world answers, a governed command is sent once at most, only behind an audit intent,
  -- and the call that records its outcome, of the intent's kind, is made before the return; a call
  -- that does not send persists no intent and appends one denial at most.
  pub run_governed_command-settled :
      (w : World) (command reason : Text) (allow : Bool) (event_type : EventType)
      → is_settled (follow idle (run_governed_command w command reason allow event_type).trace)
        ≡ true
  unfolding follow advance is_settled
  run_governed_command-settled w command reason allow event_type =
      governed_cases w command reason allow event_type (λ r. IsSettled r.trace) (λ e h. refl)
        (λ e h. refl) (λ h m. send_mutation-IsSettled w _ command)
        (λ h m. send_read-IsSettled w _ command)
