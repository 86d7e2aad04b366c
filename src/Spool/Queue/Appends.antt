-- ===== src/Spool/Queue/Appends.antt =====
-- What an append does to the audit log, by the state and the error of its answer.
use srvgov_cli.Prelude.{
  ◌≡◌, refl, sym, ◌∙◌, ◌⊎◌, inl, inr, none, List, [], ◌∷◌, ◌++◌, Bool-cases, Option-cases,
}
use srvgov_cli.GoText.{Std}
use srvgov_cli.Audit.Fingerprints.{Digest}
use srvgov_cli.Spool.Records.{MutationAuditRecord}
use srvgov_cli.Spool.Queue.{
  AuditError, Result, failed, returned, AppendResult, CommitState, commit_unset,
  commit_not_committed, commit_indeterminate, commit_committed, LogItem, logged_record, SpoolWorld,
  log_after, validate_mutation_append_result, sanitized_record, append_mutation_audit_record,
}

-- Cases of a commit state that keep the equation.
pub CommitState-cases :
    (s : CommitState)
    → (s ≡ commit_committed)
      ⊎ (s ≡ commit_not_committed)
      ⊎ (s ≡ commit_unset)
      ⊎ (s ≡ commit_indeterminate)
CommitState-cases commit_committed = inl refl
CommitState-cases commit_not_committed = inr (inl refl)
CommitState-cases commit_unset = inr (inr (inl refl))
CommitState-cases commit_indeterminate = inr (inr (inr refl))

pub Result-cases {ℓ} :
    {A : Type ℓ} (r : Result A) → ((e : AuditError) × (r ≡ failed e)) ⊎ ((a : A) × (r ≡ returned a))
Result-cases (failed e) = inl (e, refl)
Result-cases (returned a) = inr (a, refl)

-- The log behind an append is the log before it, or that with the line at its end.
log_after-cases :
    (log : List LogItem) (item : LogItem) (result : AppendResult)
    → (log_after log item result ≡ log) ⊎ (log_after log item result ≡ log ++ item ∷ [])
unfolding log_after
log_after-cases log item result = elim (CommitState-cases result.state) [
  | inl e ↦ rw (e, log_after) (inr refl)
  | inr (inl e) ↦ rw (e, log_after) (inl refl)
  | inr (inr (inl e)) ↦ elim (Bool-cases result.written) [
    | inl b ↦ rw (e, b, log_after) (inr refl)
    | inr b ↦ rw (e, b, log_after) (inl refl)
  ]
  | inr (inr (inr e)) ↦ elim (Bool-cases result.written) [
    | inl b ↦ rw (e, b, log_after) (inr refl)
    | inr b ↦ rw (e, b, log_after) (inl refl)
  ]
]

log_after_committed :
    (log : List LogItem) (item : LogItem) (result : AppendResult)
    → result.state ≡ commit_committed
    → log_after log item result ≡ log ++ item ∷ []
unfolding log_after
log_after_committed log item result e = rw (e, log_after) refl

log_after_refused :
    (log : List LogItem) (item : LogItem) (result : AppendResult)
    → result.state ≡ commit_not_committed
    → log_after log item result ≡ log
unfolding log_after
log_after_refused log item result e = rw (e, log_after) refl

-- The check of an answer keeps its state, and an answer without an error has committed.
validated_state :
    (result : AppendResult) → (validate_mutation_append_result result).state ≡ result.state
unfolding validate_mutation_append_result
validated_state result = elim (Option-cases result.error) [
  | inr (x, e) ↦ rw (e, validate_mutation_append_result) refl
  | inl e ↦ elim (CommitState-cases result.state) [
    | inl c ↦ rw (e, c, validate_mutation_append_result) refl
    | inr (inl c) ↦ rw (e, c, validate_mutation_append_result) refl
    | inr (inr (inl c)) ↦ rw (e, c, validate_mutation_append_result) refl
    | inr (inr (inr c)) ↦ rw (e, c, validate_mutation_append_result) refl
  ]
]

validated_error :
    (result : AppendResult)
    → (validate_mutation_append_result result).error ≡ none
    → result.state ≡ commit_committed
unfolding validate_mutation_append_result
validated_error result h = elim (Option-cases result.error) [
  | inr (x, e) ↦ absurd (let k = rw (e, validate_mutation_append_result) at h in cc)
  | inl e ↦ elim (CommitState-cases result.state) [
    | inl c ↦ c
    | inr (inl c) ↦ absurd (let k = rw (e, c, validate_mutation_append_result) at h in cc)
    | inr (inr (inl c)) ↦ absurd (let k = rw (e, c, validate_mutation_append_result) at h in cc)
    | inr (inr (inr c)) ↦ absurd (let k = rw (e, c, validate_mutation_append_result) at h in cc)
  ]
]

module _ ⦃std : Std⦄ ⦃digest : Digest⦄ where
  -- The line of a record in the log.
  abbrev pub line_of : MutationAuditRecord → LogItem
  line_of r = logged_record (sanitized_record r)

  -- What an append of a record answers, and what it does to the log.
  pub append_cases :
      (w : SpoolWorld) (log : List LogItem) (r : MutationAuditRecord)
      → (let step = append_mutation_audit_record w log r in
          ((step.1 ≡ log) ⊎ (step.1 ≡ log ++ line_of r ∷ []))
          × (step.0.error ≡ none → step.1 ≡ log ++ line_of r ∷ [])
          × (step.0.state ≡ commit_committed → step.1 ≡ log ++ line_of r ∷ [])
          × (step.0.state ≡ commit_not_committed → step.1 ≡ log))
  unfolding append_mutation_audit_record
  append_cases w log r =
      let item = line_of r in
      let result = w.append log item in
      (
        log_after-cases log item result,
        λ e. log_after_committed log item result (validated_error result e),
        λ e. log_after_committed log item result (sym (validated_state result) ∙ e),
        λ e. log_after_refused log item result (sym (validated_state result) ∙ e),
      )
