-- ===== src/Spool/Transactions/Blocked.antt =====
-- The begin of a mutation on a spool with an indeterminate file.
use srvgov_cli.Prelude.{
  ℕ, ◌≡◌, refl, inl, inr, true, false, not, ◌&&◌, none, some, List, [], ◌∷◌, ◌++◌, Bool-cases,
  Option-cases,
}
use srvgov_cli.GoText.{is, has_suffix, trim_space, Std}
use srvgov_cli.Audit.Fingerprints.{Digest}
use srvgov_cli.Spool.Records.{MutationAuditSpec}
use srvgov_cli.Spool.Queue.{
  AuditError, audit_incomplete, validation_failed, io_error, Result, failed, SpoolFile, SpoolWorld,
  Queue, queue_entry, check_entry,
}
use srvgov_cli.Spool.Replay.{replay_mutation_audit_spool_locked}
use srvgov_cli.Spool.Replay.Blocked.{replay_mutation_audit_spool_locked-blocked}
use srvgov_cli.Spool.Transactions.{with_mutation_audit_queue, begin_locked, begin_mutation_audit}

module _ ⦃std : Std⦄ ⦃digest : Digest⦄ where
  begin_locked_blocked :
      (w : SpoolWorld) (spec : MutationAuditSpec) (q : Queue) {e : AuditError}
      → replay_mutation_audit_spool_locked w q ≡ (q, some e)
      → begin_locked w spec q ≡ (q, failed (audit_incomplete [] false))
  unfolding begin_locked
  begin_locked_blocked w spec q h = rw (h, begin_locked) (rw h refl)

  with_queue_failed :
      {A : Type 0} (w : SpoolWorld) (q : Queue) (fn : Queue → Queue × Result A) {e : AuditError}
      → w.opens ≡ none
      → fn q ≡ (q, failed e)
      → with_mutation_audit_queue w q fn ≡ (q, failed e)
  unfolding with_mutation_audit_queue
  with_queue_failed w q fn o h = rw (o, h, with_mutation_audit_queue) refl

  -- No mutation begins on a spool with an indeterminate file, and neither the spool nor the log changes.
  pub begin_mutation_audit-blocked :
      (w : SpoolWorld) (spec : MutationAuditSpec) (q : Queue) (before : List SpoolFile)
      (f : SpoolFile) (behind : List SpoolFile) {n : ℕ}
      → q.files ≡ before ++ f ∷ behind
      → check_entry f ≡ queue_entry n
      → has_suffix f.name ".indeterminate" ≡ true
      → (e : AuditError) × (begin_mutation_audit w spec q ≡ (q, failed e))
  unfolding begin_mutation_audit with_mutation_audit_queue begin_locked
  begin_mutation_audit-blocked w spec q before f behind split entry suffix =
      let (x, blocked) =
        replay_mutation_audit_spool_locked-blocked w q before f behind split entry suffix in
      elim (Bool-cases (is (trim_space spec.action) "")) [
        | inl a ↦ (validation_failed "mutation audit action is required", rw a refl)
        | inr a ↦ elim (Bool-cases (is (trim_space spec.audit_path) "" && not w.default_path)) [
          | inl p ↦ (io_error "failed to resolve mutation audit path", rw (a, p) refl)
          | inr p ↦ elim (Option-cases w.opens) [
            | inr (y, o) ↦ (y, rw (a, p, o, with_mutation_audit_queue) refl)
            | inl o ↦
                let locked =
                  begin_locked_blocked w (record spec { action = trim_space spec.action }) q
                    blocked in
                (
                  audit_incomplete [] false,
                  rw (a, p)
                      (with_queue_failed w q
                        (begin_locked w (record spec { action = trim_space spec.action })) o
                        locked),
                )
          ]
        ]
      ]
