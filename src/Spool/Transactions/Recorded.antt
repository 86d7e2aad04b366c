-- ===== src/Spool/Transactions/Recorded.antt =====
-- Where the outcome of a mutation is, once `finishMutationAudit` has returned.
use srvgov_cli.Prelude.{
  String, ◌≡◌, refl, ap, ◌∙◌, ◌≢◌, ◌⊎◌, inl, inr, true, false, Option, none, some, List, [], ◌∷◌,
  ◌++◌, Bool-cases, Option-cases,
}
use mathlib.Core.List.{Mem, mem-cons_self, mem-cons_of_mem, mem-append_right}
use srvgov_cli.GoText.{Text, Std}
use srvgov_cli.Audit.Events.{MutationOutcome}
use srvgov_cli.Audit.Fingerprints.{Digest}
use srvgov_cli.Spool.Records.{MutationAuditRecord, MutationAuditHandle}
use srvgov_cli.Spool.Names.{spool_name}
use srvgov_cli.Spool.Queue.{
  audit_incomplete, Result, returned, LogItem, SpoolFile, SpoolWorld, Queue, StoreAnswer,
  store_failed, store_unsynced, store_synced, next_mutation_spool_sequence, insert_file,
  write_mutation_spool_record_with_suffix, append_mutation_audit_record,
}
use srvgov_cli.Spool.Names.Order.{less}
use srvgov_cli.Spool.Replay.{replay_mutation_audit_spool_locked}
use srvgov_cli.Spool.Queue.Appends.{line_of, append_cases, CommitState-cases, Result-cases}
use srvgov_cli.Spool.Transactions.{
  Finished, append_failed, append_indeterminate, with_mutation_audit_queue, spool_outcome,
  finish_locked, finish_error, outcome_record, finish_mutation_audit,
}

-- A pair is given by its second component, and by the pair that this makes.
pub pair_eq : {A B : Type 0} (p : A × B) {b : B} → p.1 ≡ b → p ≡ (p.0, b)
pair_eq (a, b') e = ap (λ x. (a, x)) e

pub pair_of :
    {A B : Type 0} (p : A × B) {b : B} {q : A × B} → p.1 ≡ b → ◌≡◌ {A = A × B} (p.0, b) q → p ≡ q
pair_of p e f = pair_eq p e ∙ f

StoreAnswer-cases :
    (a : StoreAnswer)
    → ((m : String) × (a ≡ store_failed m)) ⊎ (a ≡ store_unsynced) ⊎ (a ≡ store_synced)
StoreAnswer-cases (store_failed m) = inl (m, refl)
StoreAnswer-cases store_unsynced = inr (inl refl)
StoreAnswer-cases store_synced = inr (inr refl)

insert_file-Mem : (f : SpoolFile) (fs : List SpoolFile) → Mem f (insert_file f fs)
unfolding insert_file
insert_file-Mem f [] = mem-cons_self
insert_file-Mem f (g ∷ gs) = elim (Bool-cases (less g.name f.name)) [
  | inl e ↦ rw e (mem-cons_of_mem g (insert_file-Mem f gs))
  | inr e ↦ rw e mem-cons_self
]

module _ ⦃std : Std⦄ where
  -- A file that has been written without an error is in the directory.
  pub write_mutation_spool_record_written :
      (w : SpoolWorld) (files : List SpoolFile) (r : MutationAuditRecord) (suffix : String)
      → (write_mutation_spool_record_with_suffix w files r suffix).1 ≡ none
      → (f : SpoolFile) × Mem f (write_mutation_spool_record_with_suffix w files r suffix).0
        × (f.content ≡ w.decoded r)
  unfolding write_mutation_spool_record_with_suffix
  write_mutation_spool_record_written w files r suffix h = elim (Bool-cases (w.encodes r)) [
    | inr e ↦ absurd (let k = rw e at h in cc)
    | inl e ↦ elim (Result-cases (next_mutation_spool_sequence files)) [
      | inl (x, n) ↦ absurd (let k = rw (e, n, write_mutation_spool_record_with_suffix) at h in cc)
      | inr (sequence, n) ↦
          let name = spool_name sequence r.event.mutation_id suffix in
          elim (StoreAnswer-cases (w.store name)) [
            | inl (m, s) ↦
                absurd (let k = rw (e, n, s, write_mutation_spool_record_with_suffix) at h in cc)
            | inr (inl s) ↦
                absurd (let k = rw (e, n, s, write_mutation_spool_record_with_suffix) at h in cc)
            | inr (inr s) ↦ (
              record { name = name; is_dir = false; content = w.decoded r },
              rw (e, n, s, write_mutation_spool_record_with_suffix) (insert_file-Mem _ files),
              refl,
            )
          ]
    ]
  ]

  module _ ⦃digest : Digest⦄ where
    -- The outcome's record is a line of the log, or a file of the spool holds it.
    abbrev pub IsRecorded : SpoolWorld → MutationAuditRecord → Queue → Type 0
    IsRecorded w r q =
        Mem (line_of r) q.log ⊎ ((f : SpoolFile) × Mem f q.files × (f.content ≡ w.decoded r))

    logged-IsRecorded :
        (w : SpoolWorld) (r : MutationAuditRecord) (log : List LogItem) (files : List SpoolFile)
        (before : List LogItem)
        → log ≡ before ++ line_of r ∷ []
        → IsRecorded w r (record { log = log; files = files })
    logged-IsRecorded w r log files before e = inl (rw e (mem-append_right before mem-cons_self))

    spool_outcome-IsRecorded :
        (w : SpoolWorld) (q : Queue) (r : MutationAuditRecord) (suffix : String) (flag : Finished)
        {a : Finished}
        → (spool_outcome w q r suffix flag).1 ≡ returned a
        → IsRecorded w r (spool_outcome w q r suffix flag).0
    unfolding spool_outcome
    spool_outcome-IsRecorded w q r suffix flag h =
        elim (Option-cases (write_mutation_spool_record_with_suffix w q.files r suffix).1) [
          | inl e ↦ inr (write_mutation_spool_record_written w q.files r suffix e)
          | inr (x, e) ↦ absurd (let k = rw (e, spool_outcome) at h in cc)
        ]

    finish_locked-IsRecorded :
        (w : SpoolWorld) (r : MutationAuditRecord) (q : Queue) {a : Finished}
        → (finish_locked w r q).1 ≡ returned a
        → IsRecorded w r (finish_locked w r q).0
    unfolding finish_locked
    finish_locked-IsRecorded w r q h =
        elim (Option-cases (replay_mutation_audit_spool_locked w q).1) [
          | inr (x, e) ↦
              rw (e, finish_locked)
                (spool_outcome-IsRecorded w _ r ".json" append_failed (rw (e, finish_locked) at h))
          | inl e ↦
              let replayed = replay_mutation_audit_spool_locked w q in
              let step = append_mutation_audit_record w replayed.0.log r in
              let (either, on_success, on_committed, on_refused) =
                append_cases w replayed.0.log r in
              elim (Option-cases step.0.error) [
                | inl s ↦
                    rw (e, s, finish_locked)
                      (logged-IsRecorded w r step.1 replayed.0.files replayed.0.log (on_success s))
                | inr (x, s) ↦ elim (CommitState-cases step.0.state) [
                  | inl c ↦
                      rw (e, s, c, finish_locked)
                        (logged-IsRecorded w r step.1 replayed.0.files replayed.0.log
                          (on_committed c))
                  | inr (inl c) ↦
                      rw (e, s, c, finish_locked)
                        (spool_outcome-IsRecorded w _ r ".json" append_failed
                          (rw (e, s, c, finish_locked) at h))
                  | inr (inr (inl c)) ↦
                      rw (e, s, c, finish_locked)
                        (spool_outcome-IsRecorded w _ r ".indeterminate" append_indeterminate
                          (rw (e, s, c, finish_locked) at h))
                  | inr (inr (inr c)) ↦
                      rw (e, s, c, finish_locked)
                        (spool_outcome-IsRecorded w _ r ".indeterminate" append_indeterminate
                          (rw (e, s, c, finish_locked) at h))
                ]
              ]
        ]

    pub with_queue_inv :
        {A : Type 0} (w : SpoolWorld) (q : Queue) (fn : Queue → Queue × Result A) {q' : Queue}
        {a : A}
        → with_mutation_audit_queue w q fn ≡ (q', returned a)
        → fn q ≡ (q', returned a)
    unfolding with_mutation_audit_queue
    with_queue_inv w q fn h = elim (Option-cases w.opens) [
      | inr (x, e) ↦ absurd (let k = rw (e, with_mutation_audit_queue) at h in cc)
      | inl e ↦ elim (Result-cases (fn q).1) [
        | inl (x, f) ↦ absurd (let k = rw (e, f, with_mutation_audit_queue) at h in cc)
        | inr (b, f) ↦ elim (Bool-cases w.releases) [
          | inr z ↦ absurd (let k = rw (e, f, z, with_mutation_audit_queue) at h in cc)
          | inl z ↦ pair_of (fn q) f (rw (e, f, z, with_mutation_audit_queue) at h)
        ]
      ]
    ]

    -- Unless `finishMutationAudit` returns that spooling failed, the record of the outcome is a line of the
    -- audit log, or a file of the spool has been written for it.
    pub finish_mutation_audit-IsRecorded :
        (w : SpoolWorld) (handle : MutationAuditHandle) (outcome : MutationOutcome)
        (operation : Option Text) (q : Queue)
        → (finish_mutation_audit w (some handle) outcome operation q).1
          ≢ some (audit_incomplete handle.id true)
        → IsRecorded w
            (outcome_record handle outcome operation)
            (finish_mutation_audit w (some handle) outcome operation q).0
    unfolding finish_mutation_audit finish_error
    finish_mutation_audit-IsRecorded w handle outcome operation q h =
        let r = outcome_record handle outcome operation in
        let end = with_mutation_audit_queue w q (finish_locked w r) in
        elim (Result-cases end.1) [
          | inl (x, e) ↦ absurd (h (rw e refl))
          | inr (a, e) ↦
              let inner = with_queue_inv w q (finish_locked w r) (pair_eq end e) in
              let there = finish_locked-IsRecorded w r q (ap (λ p. p.1) inner) in
              rw (ap (λ p. p.0) inner) at there
        ]
