-- ===== src/Spool/Transactions.antt =====
-- The operations of cmd/mutation_audit.go on the audit log and its spool: begin, finish, and the append
-- of an event.
pub mod Recorded
pub mod Success
pub mod Blocked
use srvgov_cli.Prelude.{
  ◌/◌, ◌%◌, ℕ, zero, suc, ◌+◌, ◌-◌, ◌*◌, ◌≤◌, ◌<◌, String, ◌≡◌, refl, sym, ap, ◌∙◌, ◌≢◌, ◌↔◌, ◌⊎◌,
  inl, inr, Bool, true, false, not, ◌&&◌, ◌||◌, Option, none, some, List, [], ◌∷◌, ◌++◌, map,
  append-nil, append_assoc, arith, ltb, leb, ◌==◌, if◌then◌else◌, ==_iff, Bool-cases, or_resolve,
  Option-cases, ◌>>=◌, >>=-eq-some, length, take, any, all, length-append, any-append, All,
  All-append, All-map, All-of, IfSome, split_if, IfSome-eq, holds_below, holds_below-at, ℤ, pos,
  negsuc, is_negative, clamp, is_positive,
}
use srvgov_cli.GoText.{Text, codes, is, mem_unit, has_suffix, trim_space, encode_to_string, Std}
use srvgov_cli.Audit.Events.{AuditEvent, MutationOutcome}
use srvgov_cli.Audit.Fingerprints.{Digest}
use srvgov_cli.Audit.Sanitize.{sanitize}
use srvgov_cli.Spool.Records.{
  MutationAuditRecord, MutationAuditSpec, MutationAuditHandle, record_of, completed_outcome,
}
use srvgov_cli.Spool.Names.{mutation_spool_name_mutation_id, trim_suffix}
use srvgov_cli.Spool.Queue.{
  AuditError, io_error, validation_failed, audit_incomplete, audit_indeterminate, other_error,
  Result, failed, returned, AppendResult, LogItem, SpoolFile, SpoolWorld, Queue, CommitState,
  commit_unset, commit_not_committed, commit_indeterminate, commit_committed,
  append_mutation_audit_record, append_mutation_audit_event, Entry, lock_entry, bad_entry,
  queue_entry, check_entry, insert_file, sort_files, write_mutation_spool_record_with_suffix,
  read_mutation_spool_record,
}
use srvgov_cli.Spool.Replay.{replay_mutation_audit_spool_locked}

-- withMutationAuditQueue
unfoldable pub with_mutation_audit_queue :
    {A : Type 0} → SpoolWorld → Queue → (Queue → Queue × Result A) → Queue × Result A
with_mutation_audit_queue w q fn = elim (w.opens) [
  | some e ↦ (q, failed e)
  | none ↦
      let end : Queue × Result _ = fn q in
      (
        end.0,
        elim (end.1) [
          | failed e ↦ failed e
          | returned a ↦
              if w.releases
              then returned a
              else failed (io_error "failed to release mutation outcome spool lock")
        ],
      )
]

-- Whether the state of a failed append leaves open if the line is there.
abbrev pub is_indeterminate : CommitState → Bool
is_indeterminate commit_indeterminate = true
is_indeterminate commit_unset = true
is_indeterminate _ = false

-- What the audit of an outcome comes to.
pub data Finished : Type 0 where
  finished append_failed append_indeterminate : Finished
  committed_append_error : AuditError → Finished

module _ ⦃std : Std⦄ ⦃digest : Digest⦄ where
  unfoldable pub append_intent :
      SpoolWorld → MutationAuditHandle → Queue → Queue × Result MutationAuditHandle
  unfolding append_mutation_audit_record record_of
  append_intent w handle q =
      let step : AppendResult × List LogItem =
        append_mutation_audit_record w q.log (record_of handle (codes "intent") none) in
      let behind : Queue = record q { log = step.1 } in
      elim (step.0.error) [
        | none ↦ (behind, returned handle)
        | some e ↦ (
          behind,
          if is_indeterminate step.0.state
              then failed (audit_indeterminate handle.id (codes "intent"))
              else failed e,
        )
      ]

  unfoldable pub begin_locked :
      SpoolWorld → MutationAuditSpec → Queue → Queue × Result MutationAuditHandle
  unfolding replay_mutation_audit_spool_locked append_intent encode_to_string
  begin_locked w spec q =
      let replayed : Queue × Option AuditError = replay_mutation_audit_spool_locked w q in
      elim (replayed.1) [
        | some e ↦ (replayed.0, failed (audit_incomplete [] false))
        | none ↦ elim (w.random) [
          | none ↦ (replayed.0, failed (io_error "failed to generate mutation id"))
          | some bytes ↦
              append_intent w
                (record {
                  id = encode_to_string bytes;
                  spec = spec;
                  now = w.now;
                  current_operator = w.current_operator;
                })
                replayed.0
        ]
      ]

  -- beginMutationAudit
  unfoldable pub begin_mutation_audit :
      SpoolWorld → MutationAuditSpec → Queue → Queue × Result MutationAuditHandle
  unfolding with_mutation_audit_queue begin_locked is trim_space
  begin_mutation_audit w spec q =
      let action = trim_space spec.action in
      if is action ""
      then (q, failed (validation_failed "mutation audit action is required"))
      else if is (trim_space spec.audit_path) "" && not w.default_path
      then (q, failed (io_error "failed to resolve mutation audit path"))
      else with_mutation_audit_queue w q (begin_locked w (record spec { action = action }))

  -- The spool file of an outcome that the log has not taken, before the flag that says so.
  unfoldable pub spool_outcome :
      SpoolWorld → Queue → MutationAuditRecord → String → Finished → Queue × Result Finished
  unfolding write_mutation_spool_record_with_suffix
  spool_outcome w q r suffix flag =
      let stored : List SpoolFile × Option AuditError =
        write_mutation_spool_record_with_suffix w q.files r suffix in
      (record q { files = stored.0 }, elim (stored.1) [ none ↦ returned flag | some e ↦ failed e ])

  unfoldable pub finish_locked : SpoolWorld → MutationAuditRecord → Queue → Queue × Result Finished
  unfolding replay_mutation_audit_spool_locked append_mutation_audit_record spool_outcome
  finish_locked w r q =
      let replayed : Queue × Option AuditError = replay_mutation_audit_spool_locked w q in
      elim (replayed.1) [
        | some e ↦ spool_outcome w replayed.0 r ".json" append_failed
        | none ↦
            let step : AppendResult × List LogItem =
              append_mutation_audit_record w replayed.0.log r in
            let behind : Queue = record replayed.0 { log = step.1 } in
            elim (step.0.error) [
              | none ↦ (behind, returned finished)
              | some e ↦ elim (step.0.state) [
                | commit_committed ↦ (behind, returned (committed_append_error e))
                | commit_not_committed ↦ spool_outcome w behind r ".json" append_failed
                | commit_unset ↦ spool_outcome w behind r ".indeterminate" append_indeterminate
                | commit_indeterminate ↦
                    spool_outcome w behind r ".indeterminate" append_indeterminate
              ]
            ]
      ]

  -- What `finishMutationAudit` returns behind the queue, for the code of the mutation's own error.
  unfoldable pub finish_error : Text → Option Text → Result Finished → Option AuditError
  finish_error id operation (failed e) = some (audit_incomplete id true)
  finish_error id operation (returned append_failed) = some (audit_incomplete id false)
  finish_error id operation (returned append_indeterminate) =
      some (audit_indeterminate id (codes "outcome"))
  finish_error id operation (returned (committed_append_error e)) = some e
  finish_error id none (returned finished) = none
  finish_error id (some code) (returned finished) = some (other_error code)

  -- The record that `finishMutationAudit` makes.
  unfoldable pub outcome_record :
      MutationAuditHandle → MutationOutcome → Option Text → MutationAuditRecord
  unfolding record_of completed_outcome
  outcome_record handle outcome operation =
      record_of handle (codes "outcome") (some (completed_outcome operation outcome))

  -- finishMutationAudit
  unfoldable pub finish_mutation_audit :
      SpoolWorld
      → Option MutationAuditHandle
      → MutationOutcome
      → Option Text
      → Queue
      → Queue × Option AuditError
  unfolding with_mutation_audit_queue finish_locked finish_error outcome_record
  finish_mutation_audit w none outcome operation q =
      (q, some (validation_failed "mutation audit handle is required"))
  finish_mutation_audit w (some handle) outcome operation q =
      let end : Queue × Result Finished =
        with_mutation_audit_queue w q (finish_locked w (outcome_record handle outcome operation)) in
      (end.0, finish_error handle.id operation end.1)

  unfoldable pub append_event_locked : SpoolWorld → AuditEvent → Queue → Queue × Result Finished
  unfolding replay_mutation_audit_spool_locked append_mutation_audit_event sanitize
  append_event_locked w event q =
      let replayed : Queue × Option AuditError = replay_mutation_audit_spool_locked w q in
      elim (replayed.1) [
        | some e ↦ (replayed.0, failed (audit_incomplete [] false))
        | none ↦
            let step : AppendResult × List LogItem =
              append_mutation_audit_event w replayed.0.log
                (sanitize (record event { timestamp = w.now })) in
            (
              record replayed.0 { log = step.1 },
              elim (step.0.error) [
                | none ↦ returned finished
                | some e ↦
                    if is_indeterminate step.0.state
                    then failed (audit_indeterminate [] (codes "event"))
                    else failed e
              ],
            )
      ]

  -- appendQueuedAuditEvent
  unfoldable pub append_queued_audit_event :
      SpoolWorld → AuditEvent → Queue → Queue × Result Finished
  unfolding with_mutation_audit_queue append_event_locked
  append_queued_audit_event w event q = with_mutation_audit_queue w q (append_event_locked w event)
