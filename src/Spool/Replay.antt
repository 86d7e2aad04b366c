-- ===== src/Spool/Replay.antt =====
-- `replayMutationAuditSpoolLocked` of cmd/mutation_audit.go, which hands the spooled outcomes to the log.
pub mod Kept
pub mod Whole
pub mod Blocked
use srvgov_cli.Prelude.{
  ◌/◌, ◌%◌, ℕ, zero, suc, ◌+◌, ◌-◌, ◌*◌, ◌≤◌, ◌<◌, String, ◌≡◌, refl, sym, ap, ◌∙◌, ◌≢◌, ◌↔◌, ◌⊎◌,
  inl, inr, Bool, true, false, not, ◌&&◌, ◌||◌, Option, none, some, List, [], ◌∷◌, ◌++◌, map,
  append-nil, append_assoc, arith, ltb, leb, ◌==◌, if◌then◌else◌, ==_iff, Bool-cases, or_resolve,
  Option-cases, ◌>>=◌, >>=-eq-some, length, take, any, all, length-append, any-append, All,
  All-append, All-map, All-of, IfSome, split_if, IfSome-eq, holds_below, holds_below-at, ℤ, pos,
  negsuc, is_negative, clamp, is_positive,
}
use srvgov_cli.GoText.{Text, codes, is, mem_unit, has_suffix, trim_space, encode_to_string, Std}
use srvgov_cli.Audit.Events.{AuditEvent, MutationOutcome}
use srvgov_cli.Audit.Fingerprints.{Digest}
use srvgov_cli.Audit.Sanitize.{sanitize}
use srvgov_cli.Spool.Records.{
  MutationAuditRecord, MutationAuditSpec, MutationAuditHandle, record_of, completed_outcome,
}
use srvgov_cli.Spool.Names.{mutation_spool_name_mutation_id, trim_suffix}
use srvgov_cli.Spool.Queue.{
  AuditError, io_error, validation_failed, audit_incomplete, audit_indeterminate, other_error,
  Result, failed, returned, AppendResult, LogItem, SpoolFile, SpoolWorld, Queue, CommitState,
  commit_unset, commit_not_committed, commit_indeterminate, commit_committed,
  append_mutation_audit_record, append_mutation_audit_event, Entry, lock_entry, bad_entry,
  queue_entry, check_entry, insert_file, sort_files, write_mutation_spool_record_with_suffix,
  read_mutation_spool_record,
}

-- What the first loop of a replay finds: the files in the order of the directory, and the mutation of
-- the last indeterminate one, if there is any.
pub record Scan : Type 0 where
  pub found : List SpoolFile
  pub blocked : Text

unfoldable pub found_before : SpoolFile → Result Scan → Result Scan
found_before f (failed e) = failed e
found_before f (returned s) = returned (record s { found = f ∷ s.found })

-- A replay's directory, log and error.
pub record Replayed : Type 0 where
  pub log : List LogItem
  pub files : List SpoolFile
  pub error : Option AuditError

unfoldable pub quarantined : SpoolFile → SpoolFile
unfolding trim_suffix
quarantined f = record f { name = trim_suffix f.name ".json" ++ codes ".indeterminate" }

-- quarantineIndeterminateMutationSpool: whether the file is renamed, and the error
unfoldable pub quarantine_indeterminate_mutation_spool :
    SpoolWorld → SpoolFile → SpoolFile × Option AuditError
unfolding has_suffix quarantined
quarantine_indeterminate_mutation_spool w f =
    if not (has_suffix f.name ".json")
    then (f, some (io_error "invalid mutation outcome spool quarantine source"))
    else if not (w.renames f.name)
    then (f, some (io_error "failed to quarantine indeterminate mutation outcome spool"))
    else if not (w.syncs f.name)
    then (
      quarantined f,
      some (io_error "failed to durably quarantine indeterminate mutation outcome spool"),
    )
    else (quarantined f, none)

-- The lock's entry, which a replay leaves in the directory.
unfoldable pub lock_files : List SpoolFile → List SpoolFile
unfolding is
lock_files [] = []
lock_files (f ∷ fs) = let rest = lock_files fs in if is f.name "queue.lock" then f ∷ rest else rest

module _ ⦃std : Std⦄ where
  unfoldable pub scan_spool : List SpoolFile → List ℕ → Text → Result Scan
  unfolding found_before mem_unit has_suffix mutation_spool_name_mutation_id check_entry
  scan_spool [] seen blocked = returned (record { found = []; blocked = blocked })
  scan_spool (f ∷ fs) seen blocked = elim (check_entry f) [
    | lock_entry ↦ scan_spool fs seen blocked
    | bad_entry e ↦ failed e
    | queue_entry n ↦ elim (mem_unit seen n) [
      | true ↦ failed (io_error "duplicate mutation outcome spool sequence")
      | false ↦ found_before f (
          scan_spool fs (n ∷ seen) (
            if has_suffix f.name ".indeterminate"
            then mutation_spool_name_mutation_id f.name
            else blocked))
    ]
  ]

  module _ ⦃digest : Digest⦄ where
    -- What happens to a file whose record has been handed to the log.
    unfoldable pub removed :
        SpoolWorld
        → List LogItem
        → SpoolFile
        → List SpoolFile
        → (List LogItem → Replayed)
        → Replayed
    removed w log f fs rest =
        if not (w.removes f.name)
        then record {
          log = log;
          files = f ∷ fs;
          error = some (io_error "failed to remove replayed mutation outcome spool");
        }
        else if not (w.syncs f.name)
        then record {
          log = log;
          files = fs;
          error = some (io_error "failed to sync mutation outcome spool directory");
        }
        else rest log

    unfoldable pub quarantine_after :
        SpoolWorld → List LogItem → Text → SpoolFile → List SpoolFile → Replayed
    unfolding quarantine_indeterminate_mutation_spool
    quarantine_after w log id f fs =
        let moved = quarantine_indeterminate_mutation_spool w f in
        record {
          log = log;
          files = moved.0 ∷ fs;
          error = elim (moved.1) [
            | some e ↦ some e
            | none ↦ some (audit_indeterminate id (codes "outcome"))
          ];
        }

    -- The second loop of a replay, over the sorted files, which are those of the directory.
    unfoldable pub replay_files : SpoolWorld → List LogItem → List SpoolFile → Replayed
    unfolding append_mutation_audit_record read_mutation_spool_record removed quarantine_after
    replay_files w log [] = record { log = log; files = []; error = none }
    replay_files w log (f ∷ fs) = elim (read_mutation_spool_record f) [
      | failed e ↦ record { log = log; files = f ∷ fs; error = some e }
      | returned r ↦
          let step : AppendResult × List LogItem = append_mutation_audit_record w log r in
          elim (step.0.error) [
            | none ↦ removed w step.1 f fs (λ l. replay_files w l fs)
            | some e ↦ elim (step.0.state) [
              | commit_committed ↦ removed w step.1 f fs (λ l. replay_files w l fs)
              | commit_not_committed ↦ record { log = step.1; files = f ∷ fs; error = some e }
              | commit_unset ↦ quarantine_after w step.1 r.event.mutation_id f fs
              | commit_indeterminate ↦ quarantine_after w step.1 r.event.mutation_id f fs
            ]
          ]
    ]

    -- replayMutationAuditSpoolLocked
    unfoldable pub replay_mutation_audit_spool_locked :
        SpoolWorld → Queue → Queue × Option AuditError
    unfolding scan_spool replay_files sort_files lock_files
    replay_mutation_audit_spool_locked w q = elim (scan_spool q.files [] []) [
      | failed e ↦ (q, some e)
      | returned s ↦ elim (s.blocked) [
        | c ∷ id ↦ (q, some (audit_indeterminate (c ∷ id) (codes "outcome")))
        | [] ↦
            let end : Replayed = replay_files w q.log (sort_files s.found) in
            (record { log = end.log; files = end.files ++ lock_files q.files }, end.error)
      ]
    ]
