-- ===== src/Spool/Queue.antt =====
-- The spool directory of cmd/mutation_audit.go, and the replay of what it holds. What the file system
-- and the audit log answer is the record SpoolWorld.
pub mod Sequence
pub mod Appends
use srvgov_cli.Prelude.{
  ◌/◌, ◌%◌, ℕ, zero, suc, ◌+◌, ◌-◌, ◌*◌, ◌≤◌, ◌<◌, String, ◌≡◌, refl, sym, ap, ◌∙◌, ◌≢◌, ◌↔◌, ◌⊎◌,
  inl, inr, Bool, true, false, not, ◌&&◌, ◌||◌, Option, none, some, List, [], ◌∷◌, ◌++◌, map,
  append-nil, append_assoc, arith, ltb, leb, ◌==◌, if◌then◌else◌, ==_iff, Bool-cases, or_resolve,
  Option-cases, ◌>>=◌, >>=-eq-some, length, take, any, all, length-append, any-append, All,
  All-append, All-map, All-of, IfSome, split_if, IfSome-eq, holds_below, holds_below-at, ℤ, pos,
  negsuc, is_negative, clamp, is_positive,
}
use srvgov_cli.GoText.{Text, codes, is, mem_unit, has_suffix, cut, Std}
use srvgov_cli.Audit.Events.{AuditEvent}
use srvgov_cli.Audit.Fingerprints.{Digest}
use srvgov_cli.Audit.Sanitize.{sanitize}
use srvgov_cli.Spool.Records.{MutationAuditRecord, validate_mutation_spool_record}
use srvgov_cli.Spool.Names.{
  valid_mutation_spool_name, mutation_spool_name_sequence, mutation_spool_name_mutation_id,
  spool_name, trim_suffix, validate_mutation_spool_filename, parse_uint,
}
use srvgov_cli.Spool.Names.Order.{less}

pub data AuditError : Type 0 where
  io_error : String → AuditError
  validation_failed : String → AuditError
  -- auditIncompleteError: the mutation's id, and whether spooling failed
  audit_incomplete : Text → Bool → AuditError
  -- auditIndeterminateError: the mutation's id, and the phase
  audit_indeterminate : Text → Text → AuditError
  -- an error of the audit log, or of the mutation itself, by its code
  other_error : Text → AuditError

pub data Result {ℓ} (A : Type ℓ) : Type ℓ where
  failed : AuditError → Result A
  returned : A → Result A

-- coreaudit.AppendCommitState; `commit_unset` is the empty string.
pub data CommitState : Type 0 where
  commit_unset commit_not_committed commit_indeterminate commit_committed : CommitState

-- What the audit log answers to an append, and whether the line is there all the same where the
-- state does not say.
pub record AppendResult : Type 0 where
  pub state : CommitState
  pub error : Option AuditError
  pub written : Bool

pub data LogItem : Type 0 where
  logged_record : MutationAuditRecord → LogItem
  logged_event : AuditEvent → LogItem

-- A file of the spool, with what the checks of the file and the JSON decoder make of its content;
-- `none` is an error of theirs.
pub record SpoolFile : Type 0 where
  pub name : Text
  pub is_dir : Bool
  pub content : Option MutationAuditRecord

-- How a file is stored: not at all, without the sync of the directory behind it, or durably.
pub data StoreAnswer : Type 0 where
  store_failed : String → StoreAnswer
  store_unsynced store_synced : StoreAnswer

pub record SpoolWorld : Type 0 where
  -- The directories are there and private, the lock is acquired and checked; the lock is released.
  pub opens : Option AuditError
  pub releases : Bool
  pub append : List LogItem → LogItem → AppendResult
  -- Whether JSON takes a record within the size limit, and what it reads back of what it wrote.
  pub encodes : MutationAuditRecord → Bool
  pub decoded : MutationAuditRecord → Option MutationAuditRecord
  pub store : Text → StoreAnswer
  pub removes : Text → Bool
  pub renames : Text → Bool
  pub syncs : Text → Bool
  pub default_path : Bool
  pub random : Option (List ℕ)
  pub now : ℕ
  pub current_operator : Text

-- The audit log, and the directory, whose entries stand in the order of `os.ReadDir`.
pub record Queue : Type 0 where
  pub log : List LogItem
  pub files : List SpoolFile

abbrev pub is_committed : CommitState → Bool
is_committed commit_committed = true
is_committed _ = false

-- The log behind an append.
unfoldable pub log_after : List LogItem → LogItem → AppendResult → List LogItem
log_after log item result = elim result.state [
  | commit_committed ↦ log ++ item ∷ []
  | commit_not_committed ↦ log
  | commit_unset ↦ if result.written then log ++ item ∷ [] else log
  | commit_indeterminate ↦ if result.written then log ++ item ∷ [] else log
]

-- validateMutationAppendResult
unfoldable pub validate_mutation_append_result : AppendResult → AppendResult
validate_mutation_append_result result = elim result.error [
  | some e ↦ result
  | none ↦ if is_committed result.state then result else record result {
    error = some (io_error "audit append returned without a committed durability state");
  }
]

module _ ⦃std : Std⦄ ⦃digest : Digest⦄ where
  unfoldable pub sanitized_record : MutationAuditRecord → MutationAuditRecord
  unfolding sanitize
  sanitized_record r = record r { event = sanitize r.event }

  -- appendMutationAuditRecord, with the log behind it
  unfoldable pub append_mutation_audit_record :
      SpoolWorld → List LogItem → MutationAuditRecord → AppendResult × List LogItem
  unfolding validate_mutation_append_result log_after sanitized_record
  append_mutation_audit_record w log r =
      let item = logged_record (sanitized_record r) in
      let result = w.append log item in
      (validate_mutation_append_result result, log_after log item result)

  -- appendMutationAuditEvent, whose runtime sanitizes the event once more
  unfoldable pub append_mutation_audit_event :
      SpoolWorld → List LogItem → AuditEvent → AppendResult × List LogItem
  unfolding validate_mutation_append_result log_after sanitize
  append_mutation_audit_event w log e =
      let item = logged_event (sanitize e) in
      let result = w.append log item in
      (validate_mutation_append_result result, log_after log item result)

-- What an entry of the directory is: the lock, something unexpected, or a file with its sequence.
pub data Entry : Type 0 where
  lock_entry : Entry
  bad_entry : AuditError → Entry
  queue_entry : ℕ → Entry

-- The sequence of a name that has been found valid, as `nextMutationSpoolSequence` reads it.
unfoldable pub read_sequence : Text → Option ℕ
unfolding cut parse_uint
read_sequence name = elim (cut name b'-') [
  | none ↦ none
  | some (before, behind) ↦ parse_uint before
]

module _ ⦃std : Std⦄ where
  unfoldable pub check_entry : SpoolFile → Entry
  unfolding is valid_mutation_spool_name mutation_spool_name_sequence
  check_entry f =
      if is f.name "queue.lock"
      then lock_entry
      else if f.is_dir || not (valid_mutation_spool_name f.name)
      then bad_entry (io_error "mutation outcome spool contains an unexpected entry")
      else elim (mutation_spool_name_sequence f.name) [
        | none ↦ bad_entry (io_error "invalid mutation outcome spool sequence")
        | some n ↦ queue_entry n
      ]

  -- nextMutationSpoolSequence, from the maximum so far
  unfoldable pub next_loop : ℕ → List SpoolFile → Result ℕ
  unfolding is valid_mutation_spool_name read_sequence
  next_loop maximum [] =
      if maximum == 18446744073709551615
      then failed (io_error "mutation outcome spool sequence is exhausted")
      else returned (maximum + 1)
  next_loop maximum (f ∷ fs) = elim (is f.name "queue.lock") [
    | true ↦ next_loop maximum fs
    | false ↦ elim (f.is_dir || not (valid_mutation_spool_name f.name)) [
      | true ↦ failed (io_error "mutation outcome spool contains an unexpected entry")
      | false ↦ elim (read_sequence f.name) [
        | none ↦ failed (io_error "invalid mutation outcome spool sequence")
        | some n ↦ next_loop (if ltb maximum n then n else maximum) fs
      ]
    ]
  ]

  unfoldable pub next_mutation_spool_sequence : List SpoolFile → Result ℕ
  unfolding next_loop
  next_mutation_spool_sequence files = next_loop 0 files

-- A directory with one more file, in the order of the names.
unfoldable pub insert_file : SpoolFile → List SpoolFile → List SpoolFile
unfolding less
insert_file f [] = f ∷ []
insert_file f (g ∷ gs) =
    let rest = insert_file f gs in if less g.name f.name then g ∷ rest else f ∷ g ∷ gs

-- sort.Strings, with the files in place of their names
unfoldable pub sort_files : List SpoolFile → List SpoolFile
unfolding insert_file
sort_files [] = []
sort_files (f ∷ fs) = insert_file f (sort_files fs)

module _ ⦃std : Std⦄ where
  -- writeMutationSpoolRecordWithSuffix
  unfoldable pub write_mutation_spool_record_with_suffix :
      SpoolWorld
      → List SpoolFile
      → MutationAuditRecord
      → String
      → List SpoolFile × Option AuditError
  unfolding next_mutation_spool_sequence spool_name insert_file
  write_mutation_spool_record_with_suffix w files r suffix =
      if not (w.encodes r)
      then (files, some (io_error "failed to encode mutation outcome spool"))
      else elim (next_mutation_spool_sequence files) [
        | failed e ↦ (files, some e)
        | returned sequence ↦
            let name : Text = spool_name sequence r.event.mutation_id suffix in
            let file : SpoolFile = record { name = name; is_dir = false; content = w.decoded r } in
            elim (w.store name) [
              | store_failed message ↦ (files, some (io_error message))
              | store_unsynced ↦
                  (insert_file file files, some (io_error "failed to sync mutation outcome spool"))
              | store_synced ↦ (insert_file file files, none)
            ]
      ]

  -- readMutationSpoolRecord
  unfoldable pub read_mutation_spool_record : SpoolFile → Result MutationAuditRecord
  unfolding validate_mutation_spool_record validate_mutation_spool_filename
  read_mutation_spool_record f = elim f.content [
    | none ↦ failed (io_error "invalid mutation outcome spool record")
    | some r ↦
        if not (validate_mutation_spool_record r)
        then failed (io_error "invalid mutation outcome spool record")
        else if not (validate_mutation_spool_filename f.name r.event.mutation_id)
        then failed (io_error "mutation outcome spool filename does not match its record")
        else returned r
  ]
