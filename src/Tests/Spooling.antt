-- ===== src/Tests/Spooling.antt =====
-- The theorems of the audit events and of the audit spool, at concrete inputs.
use srvgov_cli.Prelude.{
  ℕ, ◌≤◌, ◌<◌, ◌≡◌, refl, ◌↔◌, inl, true, false, Option, none, some, [], ◌∷◌, ◌++◌, arith, length,
  All, pos,
}
use srvgov_cli.GoText.{Text, codes, byte_length, to_lower, equal, decode_string, has_suffix, is}
use srvgov_cli.Audit.Events.{AuditEvent, MutationOutcome, FileInfo}
use srvgov_cli.Audit.Fingerprints.{is_hex_digest}
use srvgov_cli.Audit.Sanitize.{sanitize}
use srvgov_cli.Audit.Sanitize.Laws.{sanitize-sanitize}
use srvgov_cli.Spool.Records.{
  MutationAuditSpec, MutationAuditHandle, no_metadata, no_outcome, record_of,
}
use srvgov_cli.Spool.Names.{
  spool_name, valid_mutation_spool_name, mutation_spool_name_sequence,
  mutation_spool_name_mutation_id, mutation_audit_spool_suffix_for_name,
  validate_mutation_spool_filename,
}
use srvgov_cli.Spool.Names.Order.{less}
use srvgov_cli.Spool.Names.RoundTrip.{spool_name-round_trip}
use srvgov_cli.Spool.Queue.{
  io_error, failed, returned, commit_committed, commit_not_committed, AuditError, SpoolFile,
  SpoolWorld, Queue, store_synced, check_entry, queue_entry, read_mutation_spool_record,
  next_mutation_spool_sequence,
}
use srvgov_cli.Spool.Queue.Sequence.{next_mutation_spool_sequence-less}
use srvgov_cli.Spool.Replay.{replay_mutation_audit_spool_locked}
use srvgov_cli.Spool.Queue.Appends.{line_of}
use srvgov_cli.Spool.Replay.Whole.{IsAccounted, replay_mutation_audit_spool_locked-IsAccounted}
use srvgov_cli.Spool.Outcomes.{remote_mutation_audit_outcome}
use srvgov_cli.Spool.Outcomes.Accepted.{remote_mutation_audit_outcome_refused}
use srvgov_cli.Spool.Transactions.{begin_mutation_audit, finish_mutation_audit, outcome_record}
use srvgov_cli.Spool.Transactions.Recorded.{IsRecorded, finish_mutation_audit-IsRecorded}
use srvgov_cli.Spool.Transactions.Success.{
  IsDrainedBefore, begin_mutation_audit-IsDrainedBefore, finish_mutation_audit-IsDrainedBefore,
}
use srvgov_cli.Spool.Transactions.Blocked.{begin_mutation_audit-blocked}
use srvgov_cli.FileWrite.{
  read_all, new_file_write_tracker, validate, read_file_write_input, invalid_base,
  contains_control_character, split_remote_file_write_target,
}
use srvgov_cli.FileWrite.Streams.{read_file_write_input-read_all}
use srvgov_cli.FileWrite.Targets.{IsSplit, split_remote_file_write_target-IsSplit}
use srvgov_cli.Tests.Sample.{ascii, zeros}

abbrev hex_id : Text
hex_id = codes "0123456789abcdef0123456789abcdef"

spool_name-round_trip_example :
    (valid_mutation_spool_name (spool_name 7 hex_id ".json") ≡ true)
    × (mutation_spool_name_sequence (spool_name 7 hex_id ".json") ≡ some 7)
    × (mutation_spool_name_mutation_id (spool_name 7 hex_id ".json") ≡ hex_id)
    × (mutation_audit_spool_suffix_for_name (spool_name 7 hex_id ".json") ≡ some ".json")
    × (validate_mutation_spool_filename (spool_name 7 hex_id ".json") hex_id ≡ true)
spool_name-round_trip_example =
    spool_name-round_trip 7 hex_id ".json" (omega arith) (omega arith)
      (unfold byte_length to_lower equal decode_string in (refl, refl, refl)) (inl refl)

-- A disk and a log that take everything, and a log that refuses each line.
abbrev taking : SpoolWorld
taking = record {
  opens = none;
  releases = true;
  append = λ log item. record { state = commit_committed; error = none; written = true };
  encodes = λ r. true;
  decoded = λ r. some r;
  store = λ name. store_synced;
  removes = λ name. true;
  renames = λ name. true;
  syncs = λ name. true;
  default_path = true;
  random =
      some (
        1 ∷ 35 ∷ 69 ∷ 103 ∷ 137 ∷ 171 ∷ 205 ∷ 239 ∷ 1 ∷ 35 ∷ 69 ∷ 103 ∷ 137 ∷ 171 ∷ 205 ∷ 239 ∷ []);
  now = 5;
  current_operator = codes "ops";
}

abbrev refusing : SpoolWorld
refusing = record taking {
  append = λ log item. record {
    state = commit_not_committed;
    error = some (io_error "disk full");
    written = false;
  };
}

abbrev sample_spec : MutationAuditSpec
sample_spec = record {
  action = codes "file.write";
  context = record { name = codes "prod"; env = codes "prod"; protected_ = true };
  target = codes "db1";
  risk_tier = codes "R2";
  ticket = codes "T-1";
  reason = codes "fix";
  metadata = no_metadata;
  audit_path = codes "/var/audit.jsonl";
}

abbrev sample_handle : MutationAuditHandle
sample_handle = record { id = hex_id; spec = sample_spec; now = 5; current_operator = codes "ops" }

abbrev sample_outcome : MutationOutcome
sample_outcome = record no_outcome { status = codes "succeeded"; succeeded = pos 1 }

abbrev ready_file : SpoolFile
unfolding outcome_record spool_name
ready_file = record {
  name = spool_name 1 hex_id ".json";
  is_dir = false;
  content = some (outcome_record sample_handle sample_outcome none);
}

abbrev unclear_file : SpoolFile
unfolding outcome_record spool_name
unclear_file = record {
  name = spool_name 2 hex_id ".indeterminate";
  is_dir = false;
  content = some (outcome_record sample_handle sample_outcome none);
}

abbrev empty_queue : Queue
empty_queue = record { log = []; files = [] }

abbrev pending_queue : Queue
pending_queue = record { log = []; files = ready_file ∷ [] }

-- The pending outcome is read, and replayed.
read_ready :
    read_mutation_spool_record ready_file
    ≡ returned (outcome_record sample_handle sample_outcome none)
unfolding read_mutation_spool_record outcome_record ready_file
read_ready = refl

replay_ready : (replay_mutation_audit_spool_locked taking pending_queue).1 ≡ none
unfolding replay_mutation_audit_spool_locked ready_file
replay_ready = refl

replay_mutation_audit_spool_locked-IsAccounted_example :
    All
      (IsAccounted (replay_mutation_audit_spool_locked taking pending_queue).0)
      pending_queue.files
replay_mutation_audit_spool_locked-IsAccounted_example =
    replay_mutation_audit_spool_locked-IsAccounted taking pending_queue

begin_mutation_audit-IsDrainedBefore_example :
    IsDrainedBefore pending_queue
      (begin_mutation_audit taking sample_spec pending_queue).0
      (line_of (record_of sample_handle (codes "intent") none))
unfolding ready_file
begin_mutation_audit-IsDrainedBefore_example =
    begin_mutation_audit-IsDrainedBefore taking sample_spec pending_queue
      (begin_mutation_audit taking sample_spec pending_queue).0 sample_handle
      (unfold begin_mutation_audit in refl)

finish_mutation_audit-IsDrainedBefore_example :
    (◌≡◌ {A = Option Text} none none)
    × IsDrainedBefore pending_queue
        (finish_mutation_audit taking (some sample_handle) sample_outcome none pending_queue).0
        (line_of (outcome_record sample_handle sample_outcome none))
unfolding ready_file
finish_mutation_audit-IsDrainedBefore_example =
    finish_mutation_audit-IsDrainedBefore taking sample_handle sample_outcome none pending_queue
      (unfold finish_mutation_audit in refl)

finish_mutation_audit-IsRecorded_example :
    IsRecorded refusing
      (outcome_record sample_handle sample_outcome none)
      (finish_mutation_audit refusing (some sample_handle) sample_outcome none empty_queue).0
finish_mutation_audit-IsRecorded_example =
    finish_mutation_audit-IsRecorded refusing sample_handle sample_outcome none empty_queue
      (unfold finish_mutation_audit in λ e. cc)

begin_mutation_audit-blocked_example :
    (e : AuditError) × (begin_mutation_audit taking sample_spec
        (record { log = []; files = ready_file ∷ unclear_file ∷ [] })
      ≡ (record { log = []; files = ready_file ∷ unclear_file ∷ [] }, failed e))
unfolding ready_file unclear_file
begin_mutation_audit-blocked_example =
    begin_mutation_audit-blocked taking sample_spec
      (record { log = []; files = ready_file ∷ unclear_file ∷ [] }) (ready_file ∷ []) unclear_file
      [] {n = 2} refl (unfold check_entry in refl) (unfold has_suffix in refl)

next_mutation_spool_sequence-less_example :
    (0 < 2)
    × (2 < 18446744073709551616)
    × (valid_mutation_spool_name (spool_name 2 hex_id ".json") ≡ true)
    × All
        (λ f.
          (m : ℕ)
          → check_entry f ≡ queue_entry m
          → less f.name (spool_name 2 hex_id ".json") ≡ true)
        (ready_file ∷ [])
unfolding ready_file
next_mutation_spool_sequence-less_example =
    next_mutation_spool_sequence-less (ready_file ∷ []) hex_id ".json" {n = 2}
      (unfold next_mutation_spool_sequence in refl)
      (unfold byte_length to_lower equal decode_string in (refl, refl, refl)) (inl refl)

abbrev sample_event : AuditEvent
unfolding record_of
sample_event = record (record_of sample_handle (codes "outcome") (some sample_outcome)).event {
  command = codes "rm -rf /";
  ticket_bytes = pos 3;
}

sanitize-sanitize_example : sanitize (sanitize sample_event) ≡ sanitize sample_event
sanitize-sanitize_example = sanitize-sanitize (λ t. unfold is_hex_digest in refl) sample_event

abbrev empty_file : FileInfo
empty_file = record {
  path = codes "/etc/motd";
  path_fingerprint = [];
  path_bytes = pos 0;
  bytes_written = pos 0;
  sha256 = codes "e3b0c44298fc1c149afbf4c8996fb92427ae41e4649b934ca495991b7852b855";
}

abbrev empty_write : SpoolFile
unfolding outcome_record remote_mutation_audit_outcome spool_name
empty_write = record {
  name = spool_name 1 hex_id ".json";
  is_dir = false;
  content = some (
      outcome_record sample_handle
        (remote_mutation_audit_outcome (some empty_file) none false false) none);
}

remote_mutation_audit_outcome_refused_example :
    read_mutation_spool_record empty_write
    ≡ failed (io_error "invalid mutation outcome spool record")
unfolding empty_write
remote_mutation_audit_outcome_refused_example =
    remote_mutation_audit_outcome_refused sample_handle empty_file none false false empty_write
      (unfold is in refl) refl refl

read_file_write_input-read_all_example :
    (let run = read_all (new_file_write_tracker (104 ∷ 105 ∷ [])) (1 ∷ []) in
      (run.0 ++ run.1.unread ≡ 104 ∷ 105 ∷ [])
      × (run.1.hashed ≡ run.0)
      × (run.1.bytes ≡ length run.0)
      × (run.1.bytes ≤ 16)
      × ((validate run.1 16 ≡ none) ↔ (run.0 ≡ 104 ∷ 105 ∷ [])))
read_file_write_input-read_all_example =
    read_file_write_input-read_all (104 ∷ 105 ∷ []) 16 (1 ∷ []) {content = 104 ∷ 105 ∷ []}
      (unfold read_file_write_input in refl)

split_remote_file_write_target-IsSplit_example :
    IsSplit (codes "/etc/motd") (codes "/etc") (codes "motd")
    × (invalid_base (codes "motd") ≡ false)
    × (contains_control_character (codes "/etc/motd") ≡ false)
    × (byte_length (codes "/etc/motd") ≤ 4096)
split_remote_file_write_target-IsSplit_example =
    split_remote_file_write_target-IsSplit (codes "/etc/motd") (codes "/etc") (codes "motd")
      (unfold split_remote_file_write_target in refl)
