-- ===== src/Spool/Outcomes/Accepted.antt =====
-- Which outcomes of remote mutations a replay of the spool takes back.
use srvgov_cli.Prelude.{
  ◌≡◌, refl, inl, inr, Bool, false, ◌&&◌, ◌||◌, Option, some, [], ◌∷◌, arith, Bool-cases, pos,
}
use srvgov_cli.GoText.{Text, codes, is, has_prefix, equal, Std}
use srvgov_cli.Audit.Events.{FileInfo, MutationMetadata, MutationOutcome, AuditEvent}
use srvgov_cli.Audit.Fingerprints.{Digest}
use srvgov_cli.Spool.Records.{
  MutationAuditRecord, MutationAuditHandle, valid_optional_fingerprint, valid_prints, valid_shape,
  valid_counts, valid_outcome, valid_mutation_id, validate_mutation_spool_record, record_of,
  record_metadata, completed_outcome,
}
use srvgov_cli.Spool.Outcomes.{prefixed_sha256, remote_mutation_audit_outcome}
use srvgov_cli.Spool.Queue.{SpoolFile, failed, read_mutation_spool_record, io_error}
use srvgov_cli.Spool.Transactions.{outcome_record}

and_refused : (a b : Bool) → b ≡ false → (a && b) ≡ false
and_refused a b h = ground arith

and_refused_left : (a b : Bool) → a ≡ false → (a && b) ≡ false
and_refused_left a b h = ground arith

-- A record is refused where the fingerprint of its outcome's payload is.
refused_prints :
    ⦃std : Std⦄
    → (e : AuditEvent) (m : MutationMetadata) (o : MutationOutcome)
    → valid_optional_fingerprint o.payload_fingerprint o.payload_bytes ≡ false
    → valid_prints e m o ≡ false
unfolding valid_prints
refused_prints e m o h =
    and_refused
      (valid_optional_fingerprint e.ticket_fingerprint e.ticket_bytes
        && valid_optional_fingerprint e.reason_fingerprint e.reason_bytes
        && valid_optional_fingerprint e.command_fingerprint e.command_bytes
        && valid_optional_fingerprint e.stdout_fingerprint e.stdout_bytes
        && valid_optional_fingerprint e.stderr_fingerprint e.stderr_bytes
        && valid_optional_fingerprint e.target.fingerprint e.target.bytes
        && valid_optional_fingerprint m.target_fingerprint m.target_bytes
        && valid_optional_fingerprint m.payload_fingerprint m.payload_bytes)
      (valid_optional_fingerprint o.payload_fingerprint o.payload_bytes) h

prefixed_nonempty : (t : Text) → is t "" ≡ false → is (prefixed_sha256 t) "" ≡ false
unfolding prefixed_sha256 is equal
prefixed_nonempty [] h = cc
prefixed_nonempty (c ∷ t) h = elim (Bool-cases (has_prefix (c ∷ t) "sha256:")) [
  | inl e ↦ rw e refl
  | inr e ↦ rw e refl
]

module _ ⦃std : Std⦄ where
  refused_empty :
      (print : Text) → is print "" ≡ false → valid_optional_fingerprint print (pos 0) ≡ false
  unfolding valid_optional_fingerprint
  refused_empty print h = ground arith

  refused_record :
      (r : MutationAuditRecord) (m : MutationMetadata) (o : MutationOutcome)
      → r.event.outcome ≡ some o
      → r.event.metadata ≡ some m
      → valid_optional_fingerprint o.payload_fingerprint o.payload_bytes ≡ false
      → validate_mutation_spool_record r ≡ false
  unfolding validate_mutation_spool_record
  refused_record r m o eo em h =
      let prints = refused_prints r.event m o h in
      let before =
        valid_shape r m o
        && valid_mutation_id r.event.mutation_id
        && (is o.status "succeeded" || is o.status "failed") in
      rw (eo, em, validate_mutation_spool_record)
        (and_refused_left (before && valid_prints r.event m o && valid_counts m o)
          (valid_outcome m o)
          (and_refused_left (before && valid_prints r.event m o) (valid_counts m o)
            (and_refused before (valid_prints r.event m o) prints)))

  module _ ⦃digest : Digest⦄ where
    -- The outcome that `finishRemoteMutationAudit` makes of a file of no bytes, whose digest is there, is not
    -- taken back by a replay: a spool file that holds it fails every replay that comes to it.
    pub remote_mutation_audit_outcome_refused :
        (handle : MutationAuditHandle) (file : FileInfo) (operation : Option Text)
        (uncertain incomplete : Bool) (f : SpoolFile)
        → is file.sha256 "" ≡ false
        → file.bytes_written ≡ pos 0
        → f.content
          ≡ some (
              outcome_record handle
                (remote_mutation_audit_outcome (some file) operation uncertain incomplete)
                operation)
        → read_mutation_spool_record f ≡ failed (io_error "invalid mutation outcome spool record")
    unfolding read_mutation_spool_record remote_mutation_audit_outcome outcome_record record_of
        completed_outcome
    remote_mutation_audit_outcome_refused handle file operation uncertain incomplete f printed empty
          content =
        let outcome =
          completed_outcome operation
            (remote_mutation_audit_outcome (some file) operation uncertain incomplete) in
        let r = record_of handle (codes "outcome") (some outcome) in
        let print =
          refused_empty (prefixed_sha256 file.sha256) (prefixed_nonempty file.sha256 printed) in
        let refused : validate_mutation_spool_record r ≡ false =
          refused_record r (record_metadata handle.spec) outcome refl refl (rw empty print) in
        rw (content, refused, read_mutation_spool_record) refl
