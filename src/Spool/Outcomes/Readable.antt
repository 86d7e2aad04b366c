-- ===== src/Spool/Outcomes/Readable.antt =====
-- The outcome of a fan-out, against the whole of what a replay demands of a spool file.
use mathlib.Core.Path.{subst}
use srvgov_cli.Prelude.{
  ℕ, ◌≤◌, ◌<◌, ◌≡◌, refl, sym, inl, inr, Bool, true, false, ◌&&◌, ◌||◌, Option, none, some, List,
  [], ◌∷◌, ◌++◌, arith, ltb, leb, ◌==◌, if◌then◌else◌, Bool-cases, length, split_if, pos,
  is_negative,
}
use srvgov_cli.GoText.{Text, codes, is, equal, equal_iff, byte_length, Std}
use srvgov_cli.Audit.Events.{MutationMetadata, MutationOutcome}
use srvgov_cli.Audit.Fingerprints.{Digest, fingerprint}
use srvgov_cli.Audit.Sanitize.Laws.{IsDigest, fingerprint-valid}
use srvgov_cli.Spool.Names.{validate_mutation_spool_filename}
use srvgov_cli.Spool.Records.{
  MutationAuditSpec, MutationAuditHandle, valid_optional_fingerprint, valid_prints, valid_shape,
  valid_counts, valid_outcome, valid_mutation_id, validate_mutation_spool_record, record_of,
  record_metadata, mutation_payload_metadata, completed_outcome,
}
use srvgov_cli.Spool.Records.Sanitized.{optional-valid}
use srvgov_cli.Spool.Outcomes.{
  TargetError, FanoutCounts, count_results, no_counts, ErrorCodes, counted_outcome,
  fanout_mutation_outcome,
}
use srvgov_cli.Spool.Outcomes.Totals.{items_of, AreKnown, fanout_mutation_outcome_total}
use srvgov_cli.Spool.Queue.{SpoolFile, returned, read_mutation_spool_record}
use srvgov_cli.Spool.Transactions.{outcome_record}

equal_self : (t : Text) → equal t t ≡ true
equal_self t = (equal_iff t t).1 refl

-- The codes fit an outcome.
pub record Fit (known : ErrorCodes) : Type 0 where
  pub backend : byte_length known.backend_error ≤ 128
  pub partial : byte_length known.partial_failure ≤ 128

code_length :
    (s a b : Bool) (known : ErrorCodes)
    → Fit known
    → leb
        (byte_length (
          if s
          then []
          else if a
          then codes "AUDIT_INCOMPLETE"
          else if b
          then known.partial_failure
          else known.backend_error))
        128
      ≡ true
code_length true a b known fit = unfold byte_length in refl
code_length false true b known fit = unfold byte_length in refl
code_length false false true known fit = let h = fit.partial in ground arith
code_length false false false known fit = let h = fit.backend in ground arith

outcome_status :
    ⦃std : Std⦄
    → (known : ErrorCodes) (c : FanoutCounts)
    → (let s = (completed_outcome none (counted_outcome known c)).status in
        (is s "succeeded" || is s "failed") ≡ true)
unfolding completed_outcome counted_outcome is
outcome_status known c = elim (Bool-cases (c.failed == 0 && c.uncertain == 0)) [
  | inl e ↦ rw e refl
  | inr e ↦ rw e refl
]

-- The metadata of a fan-out's intent.
pub record IsBatch ⦃std : Std⦄ (n : ℕ) (m : MutationMetadata) : Type 0 where
  pub items : m.items ≡ pos n
  pub changes : (m.creates ≡ pos 0) × (m.updates ≡ pos 0) × (m.deletes ≡ pos 0)
  pub revision : m.revision ≡ []
  pub target : valid_optional_fingerprint m.target_fingerprint m.target_bytes ≡ true
  pub payload : valid_optional_fingerprint m.payload_fingerprint m.payload_bytes ≡ true

module _ ⦃std : Std⦄ where
  completed_nonnegative :
      (o : MutationOutcome)
      → is_negative o.succeeded ≡ false
      → is_negative (completed_outcome none o).succeeded ≡ false
  unfolding completed_outcome
  completed_nonnegative o h = ground arith

  counts-valid :
      (known : ErrorCodes) (c : FanoutCounts) {n : ℕ} {m : MutationMetadata}
      → Fit known
      → IsBatch n m
      → valid_counts m (completed_outcome none (counted_outcome known c)) ≡ true
  unfolding valid_counts counted_outcome completed_outcome is
  counts-valid known c {n} {m} fit batch =
      let (creates, updates, deletes) = batch.changes in
      let code =
        code_length (c.failed == 0 && c.uncertain == 0) c.audit_incomplete (ltb 0 c.uncertain) known
          fit in
      let counted = completed_nonnegative (counted_outcome known c) refl in
      rw (batch.items, creates, updates, deletes, batch.revision, counted, code) refl

  outcome-valid :
      (n : ℕ) (m : MutationMetadata) (o : MutationOutcome)
      → m.items ≡ pos n
      → valid_outcome (items_of n) o ≡ true
      → valid_outcome m o ≡ true
  unfolding valid_outcome
  outcome-valid n m o e h = rw e h

  module _ ⦃digest : Digest⦄ where
    -- The metadata that `beginFanoutMutationAudit` gives to the intent of a batch.
    abbrev pub batch_metadata : Text → Text → ℕ → MutationMetadata
    batch_metadata action command n = record (mutation_payload_metadata action command) {
      items = pos n;
    }

    -- A handle of a batch of n targets, as beginFanoutMutationAudit and beginMutationAudit make it.
    pub record IsHandle (n : ℕ) (handle : MutationAuditHandle) : Type 0 where
      pub action : is handle.spec.action "" ≡ false
      pub short : byte_length handle.spec.action ≤ 256
      pub id : byte_length handle.id ≡ 32
      pub hex : valid_mutation_id handle.id ≡ true
      pub now : 0 < handle.now
      pub metadata :
          (action command : Text) × (handle.spec.metadata ≡ batch_metadata action command n)

  module _ ⦃digest : Digest⦄ (is_digest : IsDigest digest) where
    optional-fingerprint :
        (domain value : Text)
        → (let p = fingerprint domain value in valid_optional_fingerprint p.0 p.1 ≡ true)
    unfolding fingerprint
    optional-fingerprint domain [] = unfold valid_optional_fingerprint in refl
    optional-fingerprint domain (c ∷ value) =
        optional-valid (fingerprint domain (c ∷ value)).0 (fingerprint domain (c ∷ value)).1
          (fingerprint-valid is_digest domain c value)

    batch_metadata-IsBatch :
        (action command : Text) (n : ℕ) → IsBatch n (batch_metadata action command n)
    unfolding mutation_payload_metadata
    batch_metadata-IsBatch action command n = record {
      items = refl;
      changes = (refl, refl, refl);
      revision = refl;
      target = unfold valid_optional_fingerprint in refl;
      payload = optional-fingerprint (codes "payload:" ++ action) command;
    }

    record_metadata-IsBatch :
        (spec : MutationAuditSpec) (n : ℕ)
        → IsBatch n spec.metadata
        → IsBatch n (record_metadata spec)
    unfolding record_metadata
    record_metadata-IsBatch spec n batch =
        split_if (IsBatch n) _
          (λ _. record {
            items = batch.items;
            changes = batch.changes;
            revision = batch.revision;
            target = optional-fingerprint (codes "target") spec.target;
            payload = batch.payload;
          })
          (λ _. batch)

    shape-valid :
        (n : ℕ) (handle : MutationAuditHandle) (m : MutationMetadata) (o : MutationOutcome)
        → IsHandle n handle
        → valid_shape (record_of handle (codes "outcome") (some o)) m o ≡ true
    unfolding valid_shape record_of is
    shape-valid n handle m o h =
        let short = h.short in
        let fits : leb (byte_length handle.spec.action) 256 ≡ true = ground arith in
        let sized = h.id in
        let id : (byte_length handle.id == 32) ≡ true = ground arith in
        let later = h.now in
        let now : (handle.now == 0) ≡ false = ground arith in
        rw
          (
            h.action,
            fits,
            id,
            now,
            equal_self (handle.spec.action ++ codes ".outcome"),
            equal_self o.status,
          )
          refl

    prints-valid :
        (handle : MutationAuditHandle) (n : ℕ) (m : MutationMetadata) (known : ErrorCodes)
        (c : FanoutCounts)
        → IsBatch n m
        → (let o = completed_outcome none (counted_outcome known c) in
            valid_prints (record_of handle (codes "outcome") (some o)).event m o ≡ true)
    unfolding valid_prints record_of completed_outcome counted_outcome
    prints-valid handle n m known c batch =
        rw
          (
            optional-fingerprint (codes "ticket") handle.spec.ticket,
            optional-fingerprint (codes "reason") handle.spec.reason,
            batch.target,
            batch.payload,
          )
          (unfold valid_optional_fingerprint in refl)

    fanout-validate :
        (known : ErrorCodes) (results : List (Option TargetError)) (handle : MutationAuditHandle)
        → AreKnown known
        → Fit known
        → 0 < length results
        → length results ≤ 1000000000
        → IsHandle (length results) handle
        → validate_mutation_spool_record
            (outcome_record handle (fanout_mutation_outcome known results) none)
          ≡ true
    unfolding validate_mutation_spool_record outcome_record fanout_mutation_outcome record_of
    fanout-validate known results handle k fit l u h =
        let n = length results in
        let (action, command, e) = h.metadata in
        let c = count_results no_counts results in
        let o = completed_outcome none (counted_outcome known c) in
        let m = record_metadata handle.spec in
        let batch =
          record_metadata-IsBatch handle.spec n
            (subst (IsBatch n) (sym e) (batch_metadata-IsBatch action command n)) in
        rw
          (
            shape-valid n handle m o h,
            h.hex,
            outcome_status known c,
            prints-valid handle n m known c batch,
            counts-valid known c fit batch,
            outcome-valid n m o batch.items (fanout_mutation_outcome_total known results k l u),
          )
          refl

    -- The record of a fan-out's outcome is read back by a replay of the spool, with its counts,
    -- status and error code: for 1 to 1,000,000,000 targets, a file that holds the record of a
    -- batch's handle, whose metadata are those of the intent with the targets as items, under a
    -- name for its mutation id, passes every check of a spool file and is returned as that record.
    -- The digest yields hexadecimal SHA-256 texts, the error codes have 1 to 128 bytes, the action
    -- has 1 to 256 bytes, the mutation id is 32 lower-case hexadecimal digits, and the clock is not
    -- zero.
    pub fanout_mutation_outcome-read :
        (known : ErrorCodes) (results : List (Option TargetError)) (handle : MutationAuditHandle)
        (f : SpoolFile)
        → AreKnown known
        → Fit known
        → 0 < length results
        → length results ≤ 1000000000
        → IsHandle (length results) handle
        → f.content ≡ some (outcome_record handle (fanout_mutation_outcome known results) none)
        → validate_mutation_spool_filename f.name handle.id ≡ true
        → read_mutation_spool_record f
          ≡ returned (outcome_record handle (fanout_mutation_outcome known results) none)
    unfolding read_mutation_spool_record
    fanout_mutation_outcome-read known results handle f k fit l u h content name =
        let r = outcome_record handle (fanout_mutation_outcome known results) none in
        let valid = fanout-validate known results handle k fit l u h in
        let id : validate_mutation_spool_filename f.name r.event.mutation_id ≡ true =
          unfold outcome_record record_of in name in
        rw (content, valid, id) refl
