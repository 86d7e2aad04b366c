-- ===== src/Spool/Records.antt =====
-- The records of cmd/mutation_audit.go, and which of them the spool takes back.
pub mod Sanitized
use srvgov_cli.Prelude.{
  ◌/◌, ◌%◌, ℕ, zero, suc, ◌+◌, ◌-◌, ◌*◌, ◌≤◌, ◌<◌, String, ◌≡◌, refl, sym, ap, ◌∙◌, ◌≢◌, ◌↔◌, ◌⊎◌,
  inl, inr, Bool, true, false, not, ◌&&◌, ◌||◌, Option, none, some, List, [], ◌∷◌, ◌++◌, map,
  append-nil, append_assoc, arith, ltb, leb, ◌==◌, if◌then◌else◌, ==_iff, Bool-cases, or_resolve,
  Option-cases, ◌>>=◌, >>=-eq-some, length, take, any, all, length-append, any-append, All,
  All-append, All-map, All-of, IfSome, split_if, IfSome-eq, holds_below, holds_below-at, ℤ, pos,
  negsuc, is_negative, clamp, is_positive,
}
use srvgov_cli.GoText.{Text, codes, is, equal, to_lower, byte_length, decode_string, Std}
use srvgov_cli.Audit.Events.{AuditEvent, Context, MutationMetadata, MutationOutcome}
use srvgov_cli.Audit.Fingerprints.{Digest, fingerprint, valid_fingerprint}

pub record MutationAuditRecord : Type 0 where
  pub api_version : Text
  pub kind : Text
  pub event : AuditEvent

pub record MutationAuditSpec : Type 0 where
  pub action : Text
  pub context : Context
  pub target : Text
  pub risk_tier : Text
  pub ticket : Text
  pub reason : Text
  pub metadata : MutationMetadata
  pub audit_path : Text

-- `mutationAuditHandle`, with what its flags say of the clock and of the operator.
pub record MutationAuditHandle : Type 0 where
  pub id : Text
  pub spec : MutationAuditSpec
  pub now : ℕ
  pub current_operator : Text

abbrev pub no_metadata : MutationMetadata
no_metadata = record {
  target_fingerprint = [];
  target_bytes = pos 0;
  payload_fingerprint = [];
  payload_bytes = pos 0;
  revision = [];
  items = pos 0;
  creates = pos 0;
  updates = pos 0;
  deletes = pos 0;
}

abbrev pub no_outcome : MutationOutcome
no_outcome = record {
  status = [];
  error_code = [];
  succeeded = pos 0;
  failed = pos 0;
  skipped = pos 0;
  uncertain = pos 0;
  output_incomplete = false;
  revision = [];
  payload_fingerprint = [];
  payload_bytes = pos 0;
}

abbrev pub is_zero : ℤ → Bool
is_zero (pos n) = n == 0
is_zero (negsuc n) = false

abbrev pub natural : ℤ → ℕ
natural (pos n) = n
natural (negsuc n) = 0

abbrev pub is_none {ℓ} : {A : Type ℓ} → Option A → Bool
is_none none = true
is_none (some _) = false

abbrev pub or_else : Text → Text → Text
or_else [] other = other
or_else (c ∷ text) other = c ∷ text

module _ ⦃std : Std⦄ where
  -- validOptionalMutationFingerprint, and its variant for 64 bits
  unfoldable pub valid_optional_fingerprint : Text → ℤ → Bool
  unfolding is valid_fingerprint
  valid_optional_fingerprint print size =
      if is print "" || is_zero size
      then is print "" && is_zero size
      else valid_fingerprint print size

  unfoldable pub valid_mutation_id : Text → Bool
  unfolding to_lower equal decode_string
  valid_mutation_id id =
      equal id (to_lower id) && (elim (decode_string id) [ none ↦ false | some _ ↦ true ])

  -- The counts of an outcome as `uint64`s, which the test has found not to be negative.
  unfoldable pub outcome_total : MutationOutcome → ℕ
  outcome_total o =
      (natural o.succeeded + natural o.failed + natural o.skipped + natural o.uncertain)
      % 18446744073709551616

  unfoldable pub valid_shape : MutationAuditRecord → MutationMetadata → MutationOutcome → Bool
  unfolding is equal byte_length
  valid_shape r m o =
      is r.api_version "srvgov-cli.io/mutation-audit/v1"
      && is r.kind "MutationAuditRecord"
      && is r.event.phase "outcome"
      && not (is r.event.action "")
      && leb (byte_length r.event.action) 256
      && byte_length r.event.mutation_id == 32
      && not (r.event.timestamp == 0)
      && equal r.event.event_type (r.event.action ++ codes ".outcome")
      && equal r.event.status o.status
      && is r.event.ticket ""
      && is r.event.reason ""
      && is r.event.command ""
      && is r.event.stdout ""
      && is r.event.stderr ""
      && is r.event.target.host ""
      && is_none r.event.error
      && is_none r.event.file

  unfoldable pub valid_prints : AuditEvent → MutationMetadata → MutationOutcome → Bool
  unfolding valid_optional_fingerprint
  valid_prints e m o =
      valid_optional_fingerprint e.ticket_fingerprint e.ticket_bytes
      && valid_optional_fingerprint e.reason_fingerprint e.reason_bytes
      && valid_optional_fingerprint e.command_fingerprint e.command_bytes
      && valid_optional_fingerprint e.stdout_fingerprint e.stdout_bytes
      && valid_optional_fingerprint e.stderr_fingerprint e.stderr_bytes
      && valid_optional_fingerprint e.target.fingerprint e.target.bytes
      && valid_optional_fingerprint m.target_fingerprint m.target_bytes
      && valid_optional_fingerprint m.payload_fingerprint m.payload_bytes
      && valid_optional_fingerprint o.payload_fingerprint o.payload_bytes

  unfoldable pub valid_counts : MutationMetadata → MutationOutcome → Bool
  unfolding byte_length
  valid_counts m o =
      not (is_negative m.items)
      && not (is_negative m.creates)
      && not (is_negative m.updates)
      && not (is_negative m.deletes)
      && not (is_negative o.succeeded)
      && not (is_negative o.failed)
      && not (is_negative o.skipped)
      && not (is_negative o.uncertain)
      && leb (byte_length m.revision) 256
      && leb (byte_length o.revision) 256
      && leb (byte_length o.error_code) 128

  unfoldable pub valid_outcome : MutationMetadata → MutationOutcome → Bool
  unfolding outcome_total is
  valid_outcome m o =
      leb (outcome_total o) 1000000000
      && not (is_positive m.items && not (outcome_total o == natural m.items))
      && not (is o.status "succeeded" && not (is_zero o.failed))
      && not (is o.status "succeeded" && not (is_zero o.uncertain))
      && not (is o.status "failed" && is o.error_code "")

  -- validateMutationSpoolRecord; `false` is its error.
  unfoldable pub validate_mutation_spool_record : MutationAuditRecord → Bool
  unfolding valid_shape valid_mutation_id valid_prints valid_counts valid_outcome is
  validate_mutation_spool_record r = elim r.event.outcome [
    | none ↦ false
    | some o ↦ elim r.event.metadata [
      | none ↦ false
      | some m ↦
          valid_shape r m o
          && valid_mutation_id r.event.mutation_id
          && (is o.status "succeeded" || is o.status "failed")
          && valid_prints r.event m o
          && valid_counts m o
          && valid_outcome m o
    ]
  ]

  module _ ⦃digest : Digest⦄ where
    -- mutationPayloadMetadata
    unfoldable pub mutation_payload_metadata : Text → Text → MutationMetadata
    unfolding fingerprint
    mutation_payload_metadata action payload =
        let print = fingerprint (codes "payload:" ++ action) payload in
        record no_metadata { payload_fingerprint = print.0; payload_bytes = print.1 }

    -- The metadata of a record: the target's fingerprint where it has none.
    unfoldable pub record_metadata : MutationAuditSpec → MutationMetadata
    unfolding fingerprint is
    record_metadata spec =
        let print = fingerprint (codes "target") spec.target in
        if is spec.metadata.target_fingerprint "" && not (is spec.target "")
        then record spec.metadata { target_fingerprint = print.0; target_bytes = print.1 }
        else spec.metadata

    -- The method `record` of a handle.
    unfoldable pub record_of :
        MutationAuditHandle → Text → Option MutationOutcome → MutationAuditRecord
    unfolding fingerprint record_metadata
    record_of h phase outcome =
        let ticket = fingerprint (codes "ticket") h.spec.ticket in
        let reason = fingerprint (codes "reason") h.spec.reason in
        record {
          api_version = codes "srvgov-cli.io/mutation-audit/v1";
          kind = codes "MutationAuditRecord";
          event = record {
            timestamp = h.now;
            event_type = h.spec.action ++ (codes "." ++ phase);
            operator = h.current_operator;
            context = h.spec.context;
            ticket = [];
            ticket_fingerprint = ticket.0;
            ticket_bytes = ticket.1;
            reason = [];
            reason_fingerprint = reason.0;
            reason_bytes = reason.1;
            target = record { host = []; fingerprint = []; bytes = pos 0 };
            command = [];
            command_fingerprint = [];
            command_bytes = pos 0;
            risk_tier = or_else h.spec.risk_tier (codes "R3");
            status = elim outcome [ none ↦ codes "pending" | some o ↦ o.status ];
            stdout = [];
            stdout_fingerprint = [];
            stdout_bytes = pos 0;
            stderr = [];
            stderr_fingerprint = [];
            stderr_bytes = pos 0;
            output_incomplete = false;
            exit_code = pos 0;
            error = none;
            file = none;
            mutation_id = h.id;
            operation_id = [];
            phase = phase;
            action = h.spec.action;
            metadata = some (record_metadata h.spec);
            outcome = outcome;
            read_outcome = none;
          };
        }

  -- How `finishMutationAudit` completes an outcome, from the error's code where there is an error.
  unfoldable pub completed_outcome : Option Text → MutationOutcome → MutationOutcome
  unfolding is
  completed_outcome operation_error o =
      let status =
        or_else o.status (if is_none operation_error then codes "succeeded" else codes "failed") in
      let error_code : Text = elim operation_error [
        | none ↦ o.error_code
        | some code ↦ or_else o.error_code code
      ] in
      let counted =
        is_none operation_error
        && is status "succeeded"
        && is_zero o.succeeded
        && is_zero o.failed
        && is_zero o.skipped
        && is_zero o.uncertain in
      record o {
        status = status;
        error_code = error_code;
        succeeded = if counted then pos 1 else o.succeeded;
      }
