-- ===== src/Spool/Records/Sanitized.antt =====
-- The fingerprints of a sanitized event, against the checks that a replay of the spool makes of them.
use srvgov_cli.Prelude.{
  zero, suc, ◌≡◌, refl, inl, inr, Bool, true, false, ◌&&◌, [], ◌∷◌, arith, Bool-cases, ℤ, pos,
  negsuc, is_positive,
}
use srvgov_cli.GoText.{Text, codes, is, Std}
use srvgov_cli.Audit.Events.{AuditEvent, MutationMetadata, MutationOutcome}
use srvgov_cli.Audit.Fingerprints.{
  Digest, fingerprint, merge_fingerprint, normalize_fingerprint, valid_fingerprint,
  valid_fingerprint_text,
}
use srvgov_cli.Audit.Sanitize.{sanitize, sanitize_target, sanitize_metadata, sanitize_outcome}
use srvgov_cli.Audit.Sanitize.Laws.{IsDigest, fingerprint-valid}
use srvgov_cli.Spool.Records.{is_zero, valid_optional_fingerprint, valid_prints}

and_both : (a b : Bool) → (a && b) ≡ true → (a ≡ true) × (b ≡ true)
and_both a b h = (ground arith, ground arith)

module _ ⦃std : Std⦄ where
  text_nonempty : (print : Text) → valid_fingerprint_text print ≡ true → is print "" ≡ false
  unfolding valid_fingerprint_text is
  text_nonempty [] h = absurd (cc)
  text_nonempty (c ∷ print) h = refl

  positive_nonzero : (size : ℤ) → is_positive size ≡ true → is_zero size ≡ false
  positive_nonzero (pos zero) h = absurd (cc)
  positive_nonzero (pos (suc n)) h = ground arith
  positive_nonzero (negsuc n) h = refl

  both :
      (print : Text) (size : ℤ)
      → valid_fingerprint print size ≡ true
      → (is_positive size ≡ true) × (valid_fingerprint_text print ≡ true)
  unfolding valid_fingerprint
  both print size h = and_both (is_positive size) (valid_fingerprint_text print) h

  -- A fingerprint that is valid is valid where it may be missing, too.
  pub optional-valid :
      (print : Text) (size : ℤ)
      → valid_fingerprint print size ≡ true
      → valid_optional_fingerprint print size ≡ true
  unfolding valid_optional_fingerprint
  optional-valid print size h =
      let parts = both print size h in
      rw (text_nonempty print parts.1, positive_nonzero size parts.0) h

  normalize-valid :
      (print : Text) (size : ℤ)
      → (let n = normalize_fingerprint print size in valid_optional_fingerprint n.0 n.1 ≡ true)
  unfolding normalize_fingerprint
  normalize-valid print size = elim (Bool-cases (valid_fingerprint print size)) [
    | inl h ↦ rw h (optional-valid print size h)
    | inr h ↦ rw h (unfold valid_optional_fingerprint in refl)
  ]

  module _ ⦃digest : Digest⦄ (is_digest : IsDigest digest) where
    merge-valid :
        (domain raw print : Text) (size : ℤ)
        → (let m = merge_fingerprint domain raw print size in
            valid_optional_fingerprint m.0 m.1 ≡ true)
    unfolding merge_fingerprint
    merge-valid domain [] print size = normalize-valid print size
    merge-valid domain (c ∷ raw) print size =
        optional-valid (fingerprint domain (c ∷ raw)).0 (fingerprint domain (c ∷ raw)).1
          (fingerprint-valid is_digest domain c raw)

    -- The fingerprints of an event that has been sanitized, and those of sanitized metadata and of a sanitized
    -- outcome, pass the checks that a replay of the spool makes of a record's fingerprints, for a digest that
    -- yields hexadecimal SHA-256 texts.
    pub sanitize-valid_prints :
        (e : AuditEvent) (m : MutationMetadata) (o : MutationOutcome)
        → valid_prints (sanitize e) (sanitize_metadata m) (sanitize_outcome o) ≡ true
    unfolding valid_prints sanitize sanitize_target sanitize_metadata sanitize_outcome
    sanitize-valid_prints e m o =
        rw
          (
            merge-valid (codes "ticket") e.ticket e.ticket_fingerprint e.ticket_bytes,
            merge-valid (codes "reason") e.reason e.reason_fingerprint e.reason_bytes,
            merge-valid (codes "command") e.command e.command_fingerprint e.command_bytes,
            merge-valid (codes "stdout") e.stdout e.stdout_fingerprint e.stdout_bytes,
            merge-valid (codes "stderr") e.stderr e.stderr_fingerprint e.stderr_bytes,
            merge-valid (codes "target") e.target.host e.target.fingerprint e.target.bytes,
            normalize-valid m.target_fingerprint m.target_bytes,
            normalize-valid m.payload_fingerprint m.payload_bytes,
            normalize-valid o.payload_fingerprint o.payload_bytes,
          )
          refl
