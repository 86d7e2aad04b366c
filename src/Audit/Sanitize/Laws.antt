-- ===== src/Audit/Sanitize/Laws.antt =====
-- What `Sanitize` leaves of an event, and that it leaves it alone the second time.
use srvgov_cli.Prelude.{
  ℕ, zero, suc, ◌+◌, ◌≤◌, ◌≡◌, refl, ap, inl, inr, true, Option, none, some, List, [], ◌∷◌, ◌++◌,
  arith, if◌then◌else◌, Bool-cases, length, ℤ, pos, negsuc, clamp, is_positive,
}
use srvgov_cli.GoText.{
  Text, codes, has_prefix, starts, trim_prefix, byte_length, unit_bytes, decode_string,
  decode_string-length, Std,
}
use srvgov_cli.Audit.Fingerprints.{
  Digest, is_decoded_digest, is_hex_digest, valid_fingerprint_text, valid_fingerprint,
  valid_bare_sha256, normalize_fingerprint, fingerprint, merge_fingerprint,
}
use srvgov_cli.Audit.Events.{AuditEvent, ErrorInfo, FileInfo, MutationMetadata, MutationOutcome}
use srvgov_cli.Audit.Sanitize.{
  cloned, bounded_revision, sanitize_error, sanitize_metadata, sanitize_outcome, sanitize_file,
  sanitize,
}

decoded_digest :
    (o : Option (List ℕ))
    → is_decoded_digest o ≡ true
    → (bytes : List ℕ) × (o ≡ some bytes) × (length bytes ≡ 32)
unfolding is_decoded_digest
decoded_digest none h = cc
decoded_digest (some bytes) h = (bytes, refl, ground arith)

unit_bytes-ge : (r : ℕ) → 1 ≤ unit_bytes r
unfolding unit_bytes
unit_bytes-ge r = ground arith

positive : (n : ℕ) → 1 ≤ n → is_positive (pos n) ≡ true
positive zero h = absurd (omega arith)
positive (suc n) h = refl

module _ ⦃std : Std⦄ where
  normalize-normalize :
      (print : Text) (size : ℤ)
      → normalize_fingerprint
          (normalize_fingerprint print size).0
          (normalize_fingerprint print size).1
        ≡ normalize_fingerprint print size
  unfolding normalize_fingerprint
  normalize-normalize print size = elim (Bool-cases (valid_fingerprint print size)) [
    | inl v ↦ rw (v, v) refl
    | inr v ↦ rw v refl
  ]

  digest_length : (t : Text) → is_hex_digest t ≡ true → byte_length t ≡ 64
  unfolding is_hex_digest
  digest_length t h =
      let (bs, e, n) = decoded_digest (decode_string t) (ground arith) in
      omega (arith, decode_string-length t e)

  prefixed_valid :
      (t : Text) → is_hex_digest t ≡ true → valid_fingerprint_text (codes "sha256:" ++ t) ≡ true
  unfolding valid_fingerprint_text has_prefix starts trim_prefix byte_length unit_bytes
  prefixed_valid t h = rw (digest_length t h) h

  normalize_valid :
      (print : Text) (size : ℤ)
      → valid_fingerprint print size ≡ true
      → normalize_fingerprint print size ≡ (print, size)
  unfolding normalize_fingerprint
  normalize_valid print size v = rw v refl

  cloned_twice :
      {A : Type 0} (f : A → A)
      → ((a : A) → f (f a) ≡ f a)
      → (o : Option A) → cloned f (cloned f o) ≡ cloned f o
  unfolding cloned
  cloned_twice f h none = refl
  cloned_twice f h (some a) = ap some (h a)

  revision_twice : (t : Text) → bounded_revision (bounded_revision t) ≡ bounded_revision t
  unfolding bounded_revision byte_length
  revision_twice t = ground arith

  clamp_twice : (i : ℤ) → clamp (clamp i) ≡ clamp i
  clamp_twice (pos n) = refl
  clamp_twice (negsuc n) = refl

  bare_twice :
      (t : Text)
      → (if valid_bare_sha256 (if valid_bare_sha256 t then t else [])
          then (if valid_bare_sha256 t then t else [])
          else [])
        ≡ (if valid_bare_sha256 t then t else [])
  bare_twice t = elim (Bool-cases (valid_bare_sha256 t)) [
    | inl v ↦ rw (v, v) refl
    | inr v ↦ rw v (unfold valid_bare_sha256 in refl)
  ]

  metadata_twice :
      (m : MutationMetadata) → sanitize_metadata (sanitize_metadata m) ≡ sanitize_metadata m
  unfolding sanitize_metadata
  metadata_twice m = simp (normalize-normalize, clamp_twice, revision_twice)

  outcome_twice : (o : MutationOutcome) → sanitize_outcome (sanitize_outcome o) ≡ sanitize_outcome o
  unfolding sanitize_outcome
  outcome_twice o = simp (normalize-normalize, clamp_twice, revision_twice)

  error_twice : (e : ErrorInfo) → sanitize_error (sanitize_error e) ≡ sanitize_error e
  unfolding sanitize_error
  error_twice e = refl

  -- What the hash returns is a digest.
  abbrev pub IsDigest : Digest → Type 0
  IsDigest digest = (t : Text) → is_hex_digest (digest.sha256_hex t) ≡ true

  module _ ⦃digest : Digest⦄ (is_digest : IsDigest digest) where
    pub fingerprint-valid :
        (domain : Text) (c : ℕ) (value : Text)
        → valid_fingerprint (fingerprint domain (c ∷ value)).0 (fingerprint domain (c ∷ value)).1
          ≡ true
    unfolding valid_fingerprint fingerprint byte_length
    fingerprint-valid domain c value =
        rw (positive (unit_bytes c + byte_length value) (omega (arith, unit_bytes-ge c)))
          (prefixed_valid (digest.sha256_hex _) (is_digest _))

    fingerprint_kept :
        (domain : Text) (c : ℕ) (value : Text)
        → normalize_fingerprint
            (fingerprint domain (c ∷ value)).0
            (fingerprint domain (c ∷ value)).1
          ≡ fingerprint domain (c ∷ value)
    unfolding fingerprint
    fingerprint_kept domain c value = normalize_valid _ _ (fingerprint-valid domain c value)

    merge_twice :
        (domain raw print : Text) (size : ℤ)
        → merge_fingerprint domain []
            (merge_fingerprint domain raw print size).0
            (merge_fingerprint domain raw print size).1
          ≡ merge_fingerprint domain raw print size
    unfolding merge_fingerprint
    merge_twice domain [] print size = normalize-normalize print size
    merge_twice domain (c ∷ raw) print size = fingerprint_kept domain c raw

    file_twice : (f : FileInfo) → sanitize_file (sanitize_file f) ≡ sanitize_file f
    unfolding sanitize_file
    file_twice f = simp (merge_twice, clamp_twice, bare_twice)

    -- `Sanitize` changes nothing the second time.
    pub sanitize-sanitize : (e : AuditEvent) → sanitize (sanitize e) ≡ sanitize e
    unfolding sanitize
    sanitize-sanitize e = simp (
      merge_twice,
      cloned_twice sanitize_file file_twice,
      cloned_twice sanitize_error error_twice,
      cloned_twice sanitize_metadata metadata_twice,
      cloned_twice sanitize_outcome outcome_twice,
    )
