-- ===== src/Audit/Fingerprints.antt =====
-- The fingerprints of internal/srvgovaudit/audit.go. The hash is the parameter Digest.
use srvgov_cli.Prelude.{
  ℕ, Bool, true, false, not, ◌&&◌, ◌||◌, Option, none, some, List, [], ◌∷◌, ◌++◌, ◌==◌,
  if◌then◌else◌, length, ℤ, pos, is_positive,
}
use srvgov_cli.GoText.{
  Text, codes, has_prefix, trim_prefix, equal, to_lower, byte_length, decode_string, Std,
}

-- `hex.EncodeToString` of `sha256.Sum256`.
pub record Digest : Type 0 where
  pub sha256_hex : Text → Text

-- `err == nil && len(decoded) == sha256.Size`
unfoldable pub is_decoded_digest : Option (List ℕ) → Bool
is_decoded_digest none = false
is_decoded_digest (some decoded) = length decoded == 32

module _ ⦃std : Std⦄ where
  -- 64 hexadecimal digits, none of them in upper case
  unfoldable pub is_hex_digest : Text → Bool
  unfolding decode_string to_lower equal is_decoded_digest
  is_hex_digest encoded =
      equal encoded (to_lower encoded) && is_decoded_digest (decode_string encoded)

  unfoldable pub valid_fingerprint_text : Text → Bool
  unfolding byte_length has_prefix trim_prefix is_hex_digest
  valid_fingerprint_text fingerprint =
      if not (byte_length fingerprint == 71) || not (has_prefix fingerprint "sha256:")
      then false
      else is_hex_digest (trim_prefix fingerprint "sha256:")

  -- ValidFingerprint, and its variant for 64 bits
  unfoldable pub valid_fingerprint : Text → ℤ → Bool
  unfolding valid_fingerprint_text
  valid_fingerprint fingerprint size = is_positive size && valid_fingerprint_text fingerprint

  unfoldable pub valid_bare_sha256 : Text → Bool
  unfolding byte_length is_hex_digest
  valid_bare_sha256 [] = true
  valid_bare_sha256 (c ∷ value) = byte_length (c ∷ value) == 64 && is_hex_digest (c ∷ value)

  unfoldable pub normalize_fingerprint : Text → ℤ → Text × ℤ
  unfolding valid_fingerprint
  normalize_fingerprint fingerprint size =
      if not (valid_fingerprint fingerprint size) then ([], pos 0) else (fingerprint, size)

  module _ ⦃digest : Digest⦄ where
    unfoldable pub fingerprint : Text → Text → Text × ℤ
    unfolding byte_length
    fingerprint domain [] = ([], pos 0)
    fingerprint domain (c ∷ value) = (
      codes "sha256:"
          ++ digest.sha256_hex
              (codes "srvgov-cli.io/audit-fingerprint/v1" ++ (0 ∷ (domain ++ (0 ∷ (c ∷ value))))),
      pos (byte_length (c ∷ value)),
    )

    unfoldable pub merge_fingerprint : Text → Text → Text → ℤ → Text × ℤ
    unfolding fingerprint normalize_fingerprint
    merge_fingerprint domain [] print size = normalize_fingerprint print size
    merge_fingerprint domain (c ∷ raw) print size = fingerprint domain (c ∷ raw)
