-- ===== src/Spool/Names.antt =====
-- The file names of the spool of cmd/mutation_audit.go.
pub mod Order
pub mod RoundTrip
use srvgov_cli.Prelude.{
  ◌/◌, ◌%◌, ℕ, zero, suc, ◌+◌, ◌-◌, ◌*◌, ◌≤◌, ◌<◌, String, ◌≡◌, refl, sym, ap, ◌∙◌, ◌≢◌, ◌↔◌, ◌⊎◌,
  inl, inr, Bool, true, false, not, ◌&&◌, ◌||◌, Option, none, some, List, [], ◌∷◌, ◌++◌, map,
  append-nil, append_assoc, arith, ltb, leb, ◌==◌, if◌then◌else◌, ==_iff, Bool-cases, or_resolve,
  Option-cases, ◌>>=◌, >>=-eq-some, length, take, any, all, length-append, any-append, All,
  All-append, All-map, All-of, IfSome, split_if, IfSome-eq, holds_below, holds_below-at, ℤ, pos,
  negsuc, is_negative, clamp, is_positive,
}
use srvgov_cli.GoText.{
  Text, codes, is, equal, to_lower, byte_length, decode_string, has_suffix, cut, split_on, between,
  Std,
}

-- strings.HasSuffix of a computed suffix
unfoldable pub has_suffix_text : Text → Text → Bool
unfolding equal
has_suffix_text [] p = equal [] p
has_suffix_text (x ∷ xs) p = equal (x ∷ xs) p || has_suffix_text xs p

-- strings.TrimSuffix
unfoldable pub trim_suffix : Text → String → Text
unfolding is
trim_suffix [] p = []
trim_suffix (x ∷ xs) p = let rest = trim_suffix xs p in if is (x ∷ xs) p then [] else x ∷ rest

unfoldable pub parse_loop : ℕ → Text → Option ℕ
parse_loop acc [] = some acc
parse_loop acc (x ∷ xs) =
    let rest = parse_loop (acc * 10 + (x - b'0')) xs in if between b'0' b'9' x then rest else none

-- strconv.ParseUint(text, 10, 64); `none` is its error.
unfoldable pub parse_uint : Text → Option ℕ
unfolding parse_loop
parse_uint [] = none
parse_uint (x ∷ xs) = elim (parse_loop 0 (x ∷ xs)) [
  | none ↦ none
  | some n ↦ if ltb n 18446744073709551616 then some n else none
]

-- The last digits of a number, of which there are as many as the width says.
unfoldable pub padded : ℕ → ℕ → Text
padded zero n = []
padded (suc width) n = padded width (n / 10) ++ (b'0' + n % 10) ∷ []

-- fmt.Sprintf("%020d-%s%s", sequence, id, suffix) for a 64-bit sequence
unfoldable pub spool_name : ℕ → Text → String → Text
unfolding padded
spool_name sequence id suffix = padded 20 sequence ++ b'-' ∷ (id ++ codes suffix)

-- mutationAuditSpoolSuffixForName; `none` is the empty suffix.
unfoldable pub mutation_audit_spool_suffix_for_name : Text → Option String
unfolding has_suffix
mutation_audit_spool_suffix_for_name name =
    if has_suffix name ".json"
    then some ".json"
    else if has_suffix name ".indeterminate"
    then some ".indeterminate"
    else none

-- The name without the suffix that it has.
unfoldable pub trimmed : Text → Option String → Text
unfolding trim_suffix
trimmed name none = name
trimmed name (some suffix) = trim_suffix name suffix

-- mutationSpoolNameMutationID
unfoldable pub mutation_spool_name_mutation_id : Text → Text
unfolding trimmed mutation_audit_spool_suffix_for_name cut
mutation_spool_name_mutation_id name =
    elim (cut (trimmed name (mutation_audit_spool_suffix_for_name name)) b'-') [
      | none ↦ []
      | some (before, behind) ↦ behind
    ]

-- A parsed sequence that is not zero.
unfoldable pub nonzero : Option ℕ → Option ℕ
nonzero none = none
nonzero (some n) = if n == 0 then none else some n

-- mutationSpoolNameSequence
unfoldable pub mutation_spool_name_sequence : Text → Option ℕ
unfolding cut byte_length parse_uint nonzero
mutation_spool_name_sequence name = elim (cut name b'-') [
  | none ↦ none
  | some (before, behind) ↦ if byte_length before == 20 then nonzero (parse_uint before) else none
]

abbrev pub is_some {ℓ} : {A : Type ℓ} → Option A → Bool
is_some none = false
is_some (some _) = true

module _ ⦃std : Std⦄ where
  -- The tests of the two parts of a name.
  unfoldable pub valid_parts : List Text → Bool
  unfolding byte_length parse_uint nonzero equal to_lower decode_string
  valid_parts (sequence ∷ id ∷ []) =
      byte_length sequence == 20
      && byte_length id == 32
      && is_some (nonzero (parse_uint sequence))
      && equal id (to_lower id)
      && is_some (decode_string id)
  valid_parts _ = false

  unfoldable pub valid_mutation_spool_name : Text → Bool
  unfolding mutation_audit_spool_suffix_for_name trimmed split_on valid_parts
  valid_mutation_spool_name name = elim (mutation_audit_spool_suffix_for_name name) [
    | none ↦ false
    | some suffix ↦ valid_parts (split_on b'-' (trim_suffix name suffix))
  ]

  -- validateMutationSpoolFilename; `false` is its error.
  unfoldable pub validate_mutation_spool_filename : Text → Text → Bool
  unfolding valid_mutation_spool_name trimmed mutation_audit_spool_suffix_for_name has_suffix_text
  validate_mutation_spool_filename name id =
      valid_mutation_spool_name name
      && has_suffix_text (trimmed name (mutation_audit_spool_suffix_for_name name)) (b'-' ∷ id)
