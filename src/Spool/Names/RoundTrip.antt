-- ===== src/Spool/Names/RoundTrip.antt =====
-- What the names that the spool writes are read as.
use srvgov_cli.Prelude.{
  ◌/◌, ◌%◌, ℕ, zero, suc, ◌+◌, ◌-◌, ◌*◌, ◌≤◌, ◌<◌, String, ◌≡◌, refl, sym, ap, ◌∙◌, ◌⊎◌, inl, inr,
  true, false, Option, none, some, List, [], ◌∷◌, ◌++◌, append_assoc, arith, Bool-cases, length,
  length-append, All, All-append,
}
use srvgov_cli.GoText.{
  Text, codes, is, is_iff, equal, equal_iff, to_lower, byte_length, decode_string, hex_digit,
  hex_pair-some, has_suffix, cut, split_on, Std,
}
use srvgov_cli.Spool.Names.{
  parse_loop, parse_uint, nonzero, mutation_spool_name_sequence, padded, spool_name, trim_suffix,
  has_suffix_text, mutation_audit_spool_suffix_for_name, trimmed, mutation_spool_name_mutation_id,
  valid_parts, valid_mutation_spool_name, validate_mutation_spool_filename, is_some,
}
use srvgov_cli.Spool.Names.Order.{parse_loop_bytes, parse_loop_digit}

-- No dash and no dot: the unit of a digit.
abbrev IsPlain : ℕ → Type 0
IsPlain c = 48 ≤ c

abbrev ten_to : ℕ → ℕ
ten_to zero = 1
ten_to (suc n) = 10 * ten_to n

padded-IsPlain : (w n : ℕ) → All IsPlain (padded w n)
unfolding padded
padded-IsPlain zero n = tt
padded-IsPlain (suc w) n =
    All-append IsPlain (padded w (n / 10)) _ (padded-IsPlain w (n / 10)) (omega arith, tt)

length-padded : (w n : ℕ) → length (padded w n) ≡ w
unfolding padded
length-padded zero n = refl
length-padded (suc w) n =
    omega
      (arith, length-append (padded w (n / 10)) ((b'0' + n % 10) ∷ []), length-padded w (n / 10))

parse_loop-append :
    (acc : ℕ) (t : Text) (d : ℕ) {m : ℕ}
    → parse_loop acc t ≡ some m
    → d < 10
    → parse_loop acc (t ++ (b'0' + d) ∷ []) ≡ some (m * 10 + d)
unfolding parse_loop
parse_loop-append acc [] d h l = ground arith
parse_loop-append acc (x ∷ t) d {m} h l =
    let (lower, upper, rest) = parse_loop_digit acc x t h in
    let more : parse_loop (acc * 10 + (x - 48)) (t ++ (b'0' + d) ∷ []) ≡ some (m * 10 + d) =
      parse_loop-append (acc * 10 + (x - 48)) t d rest l in
    ground arith

parse_loop-padded : (w n : ℕ) → n < ten_to w → parse_loop 0 (padded w n) ≡ some n
unfolding padded
parse_loop-padded zero n l = unfold parse_loop in ground arith
parse_loop-padded (suc w) n l =
    parse_loop-append 0 (padded w (n / 10)) (n % 10) (parse_loop-padded w (n / 10) (omega arith))
      (omega arith)
    ∙ ap some (omega arith)

decode_string-IsPlain : (t : Text) {bytes : List ℕ} → decode_string t ≡ some bytes → All IsPlain t
unfolding decode_string hex_digit
decode_string-IsPlain [] h = tt
decode_string-IsPlain (x ∷ []) h = absurd cc
decode_string-IsPlain (x ∷ y ∷ t) h =
    let (a, b, bs, p, q, r, n) = hex_pair-some (hex_digit x) (hex_digit y) (decode_string t) h in
    (ground arith, (ground arith, decode_string-IsPlain t r))

split_on-plain : (t : Text) → All IsPlain t → split_on b'-' t ≡ t ∷ []
unfolding split_on
split_on-plain [] h = refl
split_on-plain (x ∷ t) h = ground (arith, split_on-plain t h.1)

split_on-append : (t u : Text) → All IsPlain t → split_on b'-' (t ++ b'-' ∷ u) ≡ t ∷ split_on b'-' u
unfolding split_on
split_on-append [] u h = refl
split_on-append (x ∷ t) u h = ground (arith, split_on-append t u h.1)

cut-append : (t u : Text) → All IsPlain t → cut (t ++ b'-' ∷ u) b'-' ≡ some (t, u)
unfolding cut
cut-append [] u h = refl
cut-append (x ∷ t) u h = ground (arith, cut-append t u h.1)

longer_is : (w : Text) (s : String) → length (codes s) < length w → is w s ≡ false
longer_is w s l = elim (Bool-cases (is w s)) [
  | inl e ↦ absurd (let same = ap length ((is_iff w s).0 e) in omega (arith, same, l))
  | inr e ↦ e
]

has_suffix-append :
    (w : Text) (s : String) → has_suffix (codes s) s ≡ true → has_suffix (w ++ codes s) s ≡ true
unfolding has_suffix
has_suffix-append [] s h = h
has_suffix-append (x ∷ w) s h = ground (arith, has_suffix-append w s h)

-- A text that ends in one suffix does not end in a shorter one that the longer one does not end in.
has_suffix_other :
    (w : Text) (s p : String)
    → length (codes p) < length (codes s)
    → has_suffix (codes s) p ≡ false
    → has_suffix (w ++ codes s) p ≡ false
unfolding has_suffix
has_suffix_other [] s p l h = h
has_suffix_other (x ∷ w) s p l h =
    let long = longer_is (x ∷ (w ++ codes s)) p (omega (arith, length-append w (codes s), l)) in
    rw long (has_suffix_other w s p l h)

trim_suffix-append :
    (w : Text) (s : String) → trim_suffix (codes s) s ≡ [] → trim_suffix (w ++ codes s) s ≡ w
unfolding trim_suffix
trim_suffix-append [] s h = h
trim_suffix-append (x ∷ w) s h =
    let long = longer_is (x ∷ (w ++ codes s)) s (omega (arith, length-append w (codes s))) in
    rw (long, trim_suffix-append w s h) refl

has_suffix_text-append : (w p : Text) → has_suffix_text (w ++ p) p ≡ true
unfolding has_suffix_text
has_suffix_text-append [] [] = (equal_iff [] []).1 refl
has_suffix_text-append [] (x ∷ p) = rw ((equal_iff (x ∷ p) (x ∷ p)).1 refl) refl
has_suffix_text-append (x ∷ w) p = ground (arith, has_suffix_text-append w p)

abbrev pub IsSuffix : String → Type 0
IsSuffix s = (s ≡ ".json") ⊎ (s ≡ ".indeterminate")

suffix_of_name :
    (w : Text) (s : String)
    → IsSuffix s
    → (mutation_audit_spool_suffix_for_name (w ++ codes s) ≡ some s)
      × (trim_suffix (w ++ codes s) s ≡ w)
unfolding mutation_audit_spool_suffix_for_name
suffix_of_name w s (inl e) = rw e (
  rw (has_suffix-append w ".json" (unfold has_suffix in refl)) refl,
  trim_suffix-append w ".json" (unfold trim_suffix in refl),
)
suffix_of_name w s (inr e) = rw e (
  rw
      (
        has_suffix_other w ".indeterminate" ".json" (omega arith) (unfold has_suffix in refl),
        has_suffix-append w ".indeterminate" (unfold has_suffix in refl),
      )
      refl,
  trim_suffix-append w ".indeterminate" (unfold trim_suffix in refl),
)

abbrev pub IsMutationId : ⦃std : Std⦄ → Text → Type 0
IsMutationId id =
    (byte_length id ≡ 32) × (equal id (to_lower id) ≡ true) × (is_some (decode_string id) ≡ true)

is_some-inv : (o : Option (List ℕ)) → is_some o ≡ true → (a : List ℕ) × (o ≡ some a)
is_some-inv none h = cc
is_some-inv (some a) h = (a, refl)

parse_uint_loop :
    (t : Text) {n : ℕ}
    → length t ≡ 20
    → parse_loop 0 t ≡ some n
    → n < 18446744073709551616
    → 0 < n
    → nonzero (parse_uint t) ≡ some n
unfolding nonzero parse_uint
parse_uint_loop [] w h u l = absurd (omega (arith, w))
parse_uint_loop (x ∷ t) w h u l = ground arith

parse_uint-padded :
    (n : ℕ) → 0 < n → n < 18446744073709551616 → nonzero (parse_uint (padded 20 n)) ≡ some n
unfolding nonzero
parse_uint-padded n l u =
    parse_uint_loop (padded 20 n) (length-padded 20 n) (parse_loop-padded 20 n (omega (arith, u))) u
      l

padded-bytes : (n : ℕ) → n < 18446744073709551616 → byte_length (padded 20 n) ≡ 20
padded-bytes n u =
    parse_loop_bytes 0 (padded 20 n) (parse_loop-padded 20 n (omega (arith, u)))
    ∙ length-padded 20 n

spool_name-parts :
    (n : ℕ) (id : Text) (s : String) → spool_name n id s ≡ (padded 20 n ++ b'-' ∷ id) ++ codes s
unfolding spool_name
spool_name-parts n id s = sym (append_assoc (padded 20 n) (b'-' ∷ id) (codes s))

module _ ⦃std : Std⦄ where
  -- The parts of a name, read back one by one.
  parts-valid :
      (digits id : Text) (s : String) {n : ℕ}
      → All IsPlain digits
      → byte_length digits ≡ 20
      → nonzero (parse_uint digits) ≡ some n
      → IsMutationId id
      → IsSuffix s
      → valid_mutation_spool_name ((digits ++ b'-' ∷ id) ++ codes s) ≡ true
  unfolding valid_mutation_spool_name valid_parts
  parts-valid digits id s p w h v i =
      let (suffix, stem) = suffix_of_name (digits ++ b'-' ∷ id) s i in
      let (bytes, d) = is_some-inv (decode_string id) v.2 in
      let parts : split_on b'-' (digits ++ b'-' ∷ id) ≡ digits ∷ id ∷ [] =
        split_on-append digits id p
        ∙ ap (λ t. digits ∷ t) (split_on-plain id (decode_string-IsPlain id d)) in
      rw (suffix, stem, parts, w, v.0, h, v.1, v.2, valid_mutation_spool_name) refl

  parts-sequence :
      (digits rest : Text) {n : ℕ}
      → All IsPlain digits
      → byte_length digits ≡ 20
      → nonzero (parse_uint digits) ≡ some n
      → mutation_spool_name_sequence (digits ++ b'-' ∷ rest) ≡ some n
  unfolding mutation_spool_name_sequence
  parts-sequence digits rest p w h =
      rw (cut-append digits rest p, w, mutation_spool_name_sequence) h

  parts_mutation_id :
      (digits id : Text) (s : String)
      → All IsPlain digits
      → IsSuffix s
      → mutation_spool_name_mutation_id ((digits ++ b'-' ∷ id) ++ codes s) ≡ id
  unfolding mutation_spool_name_mutation_id trimmed
  parts_mutation_id digits id s p i =
      let (suffix, stem) = suffix_of_name (digits ++ b'-' ∷ id) s i in
      rw (suffix, stem, cut-append digits id p, mutation_spool_name_mutation_id) refl

  parts_filename :
      (digits id : Text) (s : String)
      → IsSuffix s
      → valid_mutation_spool_name ((digits ++ b'-' ∷ id) ++ codes s) ≡ true
      → validate_mutation_spool_filename ((digits ++ b'-' ∷ id) ++ codes s) id ≡ true
  unfolding validate_mutation_spool_filename trimmed
  parts_filename digits id s i valid =
      let (suffix, stem) = suffix_of_name (digits ++ b'-' ∷ id) s i in
      rw (valid, suffix, stem) (has_suffix_text-append digits (b'-' ∷ id))

  -- A name that is written for a nonzero 64-bit sequence and a mutation id passes the spool's test of
  -- names, and is read as that sequence, that id and that suffix; it is a name for a record of that id.
  pub spool_name-round_trip :
      (n : ℕ) (id : Text) (s : String)
      → 0 < n
      → n < 18446744073709551616
      → IsMutationId id
      → IsSuffix s
      → (valid_mutation_spool_name (spool_name n id s) ≡ true)
        × (mutation_spool_name_sequence (spool_name n id s) ≡ some n)
        × (mutation_spool_name_mutation_id (spool_name n id s) ≡ id)
        × (mutation_audit_spool_suffix_for_name (spool_name n id s) ≡ some s)
        × (validate_mutation_spool_filename (spool_name n id s) id ≡ true)
  spool_name-round_trip n id s l u v i =
      let plain = padded-IsPlain 20 n in
      let width = padded-bytes n u in
      let value = parse_uint-padded n l u in
      let valid = parts-valid (padded 20 n) id s plain width value v i in
      rw (spool_name-parts n id s) (
        valid,
        rw (append_assoc (padded 20 n) (b'-' ∷ id) (codes s))
            (parts-sequence (padded 20 n) (id ++ codes s) plain width value),
        parts_mutation_id (padded 20 n) id s plain i,
        (suffix_of_name (padded 20 n ++ b'-' ∷ id) s i).0,
        parts_filename (padded 20 n) id s i valid,
      )
