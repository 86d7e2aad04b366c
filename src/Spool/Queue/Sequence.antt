-- ===== src/Spool/Queue/Sequence.antt =====
-- The sequence of the next file of the spool.
use srvgov_cli.Prelude.{
  ℕ, ◌+◌, ◌<◌, String, ◌≡◌, sym, ap, ◌∙◌, inl, inr, true, false, not, ◌||◌, Option, none, some,
  List, [], ◌∷◌, arith, ltb, ◌==◌, if◌then◌else◌, Bool-cases, Option-cases, All, All-map,
}
use srvgov_cli.GoText.{Text, is, cut, byte_length, Std}
use srvgov_cli.Spool.Names.{
  valid_mutation_spool_name, mutation_spool_name_sequence, nonzero, parse_uint, parse_loop,
  spool_name,
}
use srvgov_cli.Spool.Names.Order.{less, sequence-less}
use srvgov_cli.Spool.Names.RoundTrip.{IsMutationId, IsSuffix, spool_name-round_trip}
use srvgov_cli.Spool.Queue.{
  Result, failed, returned, SpoolFile, queue_entry, check_entry, read_sequence, next_loop,
  next_mutation_spool_sequence,
}

nonzero-inv : (o : Option ℕ) {m : ℕ} → nonzero o ≡ some m → o ≡ some m
unfolding nonzero
nonzero-inv none h = cc
nonzero-inv (some n) h = ground arith

-- The two readings of a name agree.
read_sequence-eq :
    (name : Text) {m : ℕ} → mutation_spool_name_sequence name ≡ some m → read_sequence name ≡ some m
unfolding mutation_spool_name_sequence read_sequence
read_sequence-eq name h = elim (Option-cases (cut name b'-')) [
  | inl e ↦ absurd (let k = rw (e, mutation_spool_name_sequence) at h in cc)
  | inr ((before, behind), e) ↦ elim (Bool-cases (byte_length before == 20)) [
    | inr wrong ↦ absurd (let k = rw (e, wrong, mutation_spool_name_sequence) at h in cc)
    | inl right ↦
        rw (e, read_sequence)
          (nonzero-inv (parse_uint before) (rw (e, right, mutation_spool_name_sequence) at h))
  ]
]

parse_uint-bound : (t : Text) {m : ℕ} → parse_uint t ≡ some m → m < 18446744073709551616
unfolding parse_uint
parse_uint-bound [] h = absurd (cc)
parse_uint-bound (x ∷ t) h = elim (Option-cases (parse_loop 0 (x ∷ t))) [
  | inl e ↦ absurd (let k = rw (e, parse_uint) at h in cc)
  | inr (n, e) ↦ let k = rw (e, parse_uint) at h in ground arith
]

read_sequence_bound : (name : Text) {m : ℕ} → read_sequence name ≡ some m → m < 18446744073709551616
unfolding read_sequence
read_sequence_bound name h = elim (Option-cases (cut name b'-')) [
  | inl e ↦ absurd (let k = rw (e, read_sequence) at h in cc)
  | inr ((before, behind), e) ↦ parse_uint-bound before (rw (e, read_sequence) at h)
]

some-inv : {a b : ℕ} → some a ≡ some b → a ≡ b
some-inv h = cc

number_of : Result ℕ → ℕ
number_of (failed e) = 0
number_of (returned n) = n

module _ ⦃std : Std⦄ where
  queue_entry-inv :
      (f : SpoolFile) {m : ℕ}
      → check_entry f ≡ queue_entry m
      → (is f.name "queue.lock" ≡ false)
        × ((f.is_dir || not (valid_mutation_spool_name f.name)) ≡ false)
        × (mutation_spool_name_sequence f.name ≡ some m)
  unfolding check_entry
  queue_entry-inv f {m} h = elim (Bool-cases (is f.name "queue.lock")) [
    | inl e ↦ absurd (let k = rw e at h in cc)
    | inr e ↦ elim (Bool-cases (f.is_dir || not (valid_mutation_spool_name f.name))) [
      | inl d ↦ absurd (let k = rw (e, d) at h in cc)
      | inr d ↦ elim (Option-cases (mutation_spool_name_sequence f.name)) [
        | inl n ↦ absurd (let k = rw (e, d, n, check_entry) at h in cc)
        | inr (n, s) ↦
            let k = rw (e, d, s, check_entry) at h in
            let same : n ≡ m = cc in (e, d, s ∙ ap some same)
      ]
    ]
  ]

  -- Below the sequence that a loop returns are the maximum that it starts from, and each file's sequence.
  abbrev IsBelow : ℕ → SpoolFile → Type 0
  IsBelow n f = (m : ℕ) → check_entry f ≡ queue_entry m → m < n

  next_loop-IsBelow :
      (maximum : ℕ) (fs : List SpoolFile) {n : ℕ}
      → maximum < 18446744073709551616
      → next_loop maximum fs ≡ returned n
      → (maximum < n) × (n < 18446744073709551616) × All (IsBelow n) fs
  unfolding next_loop number_of
  next_loop-IsBelow maximum [] {n} l h = elim (Bool-cases (maximum == 18446744073709551615)) [
    | inl e ↦ absurd (let k = rw e at h in cc)
    | inr e ↦
        let k = rw e at h in
        let value : maximum + 1 ≡ n = ap (λ o. number_of o) k in (omega arith, ground arith, tt)
  ]
  next_loop-IsBelow maximum (f ∷ fs) {n} l h = elim (Bool-cases (is f.name "queue.lock")) [
    | inl e ↦
        let (above, small, rest) =
          next_loop-IsBelow maximum fs {n = n} l (rw (e, next_loop) at h) in
        (above, small, ((λ m q. absurd (let i = (queue_entry-inv f q).0 in cc)), rest))
    | inr e ↦ elim (Bool-cases (f.is_dir || not (valid_mutation_spool_name f.name))) [
      | inl d ↦ absurd (let k = rw (e, d, next_loop) at h in cc)
      | inr d ↦ elim (Option-cases (read_sequence f.name)) [
        | inl s ↦ absurd (let k = rw (e, d, s, next_loop) at h in cc)
        | inr (m, s) ↦
            let k = rw (e, d, s, next_loop) at h in
            let bound = read_sequence_bound f.name s in
            let (above, small, rest) =
              next_loop-IsBelow (if ltb maximum m then m else maximum) fs {n = n} (ground arith)
                k in
            (
              ground arith,
              small,
              (
                (λ j q.
                    let same = read_sequence-eq f.name (queue_entry-inv f {m = j} q).2 in
                    let eq : m ≡ j = some-inv (sym s ∙ same) in ground arith),
                rest,
              ),
            )
      ]
    ]
  ]

  -- The sequence of the next file of the spool is a nonzero 64-bit number, and a file that is written with
  -- it, for a mutation id, has a valid name that is behind the names of all files of the spool.
  pub next_mutation_spool_sequence-less :
      (files : List SpoolFile) (id : Text) (s : String) {n : ℕ}
      → next_mutation_spool_sequence files ≡ returned n
      → IsMutationId id
      → IsSuffix s
      → (0 < n)
        × (n < 18446744073709551616)
        × (valid_mutation_spool_name (spool_name n id s) ≡ true)
        × All
            (λ f. (m : ℕ) → check_entry f ≡ queue_entry m → less f.name (spool_name n id s) ≡ true)
            files
  unfolding next_mutation_spool_sequence
  next_mutation_spool_sequence-less files id s {n} h v i =
      let (above, small, below) = next_loop-IsBelow 0 files {n = n} (omega arith) h in
      let named = spool_name-round_trip n id s above small v i in
      (
        above,
        small,
        named.0,
        All-map (IsBelow n) _
            (λ f b m q.
              sequence-less f.name (spool_name n id s) (queue_entry-inv f q).2 named.1 (b m q))
            files below,
      )
