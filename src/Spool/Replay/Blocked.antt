-- ===== src/Spool/Replay/Blocked.antt =====
-- An indeterminate file of the spool, and what a replay does where there is one.
use srvgov_cli.Prelude.{
  ℕ, ◌≡◌, refl, sym, ap, ◌∙◌, ◌≢◌, ◌⊎◌, inl, inr, true, not, ◌||◌, some, List, [], ◌∷◌, ◌++◌, arith,
  ◌==◌, ==_iff, Bool-cases, Option-cases,
}
use srvgov_cli.GoText.{Text, codes, is, mem_unit, has_suffix, cut, split_on, byte_length, Std}
use srvgov_cli.Audit.Fingerprints.{Digest}
use srvgov_cli.Spool.Names.{
  mutation_spool_name_mutation_id, valid_mutation_spool_name, valid_parts,
  mutation_audit_spool_suffix_for_name, trimmed, trim_suffix,
}
use srvgov_cli.Spool.Queue.{
  AuditError, audit_indeterminate, returned, SpoolFile, SpoolWorld, Queue, queue_entry, check_entry,
}
use srvgov_cli.Spool.Replay.{Scan, scan_spool, replay_mutation_audit_spool_locked}
use srvgov_cli.Spool.Queue.Appends.{Result-cases}
use srvgov_cli.Spool.Replay.Whole.{Scan-cases, Entry-cases, found_before-inv, blocked_of}

List-cases : {A : Type 0} (l : List A) → (l ≡ []) ⊎ ((x : A) × (xs : List A) × (l ≡ x ∷ xs))
List-cases [] = inl refl
List-cases (x ∷ xs) = inr (x, xs, refl)

split_on-ne-nil : (c : ℕ) (s : Text) → split_on c s ≢ []
unfolding split_on
split_on-ne-nil c [] e = cc
split_on-ne-nil c (x ∷ s) e = elim (Bool-cases (x == c)) [
  | inl b ↦ let k = rw b at e in cc
  | inr b ↦ elim (List-cases (split_on c s)) [
    | inl n ↦ let k = rw (b, n) at e in cc
    | inr (p, ps, n) ↦ let k = rw (b, n) at e in cc
  ]
]

split_on-single : (c : ℕ) (s : Text) {b : Text} → split_on c s ≡ b ∷ [] → s ≡ b
unfolding split_on
split_on-single c [] e = cc
split_on-single c (x ∷ s) {b} e = elim (Bool-cases (x == c)) [
  | inl h ↦ let k = rw h at e in absurd (split_on-ne-nil c s (cc))
  | inr h ↦ elim (List-cases (split_on c s)) [
    | inl n ↦ absurd (split_on-ne-nil c s n)
    | inr (p, ps, n) ↦
        let k = rw (h, n, split_on) at e in
        let none_left : ps ≡ [] = cc in
        let same = split_on-single c s (n ∙ ap (λ t. p ∷ t) none_left) in cc
  ]
]

split_on-cut : (c : ℕ) (s : Text) {a b : Text} → split_on c s ≡ a ∷ b ∷ [] → cut s c ≡ some (a, b)
unfolding split_on cut
split_on-cut c [] e = absurd (cc)
split_on-cut c (x ∷ s) {a} {b} e = elim (Bool-cases (x == c)) [
  | inl h ↦
      let k = rw h at e in
      let same = split_on-single c s {b = b} (cc) in
      let first : a ≡ [] = cc in rw (h, same, first) refl
  | inr h ↦ elim (List-cases (split_on c s)) [
    | inl n ↦ absurd (split_on-ne-nil c s n)
    | inr (p, ps, n) ↦
        let k = rw (h, n, split_on) at e in
        let left : ps ≡ b ∷ [] = cc in
        let more = split_on-cut c s {a = p} {b = b} (n ∙ ap (λ t. p ∷ t) left) in
        let first : a ≡ x ∷ p = cc in rw (h, more, first, cut) refl
  ]
]

module _ ⦃std : Std⦄ where
  valid_parts-inv :
      (parts : List Text)
      → valid_parts parts ≡ true
      → (a b : Text) × (parts ≡ a ∷ b ∷ []) × (byte_length b ≡ 32)
  unfolding valid_parts
  valid_parts-inv (a ∷ b ∷ []) h = (a, b, refl, (==_iff (byte_length b) 32).0 (ground arith))
  valid_parts-inv [] h = absurd (cc)
  valid_parts-inv (a ∷ []) h = absurd (cc)
  valid_parts-inv (a ∷ b ∷ c ∷ more) h = absurd (cc)

  -- A valid name has an id.
  valid_name-id :
      (name : Text)
      → valid_mutation_spool_name name ≡ true
      → mutation_spool_name_mutation_id name ≢ []
  unfolding valid_mutation_spool_name mutation_spool_name_mutation_id trimmed
  valid_name-id name h e = elim (Option-cases (mutation_audit_spool_suffix_for_name name)) [
    | inl n ↦ let k = rw (n, valid_mutation_spool_name) at h in cc
    | inr (s, n) ↦
        let (a, b, parts, bytes) =
          valid_parts-inv (split_on b'-' (trim_suffix name s))
            (rw (n, valid_mutation_spool_name) at h) in
        let k = rw (n, split_on-cut b'-' _ parts, mutation_spool_name_mutation_id) at e in
        let zero_bytes : byte_length b ≡ 0 = rw k (unfold byte_length in refl) in
        omega (arith, bytes, zero_bytes)
  ]

  queue_entry-valid :
      (f : SpoolFile) {n : ℕ}
      → check_entry f ≡ queue_entry n
      → valid_mutation_spool_name f.name ≡ true
  unfolding check_entry
  queue_entry-valid f h = elim (Bool-cases (is f.name "queue.lock")) [
    | inl e ↦ absurd (let k = rw e at h in cc)
    | inr e ↦ elim (Bool-cases (f.is_dir || not (valid_mutation_spool_name f.name))) [
      | inl d ↦ absurd (let k = rw (e, d) at h in cc)
      | inr d ↦ ground arith
    ]
  ]

  scan_stays_blocked :
      (fs : List SpoolFile) (seen : List ℕ) (c : ℕ) (id : Text) {s : Scan}
      → scan_spool fs seen (c ∷ id) ≡ returned s
      → s.blocked ≢ []
  unfolding scan_spool blocked_of
  scan_stays_blocked [] seen c id h e = let k = ap blocked_of h in cc
  scan_stays_blocked (f ∷ fs) seen c id {s} h z = elim (Entry-cases (check_entry f)) [
    | inl e ↦ scan_stays_blocked fs seen c id (rw (e, scan_spool) at h) z
    | inr (inl (x, e)) ↦ let k = rw (e, scan_spool) at h in cc
    | inr (inr (n, e)) ↦ elim (Bool-cases (mem_unit seen n)) [
      | inl m ↦ let k = rw (e, m, scan_spool) at h in cc
      | inr m ↦
          let (t, k, grown, same) = found_before-inv f _ (rw (e, m, scan_spool) at h) in
          elim (Bool-cases (has_suffix f.name ".indeterminate")) [
            | inr i ↦ scan_stays_blocked fs (n ∷ seen) c id {s = t} (rw i at k) (sym same ∙ z)
            | inl i ↦ elim (List-cases (mutation_spool_name_mutation_id f.name)) [
              | inl empty ↦ valid_name-id f.name (queue_entry-valid f e) empty
              | inr (d, id', full) ↦
                  scan_stays_blocked fs (n ∷ seen) d id' {s = t} (rw (i, full) at k) (sym same ∙ z)
            ]
          ]
    ]
  ]

  scan-blocked :
      (before : List SpoolFile) (f : SpoolFile) (behind : List SpoolFile) (seen : List ℕ)
      (blocked : Text) {n : ℕ} {s : Scan}
      → check_entry f ≡ queue_entry n
      → has_suffix f.name ".indeterminate" ≡ true
      → scan_spool (before ++ f ∷ behind) seen blocked ≡ returned s
      → s.blocked ≢ []
  unfolding scan_spool blocked_of
  scan-blocked [] f behind seen blocked {n} e i h z = elim (Bool-cases (mem_unit seen n)) [
    | inl m ↦ let k = rw (e, m, scan_spool) at h in cc
    | inr m ↦
        let (t, k, grown, same) = found_before-inv f _ (rw (e, m, scan_spool) at h) in
        elim (List-cases (mutation_spool_name_mutation_id f.name)) [
          | inl empty ↦ valid_name-id f.name (queue_entry-valid f e) empty
          | inr (d, id', full) ↦
              scan_stays_blocked behind (n ∷ seen) d id' {s = t} (rw (i, full) at k) (sym same ∙ z)
        ]
  ]
  scan-blocked (g ∷ before) f behind seen blocked e i h z = elim (Entry-cases (check_entry g)) [
    | inl l ↦ scan-blocked before f behind seen blocked e i (rw (l, scan_spool) at h) z
    | inr (inl (x, l)) ↦ let k = rw (l, scan_spool) at h in cc
    | inr (inr (m, l)) ↦ elim (Bool-cases (mem_unit seen m)) [
      | inl d ↦ let k = rw (l, d, scan_spool) at h in cc
      | inr d ↦
          let (t, k, grown, same) = found_before-inv g _ (rw (l, d, scan_spool) at h) in
          scan-blocked before f behind (m ∷ seen) _ {s = t} e i k (sym same ∙ z)
    ]
  ]

  module _ ⦃digest : Digest⦄ where
    -- Where the directory has an indeterminate file, a replay fails, and changes neither the directory nor
    -- the log.
    pub replay_mutation_audit_spool_locked-blocked :
        (w : SpoolWorld) (q : Queue) (before : List SpoolFile) (f : SpoolFile)
        (behind : List SpoolFile) {n : ℕ}
        → q.files ≡ before ++ f ∷ behind
        → check_entry f ≡ queue_entry n
        → has_suffix f.name ".indeterminate" ≡ true
        → (e : AuditError) × (replay_mutation_audit_spool_locked w q ≡ (q, some e))
    unfolding replay_mutation_audit_spool_locked
    replay_mutation_audit_spool_locked-blocked w q before f behind split e i =
        elim (Result-cases (scan_spool q.files [] [])) [
          | inl (x, s) ↦ (x, rw (s, replay_mutation_audit_spool_locked) refl)
          | inr (t, s) ↦ elim (Scan-cases t) [
            | inl b ↦ absurd (scan-blocked before f behind [] [] {s = t} e i (rw split at s) b)
            | inr (c, id, b) ↦ (
              audit_indeterminate (c ∷ id) (codes "outcome"),
              rw (s, b, replay_mutation_audit_spool_locked) refl,
            )
          ]
        ]
