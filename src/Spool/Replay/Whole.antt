-- ===== src/Spool/Replay/Whole.antt =====
-- What a whole replay does: the scan of the directory, its order, and the loop over its files.
use srvgov_cli.Prelude.{
  ℕ, ◌≡◌, refl, sym, ap, ◌⊎◌, inl, inr, true, not, ◌||◌, List, [], ◌∷◌, ◌++◌, map, append_assoc,
  Bool-cases, Option-cases, All, All-append, All-map,
}
use mathlib.Core.List.{Mem, mem-cons_self, mem-append_right, mem-append_left}
use srvgov_cli.GoText.{Text, is, mem_unit, Std}
use srvgov_cli.Audit.Fingerprints.{Digest}
use srvgov_cli.Spool.Records.{MutationAuditRecord}
use srvgov_cli.Spool.Names.{valid_mutation_spool_name, mutation_spool_name_sequence}
use srvgov_cli.Spool.Queue.{
  AuditError, Result, failed, returned, LogItem, SpoolFile, SpoolWorld, Queue,
  read_mutation_spool_record, insert_file, sort_files, Entry, lock_entry, bad_entry, queue_entry,
  check_entry,
}
use srvgov_cli.Spool.Names.Order.{less}
use srvgov_cli.Spool.Replay.{
  Scan, Replayed, found_before, lock_files, scan_spool, replay_files,
  replay_mutation_audit_spool_locked,
}
use srvgov_cli.Spool.Replay.Kept.{IsKept, All-IsKept, IsReplay, replay_files-IsReplay}
use srvgov_cli.Spool.Queue.Appends.{line_of, Result-cases}

IsKept-append_right :
    (files : List SpoolFile) {more : List SpoolFile} {f : SpoolFile}
    → IsKept more f
    → IsKept (files ++ more) f
IsKept-append_right files (inl m) = inl (mem-append_right files m)
IsKept-append_right files (inr m) = inr (mem-append_right files m)

IsKept-append_left :
    (files more : List SpoolFile) {f : SpoolFile} → IsKept files f → IsKept (files ++ more) f
IsKept-append_left files more (inl m) = inl (mem-append_left more m)
IsKept-append_left files more (inr m) = inr (mem-append_left more m)

-- A predicate on every file does not depend on the files' order.
All-insert_file :
    (P : SpoolFile → Type 0) (f : SpoolFile) (fs : List SpoolFile)
    → All P (insert_file f fs)
    → P f × All P fs
unfolding insert_file
All-insert_file P f [] h = h
All-insert_file P f (g ∷ gs) h = elim (Bool-cases (less g.name f.name)) [
  | inl e ↦
      let k = rw e at h in let (here, rest) = All-insert_file P f gs k.1 in (here, (k.0, rest))
  | inr e ↦ rw e at h
]

pub All-sort_files :
    (P : SpoolFile → Type 0) (fs : List SpoolFile) → All P (sort_files fs) → All P fs
unfolding sort_files
All-sort_files P [] h = tt
All-sort_files P (f ∷ fs) h =
    let (here, rest) = All-insert_file P f (sort_files fs) h in (here, All-sort_files P fs rest)

pub Scan-cases : (s : Scan) → (s.blocked ≡ []) ⊎ ((c : ℕ) × (id : Text) × (s.blocked ≡ c ∷ id))
Scan-cases s = elim s.blocked as (λ b. (b ≡ []) ⊎ ((c : ℕ) × (id : Text) × (b ≡ c ∷ id))) [
  | [] ↦ inl refl
  | c ∷ id ↦ inr (c, id, refl)
]

pub Entry-cases :
    (e : Entry)
    → (e ≡ lock_entry) ⊎ ((x : AuditError) × (e ≡ bad_entry x)) ⊎ ((n : ℕ) × (e ≡ queue_entry n))
Entry-cases lock_entry = inl refl
Entry-cases (bad_entry x) = inr (inl (x, refl))
Entry-cases (queue_entry n) = inr (inr (n, refl))

found_of : Result Scan → List SpoolFile
found_of (failed e) = []
found_of (returned s) = s.found

unfoldable pub blocked_of : Result Scan → Text
blocked_of (failed e) = []
blocked_of (returned s) = s.blocked

pub found_before-inv :
    (f : SpoolFile) (o : Result Scan) {s : Scan}
    → found_before f o ≡ returned s
    → (t : Scan) × (o ≡ returned t) × (s.found ≡ f ∷ t.found) × (s.blocked ≡ t.blocked)
unfolding found_before found_of blocked_of
found_before-inv f (failed e) h = absurd (cc)
found_before-inv f (returned t) {s} h = (t, refl, sym (ap found_of h), sym (ap blocked_of h))

module _ ⦃std : Std⦄ where
  lock_entry-inv : (f : SpoolFile) → check_entry f ≡ lock_entry → is f.name "queue.lock" ≡ true
  unfolding check_entry
  lock_entry-inv f h = elim (Bool-cases (is f.name "queue.lock")) [
    | inl e ↦ e
    | inr e ↦ elim (Bool-cases (f.is_dir || not (valid_mutation_spool_name f.name))) [
      | inl d ↦ absurd (let k = rw (e, d) at h in cc)
      | inr d ↦ elim (Option-cases (mutation_spool_name_sequence f.name)) [
        | inl n ↦ absurd (let k = rw (e, d, n, check_entry) at h in cc)
        | inr (n, m) ↦ absurd (let k = rw (e, d, m, check_entry) at h in cc)
      ]
    ]
  ]

  All-lock_files :
      (P : SpoolFile → Type 0) (f : SpoolFile) (fs : List SpoolFile)
      → All P (lock_files (f ∷ fs))
      → All P (lock_files fs)
  unfolding lock_files
  All-lock_files P f fs h = elim (Bool-cases (is f.name "queue.lock")) [
    | inl e ↦ (rw e at h).1
    | inr e ↦ rw e at h
  ]

  -- What holds of the files that a scan finds, and of the lock, holds of the directory.
  All-scan_spool :
      (P : SpoolFile → Type 0) (fs : List SpoolFile) (seen : List ℕ) (blocked : Text) {s : Scan}
      → scan_spool fs seen blocked ≡ returned s
      → All P s.found
      → All P (lock_files fs)
      → All P fs
  unfolding scan_spool lock_files
  All-scan_spool P [] seen blocked h found locks = tt
  All-scan_spool P (f ∷ fs) seen blocked {s} h found locks = elim (Entry-cases (check_entry f)) [
    | inl e ↦
        let k = rw (e, scan_spool) at h in
        let l = rw (lock_entry-inv f e) at locks in
        (l.0, All-scan_spool P fs seen blocked k found l.1)
    | inr (inl (x, e)) ↦ absurd (let k = rw (e, scan_spool) at h in cc)
    | inr (inr (n, e)) ↦ elim (Bool-cases (mem_unit seen n)) [
      | inl m ↦ absurd (let k = rw (e, m, scan_spool) at h in cc)
      | inr m ↦
          let (t, k, grown, same) = found_before-inv f _ (rw (e, m, scan_spool) at h) in
          let both = rw grown at found in
          let rest : All P (lock_files fs) = All-lock_files P f fs locks in
          (both.0, All-scan_spool P fs (n ∷ seen) _ k both.1 rest)
    ]
  ]

  module _ ⦃digest : Digest⦄ where
    -- A file is in the directory, or the record that it is read as is a line of the log.
    abbrev pub IsAccounted : Queue → SpoolFile → Type 0
    IsAccounted q f =
        IsKept q.files f
        ⊎ ((r : MutationAuditRecord) × (read_mutation_spool_record f ≡ returned r)
            × Mem (line_of r) q.log)

    handed_over :
        (log : List LogItem) (done : List SpoolFile) (rs : List MutationAuditRecord)
        → map read_mutation_spool_record done ≡ map returned rs
        → All
            (λ f.
              (r : MutationAuditRecord) × (read_mutation_spool_record f ≡ returned r)
              × Mem (line_of r) (log ++ map line_of rs))
            done
    handed_over log [] rs h = tt
    handed_over log (f ∷ done) [] h = absurd (cc)
    handed_over log (f ∷ done) (r ∷ rs) h =
        let more = handed_over (log ++ line_of r ∷ []) done rs cc in
        (
          (r, (cc), mem-append_right log mem-cons_self),
          rw (append_assoc log (line_of r ∷ []) (map line_of rs)) at more,
        )

    accounted :
        (log : List LogItem) (fs locks : List SpoolFile) (end : Replayed)
        → IsReplay log fs end
        → All (IsAccounted (record { log = end.log; files = end.files ++ locks })) fs
    accounted log fs locks end (done, rest, rs, split, reads, grown, k, n) =
        let P = IsAccounted (record { log = end.log; files = end.files ++ locks }) in
        let logged = handed_over log done rs reads in
        rw split (
          All-append P done rest (All-map _ P (λ f h. inr (h.0, h.1, rw grown h.2)) done logged) (
            All-map (IsKept end.files) P (λ f m. inl (IsKept-append_left end.files locks m)) rest
              k))

    unchanged : (q : Queue) → All (IsAccounted q) q.files
    unchanged q =
        All-map (IsKept q.files) (IsAccounted q) (λ f k. inl k) q.files (All-IsKept q.files)

    locks_kept :
        (log : List LogItem) (files locks : List SpoolFile)
        → All (IsAccounted (record { log = log; files = files ++ locks })) locks
    locks_kept log files locks =
        All-map (IsKept locks) (IsAccounted (record { log = log; files = files ++ locks }))
          (λ f k. inl (IsKept-append_right files k)) locks (All-IsKept locks)

    -- A replay loses no outcome, whatever the disk and the log answer: each file of the directory is still
    -- there, at most under its name in the quarantine, or the record that it is read as is in the log.
    pub replay_mutation_audit_spool_locked-IsAccounted :
        (w : SpoolWorld) (q : Queue)
        → All (IsAccounted (replay_mutation_audit_spool_locked w q).0) q.files
    unfolding replay_mutation_audit_spool_locked
    replay_mutation_audit_spool_locked-IsAccounted w q =
        elim (Result-cases (scan_spool q.files [] [])) [
          | inl (x, e) ↦ rw (e, replay_mutation_audit_spool_locked) (unchanged q)
          | inr (s, e) ↦ elim (Scan-cases s) [
            | inr (c, id, b) ↦ rw (e, b, replay_mutation_audit_spool_locked) (unchanged q)
            | inl b ↦
                let fs = sort_files s.found in
                let locks = lock_files q.files in
                let end = replay_files w q.log fs in
                let found = accounted q.log fs locks end (replay_files-IsReplay w q.log fs) in
                let P = IsAccounted (record { log = end.log; files = end.files ++ locks }) in
                rw (e, b, replay_mutation_audit_spool_locked)
                  (All-scan_spool P q.files [] [] e (All-sort_files P s.found found)
                    (locks_kept end.log end.files locks))
          ]
        ]
