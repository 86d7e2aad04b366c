-- ===== src/Spool/Replay/Kept.antt =====
-- What a replay of the spool does to its files and to the log, whatever the disk and the log answer.
use srvgov_cli.Prelude.{
  ◌≡◌, refl, sym, ap, ◌∙◌, ◌⊎◌, inl, inr, none, some, List, [], ◌∷◌, ◌++◌, map, append-nil,
  append_assoc, Bool-cases, Option-cases, All, All-map,
}
use mathlib.Core.List.{Mem, mem-cons_self, mem-cons_of_mem}
use srvgov_cli.GoText.{Text, codes, Std, has_suffix}
use srvgov_cli.Audit.Fingerprints.{Digest}
use srvgov_cli.Spool.Records.{MutationAuditRecord}
use srvgov_cli.Spool.Queue.{
  AuditError, audit_indeterminate, returned, LogItem, SpoolFile, SpoolWorld,
  append_mutation_audit_record, read_mutation_spool_record,
}
use srvgov_cli.Spool.Replay.{
  Replayed, quarantined, removed, quarantine_after, quarantine_indeterminate_mutation_spool,
  replay_files,
}
use srvgov_cli.Spool.Queue.Appends.{line_of, append_cases, CommitState-cases, Result-cases}

-- A file is in the directory, under its own name or under that of the quarantine.
abbrev pub IsKept : List SpoolFile → SpoolFile → Type 0
IsKept files f = Mem f files ⊎ Mem (quarantined f) files

pub IsKept-cons :
    (g : SpoolFile) (files : List SpoolFile) (f : SpoolFile) → IsKept files f → IsKept (g ∷ files) f
IsKept-cons g files f (inl m) = inl (mem-cons_of_mem g m)
IsKept-cons g files f (inr m) = inr (mem-cons_of_mem g m)

pub All-IsKept : (files : List SpoolFile) → All (IsKept files) files
All-IsKept [] = tt
All-IsKept (f ∷ fs) =
    (inl mem-cons_self, All-map (IsKept fs) (IsKept (f ∷ fs)) (IsKept-cons f fs) fs (All-IsKept fs))

others-IsKept : (g : SpoolFile) (fs : List SpoolFile) → All (IsKept (g ∷ fs)) fs
others-IsKept g fs = All-map (IsKept fs) (IsKept (g ∷ fs)) (IsKept-cons g fs) fs (All-IsKept fs)

module _ ⦃std : Std⦄ ⦃digest : Digest⦄ where
  -- The log has grown by the records of the first files, in their order; the other files are kept, and
  -- there are none where there is no error.
  abbrev pub IsReplay : List LogItem → List SpoolFile → Replayed → Type 0
  IsReplay log fs end =
      (done rest : List SpoolFile) × (rs : List MutationAuditRecord) × (fs ≡ done ++ rest)
      × (map read_mutation_spool_record done ≡ map returned rs)
      × (end.log ≡ log ++ map line_of rs)
      × All (IsKept end.files) rest
      × (end.error ≡ none → (rest ≡ []) × (end.files ≡ []))

  IsReplay-stops :
      (log : List LogItem) (fs files : List SpoolFile) (e : AuditError)
      → All (IsKept files) fs
      → IsReplay log fs (record { log = log; files = files; error = some e })
  IsReplay-stops log fs files e k =
      ([], fs, [], refl, refl, sym (append-nil log), k, λ n. absurd cc)

  IsReplay-stops_after :
      (log : List LogItem) (f : SpoolFile) (fs files : List SpoolFile) (r : MutationAuditRecord)
      (e : AuditError)
      → read_mutation_spool_record f ≡ returned r
      → All (IsKept files) fs
      → IsReplay log
          (f ∷ fs)
          (record { log = log ++ line_of r ∷ []; files = files; error = some e })
  IsReplay-stops_after log f fs files r e h k =
      (f ∷ [], fs, r ∷ [], refl, rw h refl, refl, k, λ n. absurd cc)

  IsReplay-goes_on :
      (log : List LogItem) (f : SpoolFile) (fs : List SpoolFile) (r : MutationAuditRecord)
      (end : Replayed)
      → read_mutation_spool_record f ≡ returned r
      → IsReplay (log ++ line_of r ∷ []) fs end
      → IsReplay log (f ∷ fs) end
  IsReplay-goes_on log f fs r end h (done, rest, rs, split, reads, grown, k, n) = (
    f ∷ done,
    rest,
    r ∷ rs,
    ap (λ t. f ∷ t) split,
    rw (h, reads) refl,
    grown ∙ append_assoc log (line_of r ∷ []) (map line_of rs),
    k,
    n,
  )

  removed-IsReplay :
      (w : SpoolWorld) (log : List LogItem) (f : SpoolFile) (fs : List SpoolFile)
      (r : MutationAuditRecord)
      → read_mutation_spool_record f ≡ returned r
      → IsReplay (log ++ line_of r ∷ []) fs (replay_files w (log ++ line_of r ∷ []) fs)
      → IsReplay log (f ∷ fs) (removed w (log ++ line_of r ∷ []) f fs (λ l. replay_files w l fs))
  unfolding removed
  removed-IsReplay w log f fs r h rest = elim (Bool-cases (w.removes f.name)) [
    | inr e ↦ rw e (IsReplay-stops_after log f fs (f ∷ fs) r _ h (others-IsKept f fs))
    | inl e ↦ elim (Bool-cases (w.syncs f.name)) [
      | inr s ↦ rw (e, s) (IsReplay-stops_after log f fs fs r _ h (All-IsKept fs))
      | inl s ↦ rw (e, s) (IsReplay-goes_on log f fs r _ h rest)
    ]
  ]

  -- The head of a quarantine's directory keeps the file.
  quarantined-IsKept :
      (w : SpoolWorld) (f : SpoolFile) (fs : List SpoolFile)
      → IsKept ((quarantine_indeterminate_mutation_spool w f).0 ∷ fs) f
  unfolding quarantine_indeterminate_mutation_spool
  quarantined-IsKept w f fs = elim (Bool-cases (has_suffix f.name ".json")) [
    | inr e ↦ rw e (inl mem-cons_self)
    | inl e ↦ elim (Bool-cases (w.renames f.name)) [
      | inr n ↦ rw (e, n) (inl mem-cons_self)
      | inl n ↦ elim (Bool-cases (w.syncs f.name)) [
        | inr s ↦ rw (e, n, s) (inr mem-cons_self)
        | inl s ↦ rw (e, n, s) (inr mem-cons_self)
      ]
    ]
  ]

  stops_either :
      (log grown : List LogItem) (f : SpoolFile) (fs files : List SpoolFile)
      (r : MutationAuditRecord) (e : AuditError)
      → read_mutation_spool_record f ≡ returned r
      → IsKept files f
      → All (IsKept files) fs
      → (grown ≡ log) ⊎ (grown ≡ log ++ line_of r ∷ [])
      → IsReplay log (f ∷ fs) (record { log = grown; files = files; error = some e })
  stops_either log grown f fs files r e h k others (inl same) =
      rw same (IsReplay-stops log (f ∷ fs) files e (k, others))
  stops_either log grown f fs files r e h k others (inr more) =
      rw more (IsReplay-stops_after log f fs files r e h others)

  quarantine_after-eq :
      (w : SpoolWorld) (log : List LogItem) (id : Text) (f : SpoolFile) (fs : List SpoolFile)
      → (e : AuditError) × (quarantine_after w log id f fs ≡ record {
        log = log;
        files = (quarantine_indeterminate_mutation_spool w f).0 ∷ fs;
        error = some e;
      })
  unfolding quarantine_after
  quarantine_after-eq w log id f fs =
      elim (Option-cases (quarantine_indeterminate_mutation_spool w f).1) [
        | inl e ↦ (audit_indeterminate id (codes "outcome"), rw (e, quarantine_after) refl)
        | inr (x, e) ↦ (x, rw (e, quarantine_after) refl)
      ]

  quarantine-IsReplay :
      (w : SpoolWorld) (log grown : List LogItem) (f : SpoolFile) (fs : List SpoolFile)
      (r : MutationAuditRecord)
      → read_mutation_spool_record f ≡ returned r
      → (grown ≡ log) ⊎ (grown ≡ log ++ line_of r ∷ [])
      → IsReplay log (f ∷ fs) (quarantine_after w grown r.event.mutation_id f fs)
  quarantine-IsReplay w log grown f fs r h g =
      let moved = quarantine_indeterminate_mutation_spool w f in
      let (e, end) = quarantine_after-eq w grown r.event.mutation_id f fs in
      rw end (
        stops_either log grown f fs (moved.0 ∷ fs) r e h (quarantined-IsKept w f fs)
          (others-IsKept moved.0 fs) g)

  -- Whatever the disk and the log answer, the log grows by the records of the first files in their order,
  -- and every other file is kept.
  pub replay_files-IsReplay :
      (w : SpoolWorld) (log : List LogItem) (fs : List SpoolFile)
      → IsReplay log fs (replay_files w log fs)
  unfolding replay_files
  replay_files-IsReplay w log [] =
      ([], [], [], refl, refl, sym (append-nil log), tt, λ n. (refl, refl))
  replay_files-IsReplay w log (f ∷ fs) = elim (Result-cases (read_mutation_spool_record f)) [
    | inl (e, h) ↦
        rw (h, replay_files) (IsReplay-stops log (f ∷ fs) (f ∷ fs) e (All-IsKept (f ∷ fs)))
    | inr (r, h) ↦
        let step = append_mutation_audit_record w log r in
        let (either, on_success, on_committed, on_refused) = append_cases w log r in
        let next =
          removed-IsReplay w log f fs r h (replay_files-IsReplay w (log ++ line_of r ∷ []) fs) in
        elim (Option-cases step.0.error) [
          | inl e ↦ rw (h, e, replay_files) (rw (on_success e) next)
          | inr (x, e) ↦ elim (CommitState-cases step.0.state) [
            | inl c ↦ rw (h, e, c, replay_files) (rw (on_committed c) next)
            | inr (inl c) ↦
                rw (h, e, c, replay_files)
                  (rw (on_refused c) (IsReplay-stops log (f ∷ fs) (f ∷ fs) x (All-IsKept (f ∷ fs))))
            | inr (inr (inl c)) ↦
                rw (h, e, c, replay_files) (quarantine-IsReplay w log step.1 f fs r h either)
            | inr (inr (inr c)) ↦
                rw (h, e, c, replay_files) (quarantine-IsReplay w log step.1 f fs r h either)
          ]
        ]
  ]
