-- ===== src/Spool/Transactions/Success.antt =====
-- What a transaction of the audit has done where it reports success, and where the spool is blocked.
use srvgov_cli.Prelude.{
  String, ◌≡◌, refl, sym, ap, ◌∙◌, inl, inr, not, ◌&&◌, Option, none, some, List, [], ◌∷◌, ◌++◌,
  map, append-nil, Bool-cases, Option-cases,
}
use srvgov_cli.GoText.{Text, codes, is, trim_space, encode_to_string, Std}
use srvgov_cli.Audit.Events.{MutationOutcome}
use srvgov_cli.Audit.Fingerprints.{Digest}
use srvgov_cli.Spool.Records.{
  MutationAuditRecord, MutationAuditSpec, MutationAuditHandle, record_of,
}
use srvgov_cli.Spool.Queue.{
  Result, failed, returned, LogItem, SpoolWorld, Queue, read_mutation_spool_record, sort_files,
  append_mutation_audit_record, write_mutation_spool_record_with_suffix,
}
use srvgov_cli.Spool.Replay.{
  Scan, lock_files, scan_spool, replay_files, replay_mutation_audit_spool_locked,
}
use srvgov_cli.Spool.Replay.Kept.{replay_files-IsReplay}
use srvgov_cli.Spool.Queue.Appends.{line_of, append_cases, CommitState-cases, Result-cases}
use srvgov_cli.Spool.Replay.Whole.{Scan-cases}
use srvgov_cli.Spool.Transactions.{
  Finished, finished, append_failed, append_indeterminate, committed_append_error,
  with_mutation_audit_queue, spool_outcome, is_indeterminate, append_intent, begin_locked,
  begin_mutation_audit, finish_locked, finish_error, outcome_record, finish_mutation_audit,
}
use srvgov_cli.Spool.Transactions.Recorded.{pair_eq, with_queue_inv}

-- The value of a result, or another one where there is none.
value_or : {A : Type 0} → A → Result A → A
value_or other (failed e) = other
value_or other (returned a) = a

module _ ⦃std : Std⦄ ⦃digest : Digest⦄ where
  -- The spool has been emptied into the log, file by file in the order of the names.
  abbrev pub IsDrained : Queue → Queue → Type 0
  IsDrained q q' =
      (s : Scan) × (rs : List MutationAuditRecord) × (scan_spool q.files [] [] ≡ returned s)
      × (map read_mutation_spool_record (sort_files s.found) ≡ map returned rs)
      × (q'.log ≡ q.log ++ map line_of rs)
      × (q'.files ≡ lock_files q.files)

  -- The spool has been emptied into the log, and one more line is behind that.
  abbrev pub IsDrainedBefore : Queue → Queue → LogItem → Type 0
  IsDrainedBefore q q' line =
      (log : List LogItem) × IsDrained q (record { log = log; files = q'.files })
      × (q'.log ≡ log ++ line ∷ [])

  drained_eq :
      (w : SpoolWorld) (q : Queue) (s : Scan)
      → scan_spool q.files [] [] ≡ returned s
      → s.blocked ≡ []
      → (let end = replay_files w q.log (sort_files s.found) in
          replay_mutation_audit_spool_locked w q
          ≡ (record { log = end.log; files = end.files ++ lock_files q.files }, end.error))
  unfolding replay_mutation_audit_spool_locked
  drained_eq w q s e b = rw (e, b, replay_mutation_audit_spool_locked) refl

  drained_scan :
      (w : SpoolWorld) (q : Queue)
      → (replay_mutation_audit_spool_locked w q).1 ≡ none
      → (s : Scan) × (scan_spool q.files [] [] ≡ returned s) × (s.blocked ≡ [])
  unfolding replay_mutation_audit_spool_locked
  drained_scan w q h = elim (Result-cases (scan_spool q.files [] [])) [
    | inl (x, e) ↦ absurd (let k = rw (e, replay_mutation_audit_spool_locked) at h in cc)
    | inr (s, e) ↦ elim (Scan-cases s) [
      | inr (c, id, b) ↦ absurd (let k = rw (e, b, replay_mutation_audit_spool_locked) at h in cc)
      | inl b ↦ (s, e, b)
    ]
  ]

  pub replay_mutation_audit_spool_locked-IsDrained :
      (w : SpoolWorld) (q : Queue)
      → (replay_mutation_audit_spool_locked w q).1 ≡ none
      → IsDrained q (replay_mutation_audit_spool_locked w q).0
  replay_mutation_audit_spool_locked-IsDrained w q h =
      let (s, e, b) = drained_scan w q h in
      let whole = drained_eq w q s e b in
      let (done, rest, rs, split, reads, grown, kept, n) =
        replay_files-IsReplay w q.log (sort_files s.found) in
      let (no_rest, no_files) = n (rw whole at h) in
      let all_done : sort_files s.found ≡ done =
        split ∙ ap (λ t. done ++ t) no_rest ∙ append-nil done in
      rw whole (
        s,
        rs,
        e,
        ap (map read_mutation_spool_record) all_done ∙ reads,
        grown,
        ap (λ t. t ++ lock_files q.files) no_files,
      )

  -- What an append comes to whose answer has no error.
  append_intent-inv :
      (w : SpoolWorld) (handle : MutationAuditHandle) (q : Queue) {q' : Queue}
      {h : MutationAuditHandle}
      → append_intent w handle q ≡ (q', returned h)
      → (h ≡ handle)
        × (q'.files ≡ q.files)
        × (q'.log ≡ q.log ++ line_of (record_of handle (codes "intent") none) ∷ [])
  unfolding append_intent value_or
  append_intent-inv w handle q e =
      let r = record_of handle (codes "intent") none in
      let step = append_mutation_audit_record w q.log r in
      let (either, on_success, on_committed, on_refused) = append_cases w q.log r in
      elim (Option-cases step.0.error) [
        | inl s ↦
            let k = rw (s, append_intent) at e in
            (
              sym (ap (λ p. value_or handle p.1) k),
              sym (ap (λ p. p.0.files) k),
              sym (ap (λ p. p.0.log) k) ∙ on_success s,
            )
        | inr (x, s) ↦ elim (Bool-cases (is_indeterminate step.0.state)) [
          | inl i ↦ absurd (let k = rw (s, i, append_intent) at e in cc)
          | inr i ↦ absurd (let k = rw (s, i, append_intent) at e in cc)
        ]
      ]

  begin_locked-inv :
      (w : SpoolWorld) (spec : MutationAuditSpec) (q : Queue) {q' : Queue} {h : MutationAuditHandle}
      → begin_locked w spec q ≡ (q', returned h)
      → IsDrainedBefore q q' (line_of (record_of h (codes "intent") none))
  unfolding begin_locked
  begin_locked-inv w spec q {q'} {h} e =
      elim (Option-cases (replay_mutation_audit_spool_locked w q).1) [
        | inr (x, r) ↦ absurd (let k = rw (r, begin_locked) at e in cc)
        | inl r ↦ elim (Option-cases w.random) [
          | inl n ↦ absurd (let k = rw (r, n, begin_locked) at e in cc)
          | inr (bytes, n) ↦
              let replayed = (replay_mutation_audit_spool_locked w q).0 in
              let handle : MutationAuditHandle = record {
                id = encode_to_string bytes;
                spec = spec;
                now = w.now;
                current_operator = w.current_operator;
              } in
              let (same, files, log) =
                append_intent-inv w handle replayed {q' = q'} {h = h}
                  (rw (r, n, begin_locked) at e) in
              let drained = replay_mutation_audit_spool_locked-IsDrained w q r in
              (replayed.log, rw files drained, rw same log)
        ]
      ]

  -- Where a mutation has begun, the spool has been emptied into the log in the order of its names, and the
  -- intent is the line behind that.
  pub begin_mutation_audit-IsDrainedBefore :
      (w : SpoolWorld) (spec : MutationAuditSpec) (q q' : Queue) (handle : MutationAuditHandle)
      → begin_mutation_audit w spec q ≡ (q', returned handle)
      → IsDrainedBefore q q' (line_of (record_of handle (codes "intent") none))
  unfolding begin_mutation_audit
  begin_mutation_audit-IsDrainedBefore w spec q q' handle e =
      elim (Bool-cases (is (trim_space spec.action) "")) [
        | inl a ↦ absurd (let k = rw a at e in cc)
        | inr a ↦ elim (Bool-cases (is (trim_space spec.audit_path) "" && not w.default_path)) [
          | inl p ↦ absurd (let k = rw (a, p) at e in cc)
          | inr p ↦
              begin_locked-inv w (record spec { action = trim_space spec.action }) q
                (with_queue_inv w q
                  (begin_locked w (record spec { action = trim_space spec.action }))
                  (rw (a, p) at e))
        ]
      ]

  spool_outcome-inv :
      (w : SpoolWorld) (q : Queue) (r : MutationAuditRecord) (suffix : String) (flag : Finished)
      {q' : Queue} {a : Finished}
      → spool_outcome w q r suffix flag ≡ (q', returned a)
      → a ≡ flag
  unfolding spool_outcome value_or
  spool_outcome-inv w q r suffix flag e =
      elim (Option-cases (write_mutation_spool_record_with_suffix w q.files r suffix).1) [
        | inl s ↦ let k = rw (s, spool_outcome) at e in sym (ap (λ p. value_or flag p.1) k)
        | inr (x, s) ↦ absurd (let k = rw (s, spool_outcome) at e in cc)
      ]

  finish_locked-inv :
      (w : SpoolWorld) (r : MutationAuditRecord) (q : Queue) {q' : Queue}
      → finish_locked w r q ≡ (q', returned finished)
      → IsDrainedBefore q q' (line_of r)
  unfolding finish_locked
  finish_locked-inv w r q {q'} e = elim (Option-cases (replay_mutation_audit_spool_locked w q).1) [
    | inr (x, s) ↦
        absurd
          (let k = spool_outcome-inv w _ r ".json" append_failed (rw (s, finish_locked) at e) in cc)
    | inl s ↦
        let replayed = (replay_mutation_audit_spool_locked w q).0 in
        let step = append_mutation_audit_record w replayed.log r in
        let (either, on_success, on_committed, on_refused) = append_cases w replayed.log r in
        let drained = replay_mutation_audit_spool_locked-IsDrained w q s in
        elim (Option-cases step.0.error) [
          | inl a ↦
              let k = rw (s, a, finish_locked) at e in
              let files : q'.files ≡ replayed.files = sym (ap (λ p. p.0.files) k) in
              (replayed.log, rw files drained, sym (ap (λ p. p.0.log) k) ∙ on_success a)
          | inr (x, a) ↦ elim (CommitState-cases step.0.state) [
            | inl c ↦ absurd (let k = rw (s, a, c, finish_locked) at e in cc)
            | inr (inl c) ↦ absurd (
                let k =
                  spool_outcome-inv w _ r ".json" append_failed
                    (rw (s, a, c, finish_locked) at e) in
                cc)
            | inr (inr (inl c)) ↦ absurd (
                let k =
                  spool_outcome-inv w _ r ".indeterminate" append_indeterminate
                    (rw (s, a, c, finish_locked) at e) in
                cc)
            | inr (inr (inr c)) ↦ absurd (
                let k =
                  spool_outcome-inv w _ r ".indeterminate" append_indeterminate
                    (rw (s, a, c, finish_locked) at e) in
                cc)
          ]
        ]
  ]

  finish_error-none :
      (id : Text) (operation : Option Text) (o : Result Finished)
      → finish_error id operation o ≡ none
      → (operation ≡ none) × (o ≡ returned finished)
  unfolding finish_error
  finish_error-none id operation (failed e) h = absurd (cc)
  finish_error-none id operation (returned append_failed) h = absurd (cc)
  finish_error-none id operation (returned append_indeterminate) h = absurd (cc)
  finish_error-none id operation (returned (committed_append_error e)) h = absurd (cc)
  finish_error-none id none (returned finished) h = (refl, refl)
  finish_error-none id (some code) (returned finished) h = absurd (cc)

  -- Where the end of a mutation returns no error, the mutation had none, the spool has been emptied into the
  -- log in the order of its names, and the outcome is the line behind that.
  pub finish_mutation_audit-IsDrainedBefore :
      (w : SpoolWorld) (handle : MutationAuditHandle) (outcome : MutationOutcome)
      (operation : Option Text) (q : Queue)
      → (finish_mutation_audit w (some handle) outcome operation q).1 ≡ none
      → (operation ≡ none)
        × IsDrainedBefore q
            (finish_mutation_audit w (some handle) outcome operation q).0
            (line_of (outcome_record handle outcome operation))
  unfolding finish_mutation_audit
  finish_mutation_audit-IsDrainedBefore w handle outcome operation q h =
      let r = outcome_record handle outcome operation in
      let end = with_mutation_audit_queue w q (finish_locked w r) in
      let (succeeded, returned_) = finish_error-none handle.id operation end.1 h in
      (
        succeeded,
        finish_locked-inv w r q (with_queue_inv w q (finish_locked w r) (pair_eq end returned_)),
      )
