-- ===== src/Prune/Oldest.antt =====
-- Which rotated logs a prune chooses.
use mathlib.Core.Path.{subst}
use srvgov_cli.Prelude.{
  ℕ, zero, suc, ◌+◌, ◌-◌, ◌≤◌, ◌≡◌, refl, ap, ◌⊎◌, inl, inr, true, List, [], ◌∷◌, ◌++◌, arith, ltb,
  leb, if◌then◌else◌, length, take, all, All, split_if, ℤ, pos, negsuc, is_negative,
}
use srvgov_cli.GoText.{Text}
use srvgov_cli.Contexts.{Result, failed, returned, ◌>>=◌, IfReturned, IfReturned-eq}
use srvgov_cli.Prune.{
  PruneWorld, AuditRotatedFile, AuditPruneOptions, paths_of, strict_audit_rotated_files,
  older_files, candidates_for, select_audit_prune_candidates,
}
use srvgov_cli.Prune.Sorted.{IsSorted}
use srvgov_cli.Prune.Rotated.{IsRotated, IsListing, strict_audit_rotated_files-IsListing}
use srvgov_cli.Prune.Cut.{older_files-IsCut}

module _ (w : PruneWorld) (active : Text) where
  -- Why the files are parted where they are: enough of them stay, or they are older than the cutoff.
  pub data Parted (opts : AuditPruneOptions) (old kept : List AuditRotatedFile) : Type 0 where
    by_count :
        (keep : ℕ)
        → opts.keep_last ≡ pos keep
        → length kept ≤ keep
        → (old ≡ []) ⊎ (length kept ≡ keep)
        → Parted opts old kept
    by_age :
        (cutoff : ℕ)
        → is_negative opts.keep_last ≡ true
        → w.cutoff opts.before ≡ returned cutoff
        → all (λ f. ltb f.timestamp cutoff) old ≡ true
        → all (λ f. leb cutoff f.timestamp) kept ≡ true
        → Parted opts old kept

  -- The candidates are the files that come first.
  pub record AreOldest (opts : AuditPruneOptions) (files : List AuditRotatedFile)
      (candidates : List Text) : Type 0 where
    pub old : List AuditRotatedFile
    pub kept : List AuditRotatedFile
    pub whole : old ++ kept ≡ files
    pub listed : candidates ≡ paths_of old
    pub parted : Parted opts old kept

  record IsTaken (n : ℕ) (files : List AuditRotatedFile) : Type 0 where
    old : List AuditRotatedFile
    kept : List AuditRotatedFile
    whole : old ++ kept ≡ files
    listed : take n (paths_of files) ≡ paths_of old
    count : n + length kept ≡ length files

  take-IsTaken : (n : ℕ) (files : List AuditRotatedFile) → n ≤ length files → IsTaken n files
  take-IsTaken zero files l = record {
    old = [];
    kept = files;
    whole = refl;
    listed = refl;
    count = omega arith;
  }
  take-IsTaken (suc n) [] l = absurd (omega arith)
  take-IsTaken (suc n) (f ∷ files) l =
      let t = take-IsTaken n files (omega arith) in
      let c = t.count in
      record {
        old = f ∷ t.old;
        kept = t.kept;
        whole = ap (λ gs. f ∷ gs) t.whole;
        listed = ap (λ ps. f.path ∷ ps) t.listed;
        count = omega arith;
      }

  length-paths_of : (files : List AuditRotatedFile) → length (paths_of files) ≡ length files
  length-paths_of [] = refl
  length-paths_of (f ∷ files) = ap suc (length-paths_of files)

  kept_last :
      (opts : AuditPruneOptions) (keep : ℕ)
      → opts.keep_last ≡ pos keep
      → (files : List AuditRotatedFile)
      → IfReturned (AreOldest opts files) (
          if leb (length (paths_of files)) keep
          then returned []
          else returned (take (length (paths_of files) - keep) (paths_of files)))
  kept_last opts keep k files =
      let count = length-paths_of files in
      split_if (IfReturned (AreOldest opts files)) (leb (length (paths_of files)) keep)
        (λ b. record {
          old = [];
          kept = files;
          whole = refl;
          listed = refl;
          parted = by_count keep k (ground arith) (inl refl);
        })
        (λ b.
          let t = take-IsTaken (length (paths_of files) - keep) files (ground arith) in
          let c = t.count in
          record {
            old = t.old;
            kept = t.kept;
            whole = t.whole;
            listed = t.listed;
            parted = by_count keep k (ground arith) (inr (ground arith));
          })

  aged :
      (opts : AuditPruneOptions)
      → is_negative opts.keep_last ≡ true
      → (files : List AuditRotatedFile) → All (IsRotated w active) files
      → IsSorted files
      → (r : Result ℕ) → w.cutoff opts.before ≡ r
      → IfReturned
          (AreOldest opts files)
          (r >>= λ cutoff. returned (older_files w active cutoff (paths_of files)))
  aged opts n files are sorted (failed e) c = tt
  aged opts n files are sorted (returned cutoff) c =
      let cut = older_files-IsCut w active cutoff files are sorted in
      record {
        old = cut.old;
        kept = cut.kept;
        whole = cut.whole;
        listed = cut.listed;
        parted = by_age cutoff n c cut.older cut.newer;
      }

  candidates_for-AreOldest :
      (opts : AuditPruneOptions) (keep : ℤ)
      → opts.keep_last ≡ keep
      → (files : List AuditRotatedFile) → All (IsRotated w active) files
      → IsSorted files
      → IfReturned
          (AreOldest opts files)
          (candidates_for w active keep opts.before (paths_of files))
  unfolding candidates_for
  candidates_for-AreOldest opts (pos keep) k files are sorted = kept_last opts keep k files
  candidates_for-AreOldest opts (negsuc n) k files are sorted =
      aged opts (ap is_negative k) files are sorted (w.cutoff opts.before) refl

  -- What the candidates of a listing are.
  pub record IsChoice (opts : AuditPruneOptions) (rotated candidates : List Text) : Type 0 where
    pub files : List AuditRotatedFile
    pub listing : IsListing w active rotated files
    pub oldest : AreOldest opts files candidates

  -- Where the rotated audit logs are listed and candidates for a prune are chosen from them, the
  -- list has a name exactly when the directory has it and it is that of a rotation; every listed
  -- file is a real regular file whose name says its time and ordinal, and they are in the order of
  -- these. The candidates are the files that come first in the list: with --keep-last, the files
  -- behind them are at most that many, and exactly that many if there is a candidate; otherwise
  -- every candidate is older than the cutoff and no other file is.
  pub select_audit_prune_candidates-IsChoice :
      (opts : AuditPruneOptions) {rotated candidates : List Text}
      → strict_audit_rotated_files w active ≡ returned rotated
      → select_audit_prune_candidates w active opts rotated ≡ returned candidates
      → IsChoice opts rotated candidates
  unfolding select_audit_prune_candidates
  select_audit_prune_candidates-IsChoice opts {rotated} {candidates} s c =
      let (files, l) = strict_audit_rotated_files-IsListing w active s in
      record {
        files = files;
        listing = l;
        oldest =
            IfReturned-eq (AreOldest opts files)
              (candidates_for-AreOldest opts opts.keep_last refl files l.are l.sorted)
              (subst (λ k. select_audit_prune_candidates w active opts k ≡ returned candidates)
                l.listed c);
      }
