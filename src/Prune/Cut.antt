-- ===== src/Prune/Cut.antt =====
-- Which rotated logs are older than a cutoff.
use mathlib.Core.Path.{subst}
use srvgov_cli.Prelude.{
  ℕ, ◌≡◌, refl, sym, ap, true, false, List, [], ◌∷◌, ◌++◌, arith, ltb, leb, if◌then◌else◌, all, All,
  split_if,
}
use srvgov_cli.GoText.{Text}
use srvgov_cli.Prune.{
  PruneWorld, AuditRotatedFile, strict_audit_rotated_file_order, paths_of, is_older, older_files,
}
use srvgov_cli.Prune.Sorted.{precedes, IsSorted}
use srvgov_cli.Prune.Rotated.{IsRotated}

module _ (w : PruneWorld) (active : Text) where
  is_older-timestamp :
      (cutoff : ℕ) (f : AuditRotatedFile)
      → IsRotated w active f
      → is_older w active cutoff (strict_audit_rotated_file_order w active f.path)
        ≡ ltb f.timestamp cutoff
  unfolding is_older
  is_older-timestamp cutoff f h = ap (is_older w active cutoff) h.order

  -- No file is older than the cutoff where the first is not.
  older_files-none :
      (cutoff : ℕ) (fs : List AuditRotatedFile)
      → All (IsRotated w active) fs
      → all (λ f. leb cutoff f.timestamp) fs ≡ true
      → older_files w active cutoff (paths_of fs) ≡ []
  unfolding older_files
  older_files-none cutoff [] h n = refl
  older_files-none cutoff (f ∷ fs) (f_is, fs_are) n =
      ground (arith, is_older-timestamp cutoff f f_is, older_files-none cutoff fs fs_are)

  all-leb :
      (cutoff : ℕ) (f : AuditRotatedFile) (fs : List AuditRotatedFile)
      → leb cutoff f.timestamp ≡ true
      → all (precedes f) fs ≡ true
      → all (λ f. leb cutoff f.timestamp) fs ≡ true
  all-leb cutoff f [] l h = refl
  all-leb cutoff f (g ∷ fs) l h = ground (arith, all-leb cutoff f fs)

  -- The parting of the files at a cutoff.
  pub record IsCut (cutoff : ℕ) (files : List AuditRotatedFile) (candidates : List Text)
      : Type 0 where
    pub old : List AuditRotatedFile
    pub kept : List AuditRotatedFile
    pub whole : old ++ kept ≡ files
    pub listed : candidates ≡ paths_of old
    pub older : all (λ f. ltb f.timestamp cutoff) old ≡ true
    pub newer : all (λ f. leb cutoff f.timestamp) kept ≡ true

  older_first :
      (cutoff : ℕ) (f : AuditRotatedFile) (fs : List AuditRotatedFile) {cs : List Text}
      → ltb f.timestamp cutoff ≡ true
      → IsCut cutoff fs cs
      → IsCut cutoff (f ∷ fs) (f.path ∷ cs)
  older_first cutoff f fs b c =
      let o = c.older in
      record {
        old = f ∷ c.old;
        kept = c.kept;
        whole = ap (λ gs. f ∷ gs) c.whole;
        listed = ap (λ ps. f.path ∷ ps) c.listed;
        older = ground arith;
        newer = c.newer;
      }

  newer_first :
      (cutoff : ℕ) (f : AuditRotatedFile) (fs : List AuditRotatedFile)
      → ltb f.timestamp cutoff ≡ false
      → all (precedes f) fs ≡ true
      → All (IsRotated w active) fs
      → IsCut cutoff (f ∷ fs) (older_files w active cutoff (paths_of fs))
  newer_first cutoff f fs b first fs_are =
      let l : leb cutoff f.timestamp ≡ true = ground arith in
      let others = all-leb cutoff f fs l first in
      record {
        old = [];
        kept = f ∷ fs;
        whole = refl;
        listed = older_files-none cutoff fs fs_are others;
        older = refl;
        newer = ground arith;
      }

  pub older_files-IsCut :
      (cutoff : ℕ) (fs : List AuditRotatedFile)
      → All (IsRotated w active) fs
      → IsSorted fs
      → IsCut cutoff fs (older_files w active cutoff (paths_of fs))
  unfolding older_files
  older_files-IsCut cutoff [] h s = record {
    old = [];
    kept = [];
    whole = refl;
    listed = refl;
    older = refl;
    newer = refl;
  }
  older_files-IsCut cutoff (f ∷ fs) (f_is, fs_are) (first, s) =
      let rest = older_files w active cutoff (paths_of fs) in
      subst (λ b. IsCut cutoff (f ∷ fs) (if b then f.path ∷ rest else rest))
        (sym (is_older-timestamp cutoff f f_is))
        (split_if (IsCut cutoff (f ∷ fs)) (ltb f.timestamp cutoff)
          (λ b. older_first cutoff f fs b (older_files-IsCut cutoff fs fs_are s))
          (λ b. newer_first cutoff f fs b first fs_are))
