-- ===== src/Prune/Rotated.antt =====
-- What the rotated logs of a directory are.
use mathlib.Core.Path.{subst}
use srvgov_cli.Prelude.{
  ℕ, ◌≡◌, refl, sym, ap, ◌∙◌, Bool, true, ◌&&◌, ◌||◌, Option, none, some, List, [], ◌∷◌, arith, any,
  All, split_if,
}
use srvgov_cli.GoText.{Text}
use srvgov_cli.Contexts.{
  returned, ◌>>=◌, >>=-eq-returned, IfReturned, IfReturned-eq, IfReturned-bind,
}
use srvgov_cli.Prune.{
  FileKind, unknown_file, regular_file, other_file, PruneWorld, AuditRotatedFile, is_rotation,
  strict_audit_rotated_file_order, sort_rotated, paths_of, rotated_entry, scan_rotated,
  strict_audit_rotated_files,
}
use srvgov_cli.Prune.Sorted.{IsSorted, sort_rotated-IsSorted, All-sort_rotated, any-sort_rotated}

module _ (w : PruneWorld) (active : Text) where
  -- A real regular file of a rotation's name, with the order that its name says.
  pub record IsRotated (f : AuditRotatedFile) : Type 0 where
    pub named : is_rotation active f.path ≡ true
    pub order : strict_audit_rotated_file_order w active f.path ≡ some (f.timestamp, f.ordinal)
    pub regular : w.kind f.path ≡ regular_file

  rotated_entry-IsRotated :
      (name : Text) (o : Option (ℕ × ℕ)) (k : FileKind)
      → is_rotation active name ≡ true
      → strict_audit_rotated_file_order w active name ≡ o
      → w.kind name ≡ k
      → IfReturned IsRotated (rotated_entry name o k)
  unfolding rotated_entry
  rotated_entry-IsRotated name none k n o r = tt
  rotated_entry-IsRotated name (some (t, i)) (unknown_file e) n o r = tt
  rotated_entry-IsRotated name (some (t, i)) other_file n o r = tt
  rotated_entry-IsRotated name (some (t, i)) regular_file n o r = record {
    named = n;
    order = o;
    regular = r;
  }

  scan_rotated-IsRotated :
      (names : List Text) → IfReturned (All IsRotated) (scan_rotated w active names)
  unfolding scan_rotated
  scan_rotated-IsRotated [] = tt
  scan_rotated-IsRotated (name ∷ names) =
      let rest = scan_rotated-IsRotated names in
      let order = strict_audit_rotated_file_order w active name in
      split_if (IfReturned (All IsRotated)) (is_rotation active name)
        (λ n.
          IfReturned-bind IsRotated (All IsRotated) (rotated_entry name order (w.kind name))
            (λ f. scan_rotated w active names >>= λ fs. returned (f ∷ fs))
            (rotated_entry-IsRotated name order (w.kind name) n refl refl)
            (λ f f_is.
              IfReturned-bind (All IsRotated) (All IsRotated) (scan_rotated w active names)
                (λ fs. returned (f ∷ fs)) rest (λ fs fs_are. (f_is, fs_are))))
        (λ n. rest)

  -- The test of a name for a rotation that passes another test.
  abbrev pub rotation_with : (Text → Bool) → Text → Bool
  rotation_with p name = is_rotation active name && p name

  rotated_entry-path :
      (name : Text) (k : FileKind) (o : Option (ℕ × ℕ))
      → IfReturned (λ f. f.path ≡ name) (rotated_entry name o k)
  unfolding rotated_entry
  rotated_entry-path name k none = tt
  rotated_entry-path name (unknown_file e) (some (t, i)) = tt
  rotated_entry-path name other_file (some (t, i)) = tt
  rotated_entry-path name regular_file (some (t, i)) = refl

  any-scan_rotated :
      (p : Text → Bool) (names : List Text)
      → IfReturned
          (λ fs. any p (paths_of fs) ≡ any (rotation_with p) names)
          (scan_rotated w active names)
  unfolding scan_rotated
  any-scan_rotated p [] = refl
  any-scan_rotated p (name ∷ names) =
      let rest = any-scan_rotated p names in
      let others = any (rotation_with p) names in
      let order = strict_audit_rotated_file_order w active name in
      split_if (IfReturned (λ fs. any p (paths_of fs) ≡ any (rotation_with p) (name ∷ names)))
        (is_rotation active name)
        (λ n.
          IfReturned-bind (λ f. f.path ≡ name)
            (λ fs. any p (paths_of fs) ≡ any (rotation_with p) (name ∷ names))
            (rotated_entry name order (w.kind name))
            (λ f. scan_rotated w active names >>= λ fs. returned (f ∷ fs))
            (rotated_entry-path name (w.kind name) order)
            (λ f e.
              IfReturned-bind (λ fs. any p (paths_of fs) ≡ others)
                (λ fs. any p (paths_of fs) ≡ any (rotation_with p) (name ∷ names))
                (scan_rotated w active names) (λ fs. returned (f ∷ fs)) rest
                (λ fs q. let same = ap p e in ground arith)))
        (λ n.
          subst
            (λ b.
              IfReturned (λ fs. any p (paths_of fs) ≡ (b && p name || others))
                (scan_rotated w active names))
            (sym n) rest)

  -- The files behind the list of their paths, in their order.
  pub record IsListing (rotated : List Text) (files : List AuditRotatedFile) : Type 0 where
    pub names : List Text
    pub entries : w.entries ≡ returned names
    pub listed : rotated ≡ paths_of files
    pub are : All IsRotated files
    pub sorted : IsSorted files
    pub complete : (p : Text → Bool) → any p rotated ≡ any (rotation_with p) names

  pub strict_audit_rotated_files-IsListing :
      {rotated : List Text}
      → strict_audit_rotated_files w active ≡ returned rotated
      → (files : List AuditRotatedFile) × IsListing rotated files
  unfolding strict_audit_rotated_files
  strict_audit_rotated_files-IsListing {rotated} s =
      let (names, e, t) =
        >>=-eq-returned w.entries
          (λ names.
            scan_rotated w active names >>= λ files. returned (paths_of (sort_rotated files)))
          s in
      let (found, f, r) =
        >>=-eq-returned (scan_rotated w active names)
          (λ files. returned (paths_of (sort_rotated files))) t in
      let listed : rotated ≡ paths_of (sort_rotated found) = cc in
      (
        sort_rotated found,
        record {
          names = names;
          entries = e;
          listed = listed;
          are =
              All-sort_rotated IsRotated found
                (IfReturned-eq (All IsRotated) (scan_rotated-IsRotated names) f);
          sorted = sort_rotated-IsSorted found;
          complete = λ p.
              ap (any p) listed
              ∙ any-sort_rotated p found
              ∙ IfReturned-eq (λ fs. any p (paths_of fs) ≡ any (rotation_with p) names)
                  (any-scan_rotated p names) f;
        },
      )
