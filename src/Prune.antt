-- ===== src/Prune.antt =====
-- The choice of the rotated audit logs that a prune deletes, in cmd/audit_prune.go: the strict file names,
-- their order, and the candidates. The directory, the times that `time.Parse` and parseAuditPruneBefore
-- answer, and what Lstat says of a file are the record PruneWorld. All files are in the directory of the
-- active log, so a path is the name of its file.
pub mod Sorted
pub mod Rotated
pub mod Cut
pub mod Oldest
use srvgov_cli.Prelude.{
  ◌/◌, ◌%◌, ℕ, zero, suc, ◌+◌, ◌-◌, ◌*◌, ◌≤◌, ◌<◌, String, ◌≡◌, refl, sym, ap, ◌∙◌, ◌≢◌, ◌↔◌, ◌⊎◌,
  inl, inr, Bool, true, false, not, ◌&&◌, ◌||◌, Option, none, some, List, [], ◌∷◌, ◌++◌, map,
  append-nil, append_assoc, arith, ltb, leb, ◌==◌, if◌then◌else◌, ==_iff, Bool-cases, or_resolve,
  Option-cases, length, take, any, all, length-append, any-append, All, All-append, All-map, All-of,
  IfSome, split_if, IfSome-eq, holds_below, holds_below-at, ℤ, pos, negsuc, is_negative, clamp,
  is_positive,
}
use srvgov_cli.GoText.{
  Text, codes, is, starts, has_prefix, has_suffix, byte_length, split_on, text_bytes, bytes_less,
}
use srvgov_cli.Spool.Names.{parse_uint, trim_suffix}
use srvgov_cli.Contexts.{
  ContextError, validation_failed, usage_error, Result, failed, returned, ◌>>=◌,
}

-- What Lstat says of a file: an error, a real regular file, or another file.
pub data FileKind : Type 0 where
  unknown_file : ContextError → FileKind
  regular_file other_file : FileKind

-- A time is a number of nanoseconds, from an instant before all of them. A directory that is not there
-- has no entries.
pub record PruneWorld : Type 0 where
  pub entries : Result (List Text)
  pub kind : Text → FileKind
  pub parse_time : Text → Option ℕ
  pub cutoff : Text → Result ℕ

-- `auditRotatedFile`
pub record AuditRotatedFile : Type 0 where
  pub path : Text
  pub timestamp : ℕ
  pub ordinal : ℕ

-- `auditPruneOptions`, of which the flags that choose are `--before` and `--keep-last`
pub record AuditPruneOptions : Type 0 where
  pub before : Text
  pub keep_last : ℤ
  pub dry_run : Bool
  pub dry_run_explicit : Bool
  pub confirm : Bool

-- strings.TrimPrefix for a prefix that is there
unfoldable pub drop_length : Text → Text → Text
drop_length [] s = s
drop_length (p ∷ ps) [] = []
drop_length (p ∷ ps) (x ∷ s) = drop_length ps s

-- A step that goes on where there is a value.
infixl 5 ◌>>=?◌
abbrev pub ◌>>=?◌ : {A B : Type 0} → Option A → (A → Option B) → Option B
none >>=? f = none
some a >>=? f = f a

-- The ordinal of a name's second part.
unfoldable pub name_ordinal : Text → Option ℕ
unfolding is byte_length has_prefix parse_uint
name_ordinal part =
    if is part "" || ltb 1 (byte_length part) && has_prefix part "0"
    then none
    else elim (parse_uint part) [ none ↦ none | some n ↦ if n == 0 then none else some n ]

-- The parts of a name between the active log's name and `.log`.
unfoldable pub order_of_parts : PruneWorld → List Text → Option (ℕ × ℕ)
unfolding name_ordinal
order_of_parts w (time ∷ []) = w.parse_time time >>=? λ t. some (t, 0)
order_of_parts w (time ∷ part ∷ []) =
    w.parse_time time >>=? λ t. name_ordinal part >>=? λ n. some (t, n)
order_of_parts w _ = none

-- The test of a name for one of the active log's rotations.
unfoldable pub is_rotation : Text → Text → Bool
unfolding starts has_suffix
is_rotation active name = starts name (active ++ b'.' ∷ []) && has_suffix name ".log"

-- strictAuditRotatedFileOrder
unfoldable pub strict_audit_rotated_file_order : PruneWorld → Text → Text → Option (ℕ × ℕ)
unfolding is_rotation drop_length trim_suffix split_on order_of_parts
strict_audit_rotated_file_order w active name =
    if not (is_rotation active name)
    then none
    else order_of_parts w
        (split_on b'.' (trim_suffix (drop_length (active ++ b'.' ∷ []) name) ".log"))

-- The order of the sort.
unfoldable pub rotated_before : AuditRotatedFile → AuditRotatedFile → Bool
unfolding bytes_less text_bytes
rotated_before a b =
    if not (a.timestamp == b.timestamp)
    then ltb a.timestamp b.timestamp
    else if not (a.ordinal == b.ordinal)
    then ltb a.ordinal b.ordinal
    else bytes_less (text_bytes a.path) (text_bytes b.path)

unfoldable pub insert_rotated : AuditRotatedFile → List AuditRotatedFile → List AuditRotatedFile
unfolding rotated_before
insert_rotated f [] = f ∷ []
insert_rotated f (g ∷ gs) =
    let rest = insert_rotated f gs in if rotated_before f g then f ∷ g ∷ gs else g ∷ rest

unfoldable pub sort_rotated : List AuditRotatedFile → List AuditRotatedFile
unfolding insert_rotated
sort_rotated [] = []
sort_rotated (f ∷ fs) = insert_rotated f (sort_rotated fs)

abbrev pub paths_of : List AuditRotatedFile → List Text
paths_of files = map (λ f. f.path) files

-- One entry of the directory that looks like a rotation, for its order and its kind.
unfoldable pub rotated_entry : Text → Option (ℕ × ℕ) → FileKind → Result AuditRotatedFile
rotated_entry name none kind =
    failed (validation_failed "unexpected audit rotation filename; refusing prune")
rotated_entry name (some (t, n)) (unknown_file e) = failed e
rotated_entry name (some (t, n)) other_file =
    failed (validation_failed "rotated audit log must be a real regular file")
rotated_entry name (some (t, n)) regular_file =
    returned (record { path = name; timestamp = t; ordinal = n })

module _ (w : PruneWorld) (active : Text) where
  unfoldable pub scan_rotated : List Text → Result (List AuditRotatedFile)
  unfolding is_rotation strict_audit_rotated_file_order rotated_entry
  scan_rotated [] = returned []
  scan_rotated (name ∷ names) =
      let rest = scan_rotated names in
      if is_rotation active name
      then (rotated_entry name (strict_audit_rotated_file_order w active name) (w.kind name)
          >>= λ f. rest >>= λ fs. returned (f ∷ fs))
      else rest

  -- strictAuditRotatedFiles
  unfoldable pub strict_audit_rotated_files : Result (List Text)
  unfolding scan_rotated sort_rotated
  strict_audit_rotated_files = w.entries >>= λ names.
      scan_rotated names >>= λ files. returned (paths_of (sort_rotated files))

  unfoldable pub is_older : ℕ → Option (ℕ × ℕ) → Bool
  is_older cutoff none = false
  is_older cutoff (some (t, n)) = ltb t cutoff

  unfoldable pub older_files : ℕ → List Text → List Text
  unfolding is_older strict_audit_rotated_file_order
  older_files cutoff [] = []
  older_files cutoff (name ∷ names) =
      let rest = older_files cutoff names in
      if is_older cutoff (strict_audit_rotated_file_order w active name) then name ∷ rest else rest

  -- The candidates by the count of the files that stay, or by the time.
  unfoldable pub candidates_for : ℤ → Text → List Text → Result (List Text)
  unfolding older_files
  candidates_for (pos keep) before rotated =
      if leb (length rotated) keep
      then returned []
      else returned (take (length rotated - keep) rotated)
  candidates_for (negsuc n) before rotated =
      w.cutoff before >>= λ cutoff. returned (older_files cutoff rotated)

  -- selectAuditPruneCandidates
  unfoldable pub select_audit_prune_candidates : AuditPruneOptions → List Text → Result (List Text)
  unfolding candidates_for
  select_audit_prune_candidates opts rotated = candidates_for opts.keep_last opts.before rotated
