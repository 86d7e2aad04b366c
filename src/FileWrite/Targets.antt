-- ===== src/FileWrite/Targets.antt =====
-- The target of a file write, and what is accepted of the answers about its directory.
use srvgov_cli.Prelude.{
  ℕ, ◌≤◌, String, ◌≡◌, refl, sym, ap, ◌⊎◌, inl, inr, Bool, true, false, ◌||◌, none, some, [], ◌∷◌,
  ◌++◌, arith, ltb, ◌==◌, ==_iff, Bool-cases,
}
use mathlib.Core.Path.{subst}
use srvgov_cli.GoText.{Text, codes, is, mem_unit, has_prefix, clean, equal, equal_iff, byte_length}
use srvgov_cli.FileWrite.{
  FileError, Checked, refused, accepted, contains_control_character, cut_last, target_parts,
  invalid_base, split_remote_file_write_target, trim_newline, parse_file_write_preflight_line,
  parse_resolved_file_write_directory,
}

parts_of : Checked (Text × Text) → Text × Text
parts_of (refused e) = ([], [])
parts_of (accepted parts) = parts

text_of : Checked Text → Text
text_of (refused e) = []
text_of (accepted text) = text

or_right : (a b : Bool) → (a || b) ≡ false → b ≡ false
or_right a b h = ground arith

short_target : (a : Bool) (n : ℕ) (b : Bool) → (a || ltb 4096 n || b) ≡ false → n ≤ 4096
short_target a n b h = ground arith

Checked-cases :
    {A : Type 0} (o : Checked A)
    → ((e : FileError) × (o ≡ refused e)) ⊎ ((a : A) × (o ≡ accepted a))
Checked-cases (refused e) = inl (e, refl)
Checked-cases (accepted a) = inr (a, refl)

cut_last-cases :
    (s : Text) (c : ℕ)
    → (cut_last s c ≡ none) ⊎ ((a b : Text) × (cut_last s c ≡ some (a, b)) × (s ≡ a ++ c ∷ b))
unfolding cut_last
cut_last-cases [] c = inl refl
cut_last-cases (x ∷ s) c = elim (cut_last-cases s c) [
  | inr (a, b, e, f) ↦ inr (x ∷ a, b, rw (e, cut_last) refl, ap (λ t. x ∷ t) f)
  | inl e ↦ elim (Bool-cases (x == c)) [
    | inl h ↦ inr ([], s, rw (e, h, cut_last) refl, ap (λ y. y ∷ s) ((==_iff x c).0 h))
    | inr h ↦ inl (rw (e, h, cut_last) refl)
  ]
]

-- The directory and the base of a target make it up again.
abbrev pub IsSplit : Text → Text → Text → Type 0
IsSplit target directory base =
    ((directory ≡ codes ".") × (target ≡ base))
    ⊎ ((directory ≡ codes "/") × (target ≡ b'/' ∷ base))
    ⊎ (target ≡ directory ++ b'/' ∷ base)

target_parts-IsSplit :
    (target : Text) → IsSplit target (target_parts target).0 (target_parts target).1
unfolding target_parts
target_parts-IsSplit target = elim (cut_last-cases target b'/') [
  | inl e ↦ rw (e, target_parts) (inl (refl, refl))
  | inr ([], b, e, f) ↦ rw (e, target_parts) (inr (inl (refl, f)))
  | inr (c ∷ a, b, e, f) ↦ rw (e, target_parts) (inr (inr f))
]

-- A target that is accepted is split into a directory and a base that make it up again, where the directory
-- of a target without a slash is the working one; the base is not empty, is no dot name and holds no slash;
-- and the target holds no control character and is 4096 bytes long at most.
pub split_remote_file_write_target-IsSplit :
    (target directory base : Text)
    → split_remote_file_write_target target ≡ accepted (directory, base)
    → IsSplit target directory base
      × (invalid_base base ≡ false)
      × (contains_control_character target ≡ false)
      × (byte_length target ≤ 4096)
unfolding split_remote_file_write_target parts_of
split_remote_file_write_target-IsSplit target directory base h =
    elim (Bool-cases
      (is target "" || ltb 4096 (byte_length target) || contains_control_character target)) [
        | inl e ↦ absurd (let k = rw e at h in cc)
        | inr e ↦ elim (Bool-cases (invalid_base (target_parts target).1)) [
          | inl i ↦ absurd (let k = rw (e, i) at h in cc)
          | inr i ↦
              let k = rw (e, i) at h in
              let d : (target_parts target).0 ≡ directory = ap (λ o. (parts_of o).0) k in
              let b : (target_parts target).1 ≡ base = ap (λ o. (parts_of o).1) k in
              (
                rw (d, b) at (target_parts-IsSplit target),
                rw b at i,
                or_right (is target "" || ltb 4096 (byte_length target))
                    (contains_control_character target) e,
                short_target (is target "") (byte_length target) (contains_control_character target)
                    e,
              )
        ]
      ]

preflight_line :
    (output : Text) (field : String) {value : Text}
    → parse_file_write_preflight_line output field ≡ accepted value
    → (value ≡ trim_newline output) × (contains_control_character value ≡ false)
unfolding parse_file_write_preflight_line text_of
preflight_line output field {value} h =
    let line = trim_newline output in
    elim (Bool-cases (is line "" || mem_unit line 10 || contains_control_character line)) [
      | inl e ↦ absurd (let k = rw e at h in cc)
      | inr e ↦
          let same : line ≡ value = ap text_of (rw e at h) in
          (
            sym same,
            rw same at
                (or_right (is line "" || mem_unit line 10) (contains_control_character line) e),
          )
    ]

-- The line that the shell printed, which is an absolute and canonical path.
abbrev pub IsCanonical : Text → Text → Type 0
IsCanonical output directory =
    (directory ≡ trim_newline output)
    × (has_prefix directory "/" ≡ true)
    × (clean directory ≡ directory)
    × (contains_control_character directory ≡ false)

-- A directory that is accepted is the line that the shell printed; it is absolute and canonical, and holds no
-- control character.
pub parse_resolved_file_write_directory-IsCanonical :
    (output directory : Text)
    → parse_resolved_file_write_directory output ≡ accepted directory
    → IsCanonical output directory
unfolding parse_resolved_file_write_directory text_of
parse_resolved_file_write_directory-IsCanonical output directory h =
    elim (Checked-cases
      (parse_file_write_preflight_line output "resolved remote file directory is invalid")) [
        | inl (x, e) ↦ absurd (let k = rw (e, parse_resolved_file_write_directory) at h in cc)
        | inr (value, e) ↦ elim (Bool-cases (has_prefix value "/")) [
          | inr p ↦ absurd (let k = rw (e, p, parse_resolved_file_write_directory) at h in cc)
          | inl p ↦ elim (Bool-cases (equal (clean value) value)) [
            | inr c ↦ absurd (let k = rw (e, p, c, parse_resolved_file_write_directory) at h in cc)
            | inl c ↦
                let same : value ≡ directory =
                  ap text_of (rw (e, p, c, parse_resolved_file_write_directory) at h) in
                let (line, control) =
                  preflight_line output "resolved remote file directory is invalid" e in
                subst (IsCanonical output) same
                  (line, p, (equal_iff (clean value) value).0 c, control)
          ]
        ]
      ]
