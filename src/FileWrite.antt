-- ===== src/FileWrite.antt =====
-- cmd/file.go: the target of a file write, what the remote shell says of its directory, and the count of
-- the bytes that SSH has read.
pub mod Targets
pub mod Streams
use srvgov_cli.Prelude.{
  ◌/◌, ◌%◌, ℕ, zero, suc, ◌+◌, ◌-◌, ◌*◌, ◌≤◌, ◌<◌, String, ◌≡◌, refl, sym, ap, ◌∙◌, ◌≢◌, ◌↔◌, ◌⊎◌,
  inl, inr, Bool, true, false, not, ◌&&◌, ◌||◌, Option, none, some, List, [], ◌∷◌, ◌++◌, map,
  append-nil, append_assoc, arith, ltb, leb, ◌==◌, if◌then◌else◌, ==_iff, Bool-cases, or_resolve,
  Option-cases, ◌>>=◌, >>=-eq-some, length, take, any, all, length-append, any-append, All,
  All-append, All-map, All-of, IfSome, split_if, IfSome-eq, holds_below, holds_below-at, ℤ, pos,
  negsuc, is_negative, clamp, is_positive,
}
use srvgov_cli.GoText.{
  Text, codes, is, byte_length, mem_unit, has_prefix, clean, equal, split_on, between,
}
use srvgov_cli.Remote.{file_write_policy_command}

abbrev pub drop : ℕ → List ℕ → List ℕ
drop zero xs = xs
drop (suc n) [] = []
drop (suc n) (x ∷ xs) = drop n xs

pub data FileError : Type 0 where
  validation_error : String → FileError
  -- by the limit, and by the bytes read and expected
  limit_error : ℕ → FileError
  partial_failure_error : ℕ → ℕ → FileError
  read_error : FileError

pub data Checked (A : Type 0) : Type 0 where
  refused : FileError → Checked A
  accepted : A → Checked A

unfoldable pub contains_control_character : Text → Bool
contains_control_character [] = false
contains_control_character (c ∷ cs) = ltb c 0x20 || c == 0x7f || contains_control_character cs

unfoldable pub all_decimal : Text → Bool
all_decimal [] = true
all_decimal (c ∷ cs) = between b'0' b'9' c && all_decimal cs

unfoldable pub decimal_token : Text → Bool
unfolding is byte_length all_decimal
decimal_token value = not (is value "" || ltb 32 (byte_length value)) && all_decimal value

-- What stands before and behind the last occurrence of a unit: strings.LastIndexByte with the two slices.
unfoldable pub cut_last : Text → ℕ → Option (Text × Text)
cut_last [] sep = none
cut_last (x ∷ xs) sep = elim (cut_last xs sep) [
  | some (a, b) ↦ some (x ∷ a, b)
  | none ↦ if x == sep then some ([], xs) else none
]

-- The directory and the base before their checks.
unfoldable pub target_parts : Text → Text × Text
unfolding cut_last
target_parts target = elim (cut_last target b'/') [
  | none ↦ (codes ".", target)
  | some ([], base) ↦ (codes "/", base)
  | some (c ∷ directory, base) ↦ (c ∷ directory, base)
]

unfoldable pub invalid_base : Text → Bool
unfolding is mem_unit
invalid_base base = is base "" || is base "." || is base ".." || mem_unit base b'/'

-- splitRemoteFileWriteTarget
unfoldable pub split_remote_file_write_target : Text → Checked (Text × Text)
unfolding is byte_length contains_control_character target_parts invalid_base
split_remote_file_write_target target =
    if is target "" || ltb 4096 (byte_length target) || contains_control_character target
    then refused (validation_error "invalid remote file target")
    else if invalid_base (target_parts target).1
    then refused (validation_error "invalid remote file target basename")
    else accepted (target_parts target)

-- strings.TrimSuffix of a line break
unfoldable pub trim_newline : Text → Text
trim_newline [] = []
trim_newline (x ∷ []) = if x == 10 then [] else x ∷ []
trim_newline (x ∷ y ∷ r) = x ∷ trim_newline (y ∷ r)

-- parseFileWritePreflightLine, for the field that an error names
unfoldable pub parse_file_write_preflight_line : Text → String → Checked Text
unfolding trim_newline is mem_unit contains_control_character
parse_file_write_preflight_line output field =
    let value = trim_newline output in
    if is value "" || mem_unit value 10 || contains_control_character value
    then refused (validation_error field)
    else accepted value

-- parseResolvedFileWriteDirectory
unfoldable pub parse_resolved_file_write_directory : Text → Checked Text
unfolding parse_file_write_preflight_line has_prefix clean equal
parse_resolved_file_write_directory output =
    elim (parse_file_write_preflight_line output "resolved remote file directory is invalid") [
      | refused e ↦ refused e
      | accepted value ↦
          if not (has_prefix value "/") || not (equal (clean value) value)
          then refused (
              validation_error
                "remote file parent did not resolve to a canonical absolute directory")
          else accepted value
    ]

-- The tests of the two parts of an identity.
unfoldable pub valid_identity : List Text → Bool
unfolding decimal_token
valid_identity (device ∷ inode ∷ []) = decimal_token device && decimal_token inode
valid_identity _ = false

-- parseFileWriteDirectoryIdentity
unfoldable pub parse_file_write_directory_identity : Text → Checked Text
unfolding parse_file_write_preflight_line split_on valid_identity
parse_file_write_directory_identity output =
    elim (parse_file_write_preflight_line output "remote file directory identity is invalid") [
      | refused e ↦ refused e
      | accepted value ↦
          if valid_identity (split_on b':' value)
          then accepted value
          else refused
              (validation_error "remote file parent returned an invalid directory identity")
    ]

-- readFileWriteInput, for the bytes of the source, of which one more than the limit is read at most;
-- `none` is an error of the source.
unfoldable pub read_file_write_input : Option (List ℕ) → ℕ → Checked (List ℕ)
read_file_write_input none max_bytes = refused read_error
read_file_write_input (some source) max_bytes =
    let data_ = take (max_bytes + 1) source in
    if ltb max_bytes (length data_) then refused (limit_error max_bytes) else accepted data_

-- `fileWriteTracker`: the bytes that are left to read, those that the hash has taken, and the counts.
pub record FileWriteTracker : Type 0 where
  pub unread : List ℕ
  pub hashed : List ℕ
  pub bytes : ℕ
  pub expect : ℕ

unfoldable pub new_file_write_tracker : List ℕ → FileWriteTracker
new_file_write_tracker data_ = record {
  unread = data_;
  hashed = [];
  bytes = 0;
  expect = length data_;
}

-- The method `Read`, for a buffer's length: what it puts there, and the tracker behind it.
unfoldable pub read : FileWriteTracker → ℕ → List ℕ × FileWriteTracker
read t size =
    let chunk = take size t.unread in
    (
      chunk,
      record {
        unread = drop size t.unread;
        hashed = t.hashed ++ chunk;
        bytes = t.bytes + length chunk;
        expect = t.expect;
      },
    )

-- One call of `Read` after the other.
unfoldable pub read_all : FileWriteTracker → List ℕ → List ℕ × FileWriteTracker
unfolding read
read_all t [] = ([], t)
read_all t (size ∷ sizes) =
    let one = read t size in let more = read_all one.1 sizes in (one.0 ++ more.0, more.1)

-- The method `validate`; `none` is no error.
unfoldable pub validate : FileWriteTracker → ℕ → Option FileError
validate t max_bytes =
    if ltb max_bytes t.bytes
    then some (limit_error max_bytes)
    else if not (t.bytes == t.expect)
    then some (partial_failure_error t.bytes t.expect)
    else none

pub record FileWriteTargetBinding : Type 0 where
  pub resolved_directory : Text
  pub base : Text
  pub directory_identity : Text

-- path.Join of two elements
unfoldable pub join_path : Text → Text → Text
unfolding clean
join_path [] [] = []
join_path [] (c ∷ b) = clean (c ∷ b)
join_path (c ∷ a) [] = clean (c ∷ a)
join_path (c ∷ a) (d ∷ b) = clean ((c ∷ a) ++ b'/' ∷ d ∷ b)

-- The method `resolvedTarget`
unfoldable pub resolved_target : FileWriteTargetBinding → Text
unfolding join_path
resolved_target binding = join_path binding.resolved_directory binding.base

-- The method `policyCommand`
unfoldable pub policy_command : FileWriteTargetBinding → Text
unfolding resolved_target file_write_policy_command
policy_command binding = file_write_policy_command (resolved_target binding)
