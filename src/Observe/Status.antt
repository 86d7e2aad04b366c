-- ===== src/Observe/Status.antt =====
-- internal/observe/status.go: what the output of the status probes says of processors, memory and disks.
-- The redaction of texts is that of the shared library, a parameter.
pub mod Devices
use srvgov_cli.Prelude.{
  ◌/◌, ◌%◌, ℕ, zero, suc, ◌+◌, ◌-◌, ◌*◌, ◌≤◌, ◌<◌, String, ◌≡◌, refl, sym, ap, ◌∙◌, ◌≢◌, ◌↔◌, ◌⊎◌,
  inl, inr, Bool, true, false, not, ◌&&◌, ◌||◌, Option, none, some, List, [], ◌∷◌, ◌++◌, map,
  append-nil, append_assoc, arith, ltb, leb, ◌==◌, if◌then◌else◌, ==_iff, Bool-cases, or_resolve,
  Option-cases, ◌>>=◌, >>=-eq-some, length, take, any, all, length-append, any-append, All,
  All-append, All-map, All-of, IfSome, split_if, IfSome-eq, holds_below, holds_below-at, ℤ, pos,
  negsuc, is_negative, clamp, is_positive,
}
use srvgov_cli.GoText.{
  Text, codes, is, equal, has_prefix, is_space, trim_space, trim_suffix_unit, split_on, cut,
  byte_length, atoi, Map, get_key, put_key,
}

-- Whether a text begins within a word, and a unit at the beginning of its first word.
unfoldable pub in_word : Text → Bool
unfolding is_space
in_word [] = false
in_word (x ∷ xs) = not (is_space x)

unfoldable pub onto_first : ℕ → List Text → List Text
onto_first x [] = (x ∷ []) ∷ []
onto_first x (w ∷ ws) = (x ∷ w) ∷ ws

-- strings.Fields
unfoldable pub fields : Text → List Text
unfolding is_space in_word onto_first
fields [] = []
fields (x ∷ xs) =
    let rest = fields xs in
    if is_space x then rest else if in_word xs then onto_first x rest else (x ∷ []) ∷ rest

-- The lines of bufio.Scanner: no line behind the last line break, and none from the first on that does
-- not fit its buffer of 65536 bytes.
unfoldable pub drop_last_empty : List Text → List Text
unfolding is
drop_last_empty [] = []
drop_last_empty (l ∷ []) = if is l "" then [] else l ∷ []
drop_last_empty (l ∷ m ∷ ls) = l ∷ drop_last_empty (m ∷ ls)

unfoldable pub fitting_lines : List Text → List Text
unfolding byte_length trim_suffix_unit
fitting_lines [] = []
fitting_lines (l ∷ ls) =
    let rest = fitting_lines ls in
    if ltb (byte_length l) 65536 then trim_suffix_unit l 13 ∷ rest else []

unfoldable pub scan_lines : Text → List Text
unfolding split_on drop_last_empty fitting_lines
scan_lines value = fitting_lines (drop_last_empty (split_on 10 value))

-- An int64 as its residue, and back.
abbrev word_size : ℕ
word_size = 18446744073709551616

unfoldable pub residue : ℤ → ℕ
residue (pos n) = n % word_size
residue (negsuc n) = word_size - 1 - n % word_size

unfoldable pub signed_word : ℕ → ℤ
signed_word r = if ltb r 9223372036854775808 then pos r else negsuc (word_size - 1 - r)

-- The product of an int64 and 1024, the sum and the difference of two, each with its wrap-around.
unfoldable pub in_bytes : ℤ → ℤ
unfolding residue signed_word
in_bytes n = signed_word (residue n * 1024 % word_size)

unfoldable pub plus_word : ℤ → ℤ → ℤ
unfolding residue signed_word
plus_word a b = signed_word ((residue a + residue b) % word_size)

unfoldable pub minus_word : ℤ → ℤ → ℤ
unfolding residue signed_word
minus_word a b = signed_word ((residue a + (word_size - residue b)) % word_size)

pub record Cpu : Type 0 where
  pub model : Text
  pub cores : ℕ

pub record Memory : Type 0 where
  pub total : ℤ
  pub used : ℤ
  pub free : ℤ

pub record Disk : Type 0 where
  pub mount : Text
  pub size : ℤ
  pub used : ℤ
  pub avail : ℤ
  pub use_pct : ℤ

-- strings.Join with a space
unfoldable pub spaced : List Text → Text
spaced [] = []
spaced (w ∷ []) = w
spaced (w ∷ v ∷ ws) = w ++ b' ' ∷ spaced (v ∷ ws)

-- The fields of a row of df, and those of a device.
pub record Row : Type 0 where
  pub device : Text
  pub numbers : Text × Text × Text × Text
  pub mount : List Text

unfoldable pub row_of : List Text → Option Row
unfolding is has_prefix
row_of (device ∷ size ∷ used ∷ avail ∷ pct ∷ mount ∷ more) =
    if is device "Filesystem" || not (has_prefix device "/dev/")
    then none
    else some (record { device = device; numbers = (size, used, avail, pct); mount = mount ∷ more })
row_of _ = none

abbrev pub is_seen : Text → List Text → Bool
is_seen device seen = any (λ d. equal d device) seen

-- The disks with a row or without it.
unfoldable pub keep_disk : Bool → Option Disk → List Disk → List Disk → List Disk
keep_disk true disk skipped kept = skipped
keep_disk false none skipped kept = skipped
keep_disk false (some disk) skipped kept = disk ∷ kept

-- A line of meminfo, put into the map of its numbers.
unfoldable pub put_number : Text → List Text → Map ℤ → Map ℤ
unfolding atoi in_bytes trim_space put_key
put_number key [] numbers = numbers
put_number key (part ∷ parts) numbers = elim (atoi part) [
  | none ↦ numbers
  | some n ↦ put_key (trim_space key) (in_bytes n) numbers
]

unfoldable pub memory_line : Text → Map ℤ → Map ℤ
unfolding cut fields put_number
memory_line line numbers = elim (cut line b':') [
  | none ↦ numbers
  | some (key, value) ↦ put_number key (fields value) numbers
]

unfoldable pub memory_loop : List Text → Map ℤ → Map ℤ
unfolding memory_line
memory_loop [] numbers = numbers
memory_loop (line ∷ lines) numbers = memory_loop lines (memory_line line numbers)

-- A number of the map, or 0.
unfoldable pub number_of : Option ℤ → ℤ
number_of none = pos 0
number_of (some n) = n

unfoldable pub free_memory : ℤ → ℤ → ℤ
free_memory (pos zero) others = others
free_memory available others = available

-- parseMemory
unfoldable pub parse_memory : Text → Memory
unfolding scan_lines memory_loop number_of get_key free_memory plus_word minus_word
parse_memory value =
    let numbers = memory_loop (scan_lines value) [] in
    let at = λ (name : String). number_of (get_key (codes name) numbers) in
    let free =
      free_memory (at "MemAvailable")
        (plus_word (plus_word (at "MemFree") (at "Buffers")) (at "Cached")) in
    record { total = at "MemTotal"; used = clamp (minus_word (at "MemTotal") free); free = free }

module _ (redact : Text → Text) where
  unfoldable pub disk_of : Row → Option Disk
  unfolding atoi in_bytes trim_suffix_unit spaced
  disk_of r =
      let (size, used, avail, pct) = r.numbers in
      atoi size >>= λ s. atoi used >>= λ u. atoi avail >>= λ a.
      atoi (trim_suffix_unit pct b'%') >>= λ p. some (record {
        mount = redact (spaced r.mount);
        size = in_bytes s;
        used = in_bytes u;
        avail = in_bytes a;
        use_pct = p;
      })

  -- The loop over the lines, with the devices seen so far.
  unfoldable pub disk_loop : List Text → List Text → List Disk
  unfolding fields row_of disk_of keep_disk equal
  disk_loop seen [] = []
  disk_loop seen (line ∷ lines) =
      let skipped = disk_loop seen lines in
      elim (row_of (fields line)) [
        | none ↦ skipped
        | some r ↦
            keep_disk (is_seen r.device seen) (disk_of r) skipped
              (disk_loop (r.device ∷ seen) lines)
      ]

  -- parseDisk
  unfoldable pub parse_disk : Text → List Disk
  unfolding scan_lines disk_loop
  parse_disk value = disk_loop [] (scan_lines value)

  unfoldable pub processor : Cpu → Text → Text → Cpu
  unfolding is trim_space
  processor c key value =
      if is (trim_space key) "processor"
      then record c { cores = suc c.cores }
      else if (is (trim_space key) "model name" || is (trim_space key) "Hardware") && is c.model ""
      then record c { model = redact (trim_space value) }
      else c

  unfoldable pub cpu_line : Cpu → Text → Cpu
  unfolding cut processor
  cpu_line c line = elim (cut line b':') [ none ↦ c | some (key, value) ↦ processor c key value ]

  unfoldable pub cpu_loop : Cpu → List Text → Cpu
  unfolding cpu_line
  cpu_loop c [] = c
  cpu_loop c (line ∷ lines) = cpu_loop (cpu_line c line) lines

  -- parseCPU
  unfoldable pub parse_cpu : Text → Cpu
  unfolding scan_lines cpu_loop
  parse_cpu value = cpu_loop (record { model = []; cores = 0 }) (scan_lines value)
