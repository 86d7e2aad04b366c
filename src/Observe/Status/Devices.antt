-- ===== src/Observe/Status/Devices.antt =====
-- The disks of a status, against one row for each device.
use mathlib.Core.Path.{subst}
use srvgov_cli.Prelude.{
  ◌≡◌, refl, sym, ap, ◌∙◌, inl, inr, Bool, true, false, not, Option, none, some, List, [], ◌∷◌, map,
  arith, if◌then◌else◌, Bool-cases,
}
use srvgov_cli.GoText.{Text, equal, equal_iff}
use srvgov_cli.Observe.Status.{
  Disk, Row, fields, row_of, is_seen, keep_disk, disk_of, disk_loop, parse_disk, scan_lines,
}

-- The elements that pass a test.
abbrev pub filter {ℓ} : {A : Type ℓ} → (A → Bool) → List A → List A
filter p [] = []
filter p (x ∷ xs) = if p x then x ∷ filter p xs else filter p xs

abbrev pub Entry : Type 0
Entry = Text × Disk

abbrev other_than : Text → Entry → Bool
other_than device e = not (equal device e.0)

-- The first entry of each device.
abbrev pub first_of_each : List Entry → List Entry
first_of_each [] = []
first_of_each (e ∷ es) = e ∷ filter (other_than e.0) (first_of_each es)

abbrev unseen : List Text → Entry → Bool
unseen seen e = not (is_seen e.0 seen)

filter-seen :
    (device : Text) (seen : List Text) (es : List Entry)
    → is_seen device seen ≡ true
    → filter (unseen seen) (filter (other_than device) es) ≡ filter (unseen seen) es
filter-seen device seen [] h = refl
filter-seen device seen (e ∷ es) h =
    let rest = filter-seen device seen es h in
    elim (Bool-cases (equal device e.0)) [
      | inl q ↦
          let again = subst (λ d. is_seen d seen ≡ true) ((equal_iff device e.0).0 q) h in
          ground arith
      | inr q ↦ ground arith
    ]

filter-unseen :
    (device : Text) (seen : List Text) (es : List Entry)
    → filter (unseen seen) (filter (other_than device) es) ≡ filter (unseen (device ∷ seen)) es
filter-unseen device seen [] = refl
filter-unseen device seen (e ∷ es) = ground (arith, filter-unseen device seen es)

module _ (redact : Text → Text) where
  abbrev pub entry_onto : Text → Option Disk → List Entry → List Entry
  entry_onto device none es = es
  entry_onto device (some d) es = (device, d) ∷ es

  abbrev pub line_onto : Option Row → List Entry → List Entry
  line_onto none es = es
  line_onto (some r) es = entry_onto r.device (disk_of redact r) es

  -- The rows of the lines that can be read.
  abbrev pub readable : List Text → List Entry
  readable [] = []
  readable (line ∷ lines) = line_onto (row_of (fields line)) (readable lines)

  -- The disks of the entries that are not seen.
  abbrev disks_but : List Text → List Entry → List Disk
  disks_but seen es = map (λ (e : Entry). e.1) (filter (unseen seen) es)

  disk_step :
      (seen : List Text) (device : Text) (b : Bool) (o : Option Disk) {skipped kept : List Disk}
      (es : List Entry)
      → is_seen device seen ≡ b
      → skipped ≡ disks_but seen (first_of_each es)
      → kept ≡ disks_but (device ∷ seen) (first_of_each es)
      → keep_disk b o skipped kept ≡ disks_but seen (first_of_each (entry_onto device o es))
  unfolding keep_disk
  disk_step seen device true none es h s k = s
  disk_step seen device false none es h s k = s
  disk_step seen device true (some d) es h s k =
      rw h (s ∙ ap (map (λ (e : Entry). e.1)) (sym (filter-seen device seen (first_of_each es) h)))
  disk_step seen device false (some d) es h s k = rw h (
      ap (λ ds. d ∷ ds)
        (k ∙ ap (map (λ (e : Entry). e.1)) (sym (filter-unseen device seen (first_of_each es)))))

  row_step :
      (o : Option Row) (seen lines : List Text)
      → ((seen : List Text)
          → disk_loop redact seen lines ≡ disks_but seen (first_of_each (readable lines)))
      → (elim o as (λ x. List Disk) [
        | none ↦ disk_loop redact seen lines
        | some r ↦
            keep_disk
              (is_seen r.device seen)
              (disk_of redact r)
              (disk_loop redact seen lines)
              (disk_loop redact (r.device ∷ seen) lines)
      ])
        ≡ disks_but seen (first_of_each (line_onto o (readable lines)))
  row_step none seen lines h = h seen
  row_step (some r) seen lines h =
      disk_step seen r.device (is_seen r.device seen) (disk_of redact r) (readable lines) refl
        (h seen) (h (r.device ∷ seen))

  disk_loop-first_of_each :
      (lines seen : List Text)
      → disk_loop redact seen lines ≡ disks_but seen (first_of_each (readable lines))
  unfolding disk_loop
  disk_loop-first_of_each [] seen = refl
  disk_loop-first_of_each (line ∷ lines) seen =
      row_step (row_of (fields line)) seen lines (disk_loop-first_of_each lines)

  filter-none : (es : List Entry) → filter (unseen []) es ≡ es
  filter-none [] = refl
  filter-none (e ∷ es) = ap (λ fs. e ∷ fs) (filter-none es)

  -- parseDisk reports, for every output of df, what three passes make of it: the rows that can be
  -- read, which have six fields at least, a device under /dev/ and four numbers; of these the first
  -- row of each device; and its disk, in the order of the lines.
  pub parse_disk-first_of_each :
      (value : Text)
      → parse_disk redact value
        ≡ map (λ (e : Entry). e.1) (first_of_each (readable (scan_lines value)))
  unfolding parse_disk
  parse_disk-first_of_each value =
      disk_loop-first_of_each (scan_lines value) []
      ∙ ap (map (λ (e : Entry). e.1)) (filter-none (first_of_each (readable (scan_lines value))))
