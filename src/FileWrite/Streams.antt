-- ===== src/FileWrite/Streams.antt =====
-- What SSH reads of the content of a file, against what is counted, hashed and accepted.
use srvgov_cli.Prelude.{
  ℕ, zero, suc, ◌+◌, ◌≤◌, ◌<◌, ◌≡◌, refl, sym, ap, ◌∙◌, ◌↔◌, inl, inr, none, some, List, [], ◌∷◌,
  ◌++◌, append-nil, append_assoc, arith, ltb, Bool-cases, length, take, length-append,
}
use srvgov_cli.FileWrite.{
  drop, refused, accepted, Checked, read_file_write_input, FileWriteTracker, new_file_write_tracker,
  read, read_all, validate,
}

content_of : Checked (List ℕ) → List ℕ
content_of (refused e) = []
content_of (accepted content) = content

take-drop : (n : ℕ) (xs : List ℕ) → take n xs ++ drop n xs ≡ xs
take-drop zero xs = refl
take-drop (suc n) [] = refl
take-drop (suc n) (x ∷ xs) = ap (λ t. x ∷ t) (take-drop n xs)

length-take_le : (n : ℕ) (xs : List ℕ) → length (take n xs) ≤ n
length-take_le zero xs = omega arith
length-take_le (suc n) [] = omega arith
length-take_le (suc n) (x ∷ xs) = omega (arith, length-take_le n xs)

take_all : (n : ℕ) (xs : List ℕ) → length (take n xs) < n → take n xs ≡ xs
take_all zero xs l = absurd (omega (arith, l))
take_all (suc n) [] l = refl
take_all (suc n) (x ∷ xs) l = ap (λ t. x ∷ t) (take_all n xs (omega (arith, l)))

-- An input that is accepted is the whole source, and within the limit.
read_file_write_input-accepted :
    (source : List ℕ) (max_bytes : ℕ) {content : List ℕ}
    → read_file_write_input (some source) max_bytes ≡ accepted content
    → (content ≡ source) × (length source ≤ max_bytes)
unfolding read_file_write_input content_of
read_file_write_input-accepted source max_bytes {content} h =
    elim (Bool-cases (ltb max_bytes (length (take (max_bytes + 1) source)))) [
      | inl l ↦ absurd (let k = rw l at h in cc)
      | inr l ↦
          let k = rw l at h in
          let whole : take (max_bytes + 1) source ≡ source =
            take_all (max_bytes + 1) source (ground arith) in
          let same : take (max_bytes + 1) source ≡ content = ap content_of k in
          (sym same ∙ whole, let same_length = ap length whole in ground arith)
    ]

-- Each read goes on where the one before it stopped, and is hashed and counted.
read_all-counts :
    (t : FileWriteTracker) (sizes : List ℕ)
    → (let run = read_all t sizes in
        (run.0 ++ run.1.unread ≡ t.unread)
        × (run.1.hashed ≡ t.hashed ++ run.0)
        × (run.1.bytes ≡ t.bytes + length run.0)
        × (run.1.expect ≡ t.expect))
unfolding read_all read
read_all-counts t [] = (refl, sym (append-nil t.hashed), omega arith, refl)
read_all-counts t (size ∷ sizes) =
    let one = read t size in
    let more = (read_all one.1 sizes).0 in
    let (left, hashed, bytes, expect) = read_all-counts one.1 sizes in
    (
      append_assoc one.0 more _ ∙ ap (λ u. one.0 ++ u) left ∙ take-drop size t.unread,
      hashed ∙ append_assoc t.hashed one.0 more,
      omega (arith, bytes, length-append one.0 more),
      expect,
    )

empty_rest : (out rest : List ℕ) → length (out ++ rest) ≡ length out → rest ≡ []
empty_rest out [] h = refl
empty_rest out (x ∷ rest) h = absurd (omega (arith, h, length-append out (x ∷ rest)))

validate_iff :
    (t : FileWriteTracker) (max_bytes : ℕ)
    → t.bytes ≤ max_bytes
    → (validate t max_bytes ≡ none) ↔ (t.bytes ≡ t.expect)
unfolding validate
validate_iff t max_bytes l = ground arith

-- Where the content of a file write is accepted from its source, then, whatever the buffers of SSH, what it
-- has read and what it has not make up the source; the hash has taken what was read, and the count is that
-- of it and within the limit; and the check behind the run succeeds exactly where the source was read whole.
pub read_file_write_input-read_all :
    (source : List ℕ) (max_bytes : ℕ) (sizes : List ℕ) {content : List ℕ}
    → read_file_write_input (some source) max_bytes ≡ accepted content
    → (let run = read_all (new_file_write_tracker content) sizes in
        (run.0 ++ run.1.unread ≡ source)
        × (run.1.hashed ≡ run.0)
        × (run.1.bytes ≡ length run.0)
        × (run.1.bytes ≤ max_bytes)
        × ((validate run.1 max_bytes ≡ none) ↔ (run.0 ≡ source)))
unfolding new_file_write_tracker
read_file_write_input-read_all source max_bytes sizes {content} h =
    let (whole, bound) = read_file_write_input-accepted source max_bytes h in
    let run = read_all (new_file_write_tracker content) sizes in
    let (left, hashed, bytes, expect) = read_all-counts (new_file_write_tracker content) sizes in
    let parts : run.0 ++ run.1.unread ≡ source = left ∙ whole in
    let count : run.1.bytes ≡ length run.0 = omega (arith, bytes) in
    let total : length run.0 + length run.1.unread ≡ length source =
      sym (length-append run.0 run.1.unread) ∙ ap length parts in
    let expected : run.1.expect ≡ length source = expect ∙ ap length whole in
    let small : run.1.bytes ≤ max_bytes = omega (arith, count, total, bound) in
    let checked = validate_iff run.1 max_bytes small in
    (
      parts,
      hashed,
      count,
      small,
      (
        (λ v.
            let all_read = checked.0 v in
            let none_left : run.1.unread ≡ [] =
              empty_rest run.0 run.1.unread
                (ap length parts ∙ sym expected ∙ sym all_read ∙ count) in
            sym (append-nil run.0) ∙ ap (λ u. run.0 ++ u) (sym none_left) ∙ parts),
        (λ e. checked.1 (count ∙ ap length e ∙ sym expected)),
      ),
    )
