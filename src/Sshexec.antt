-- ===== src/Sshexec.antt =====
-- `boundedBuffer` of internal/sshexec/sshexec.go, which captures one stream of a remote command.
use srvgov_cli.Prelude.{
  ℕ, zero, suc, ◌-◌, ◌≤◌, ◌<◌, ◌≡◌, refl, sym, ap, ◌∙◌, inl, inr, Bool, true, false, ◌||◌, List, [],
  ◌∷◌, ◌++◌, append-nil, append_assoc, arith, ltb, ◌==◌, if◌then◌else◌, Bool-cases, length, take,
  length-append,
}

pub record BoundedBuffer : Type 0 where
  pub buffer : List ℕ
  pub max_bytes : ℕ
  pub truncated : Bool

unfoldable pub new_bounded_buffer : ℕ → BoundedBuffer
new_bounded_buffer max_bytes = record { buffer = []; max_bytes = max_bytes; truncated = false }

-- `Write`: the number that it reports, and the buffer behind it. The source's `remaining <= 0` is
-- `remaining == 0` here, where subtraction stops at 0.
unfoldable pub write : BoundedBuffer → List ℕ → ℕ × BoundedBuffer
write b chunk =
    let written = length chunk in
    let remaining = b.max_bytes - length b.buffer in
    if remaining == 0
    then (written, record b { truncated = b.truncated || ltb 0 written })
    else if ltb remaining written
    then (written, record b { buffer = b.buffer ++ take remaining chunk; truncated = true })
    else (written, record b { buffer = b.buffer ++ chunk })

-- The buffer behind a sequence of writes.
unfoldable pub write_all : BoundedBuffer → List (List ℕ) → BoundedBuffer
write_all b [] = b
write_all b (chunk ∷ chunks) = write_all (write b chunk).1 chunks

-- A stream that was captured whole: its first bytes, and whether there were more.
unfoldable pub capture : ℕ → List ℕ → BoundedBuffer
capture max_bytes stream = record {
  buffer = take max_bytes stream;
  max_bytes = max_bytes;
  truncated = ltb max_bytes (length stream);
}

unfoldable pub concat : List (List ℕ) → List ℕ
concat [] = []
concat (chunk ∷ chunks) = chunk ++ concat chunks

take_all : (n : ℕ) (xs : List ℕ) → length xs ≤ n → take n xs ≡ xs
take_all zero [] h = refl
take_all zero (x ∷ xs) h = absurd (omega arith)
take_all (suc n) [] h = refl
take_all (suc n) (x ∷ xs) h = ap (λ r. x ∷ r) (take_all n xs (omega arith))

take_over : (n : ℕ) (xs ys : List ℕ) → n ≤ length xs → take n (xs ++ ys) ≡ take n xs
take_over zero xs ys h = refl
take_over (suc n) [] ys h = absurd (omega arith)
take_over (suc n) (x ∷ xs) ys h = ap (λ r. x ∷ r) (take_over n xs ys (omega arith))

take_under :
    (n : ℕ) (xs ys : List ℕ) → length xs ≤ n → take n (xs ++ ys) ≡ xs ++ take (n - length xs) ys
take_under n [] ys h = let same : n ≡ n - 0 = omega arith in ap (λ k. take k ys) same
take_under zero (x ∷ xs) ys h = absurd (omega arith)
take_under (suc n) (x ∷ xs) ys h =
    let same : n - length xs ≡ suc n - suc (length xs) = omega arith in
    ap (λ r. x ∷ r) (take_under n xs ys (omega arith) ∙ ap (λ k. xs ++ take k ys) same)

length-take : (n : ℕ) (xs : List ℕ) → n ≤ length xs → length (take n xs) ≡ n
length-take zero xs h = refl
length-take (suc n) [] h = absurd (omega arith)
length-take (suc n) (x ∷ xs) h = ap suc (length-take n xs (omega arith))

buffer_eq :
    (n : ℕ) {b b' : List ℕ} {t t' : Bool}
    → b ≡ b'
    → t ≡ t'
    → ◌≡◌ {A = BoundedBuffer}
        (record { buffer = b; max_bytes = n; truncated = t })
        (record { buffer = b'; max_bytes = n; truncated = t' })
buffer_eq n p q = rw (p, q) refl

write_full :
    (n : ℕ) (stream chunk : List ℕ)
    → n ≤ length stream
    → (write (capture n stream) chunk).1 ≡ capture n (stream ++ chunk)
unfolding write capture
write_full n stream chunk h =
    let none_left : (n - length (take n stream) == 0) ≡ true =
      ground (arith, length-take n stream h) in
    rw none_left
      (buffer_eq n (sym (take_over n stream chunk h)) (ground (arith, length-append stream chunk)))

write_part :
    (n : ℕ) (stream chunk : List ℕ)
    → length stream < n
    → (write (capture n stream) chunk).1 ≡ capture n (stream ++ chunk)
unfolding write capture
write_part n stream chunk h =
    let some_left : (n - length stream == 0) ≡ false = ground arith in
    let cut_ : take n (stream ++ chunk) ≡ stream ++ take (n - length stream) chunk =
      take_under n stream chunk (omega arith) in
    elim (Bool-cases (ltb (n - length stream) (length chunk))) [
      | inl l ↦
          rw (take_all n stream (omega arith), some_left, l)
            (buffer_eq n (sym cut_) (ground (arith, length-append stream chunk)))
      | inr l ↦
          rw (take_all n stream (omega arith), some_left, l)
            (buffer_eq n (sym (cut_ ∙ ap (λ r. stream ++ r) (take_all _ chunk (ground arith))))
              (ground (arith, length-append stream chunk)))
    ]

write-capture :
    (n : ℕ) (stream chunk : List ℕ)
    → (write (capture n stream) chunk).1 ≡ capture n (stream ++ chunk)
write-capture n stream chunk = elim (Bool-cases (ltb (length stream) n)) [
  | inl l ↦ write_part n stream chunk (ground arith)
  | inr l ↦ write_full n stream chunk (ground arith)
]

write_all-capture_from :
    (n : ℕ) (stream : List ℕ) (chunks : List (List ℕ))
    → write_all (capture n stream) chunks ≡ capture n (stream ++ concat chunks)
unfolding write_all concat
write_all-capture_from n stream [] = rw append-nil refl
write_all-capture_from n stream (chunk ∷ chunks) =
    rw (write-capture n stream chunk)
      (write_all-capture_from n (stream ++ chunk) chunks ∙ rw append_assoc refl)

take_nil : (n : ℕ) → take {A = ℕ} n [] ≡ []
take_nil zero = refl
take_nil (suc n) = refl

new_bounded_buffer-capture : (n : ℕ) → new_bounded_buffer n ≡ capture n []
unfolding new_bounded_buffer capture
new_bounded_buffer-capture n = buffer_eq n (sym (take_nil n)) (ground arith)

-- However a stream is cut into writes, the buffer holds its first `max_bytes` bytes, and is marked as
-- truncated exactly when the stream is longer.
pub write_all-capture :
    (n : ℕ) (chunks : List (List ℕ))
    → write_all (new_bounded_buffer n) chunks ≡ capture n (concat chunks)
write_all-capture n chunks = rw new_bounded_buffer-capture (write_all-capture_from n [] chunks)
