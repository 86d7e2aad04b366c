-- ===== src/Spool/Names/Order.antt =====
-- Names in the order of `sort.Strings`, which is that of their sequences.
use srvgov_cli.Prelude.{
  ℕ, ◌+◌, ◌-◌, ◌*◌, ◌≤◌, ◌<◌, ◌≡◌, refl, sym, ◌∙◌, inl, inr, Bool, true, false, some, [], ◌∷◌, ◌++◌,
  arith, ltb, ◌==◌, if◌then◌else◌, ==_iff, Bool-cases, Option-cases, length,
}
use srvgov_cli.GoText.{Text, byte_length, cut, unit_bytes}
use srvgov_cli.Spool.Names.{parse_loop, parse_uint, nonzero, mutation_spool_name_sequence}

-- `a < b` on strings, whose bytes are in the order of their units
unfoldable pub less : Text → Text → Bool
less [] [] = false
less [] (y ∷ ys) = true
less (x ∷ xs) [] = false
less (x ∷ xs) (y ∷ ys) = let rest = less xs ys in if x == y then rest else ltb x y

pub parse_loop_digit :
    (acc x : ℕ) (t : Text) {m : ℕ}
    → parse_loop acc (x ∷ t) ≡ some m
    → (48 ≤ x) × (x ≤ 57) × (parse_loop (acc * 10 + (x - 48)) t ≡ some m)
unfolding parse_loop
parse_loop_digit acc x t h = ground arith

pub parse_loop_bytes :
    (acc : ℕ) (t : Text) {m : ℕ} → parse_loop acc t ≡ some m → byte_length t ≡ length t
unfolding byte_length unit_bytes
parse_loop_bytes acc [] h = refl
parse_loop_bytes acc (x ∷ t) h =
    let (l, u, r) = parse_loop_digit acc x t h in
    ground (arith, parse_loop_bytes (acc * 10 + (x - 48)) t r)

parse_loop_lt :
    (a b : ℕ) (t u : Text) {m n : ℕ}
    → a < b
    → length t ≡ length u
    → parse_loop a t ≡ some m
    → parse_loop b u ≡ some n
    → m < n
unfolding parse_loop
parse_loop_lt a b [] [] l e h k = ground arith
parse_loop_lt a b [] (y ∷ u) l e h k = absurd (omega (arith, e))
parse_loop_lt a b (x ∷ t) [] l e h k = absurd (omega (arith, e))
parse_loop_lt a b (x ∷ t) (y ∷ u) l e h k =
    let (lx, ux, rx) = parse_loop_digit a x t h in
    let (ly, uy, ry) = parse_loop_digit b y u k in
    parse_loop_lt (a * 10 + (x - 48)) (b * 10 + (y - 48)) t u (omega arith) (omega (arith, e)) rx ry

parse_loop-less :
    (a : ℕ) (t u p q : Text) {m n : ℕ}
    → length t ≡ length u
    → parse_loop a t ≡ some m
    → parse_loop a u ≡ some n
    → m < n
    → less (t ++ p) (u ++ q) ≡ true
unfolding less
parse_loop-less a [] [] p q e h k l = absurd (unfold parse_loop in ground arith)
parse_loop-less a [] (y ∷ u) p q e h k l = absurd (omega (arith, e))
parse_loop-less a (x ∷ t) [] p q e h k l = absurd (omega (arith, e))
parse_loop-less a (x ∷ t) (y ∷ u) p q e h k l =
    let (lx, ux, rx) = parse_loop_digit a x t h in
    let (ly, uy, ry) = parse_loop_digit a y u k in
    let lengths : length t ≡ length u = omega (arith, e) in
    elim (Bool-cases (x == y)) [
      | inl same ↦
          let eq = (==_iff x y).0 same in
          rw same (parse_loop-less (a * 10 + (x - 48)) t u p q lengths rx (rw eq ry) l)
      | inr other ↦ elim (Bool-cases (ltb x y)) [
        | inl lt ↦ rw (other, lt) refl
        | inr ge ↦ absurd (
            omega (
              arith,
              parse_loop_lt (a * 10 + (y - 48)) (a * 10 + (x - 48)) u t (ground arith) (sym lengths)
                  ry rx,
              l,
            ))
      ]
    ]

cut-eq : (s : Text) (c : ℕ) {a b : Text} → cut s c ≡ some (a, b) → s ≡ a ++ c ∷ b
unfolding cut
cut-eq [] c e = cc
cut-eq (x ∷ s) c {a} {b} e = elim (Bool-cases (x == c)) [
  | inl same ↦ let eq = (==_iff x c).0 same in ground arith
  | inr other ↦ elim (Option-cases (cut s c)) [
    | inl none_found ↦ absurd (ground arith)
    | inr ((p, q), f) ↦ let rest = cut-eq s c f in ground arith
  ]
]

parse_uint_digits : (t : Text) {n : ℕ} → nonzero (parse_uint t) ≡ some n → parse_loop 0 t ≡ some n
unfolding nonzero parse_uint
parse_uint_digits [] h = cc
parse_uint_digits (x ∷ t) h = elim (Option-cases (parse_loop 0 (x ∷ t))) [
  | inl e ↦ absurd (ground arith)
  | inr (n, e) ↦ ground arith
]

-- A name with a sequence is the 20 digits of it, before a dash.
pub sequence-parts :
    (name : Text) {n : ℕ}
    → mutation_spool_name_sequence name ≡ some n
    → (digits rest : Text) × (name ≡ digits ++ b'-' ∷ rest)
      × (length digits ≡ 20)
      × (parse_loop 0 digits ≡ some n)
unfolding mutation_spool_name_sequence
sequence-parts name {n} h = elim (Option-cases (cut name b'-')) [
  | inl e ↦ absurd (ground arith)
  | inr ((before, behind), e) ↦ elim (Bool-cases (byte_length before == 20)) [
    | inr wrong ↦ absurd (ground arith)
    | inl right ↦
        let value : nonzero (parse_uint before) ≡ some n = ground arith in
        let digits : parse_loop 0 before ≡ some n = parse_uint_digits before value in
        (
          before,
          behind,
          cut-eq name b'-' e,
          omega (arith, (==_iff (byte_length before) 20).0 right, parse_loop_bytes 0 before digits),
          digits,
        )
  ]
]

-- Two names of the spool are in the order of their sequences.
pub sequence-less :
    (a b : Text) {m n : ℕ}
    → mutation_spool_name_sequence a ≡ some m
    → mutation_spool_name_sequence b ≡ some n
    → m < n
    → less a b ≡ true
sequence-less a b ha hb l =
    let (da, ra, ea, la, pa) = sequence-parts a ha in
    let (db, rb, eb, lb, pb) = sequence-parts b hb in
    rw (ea, eb) (parse_loop-less 0 da db (b'-' ∷ ra) (b'-' ∷ rb) (la ∙ sym lb) pa pb l)
