-- ===== src/Cmdclass/Scan/Operators.antt =====
-- What the items of a scan look like, whatever the command.
use srvgov_cli.Prelude.{
  ℕ, String, ◌≡◌, refl, ◌⊎◌, inl, inr, Bool, true, false, not, ◌&&◌, ◌||◌, some, List, [], ◌∷◌,
  ◌++◌, arith, ◌==◌, if◌then◌else◌, Bool-cases, Option-cases, ◌>>=◌, >>=-eq-some, All, All-append,
  IfSome, split_if, IfSome-eq,
}
use srvgov_cli.GoText.{is, Text, contains_rune, is_space, has_exact_word}
use srvgov_cli.Cmdclass.Scan.{
  Item, word_item, operator_item, Scanner, Cursor, in_command, in_comment, past_operator, initial,
  step, run, finish, scan, flush, is_expansion_rune, is_repeated_operator, emit, step_escaped,
  step_quoted, step_plain, is_rejected,
}

abbrev pub operators : List String
operators = ";" ∷ "|" ∷ "||" ∷ "&" ∷ "&&" ∷ ">" ∷ ">>" ∷ "<" ∷ []

-- A unit that means something to the shell wherever it stands outside quotes.
unfoldable pub is_special : ℕ → Bool
unfolding contains_rune is_space
is_special r =
    r == 92
    || r == 39
    || r == b'"'
    || r == b'$'
    || r == b'`'
    || r == b'('
    || r == b')'
    || r == 10
    || is_space r
    || contains_rune "|&;><" r

abbrev pub IsPlain : ℕ → Type 0
IsPlain r = is_special r ≡ false

abbrev pub IsFixed : ℕ → Type 0
IsFixed r = is_expansion_rune r ≡ false

-- A word with no quoted part has no special unit, and no expansion that it does not announce.
abbrev pub IsShellWord : Text → Bool → Bool → Type 0
IsShellWord text quoted expansion =
    (quoted ≡ true) ⊎ (All IsPlain text × ((expansion ≡ true) ⊎ All IsFixed text))

abbrev pub IsShellItem : Item → Type 0
IsShellItem i = elim i.kind [
  | word_item ↦ IsShellWord i.text i.quoted i.unquoted_expansion
  | operator_item ↦ has_exact_word i.text operators ≡ true
]

record Inv (s : Scanner) : Type 0 where
  whole : All IsShellItem s.items
  token : IsShellWord s.token s.token_quoted s.token_unquoted_expansion
  quotes : ((s.quote == 0) ≡ true) ⊎ (s.token_quoted ≡ true)

flush-Inv : (s : Scanner) → Inv s → (s.quote == 0) ≡ true → Inv (flush s)
unfolding flush
flush-Inv s i q = elim (Bool-cases s.token_started) [
  | inl on ↦ simp on (record {
    whole = All-append IsShellItem s.items _ i.whole (i.token, tt);
    token = inr (tt, inr tt);
    quotes = inl q;
  })
  | inr off ↦ simp off i
]

emit-Inv : (s : Scanner) (t : Text) → Inv s → has_exact_word t operators ≡ true → Inv (emit s t)
unfolding emit
emit-Inv s t i o = record {
  whole = All-append IsShellItem s.items _ i.whole (o, tt);
  token = i.token;
  quotes = i.quotes;
}

flush-quote : (s : Scanner) → (flush s).quote ≡ s.quote
unfolding flush
flush-quote s = ground arith

step_escaped-Inv : (s : Scanner) (r : ℕ) → Inv s → Inv (step_escaped s r)
unfolding step_escaped
step_escaped-Inv s r i = elim (Bool-cases (r == 10)) [
  | inl n ↦ simp n (record { whole = i.whole; token = i.token; quotes = i.quotes })
  | inr n ↦ simp n (record { whole = ground arith; token = inl refl; quotes = inr refl })
]

step_quoted-Inv :
    (s : Scanner) (r : ℕ) → Inv s → (s.quote == 0) ≡ false → IfSome Inv (step_quoted s r)
unfolding step_quoted
step_quoted-Inv s r i q =
    let quoted : s.token_quoted ≡ true = ground arith in
    split_if (IfSome Inv) (r == s.quote)
      (λ _. record { whole = i.whole; token = i.token; quotes = inl refl })
      λ _.
        split_if (IfSome Inv) (s.quote == b'"' && r == 92)
          (λ _. record { whole = i.whole; token = i.token; quotes = i.quotes })
          λ _.
            split_if (IfSome Inv) (s.quote == b'"' && (r == b'$' || r == b'`')) (λ _. tt)
              λ _. record { whole = i.whole; token = inl quoted; quotes = inr quoted }

-- The texts of the operators that one round emits.
single-operators :
    (r : ℕ) → contains_rune "|&;><" r ≡ true → has_exact_word (r ∷ []) operators ≡ true
unfolding contains_rune has_exact_word is
single-operators r h = ground arith

double-operators :
    (r : ℕ) (rest : Text)
    → is_repeated_operator r rest ≡ true
    → has_exact_word (r ∷ r ∷ []) operators ≡ true
unfolding is_repeated_operator has_exact_word is
double-operators r [] h = ground arith
double-operators r (next ∷ rest) h = ground arith

abbrev InvAt : Cursor × Scanner → Type 0
InvAt (c, s) = Inv s

-- The last branch: a unit that is no special one is appended to the token.
write_plain-token :
    (s : Scanner) (r : ℕ)
    → Inv s
    → IsPlain r
    → IsShellWord (s.token ++ r ∷ []) s.token_quoted (
        if is_expansion_rune r || r == b'~' && not s.token_started
        then true
        else s.token_unquoted_expansion)
write_plain-token s r i h = elim i.token [
  | inl q ↦ inl q
  | inr (plain, marked) ↦ inr (
    All-append IsPlain s.token _ plain (h, tt),
    elim (Bool-cases (is_expansion_rune r)) [
      | inl e ↦ inl (rw e)
      | inr n ↦ elim marked [
        | inl m ↦ inl (ground arith)
        | inr fixed ↦ inr (All-append IsFixed s.token _ fixed (n, tt))
      ]
    ],
  )
]

step_plain-Inv :
    (s : Scanner) (r : ℕ) (rest : Text)
    → Inv s
    → (s.quote == 0) ≡ true
    → IfSome InvAt (step_plain s r rest)
unfolding step_plain is_special
step_plain-Inv s r rest i q =
    let flushed = flush-Inv s i q in
    let kept : Inv (record (flush s) { at_boundary = true }) = record {
      whole = flushed.whole;
      token = flushed.token;
      quotes = flushed.quotes;
    } in
    split_if (IfSome InvAt) (r == 92)
      (λ _. record { whole = i.whole; token = i.token; quotes = i.quotes })
      λ n₁.
        split_if (IfSome InvAt) (r == 39 || r == b'"')
          (λ _. record { whole = i.whole; token = inl refl; quotes = inr refl })
          λ n₂.
            split_if (IfSome InvAt) (r == b'$' || r == b'`' || r == b'(' || r == b')') (λ _. tt)
              λ n₃.
                split_if (IfSome InvAt) (r == b'#' && s.at_boundary) (λ _. kept)
                  λ _.
                    split_if (IfSome InvAt) (r == 10)
                      (λ _. emit-Inv (flush s) _ flushed (single-operators b';' refl))
                      λ n₄.
                        split_if (IfSome InvAt) (is_space r) (λ _. kept)
                          λ n₅.
                            split_if (IfSome InvAt) (contains_rune "|&;><" r)
                              (λ o.
                                split_if (IfSome InvAt) (is_repeated_operator r rest)
                                  (λ two.
                                    emit-Inv (flush s) _ flushed (double-operators r rest two))
                                  (λ _. emit-Inv (flush s) _ flushed (single-operators r o)))
                              λ n₆. record {
                                whole = i.whole;
                                token = write_plain-token s r i (ground arith);
                                quotes = i.quotes;
                              }

-- The quoted branch of a round keeps the invariant, beside the cursor.
step_quoted-InvAt :
    (s : Scanner) (r : ℕ)
    → Inv s
    → (s.quote == 0) ≡ false
    → IfSome InvAt (step_quoted s r >>= λ s'. some (in_command, s'))
step_quoted-InvAt s r i q = elim (Option-cases (step_quoted s r)) [
  | inl e ↦ rw e tt
  | inr (s', e) ↦ rw e (IfSome-eq Inv (step_quoted-Inv s r i q) e)
]

step-Inv : (c : Cursor) (s : Scanner) (r : ℕ) (rest : Text) → Inv s → IfSome InvAt (step c s r rest)
unfolding step
step-Inv in_comment s r rest i =
    split_if (IfSome InvAt) (r == 10) (λ _. emit-Inv s _ i (single-operators b';' refl)) λ _. i
step-Inv past_operator s r rest i = i
step-Inv in_command s r rest i =
    split_if (IfSome InvAt) (is_rejected r) (λ _. tt)
      λ _.
        split_if (IfSome InvAt) s.escaped (λ _. step_escaped-Inv s r i)
          λ _.
            split_if (IfSome InvAt) (not (s.quote == 0))
              (λ q. step_quoted-InvAt s r i (ground arith))
              λ q. step_plain-Inv s r rest i (ground arith)

run-Inv : (c : Cursor) (s : Scanner) (t : Text) → Inv s → IfSome Inv (run c s t)
unfolding run
run-Inv c s [] i = i
run-Inv c s (r ∷ rest) i = elim (Option-cases (step c s r rest)) [
  | inl e ↦ rw e tt
  | inr ((c', s'), e) ↦ rw e (run-Inv c' s' rest (IfSome-eq InvAt (step-Inv c s r rest i) e))
]

finish-IsShellItem : (s : Scanner) → Inv s → IfSome (All IsShellItem) (finish s)
unfolding finish
finish-IsShellItem s i =
    split_if (IfSome (All IsShellItem)) (not (s.quote == 0) || s.escaped) (λ _. tt)
      λ closed. (flush-Inv s i (ground arith)).whole

initial-Inv : Inv initial
initial-Inv = record { whole = tt; token = inr (tt, inr tt); quotes = inl refl }

-- Every item of every scan is an operator of the eight, or a word; a word with no quoted part holds
-- no unit that is special to the shell, and no expansion that its flag does not announce.
pub scan-IsShellItem :
    (command : Text) {items : List Item} → scan command ≡ some items → All IsShellItem items
unfolding scan
scan-IsShellItem command e =
    let (s, ran, ended) = >>=-eq-some (run in_command initial command) finish e in
    IfSome-eq (All IsShellItem)
      (finish-IsShellItem s (IfSome-eq Inv (run-Inv in_command initial command initial-Inv) ran))
      ended
