-- ===== src/Cmdclass/Scan/Arguments.antt =====
-- The scanner over a command line that is put together from plain words and quoted words.
use srvgov_cli.Prelude.{
  ℕ, ◌<◌, ◌≡◌, refl, sym, ap, ◌∙◌, ◌≢◌, Bool, true, false, not, ◌&&◌, ◌||◌, Option, some, List, [],
  ◌∷◌, ◌++◌, map, append-nil, append_assoc, arith, ◌==◌, ◌>>=◌, All, holds_below, holds_below-at,
}
use srvgov_cli.GoText.{Text, between}
use srvgov_cli.Observe.ShellQuote.{shell_quote}
use srvgov_cli.Cmdclass.Scan.{
  Item, word_item, Scanner, in_command, initial, is_rejected, step, run, finish, scan,
  is_expansion_rune,
}
use srvgov_cli.Cmdclass.Scan.Operators.{is_special}
use srvgov_cli.Cmdclass.Scan.Quote.{IsClean, between_words, run-shell_quote}

-- The units of words that need no quotes.
unfoldable pub is_bare : ℕ → Bool
is_bare r =
    between b'a' b'z' r
    || between b'A' b'Z' r
    || between b'+' b':' r
    || r == b'='
    || r == b'_'
    || r == b'%'

-- The scanner at the end of a word, before what ends it.
abbrev pub word_state : List Item → Text → Bool → Scanner
word_state items t q = record initial {
  items = items;
  token = t;
  at_boundary = false;
  token_started = true;
  token_quoted = q;
}

-- What the scanner asks about a unit outside quotes.
abbrev is_ordinary : ℕ → Bool
is_ordinary r =
    not (is_rejected r)
    && not (is_special r)
    && not (is_expansion_rune r)
    && not (r == b'#')
    && not (r == b'~')

bare_table : holds_below 128 (λ r. not (is_bare r) || is_ordinary r) ≡ true
unfolding holds_below is_bare is_special is_expansion_rune
bare_table = refl

is_bare-lt : (r : ℕ) → is_bare r ≡ true → r < 128
unfolding is_bare
is_bare-lt r h = ground arith

bare_unit : (r : ℕ) → is_bare r ≡ true → is_ordinary r ≡ true
bare_unit r h =
    let all =
      holds_below-at 128 (λ r. not (is_bare r) || is_ordinary r) r bare_table (is_bare-lt r h) in
    ground arith

run-bare_first :
    (items : List Item) (r : ℕ) (rest : Text)
    → is_ordinary r ≡ true
    → run in_command (between_words items) (r ∷ rest)
      ≡ run in_command (word_state items (r ∷ []) false) rest
unfolding run step is_special
run-bare_first items r rest h = ground arith

run-bare_next :
    (items : List Item) (t : Text) (r : ℕ) (rest : Text)
    → is_ordinary r ≡ true
    → run in_command (word_state items t false) (r ∷ rest)
      ≡ run in_command (word_state items (t ++ r ∷ []) false) rest
unfolding run step is_special
run-bare_next items t r rest h = ground arith

abbrev pub IsBare : ℕ → Type 0
IsBare r = is_bare r ≡ true

run-bare_rest :
    (items : List Item) (w t rest : Text)
    → All IsBare w
    → run in_command (word_state items t false) (w ++ rest)
      ≡ run in_command (word_state items (t ++ w) false) rest
run-bare_rest items [] t rest h = rw append-nil
run-bare_rest items (r ∷ w) t rest h =
    run-bare_next items t r (w ++ rest) (bare_unit r h.0)
    ∙ run-bare_rest items w (t ++ r ∷ []) rest h.1
    ∙ rw append_assoc

-- One argument of a command line.
pub data Arg : Type 0 where
  bare quoted : Text → Arg

abbrev pub arg_text : Arg → Text
arg_text (bare w) = w
arg_text (quoted v) = shell_quote v

abbrev pub arg_word : Arg → Text
arg_word (bare w) = w
arg_word (quoted v) = v

abbrev pub arg_item : Arg → Item
arg_item (bare w) = record {
  kind = word_item;
  text = w;
  quoted = false;
  unquoted_expansion = false;
}
arg_item (quoted v) = record {
  kind = word_item;
  text = v;
  quoted = true;
  unquoted_expansion = false;
}

-- A plain word has a unit, and plain units alone; a quoted one is clean.
abbrev pub IsArg : Arg → Type 0
IsArg (bare w) = (w ≢ []) × All IsBare w
IsArg (quoted v) = All IsClean v

-- The arguments with a space between them.
unfoldable pub line : Arg → List Arg → Text
line a [] = arg_text a
line a (b ∷ bs) = arg_text a ++ (32 ∷ line b bs)

abbrev is_quoted : Arg → Bool
is_quoted (bare _) = false
is_quoted (quoted _) = true

run-arg :
    (items : List Item) (a : Arg) (rest : Text)
    → IsArg a
    → run in_command (between_words items) (arg_text a ++ rest)
      ≡ run in_command (word_state items (arg_word a) (is_quoted a)) rest
run-arg items (bare []) rest h = absurd (h.0 refl)
run-arg items (bare (r ∷ w)) rest h =
    run-bare_first items r (w ++ rest) (bare_unit r h.1.0)
    ∙ run-bare_rest items w (r ∷ []) rest h.1.1
run-arg items (quoted v) rest h = run-shell_quote v items rest h

run_space :
    (items : List Item) (a : Arg) (rest : Text)
    → run in_command (word_state items (arg_word a) (is_quoted a)) (32 ∷ rest)
      ≡ run in_command (between_words (items ++ arg_item a ∷ [])) rest
unfolding run step
run_space items (bare w) rest = refl
run_space items (quoted v) rest = refl

finish-arg :
    (items : List Item) (a : Arg)
    → finish (word_state items (arg_word a) (is_quoted a)) ≡ some (items ++ arg_item a ∷ [])
unfolding finish
finish-arg items (bare w) = refl
finish-arg items (quoted v) = refl

abbrev finished : Option Scanner → Option (List Item)
finished o = o >>= finish

line_one : (a : Arg) → line a [] ≡ arg_text a ++ []
unfolding line
line_one a = sym (append-nil (arg_text a))

line_more : (a b : Arg) (bs : List Arg) → line a (b ∷ bs) ≡ arg_text a ++ (32 ∷ line b bs)
unfolding line
line_more a b bs = refl

run-end : (s : Scanner) → finished (run in_command s []) ≡ finish s
unfolding run
run-end s = refl

run-line :
    (items : List Item) (a : Arg) (bs : List Arg)
    → All IsArg (a ∷ bs)
    → finished (run in_command (between_words items) (line a bs))
      ≡ some (items ++ arg_item a ∷ map arg_item bs)
run-line items a [] h =
    rw line_one (ap finished (run-arg items a [] h.0) ∙ run-end _ ∙ finish-arg items a)
run-line items a (b ∷ bs) h = rw line_more (
    ap finished (run-arg items a (32 ∷ line b bs) h.0 ∙ run_space items a (line b bs))
    ∙ run-line (items ++ arg_item a ∷ []) b bs h.1
    ∙ rw append_assoc)

-- A command line of plain and quoted words is scanned as those words, without an operator.
pub scan-line :
    (a : Arg) (bs : List Arg) → All IsArg (a ∷ bs) → scan (line a bs) ≡ some (map arg_item (a ∷ bs))
unfolding scan
scan-line a bs h = run-line [] a bs h
