-- ===== src/Cmdclass/Scan/Quote.antt =====
-- The scanner over the output of `ShellQuote` of internal/observe/logs.go.
use srvgov_cli.Prelude.{
  ℕ, ◌≡◌, refl, ap, ◌∙◌, inl, inr, true, false, Option, some, List, [], ◌∷◌, ◌++◌, map, append-nil,
  append_assoc, arith, ◌==◌, ==_iff, Bool-cases, ◌>>=◌, All,
}
use srvgov_cli.GoText.{Text, codes}
use srvgov_cli.Observe.ShellQuote.{shell_quote, replace_quotes, shell_quote-append}
use srvgov_cli.Cmdclass.Scan.{
  Item, word_item, Scanner, in_command, initial, is_rejected, step, run, finish, scan,
}

-- A unit that the decoder accepts and that is not NUL.
abbrev pub IsClean : ℕ → Type 0
IsClean r = is_rejected r ≡ false

-- The scanner inside single quotes, `t` read so far.
abbrev pub inside : Scanner → Text → Scanner
inside s t = record s {
  token = t;
  quote = 39;
  escaped = false;
  at_boundary = false;
  token_started = true;
  token_quoted = true;
}

run-inside_plain :
    (s : Scanner) (t : Text) (c : ℕ) (rest : Text)
    → IsClean c
    → (c == 39) ≡ false
    → run in_command (inside s t) (c ∷ rest) ≡ run in_command (inside s (t ++ c ∷ [])) rest
unfolding run step
run-inside_plain s t c rest h n = ground arith

run-inside_quote :
    (s : Scanner) (t rest : Text)
    → run in_command (inside s t) (codes "'\"'\"'" ++ rest)
      ≡ run in_command (inside s (t ++ 39 ∷ [])) rest
unfolding run step
run-inside_quote s t rest = refl

run-replace_quotes :
    (v : Text) (s : Scanner) (t rest : Text)
    → All IsClean v
    → run in_command (inside s t) (replace_quotes v ++ rest)
      ≡ run in_command (inside s (t ++ v)) rest
unfolding replace_quotes
run-replace_quotes [] s t rest h = rw append-nil
run-replace_quotes (c ∷ v) s t rest h = elim (Bool-cases (c == 39)) [
  | inl q ↦
      rw (q, (==_iff c 39).0 q)
        (run-inside_quote s t _ ∙ run-replace_quotes v s (t ++ 39 ∷ []) rest h.1 ∙ rw append_assoc)
  | inr n ↦ rw n (
      run-inside_plain s t c _ h.0 n
      ∙ run-replace_quotes v s (t ++ c ∷ []) rest h.1
      ∙ rw append_assoc)
]

-- The scanner outside quotes, before a word.
abbrev pub between_words : List Item → Scanner
between_words items = record initial { items = items }

abbrev pub quoted_word : Text → Item
quoted_word t = record { kind = word_item; text = t; quoted = true; unquoted_expansion = false }

-- The scanner behind a quoted word, before what ends it.
abbrev pub behind_word : List Item → Text → Scanner
behind_word items t = record initial {
  items = items;
  token = t;
  at_boundary = false;
  token_started = true;
  token_quoted = true;
}

pub run-shell_quote :
    (v : Text) (items : List Item) (rest : Text)
    → All IsClean v
    → run in_command (between_words items) (shell_quote v ++ rest)
      ≡ run in_command (behind_word items v) rest
unfolding run step
run-shell_quote v items rest h =
    rw shell_quote-append (run-replace_quotes v (between_words items) [] (39 ∷ rest) h)

-- `strings.Join` of quoted words, each behind a space.
abbrev pub shell_words : List Text → Text
shell_words [] = []
shell_words (w ∷ ws) = 32 ∷ (shell_quote w ++ shell_words ws)

run-shell_words :
    (ws : List Text) (items : List Item) (t : Text)
    → All (All IsClean) ws
    → (run in_command (behind_word items t) (shell_words ws) >>= finish)
      ≡ some (items ++ quoted_word t ∷ map quoted_word ws)
unfolding run step finish
run-shell_words [] items t h = refl
run-shell_words (w ∷ ws) items t h =
    ap (λ (o : Option Scanner). o >>= finish)
      (run-shell_quote w (items ++ quoted_word t ∷ []) (shell_words ws) h.0)
    ∙ run-shell_words ws (items ++ quoted_word t ∷ []) w h.1
    ∙ rw append_assoc

-- Words that are quoted by `ShellQuote` and joined by spaces are scanned as those words, whatever
-- they hold: quotes, operators, expansions, newlines. No word holds NUL or an undecodable byte.
pub scan-shell_words :
    (w : Text) (ws : List Text)
    → All IsClean w
    → All (All IsClean) ws
    → scan (shell_quote w ++ shell_words ws) ≡ some (map quoted_word (w ∷ ws))
unfolding scan
scan-shell_words w ws h hs =
    ap (λ (o : Option Scanner). o >>= finish) (run-shell_quote w [] (shell_words ws) h)
    ∙ run-shell_words ws [] w hs
