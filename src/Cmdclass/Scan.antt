-- ===== src/Cmdclass/Scan.antt =====
-- `scan` of internal/cmdclass/cmdclass.go: a command is cut into words and operators. The loop over
-- `pos` is a recursion on the units that are left. Its two places that move `pos` on inside one
-- round, the comment loop and the second byte of a repeated operator, are values of `Cursor`.
pub mod Quote
pub mod Operators
pub mod Arguments
use srvgov_cli.Prelude.{
  ℕ, zero, suc, ◌+◌, ◌-◌, ◌*◌, ◌≤◌, ◌<◌, String, ◌≡◌, refl, sym, ap, ◌∙◌, ◌≢◌, ◌↔◌, ◌⊎◌, inl, inr,
  Bool, true, false, not, ◌&&◌, ◌||◌, Option, none, some, List, [], ◌∷◌, ◌++◌, map, append-nil,
  append_assoc, arith, ltb, leb, ◌==◌, if◌then◌else◌, ==_iff, Bool-cases, or_resolve, Option-cases,
  ◌>>=◌, >>=-eq-some, length, take, any, all, length-append, any-append, All, All-append, All-map,
  All-of, IfSome, split_if, IfSome-eq,
}
use srvgov_cli.GoText.{Text, codes, contains_rune, is_space}

pub data ItemKind : Type 0 where
  word_item operator_item : ItemKind

pub record Item : Type 0 where
  pub kind : ItemKind
  pub text : Text
  pub quoted : Bool
  pub unquoted_expansion : Bool

-- The variables of `scan`; `quote` is 0 outside quotes.
pub record Scanner : Type 0 where
  pub items : List Item
  pub token : Text
  pub quote : ℕ
  pub escaped : Bool
  pub at_boundary : Bool
  pub token_started : Bool
  pub token_quoted : Bool
  pub token_unquoted_expansion : Bool

pub data Cursor : Type 0 where
  in_command : Cursor
  in_comment : Cursor
  past_operator : Cursor

abbrev pub initial : Scanner
initial = record {
  items = [];
  token = [];
  quote = 0;
  escaped = false;
  at_boundary = true;
  token_started = false;
  token_quoted = false;
  token_unquoted_expansion = false;
}

abbrev pub operator : Text → Item
operator t = record { kind = operator_item; text = t; quoted = false; unquoted_expansion = false }

unfoldable pub flush : Scanner → Scanner
flush s =
    if s.token_started
    then record s {
      items =
          s.items
          ++ record {
            kind = word_item;
            text = s.token;
            quoted = s.token_quoted;
            unquoted_expansion = s.token_unquoted_expansion;
          }
            ∷ [];
      token = [];
      token_started = false;
      token_quoted = false;
      token_unquoted_expansion = false;
    }
    else s

unfoldable pub is_expansion_rune : ℕ → Bool
unfolding contains_rune
is_expansion_rune value = contains_rune "{}*?[" value

-- No unit is left at the end of the command, where the source tests `pos < len(command)` first.
unfoldable pub is_repeated_operator : ℕ → Text → Bool
is_repeated_operator op [] = false
is_repeated_operator op (next ∷ _) =
    if op == b'|'
    then next == b'|'
    else if op == b'&'
    then next == b'&'
    else if op == b'>'
    then next == b'>'
    else false

-- `r == utf8.RuneError && size == 1 || r == 0`
abbrev pub is_rejected : ℕ → Bool
is_rejected r = leb 0x110000 r || r == 0

write : Scanner → ℕ → Scanner
write s r = record s { token = s.token ++ r ∷ [] }

step_escaped : Scanner → ℕ → Scanner
unfolding write contains_rune
step_escaped s r =
    let kept = if s.quote == b'"' && not (contains_rune "$`\"\\" r) then write s 92 else s in
    if r == 10 then record s { escaped = false } else record (write kept r) {
      token_started = true;
      token_quoted = true;
      escaped = false;
      at_boundary = false;
    }

step_quoted : Scanner → ℕ → Option Scanner
unfolding write
step_quoted s r =
    if r == s.quote
    then some (record s { quote = 0 })
    else if s.quote == b'"' && r == 92
    then some (record s { escaped = true })
    else if s.quote == b'"' && (r == b'$' || r == b'`')
    then none
    else some (record (write s r) { token_started = true; at_boundary = false })

emit : Scanner → Text → Scanner
emit s t = record s { items = s.items ++ operator t ∷ []; at_boundary = true }

step_plain : Scanner → ℕ → Text → Option (Cursor × Scanner)
unfolding write emit flush is_expansion_rune is_repeated_operator contains_rune is_space
step_plain s r rest =
    if r == 92
    then some (in_command, record s { escaped = true })
    else if r == 39 || r == b'"'
    then some (
      in_command,
      record s { quote = r; token_started = true; token_quoted = true; at_boundary = false },
    )
    else if r == b'$' || r == b'`' || r == b'(' || r == b')'
    then none
    else if r == b'#' && s.at_boundary
    then some (in_comment, record (flush s) { at_boundary = true })
    else if r == 10
    then some (in_command, emit (flush s) (codes ";"))
    else if is_space r
    then some (in_command, record (flush s) { at_boundary = true })
    else if contains_rune "|&;><" r
    then (if is_repeated_operator r rest
        then some (past_operator, emit (flush s) (r ∷ r ∷ []))
        else some (in_command, emit (flush s) (r ∷ [])))
    else some (
      in_command,
      record (write s r) {
        token_unquoted_expansion =
            if is_expansion_rune r || r == b'~' && not s.token_started
            then true
            else s.token_unquoted_expansion;
        token_started = true;
        at_boundary = false;
      },
    )

-- One round of the loop at the unit `r`, with `rest` behind it.
unfoldable pub step : Cursor → Scanner → ℕ → Text → Option (Cursor × Scanner)
unfolding step_escaped step_quoted step_plain emit
step in_comment s r rest =
    if r == 10 then some (in_command, emit s (codes ";")) else some (in_comment, s)
step past_operator s r rest = some (in_command, s)
step in_command s r rest =
    if is_rejected r
    then none
    else if s.escaped
    then some (in_command, step_escaped s r)
    else if not (s.quote == 0)
    then (step_quoted s r >>= λ s'. some (in_command, s'))
    else step_plain s r rest

unfoldable pub run : Cursor → Scanner → Text → Option Scanner
run c s [] = some s
run c s (r ∷ rest) = step c s r rest >>= λ (c', s'). run c' s' rest

-- The tests behind the loop.
unfoldable pub finish : Scanner → Option (List Item)
unfolding flush
finish s = if not (s.quote == 0) || s.escaped then none else some (flush s).items

-- `none` where the source returns `false`.
unfoldable pub scan : Text → Option (List Item)
unfolding run step finish
scan command = run in_command initial command >>= finish
