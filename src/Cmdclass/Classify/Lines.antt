-- ===== src/Cmdclass/Classify/Lines.antt =====
-- A command line of plain and quoted words: the class of the line is that of its words.
use srvgov_cli.Prelude.{
  ◌≡◌, refl, ap, ◌∙◌, Bool, true, false, ◌&&◌, List, [], ◌∷◌, map, arith, any, all, All,
}
use srvgov_cli.GoText.{Text, Std}
use srvgov_cli.Cmdclass.Commands.{classify_words}
use srvgov_cli.Cmdclass.Scan.{is_rejected}
use srvgov_cli.Cmdclass.Scan.Quote.{IsClean}
use srvgov_cli.Cmdclass.Scan.Arguments.{
  Arg, bare, quoted, arg_item, arg_word, IsArg, line, scan-line, is_bare, IsBare,
}
use srvgov_cli.Cmdclass.Classify.{
  classify, classify_scanned, classify_segment, texts, expands, has_unquoted_expansion,
}
use srvgov_cli.Cmdclass.Classify.Spec.{is_operator}
use srvgov_cli.Cmdclass.Classify.ReadOnly.{classify_items_words}

no_operators : (args : List Arg) → any is_operator (map arg_item args) ≡ false
no_operators [] = refl
no_operators (bare w ∷ args) = no_operators args
no_operators (quoted v ∷ args) = no_operators args

no_expansions : (args : List Arg) → any expands (map arg_item args) ≡ false
no_expansions [] = refl
no_expansions (bare w ∷ args) = no_expansions args
no_expansions (quoted v ∷ args) = no_expansions args

texts_words : (args : List Arg) → texts (map arg_item args) ≡ map arg_word args
texts_words [] = refl
texts_words (bare w ∷ args) = rw (texts_words args) refl
texts_words (quoted v ∷ args) = rw (texts_words args) refl

unfoldable pub is_plain : Text → Bool
is_plain [] = false
is_plain (c ∷ w) = is_bare c && all is_bare w

all-IsBare : (w : Text) → all is_bare w ≡ true → All IsBare w
all-IsBare [] h = tt
all-IsBare (c ∷ w) h = (ground arith, all-IsBare w (ground arith))

pub plain_word : (w : Text) → is_plain w ≡ true → IsArg (bare w)
unfolding is_plain
plain_word [] h = absurd (ground arith)
plain_word (c ∷ w) h = ((λ e. cc), (ground arith, all-IsBare w (ground arith)))

pub any-IsClean : (v : Text) → any is_rejected v ≡ false → All IsClean v
any-IsClean [] h = tt
any-IsClean (c ∷ v) h = (ground arith, any-IsClean v (ground arith))

module _ ⦃std : Std⦄ where
  segment_words :
      (args : List Arg) → classify_segment (map arg_item args) ≡ classify_words (map arg_word args)
  unfolding classify_segment has_unquoted_expansion
  segment_words args = rw (no_expansions args) (ap classify_words (texts_words args))

  -- A line of plain words and of clean words in quotes has the class of those words.
  pub classify-line :
      (a : Arg) (bs : List Arg)
      → All IsArg (a ∷ bs)
      → classify (line a bs) ≡ classify_words (map arg_word (a ∷ bs))
  classify-line a bs h =
      classify_scanned (line a bs) (scan-line a bs h)
      ∙ classify_items_words (arg_item a) (map arg_item bs) (no_operators (a ∷ bs))
      ∙ segment_words (a ∷ bs)
