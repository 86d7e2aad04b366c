-- ===== src/Cmdclass/Classify/ReadOnly.antt =====
-- What it takes for a command to be R0.
use srvgov_cli.Prelude.{
  ◌≤◌, String, ◌≡◌, refl, sym, ◌∙◌, inl, inr, Bool, true, false, ◌||◌, none, some, List, [], ◌∷◌,
  ◌++◌, append-nil, append_assoc, arith, Bool-cases, Option-cases, any,
}
use srvgov_cli.GoText.{Text, Std, has_exact_word}
use srvgov_cli.Cmdclass.Risk.{r0, r2, max_risk}
use srvgov_cli.Cmdclass.Scan.{Item, scan}
use srvgov_cli.Cmdclass.Commands.{
  classify_words, classify_command, classify_other, is_sudo, is_refused_command,
}
use srvgov_cli.Cmdclass.Words.{command_name, read_only_commands}
use srvgov_cli.Cmdclass.Rm.{classify_rm}
use srvgov_cli.Cmdclass.Curl.{classify_curl}
use srvgov_cli.Cmdclass.Wget.{classify_wget}
use srvgov_cli.Cmdclass.Classify.{
  is_word, classify_segment, classify_items, classify, texts, has_unquoted_expansion, expands,
  classify_scanned, classify_unscanned,
}
use srvgov_cli.Cmdclass.Classify.Spec.{
  is_operator, segments, command_risks, worst, line_risk, verdict, classify_items-verdict,
  has_fine_redirects,
}
use srvgov_cli.Cmdclass.Classify.Bounds.{operator-classify_items}

-- The commands with rules of their own that may be R0.
unfoldable pub inspected_commands : List String
inspected_commands =
    "date" ∷ "hostname" ∷ "journalctl" ∷ "find" ∷ "ss" ∷ "systemctl" ∷ "docker" ∷ "ip" ∷ []

module _ ⦃std : Std⦄ where
  abbrev pub is_reader : Text → Bool
  is_reader command =
      has_exact_word command inspected_commands || has_exact_word command read_only_commands

  classify_rm-ge : (args : List Text) → r2 ≤ classify_rm args
  unfolding classify_rm
  classify_rm-ge args = ground arith

  classify_curl-ge : (args : List Text) → r2 ≤ classify_curl args
  unfolding classify_curl
  classify_curl-ge args = ground arith

  classify_wget-ge : (args : List Text) → r2 ≤ classify_wget args
  unfolding classify_wget
  classify_wget-ge args = ground arith

  classify_other-reader :
      (command : Text) (args : List Text)
      → classify_other command args ≡ r0
      → has_exact_word command read_only_commands ≡ true
  unfolding classify_other
  classify_other-reader command args h = ground arith

  classify_command-reader :
      (command : Text) (args : List Text)
      → classify_command command args ≡ r0
      → is_reader command ≡ true
  unfolding classify_command inspected_commands has_exact_word
  classify_command-reader command args h = ground (
    arith,
    classify_rm-ge args,
    classify_curl-ge args,
    classify_wget-ge args,
    classify_other-reader command args,
  )

  -- The words of an R0 command.
  pub record IsReading (words : List Text) : Type 0 where
    pub command : Text
    pub args : List Text
    pub words_eq : words ≡ command ∷ args
    pub not_refused : is_refused_command command ≡ false
    pub no_sudo : any is_sudo words ≡ false
    pub reader : is_reader (command_name command) ≡ true

  classify_words-IsReading : (words : List Text) → classify_words words ≡ r0 → IsReading words
  unfolding classify_words
  classify_words-IsReading [] h = absurd (omega arith)
  classify_words-IsReading (w ∷ args) h = record {
    command = w;
    args = args;
    words_eq = refl;
    not_refused = ground arith;
    no_sudo = ground arith;
    reader = classify_command-reader (command_name w) args (ground arith);
  }

  -- A line of words alone is one command.
  pub segments_words :
      (current items : List Item)
      → any is_operator items ≡ false
      → segments false current items ≡ (current ++ items) ∷ []
  unfolding segments
  segments_words current [] h = rw append-nil
  segments_words current (i ∷ items) h =
      let word : is_word i ≡ true = ground arith in
      rw word (segments_words (current ++ i ∷ []) items (ground arith) ∙ rw append_assoc)

  has_fine_redirects_words :
      (items : List Item) → any is_operator items ≡ false → has_fine_redirects none items ≡ true
  unfolding has_fine_redirects
  has_fine_redirects_words [] h = refl
  has_fine_redirects_words (i ∷ items) h = ground (arith, has_fine_redirects_words items)

  -- A line with no operator has the class of its one command.
  pub classify_items_words :
      (i : Item) (items : List Item)
      → any is_operator (i ∷ items) ≡ false
      → classify_items (i ∷ items) ≡ classify_segment (i ∷ items)
  unfolding verdict command_risks worst line_risk max_risk
  classify_items_words i items h =
      classify_items-verdict (i ∷ items)
      ∙ ground (arith, has_fine_redirects_words (i ∷ items) h, segments_words [] (i ∷ items) h)

  -- What an R0 line is made of: words alone, no expansion, and a command that reads.
  pub record IsReadLine (items : List Item) : Type 0 where
    pub no_operator : any is_operator items ≡ false
    pub no_expansion : any expands items ≡ false
    pub reading : IsReading (texts items)

  classify_segment-IsReading :
      (parts : List Item)
      → classify_segment parts ≡ r0
      → (any expands parts ≡ false) × IsReading (texts parts)
  unfolding classify_segment has_unquoted_expansion
  classify_segment-IsReading parts h =
      (ground arith, classify_words-IsReading (texts parts) (ground arith))

  classify_items-IsReadLine : (items : List Item) → classify_items items ≡ r0 → IsReadLine items
  classify_items-IsReadLine [] h = absurd (unfold classify_items in omega arith)
  classify_items-IsReadLine (i ∷ items) h = elim (Bool-cases (any is_operator (i ∷ items))) [
    | inl op ↦ absurd (omega (arith, operator-classify_items (i ∷ items) op))
    | inr words ↦
        let (fixed, reads) =
          classify_segment-IsReading (i ∷ items) (sym (classify_items_words i items words) ∙ h) in
        record { no_operator = words; no_expansion = fixed; reading = reads }
  ]

  -- A command that is R0 scans to words alone, with no operator and no expansion outside quotes; its
  -- name is one of the commands that read, it is not one of the refused ones, and none of its words
  -- names sudo.
  pub classify-IsReadLine :
      (command : Text)
      → classify command ≡ r0
      → (items : List Item) × (scan command ≡ some items) × IsReadLine items
  classify-IsReadLine command h = elim (Option-cases (scan command)) [
    | inl e ↦ absurd (omega (arith, classify_unscanned command e))
    | inr (items, e) ↦
        (items, e, classify_items-IsReadLine items (sym (classify_scanned command e) ∙ h))
  ]
