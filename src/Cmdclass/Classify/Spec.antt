-- ===== src/Cmdclass/Classify/Spec.antt =====
-- What `Classify` of internal/cmdclass/cmdclass.go decides, said in three passes over the items: are
-- the redirections allowed, which commands are run, is there an operator.
use srvgov_cli.Prelude.{
  ◌≡◌, refl, sym, ◌∙◌, inl, inr, Bool, true, false, not, ◌&&◌, ◌||◌, Option, none, some, List, [],
  ◌∷◌, ◌++◌, arith, if◌then◌else◌, Option-cases, any,
}
use srvgov_cli.GoText.{Std}
use srvgov_cli.Cmdclass.Risk.{Risk, r0, r3, max_risk, raise}
use srvgov_cli.Cmdclass.Scan.{Item}
use srvgov_cli.Cmdclass.Classify.{
  Progress, start, is_word, is_redirect, is_background, classify_segment, close_segment,
  is_refused_target, classify_step, classify_loop, conclude, classify_items,
}

abbrev pub is_operator : Item → Bool
is_operator i = not (is_word i)

abbrev pub is_pending : Option Item → Bool
is_pending none = false
is_pending (some _) = true

-- The items between the control operators, with the redirections and their targets left out.
unfoldable pub segments : Bool → List Item → List Item → List (List Item)
segments pending current [] = current ∷ []
segments true current (target ∷ items) = segments false current items
segments false current (i ∷ items) =
    let word = segments false (current ++ i ∷ []) items in
    let redirected = segments true current items in
    let closed = current ∷ segments false [] items in
    if is_word i then word else if is_redirect i then redirected else closed

module _ ⦃std : Std⦄ where
  -- No command is sent to the background, and each redirection has a target that is allowed.
  unfoldable pub has_fine_redirects : Option Item → List Item → Bool
  has_fine_redirects redirect [] = not (is_pending redirect)
  has_fine_redirects (some op) (target ∷ items) =
      not (is_refused_target op target) && has_fine_redirects none items
  has_fine_redirects none (i ∷ items) =
      let plain = has_fine_redirects none items in
      let redirected = has_fine_redirects (some i) items in
      if is_word i
      then plain
      else if is_background i
      then false
      else if is_redirect i
      then redirected
      else plain

  -- The risks of the segments that are not empty.
  unfoldable pub command_risks : List (List Item) → List Risk
  command_risks [] = []
  command_risks ([] ∷ parts) = command_risks parts
  command_risks ((i ∷ is) ∷ parts) = classify_segment (i ∷ is) ∷ command_risks parts

unfoldable pub worst : Risk → List Risk → Risk
worst base [] = base
worst base (r ∷ rs) = worst (max_risk base r) rs

abbrev pub is_nonempty : List Risk → Bool
is_nonempty [] = false
is_nonempty (_ ∷ _) = true

-- The risk of a line from that of its commands.
unfoldable pub line_risk : Bool → Bool → Risk → Risk
line_risk has_command has_operator base =
    if has_command then (if has_operator then raise base else base) else r3

module _ ⦃std : Std⦄ where
  abbrev pub risks_of : List Item → List Risk
  risks_of items = command_risks (segments false [] items)

  -- The three passes put together.
  unfoldable pub verdict : List Item → Risk
  verdict items =
      if has_fine_redirects none items
      then line_risk (is_nonempty (risks_of items)) (any is_operator items)
          (worst r0 (risks_of items))
      else r3

  -- The same from the middle of the loop.
  verdict_from : Progress → List Item → Risk
  verdict_from s items =
      let risks = command_risks (segments (is_pending s.redirect) s.segment items) in
      if has_fine_redirects s.redirect items
      then line_risk (s.has_command || is_nonempty risks)
          (s.has_operator || is_pending s.redirect || any is_operator items) (worst s.base risks)
      else r3

  conclude_loop : Option Progress → Risk
  conclude_loop o = elim o [ none ↦ r3 | some s ↦ conclude s ]

  conclude-verdict_from : (s : Progress) → conclude s ≡ verdict_from s []
  unfolding conclude verdict_from close_segment line_risk worst command_risks segments raise
      has_fine_redirects
  conclude-verdict_from s = ground arith

  step_none-verdict_from :
      (s : Progress) (i : Item) (items : List Item)
      → classify_step s i ≡ none
      → verdict_from s (i ∷ items) ≡ r3
  unfolding classify_step verdict_from has_fine_redirects
  step_none-verdict_from s i items e = ground arith

  step_some-verdict_from :
      (s s' : Progress) (i : Item) (items : List Item)
      → classify_step s i ≡ some s'
      → verdict_from s' items ≡ verdict_from s (i ∷ items)
  unfolding classify_step close_segment verdict_from has_fine_redirects segments command_risks worst
  step_some-verdict_from s s' i items e = ground arith

  loop-verdict_from :
      (items : List Item) (s : Progress)
      → conclude_loop (classify_loop s items) ≡ verdict_from s items
  unfolding classify_loop conclude_loop
  loop-verdict_from [] s = conclude-verdict_from s
  loop-verdict_from (i ∷ items) s = elim (Option-cases (classify_step s i)) [
    | inl e ↦ rw e (sym (step_none-verdict_from s i items e))
    | inr (s', e) ↦ rw e (loop-verdict_from items s' ∙ step_some-verdict_from s s' i items e)
  ]

  -- The loop of `Classify` decides as the three passes do, for every list of items.
  pub classify_items-verdict : (items : List Item) → classify_items items ≡ verdict items
  unfolding classify_items verdict conclude_loop verdict_from
  classify_items-verdict [] = unfold segments command_risks line_risk has_fine_redirects in refl
  classify_items-verdict (i ∷ items) = loop-verdict_from (i ∷ items) start
