-- ===== src/Cmdclass/Classify/Bounds.antt =====
-- How the risk of a line bounds the risks of its commands.
use srvgov_cli.Prelude.{
  ◌≤◌, ◌≡◌, inl, inr, Bool, true, false, none, List, [], ◌∷◌, arith, Bool-cases, or_resolve, any,
  All, All-map, split_if,
}
use srvgov_cli.GoText.{Std}
use srvgov_cli.Cmdclass.Risk.{
  Risk, r0, r1, r3, max_risk, max_risk-ge_left, max_risk-ge_right, max_risk-le, raise_bounds,
  raise-ge,
}
use srvgov_cli.Cmdclass.Scan.{Item}
use srvgov_cli.Cmdclass.Commands.{classify_words, is_sudo}
use srvgov_cli.Cmdclass.Classify.{classify_segment, classify_items, texts}
use srvgov_cli.Cmdclass.Classify.Spec.{
  is_operator, segments, command_risks, worst, line_risk, verdict, risks_of, classify_items-verdict,
  has_fine_redirects,
}
use srvgov_cli.Cmdclass.Classify.Leaves.{classify_segment-le}

worst-ge_base : (base : Risk) (rs : List Risk) → base ≤ worst base rs
unfolding worst
worst-ge_base base [] = omega arith
worst-ge_base base (r ∷ rs) =
    omega (arith, max_risk-ge_left base r, worst-ge_base (max_risk base r) rs)

worst-ge : (base : Risk) (rs : List Risk) → All (λ r. r ≤ worst base rs) rs
unfolding worst
worst-ge base [] = tt
worst-ge base (r ∷ rs) = (
  omega (arith, max_risk-ge_right base r, worst-ge_base (max_risk base r) rs),
  worst-ge (max_risk base r) rs,
)

worst-le :
    (base bound : Risk) (rs : List Risk)
    → base ≤ bound
    → All (λ r. r ≤ bound) rs
    → worst base rs ≤ bound
unfolding worst
worst-le base bound [] h hs = h
worst-le base bound (r ∷ rs) h hs =
    worst-le (max_risk base r) bound rs (max_risk-le base r bound h hs.0) hs.1

line_risk-ge : (c o : Bool) (base : Risk) → base ≤ r3 → base ≤ line_risk c o base
unfolding line_risk
line_risk-ge true true base h = raise-ge base h
line_risk-ge true false base h = omega arith
line_risk-ge false o base h = h

line_risk-le : (c o : Bool) (base : Risk) → base ≤ r3 → line_risk c o base ≤ r3
unfolding line_risk
line_risk-le true true base h = (raise_bounds base).1
line_risk-le true false base h = h
line_risk-le false o base h = omega arith

line_risk_operator : (c : Bool) (base : Risk) → r1 ≤ line_risk c true base
unfolding line_risk
line_risk_operator true base = (raise_bounds base).0
line_risk_operator false base = omega arith

module _ ⦃std : Std⦄ where
  command_risks-le : (parts : List (List Item)) → All (λ r. r ≤ r3) (command_risks parts)
  unfolding command_risks
  command_risks-le [] = tt
  command_risks-le ([] ∷ parts) = command_risks-le parts
  command_risks-le ((i ∷ is) ∷ parts) = (classify_segment-le (i ∷ is), command_risks-le parts)

  worst_risk-le : (items : List Item) → worst r0 (risks_of items) ≤ r3
  worst_risk-le items = worst-le r0 r3 (risks_of items) (omega arith) (command_risks-le _)

  worst-le-classify_items : (items : List Item) → worst r0 (risks_of items) ≤ classify_items items
  worst-le-classify_items items = rw classify_items-verdict (
      unfold verdict in
      split_if (λ v. worst r0 (risks_of items) ≤ v) (has_fine_redirects none items)
        (λ _. line_risk-ge _ _ _ (worst_risk-le items)) λ _. worst_risk-le items)

  -- Every command of a line is at most as risky as the line.
  pub commands-le-classify_items :
      (items : List Item) → All (λ r. r ≤ classify_items items) (risks_of items)
  commands-le-classify_items items =
      All-map (λ r. r ≤ worst r0 (risks_of items)) (λ r. r ≤ classify_items items)
        (λ r h. omega (arith, worst-le-classify_items items)) (risks_of items)
        (worst-ge r0 (risks_of items))

  -- No class is above R3.
  pub classify_items-le : (items : List Item) → classify_items items ≤ r3
  classify_items-le items = rw classify_items-verdict (
      unfold verdict in
      split_if (λ v. v ≤ r3) (has_fine_redirects none items)
        (λ _. line_risk-le _ _ _ (worst_risk-le items)) λ _. omega arith)

  -- A line with an operator is R1 at least: a pipe, a list or a redirection is never R0.
  pub operator-classify_items :
      (items : List Item) → any is_operator items ≡ true → r1 ≤ classify_items items
  operator-classify_items items h = rw classify_items-verdict (
      unfold verdict in
      split_if (λ v. r1 ≤ v) (has_fine_redirects none items) (λ _. rw h (line_risk_operator _ _))
        λ _. omega arith)

  sudo-classify_segment :
      (parts : List Item) → any is_sudo (texts parts) ≡ true → classify_segment parts ≡ r3
  unfolding classify_segment classify_words
  sudo-classify_segment [] h = cc
  sudo-classify_segment (i ∷ parts) h = ground arith

  sudo-command_risks :
      (bound : Risk) (parts : List (List Item))
      → All (λ r. r ≤ bound) (command_risks parts)
      → any (λ seg. any is_sudo (texts seg)) parts ≡ true
      → r3 ≤ bound
  unfolding command_risks
  sudo-command_risks bound [] hs h = cc
  sudo-command_risks bound ([] ∷ parts) hs h = sudo-command_risks bound parts hs h
  sudo-command_risks bound ((i ∷ is) ∷ parts) hs h =
      elim (Bool-cases (any is_sudo (texts (i ∷ is)))) [
        | inl here ↦ omega (arith, sudo-classify_segment (i ∷ is) here, hs.0)
        | inr not_here ↦ sudo-command_risks bound parts hs.1 (or_resolve _ _ h not_here)
      ]

  -- A line one of whose commands has `sudo` among its words, at any place and under any directory, is
  -- R3.
  pub sudo-classify_items :
      (items : List Item)
      → any (λ seg. any is_sudo (texts seg)) (segments false [] items) ≡ true
      → classify_items items ≡ r3
  sudo-classify_items items h = omega (
    arith,
    classify_items-le items,
    sudo-command_risks (classify_items items) (segments false [] items)
        (commands-le-classify_items items) h,
  )
