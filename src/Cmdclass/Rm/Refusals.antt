-- ===== src/Cmdclass/Rm/Refusals.antt =====
-- What `classifyRM` refuses, wherever it stands among the arguments.
use srvgov_cli.Prelude.{
  ◌≡◌, refl, Bool, true, false, not, ◌&&◌, ◌||◌, Option, none, List, [], ◌∷◌, ◌++◌, arith, All,
  All-of, IfSome, split_if,
}
use srvgov_cli.GoText.{
  Text, is, dashes-has_prefix, longs-has_prefix, has_prefix, trim_prefix, Std, mem_unit,
}
use srvgov_cli.Cmdclass.Risk.{r3}
use srvgov_cli.Cmdclass.Options.{Next, same, walk}
use srvgov_cli.Cmdclass.Options.Visits.{walk_refuses}
use srvgov_cli.Cmdclass.Targets.{is_sensitive_write_target}
use srvgov_cli.Cmdclass.Rm.{rm_step, rm_flags, rm_long_option, classify_rm}

module _ ⦃std : Std⦄ where
  -- A round never skips an argument, and leaves `parseOptions` but at `--`.
  rm_step_stays :
      (P : Bool → Type 0) (p : Bool) (a : Text) (rest : List Text)
      → P p
      → (is a "--" ≡ true → P false)
      → IfSome (λ (v : Next × Bool). (v.0 ≡ same) × P v.1) (rm_step p a rest)
  unfolding rm_step
  rm_step_stays P p a rest h k =
      let stay =
        λ (v : Option (Next × Bool)). IfSome (λ (v : Next × Bool). (v.0 ≡ same) × P v.1) v in
      split_if stay (p && is a "--") (λ e. (refl, k (ground arith)))
        λ _.
          split_if stay (p && has_prefix a "--")
            (λ _. split_if stay (rm_long_option a) (λ _. (refl, h)) (λ _. tt))
            λ _.
              split_if stay (p && has_prefix a "-" && not (is a "-"))
                (λ _. split_if stay (rm_flags (trim_prefix a "-")) (λ _. (refl, h)) (λ _. tt))
                λ _. split_if stay (is_sensitive_write_target a) (λ _. tt) (λ _. (refl, h))

  rm_refused : (args : List Text) → walk rm_step same true args ≡ none → classify_rm args ≡ r3
  unfolding classify_rm
  rm_refused args e = rw (e, classify_rm) refl

  rm_step_sensitive :
      (a : Text) (p : Bool) (rest : List Text)
      → has_prefix a "-" ≡ false
      → is_sensitive_write_target a ≡ true
      → rm_step p a rest ≡ none
  unfolding rm_step
  rm_step_sensitive a p rest h s = ground (arith, dashes-has_prefix a, longs-has_prefix a)

  -- `rm` with a sensitive path among its arguments is R3, whatever stands before and behind it.
  pub rm_sensitive :
      (pre post : List Text) (a : Text)
      → has_prefix a "-" ≡ false
      → is_sensitive_write_target a ≡ true
      → classify_rm (pre ++ a ∷ post) ≡ r3
  rm_sensitive pre post a h s = rm_refused (pre ++ a ∷ post) (
      walk_refuses rm_step (λ p. Unit {0}) (λ x. Unit {0})
        (λ p x rest _ _. rm_step_stays (λ p. Unit {0}) p x rest tt (λ _. tt)) a
        (λ p rest _. rm_step_sensitive a p rest h s) true pre post tt
        (All-of (λ x. Unit {0}) (λ x. tt) pre))

rm_flags_recursive :
    (flags : Text) → (mem_unit flags b'r' || mem_unit flags b'R') ≡ true → rm_flags flags ≡ false
unfolding rm_flags mem_unit
rm_flags_recursive [] h = cc
rm_flags_recursive (f ∷ flags) h = ground (arith, rm_flags_recursive flags)

module _ ⦃std : Std⦄ where
  rm_step_recursive :
      (flags : Text) (rest : List Text)
      → has_prefix (b'-' ∷ flags) "--" ≡ false
      → (mem_unit flags b'r' || mem_unit flags b'R') ≡ true
      → rm_step true (b'-' ∷ flags) rest ≡ none
  unfolding rm_step has_prefix trim_prefix is mem_unit
  rm_step_recursive [] rest n h = cc
  rm_step_recursive (f ∷ flags) rest n h = ground (arith, rm_flags_recursive (f ∷ flags) h)

  -- `rm` with `r` or `R` among the flags of a short option is R3, unless the option stands behind
  -- `--`; the flag may stand at any place of the option, and the option among any others.
  pub rm_recursive :
      (pre post : List Text) (flags : Text)
      → All (λ x. is x "--" ≡ false) pre
      → has_prefix (b'-' ∷ flags) "--" ≡ false
      → (mem_unit flags b'r' || mem_unit flags b'R') ≡ true
      → classify_rm (pre ++ (b'-' ∷ flags) ∷ post) ≡ r3
  rm_recursive pre post flags ends n h = rm_refused (pre ++ (b'-' ∷ flags) ∷ post) (
      walk_refuses rm_step (λ p. p ≡ true) (λ x. is x "--" ≡ false)
        (λ p x rest e m. rm_step_stays (λ p. p ≡ true) p x rest e (λ d. cc)) (b'-' ∷ flags)
        (λ p rest e. rw e (rm_step_recursive flags rest n h)) true pre post refl ends)
