-- ===== src/Fanout/Outcomes/Errors.antt =====
-- When a fan-out of `exec` returns no error, and what the sort of its results keeps.
use srvgov_cli.Prelude.{
  ℕ, suc, ◌+◌, ◌≡◌, refl, ap, ◌∙◌, ◌⊎◌, inl, inr, Bool, true, false, ◌&&◌, Option, none, some, List,
  [], ◌∷◌, arith, ◌==◌, if◌then◌else◌, Option-cases, length, all,
}
use srvgov_cli.Spool.Outcomes.{ResultMark, unmarked, marked_uncertain, marked_output_incomplete}
use srvgov_cli.Governed.{Error, Run}
use srvgov_cli.Governed.Protocol.{is_nil}
use srvgov_cli.Fanout.{Result}
use srvgov_cli.Fanout.Schedules.{count}
use srvgov_cli.Fanout.Outcomes.{
  BatchWorld, BatchError, insert_result, sort_results, first_incomplete, fanout_outcome,
  finish_fanout_mutation_audit, error_or, printed_or, FanoutSummary, result_mark, count_mark,
  summary_loop, fanout_summary, summary_error, print_fanout, finish_error,
}

-- The run of a target returned no error.
abbrev pub has_succeeded : Result Run → Bool
has_succeeded r = is_nil r.data_and_error.error

abbrev pub is_clean : Option BatchError → Bool
is_clean none = true
is_clean (some e) = false

count-insert_result :
    (p : Result Run → Bool) (r : Result Run) (ss : List (Result Run))
    → count p (insert_result r ss) ≡ (if p r then 1 else 0) + count p ss
unfolding insert_result count
count-insert_result p r [] = refl
count-insert_result p r (s ∷ ss) = ground (arith, count-insert_result p r ss)

pub count-sort_results :
    (p : Result Run → Bool) (rs : List (Result Run)) → count p (sort_results rs) ≡ count p rs
unfolding sort_results count
count-sort_results p [] = refl
count-sort_results p (r ∷ rs) =
    count-insert_result p r (sort_results rs)
    ∙ ap (λ n. (if p r then 1 else 0) + n) (count-sort_results p rs)

-- The targets of a summary that are not all right.
abbrev troubled : FanoutSummary → ℕ
troubled s = s.uncertain + s.output_incomplete + s.failed

count_mark-troubled :
    (s : FanoutSummary) (m : ResultMark) → troubled (count_mark s m) ≡ suc (troubled s)
unfolding count_mark
count_mark-troubled s unmarked = omega arith
count_mark-troubled s marked_uncertain = omega arith
count_mark-troubled s marked_output_incomplete = omega arith

error_cases :
    (r : Result Run)
    → (r.data_and_error.error ≡ none) ⊎ ((e : Error) × (r.data_and_error.error ≡ some e))
error_cases r = Option-cases r.data_and_error.error

summary_loop-troubled :
    (s : FanoutSummary) (rs : List (Result Run))
    → (troubled (summary_loop s rs) == 0) ≡ ((troubled s == 0) && all has_succeeded rs)
unfolding summary_loop
summary_loop-troubled s [] = ground arith
summary_loop-troubled s (r ∷ rs) = elim (error_cases r) [
  | inl e ↦ rw e (summary_loop-troubled (record s { succeeded = s.succeeded + 1 }) rs)
  | inr (x, e) ↦
      let rest = summary_loop-troubled (count_mark s (result_mark x)) rs in
      let more = count_mark-troubled s (result_mark x) in rw e (ground arith)
]

summary_error-clean : (s : FanoutSummary) → is_clean (summary_error s) ≡ (troubled s == 0)
unfolding summary_error
summary_error-clean s = ground arith

printed_or-clean :
    (o : Option Error) (other : Option BatchError)
    → is_clean (printed_or o other) ≡ (is_nil o && is_clean other)
unfolding printed_or
printed_or-clean none other = refl
printed_or-clean (some e) other = refl

-- The fan-out's print returns no error exactly when the printer does not and every target has succeeded.
pub print_fanout-clean :
    (w : BatchWorld) (rs : List (Result Run))
    → is_clean (print_fanout w rs) ≡ (is_nil (w.print rs) && all has_succeeded rs)
unfolding print_fanout fanout_summary
print_fanout-clean w rs =
    let start : FanoutSummary = record {
      total = length rs;
      succeeded = 0;
      failed = 0;
      uncertain = 0;
      output_incomplete = 0;
    } in
    printed_or-clean (w.print rs) (summary_error (summary_loop start rs))
    ∙ ap (λ b. is_nil (w.print rs) && b)
        (summary_error-clean (summary_loop start rs) ∙ summary_loop-troubled start rs)

error_or-is_nil : (o other : Option Error) → is_nil (error_or o other) ≡ (is_nil o && is_nil other)
unfolding error_or
error_or-is_nil none other = refl
error_or-is_nil (some e) other = refl

first_incomplete-is_nil :
    (w : BatchWorld) (rs : List (Result Run))
    → all has_succeeded rs ≡ true
    → is_nil (first_incomplete w rs) ≡ true
unfolding first_incomplete
first_incomplete-is_nil w [] h = refl
first_incomplete-is_nil w (r ∷ rs) h = elim (error_cases r) [
  | inl e ↦ rw e (first_incomplete-is_nil w rs (let k = rw e at h in k))
  | inr (x, e) ↦ absurd (let k = rw e at h in cc)
]

finish_error-is_nil :
    (w : BatchWorld) (o : Option Error) (rs : List (Result Run))
    → is_clean (finish_error w o rs) ≡ (is_nil o && is_clean (print_fanout w rs))
unfolding finish_error
finish_error-is_nil w none rs = refl
finish_error-is_nil w (some e) rs = refl

implied : (a b c d : Bool) → (d ≡ true → b ≡ true) → ((a && b) && (c && d)) ≡ (a && c && d)
implied a b c true f = ground (arith, f refl)
implied a b c false f = ground arith

-- The same behind a batch outcome, where that must be recorded, too.
pub finish_error-clean :
    (w : BatchWorld) (rs : List (Result Run))
    → is_clean (finish_error w (finish_fanout_mutation_audit w rs) rs) ≡ (
        is_nil (w.finish_batch (fanout_outcome w rs))
        && is_nil (w.print rs)
        && all has_succeeded rs)
unfolding finish_fanout_mutation_audit
finish_error-clean w rs =
    let answer = w.finish_batch (fanout_outcome w rs) in
    finish_error-is_nil w (error_or answer (first_incomplete w rs)) rs
    ∙ ap (λ b. b && is_clean (print_fanout w rs)) (error_or-is_nil answer (first_incomplete w rs))
    ∙ ap (λ b. (is_nil answer && is_nil (first_incomplete w rs)) && b) (print_fanout-clean w rs)
    ∙ implied (is_nil answer) (is_nil (first_incomplete w rs)) (is_nil (w.print rs))
        (all has_succeeded rs) (first_incomplete-is_nil w rs)
