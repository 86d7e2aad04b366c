-- ===== src/Fanout/Outcomes.antt =====
-- The results of a fan-out of `exec`: their sort in `Run` of internal/fanout/fanout.go, and in
-- cmd/fanout.go the batch outcome (`finishFanoutMutationAudit`), the counts (`buildFanoutView`) and the
-- error (`printFanout`). What the printer, the audit and the error codes of the shared library answer is
-- the record BatchWorld.
pub mod Errors
use srvgov_cli.Prelude.{
  ◌/◌, ◌%◌, ℕ, zero, suc, ◌+◌, ◌-◌, ◌*◌, ◌≤◌, ◌<◌, String, ◌≡◌, refl, sym, ap, ◌∙◌, ◌≢◌, ◌↔◌, ◌⊎◌,
  inl, inr, Bool, true, false, not, ◌&&◌, ◌||◌, Option, none, some, List, [], ◌∷◌, ◌++◌, map,
  append-nil, append_assoc, arith, ltb, leb, ◌==◌, if◌then◌else◌, ==_iff, Bool-cases, or_resolve,
  Option-cases, ◌>>=◌, >>=-eq-some, length, take, any, all, length-append, any-append, All,
  All-append, All-map, All-of, IfSome, split_if, IfSome-eq, holds_below, holds_below-at, ℤ, pos,
  negsuc, is_negative, clamp, is_positive,
}
use srvgov_cli.GoText.{Text, is, text_bytes, bytes_less}
use srvgov_cli.Audit.Events.{MutationOutcome}
use srvgov_cli.Spool.Outcomes.{
  ResultMark, unmarked, marked_uncertain, marked_output_incomplete, TargetError, ErrorCodes,
  fanout_mutation_outcome,
}
use srvgov_cli.Governed.{
  Error, uncertain_remote_mutation_error, uncertain_atomic_file_write_error, ssh_output_limit_error,
  Run,
}
use srvgov_cli.Fanout.{Result}

-- The operator, the batch intent, `finishMutationAudit` for the batch outcome, the printer, and the codes
-- that `apperrors.AsAppError` finds for an error.
pub record BatchWorld : Type 0 where
  pub trusted_operator : Option Error
  pub begin_batch : Option Error
  pub finish_batch : MutationOutcome → Option Error
  pub print : List (Result Run) → Option Error
  pub error_code : Error → Text
  pub known : ErrorCodes

-- What a fan-out returns: an error on the way, or one that says what its targets came to.
pub data BatchError : Type 0 where
  caused_by : Error → BatchError
  states_uncertain outputs_incomplete targets_failed : BatchError

-- remoteMutationResultStateOf
unfoldable pub result_mark : Error → ResultMark
result_mark (uncertain_remote_mutation_error e) = marked_uncertain
result_mark (uncertain_atomic_file_write_error r) = marked_uncertain
result_mark (ssh_output_limit_error r true) = marked_output_incomplete
result_mark _ = unmarked

-- The sort of the results by their targets.
unfoldable pub insert_result : Result Run → List (Result Run) → List (Result Run)
unfolding text_bytes bytes_less
insert_result r [] = r ∷ []
insert_result r (s ∷ ss) =
    let rest = insert_result r ss in
    if bytes_less (text_bytes s.target) (text_bytes r.target) then s ∷ rest else r ∷ s ∷ ss

unfoldable pub sort_results : List (Result Run) → List (Result Run)
unfolding insert_result
sort_results [] = []
sort_results (r ∷ rs) = insert_result r (sort_results rs)

-- The error of a result, with its mark and its code.
unfoldable pub target_error : BatchWorld → Result Run → Option TargetError
unfolding result_mark
target_error w r = elim (r.data_and_error.error) [
  | none ↦ none
  | some e ↦ some (record { mark = result_mark e; code = w.error_code e })
]

abbrev pub is_unmarked : ResultMark → Bool
is_unmarked unmarked = true
is_unmarked _ = false

-- Whether an error says that the audit of its target is incomplete.
unfoldable pub is_incomplete_audit : BatchWorld → Error → Bool
unfolding result_mark is
is_incomplete_audit w e = is_unmarked (result_mark e) && is (w.error_code e) "AUDIT_INCOMPLETE"

-- The first such error.
unfoldable pub first_incomplete : BatchWorld → List (Result Run) → Option Error
unfolding is_incomplete_audit
first_incomplete w [] = none
first_incomplete w (r ∷ rs) =
    let rest = first_incomplete w rs in
    elim (r.data_and_error.error) [
      | none ↦ rest
      | some e ↦ if is_incomplete_audit w e then some e else rest
    ]

unfoldable pub fanout_outcome : BatchWorld → List (Result Run) → MutationOutcome
unfolding fanout_mutation_outcome target_error
fanout_outcome w results = fanout_mutation_outcome w.known (map (target_error w) results)

unfoldable pub error_or : Option Error → Option Error → Option Error
error_or none other = other
error_or (some e) other = some e

-- finishFanoutMutationAudit
unfoldable pub finish_fanout_mutation_audit : BatchWorld → List (Result Run) → Option Error
unfolding fanout_outcome first_incomplete error_or
finish_fanout_mutation_audit w results =
    error_or (w.finish_batch (fanout_outcome w results)) (first_incomplete w results)

-- `fanoutSummary`
pub record FanoutSummary : Type 0 where
  pub total : ℕ
  pub succeeded : ℕ
  pub failed : ℕ
  pub uncertain : ℕ
  pub output_incomplete : ℕ

unfoldable pub count_mark : FanoutSummary → ResultMark → FanoutSummary
count_mark s marked_uncertain = record s { uncertain = s.uncertain + 1 }
count_mark s marked_output_incomplete = record s {
  succeeded = s.succeeded + 1;
  output_incomplete = s.output_incomplete + 1;
}
count_mark s unmarked = record s { failed = s.failed + 1 }

unfoldable pub summary_loop : FanoutSummary → List (Result Run) → FanoutSummary
unfolding count_mark result_mark
summary_loop s [] = s
summary_loop s (r ∷ rs) = elim (r.data_and_error.error) [
  | none ↦ summary_loop (record s { succeeded = s.succeeded + 1 }) rs
  | some e ↦ summary_loop (count_mark s (result_mark e)) rs
]

-- The summary of buildFanoutView.
unfoldable pub fanout_summary : List (Result Run) → FanoutSummary
unfolding summary_loop
fanout_summary results =
    summary_loop
      (record {
        total = length results;
        succeeded = 0;
        failed = 0;
        uncertain = 0;
        output_incomplete = 0;
      })
      results

unfoldable pub summary_error : FanoutSummary → Option BatchError
summary_error s =
    if ltb 0 s.uncertain
    then some states_uncertain
    else if ltb 0 s.output_incomplete
    then some outputs_incomplete
    else if ltb 0 s.failed
    then some targets_failed
    else none

-- The error of the printer, or the other one.
unfoldable pub printed_or : Option Error → Option BatchError → Option BatchError
printed_or none other = other
printed_or (some e) other = some (caused_by e)

-- printFanout
unfoldable pub print_fanout : BatchWorld → List (Result Run) → Option BatchError
unfolding fanout_summary summary_error printed_or
print_fanout w results = printed_or (w.print results) (summary_error (fanout_summary results))

-- The results that are printed: none where the batch outcome is not recorded, or an audit is incomplete.
unfoldable pub printed : Option Error → List (Result Run) → List (Result Run)
printed none results = results
printed (some e) results = []

-- The error behind the batch outcome.
unfoldable pub finish_error : BatchWorld → Option Error → List (Result Run) → Option BatchError
unfolding print_fanout
finish_error w (some e) results = some (caused_by e)
finish_error w none results = print_fanout w results
