-- ===== src/Spool/Outcomes/Totals.antt =====
-- The counts of the outcomes, against the number of items that the intent names.
use srvgov_cli.Prelude.{
  ◌%◌, ℕ, zero, suc, ◌+◌, ◌≤◌, ◌<◌, ◌≡◌, refl, inl, inr, Bool, true, false, Option, none, some,
  List, [], ◌∷◌, arith, ltb, leb, ◌==◌, if◌then◌else◌, Bool-cases, length, pos, is_positive,
}
use srvgov_cli.GoText.{Text, codes, is, equal, Std}
use srvgov_cli.Audit.Events.{MutationMetadata}
use srvgov_cli.Spool.Records.{outcome_total, valid_outcome, completed_outcome, no_metadata}
use srvgov_cli.Spool.Outcomes.{
  ResultMark, unmarked, marked_uncertain, marked_output_incomplete, TargetError, FanoutCounts,
  count_error, count_result, count_results, no_counts, ErrorCodes, counted_outcome,
  fanout_mutation_outcome,
}

abbrev total_of : FanoutCounts → ℕ
total_of c = c.succeeded + c.failed + c.uncertain

count_error-total :
    (c : FanoutCounts) (mark : ResultMark) (code : Text)
    → total_of (count_error c mark code) ≡ suc (total_of c)
unfolding count_error
count_error-total c marked_uncertain code = omega arith
count_error-total c marked_output_incomplete code = omega arith
count_error-total c unmarked code = omega arith

count_result-total :
    (c : FanoutCounts) (r : Option TargetError)
    → (let d = count_result c r in
        d.succeeded + d.failed + d.uncertain ≡ suc (c.succeeded + c.failed + c.uncertain))
unfolding count_result
count_result-total c none = omega arith
count_result-total c (some e) = count_error-total c e.mark e.code

count_results-total :
    (c : FanoutCounts) (rs : List (Option TargetError))
    → total_of (count_results c rs) ≡ total_of c + length rs
unfolding count_results
count_results-total c [] = omega arith
count_results-total c (r ∷ rs) =
    omega (arith, count_result-total c r, count_results-total (count_result c r) rs)

abbrev pub items_of : ℕ → MutationMetadata
items_of n = record no_metadata { items = pos n }

-- The codes are not empty.
abbrev pub AreKnown : ErrorCodes → Type 0
AreKnown known = (is known.backend_error "" ≡ false) × (is known.partial_failure "" ≡ false)

in_range :
    (m n : ℕ)
    → m ≡ n
    → n ≤ 1000000000
    → (leb (m % 18446744073709551616) 1000000000 ≡ true) × ((m % 18446744073709551616 == n) ≡ true)
in_range m n e l =
    let small : m % 18446744073709551616 ≡ n = omega arith in rw small (ground arith, ground arith)

positive : (n : ℕ) → 0 < n → is_positive (pos n) ≡ true
positive zero l = absurd (omega arith)
positive (suc n) l = refl

code_known :
    (a b : Bool) (known : ErrorCodes)
    → AreKnown known
    → equal
        (if a
          then codes "AUDIT_INCOMPLETE"
          else if b
          then known.partial_failure
          else known.backend_error)
        []
      ≡ false
unfolding is equal
code_known true b known k = refl
code_known false true known k = k.1
code_known false false known k = k.0

module _ ⦃std : Std⦄ where
  counted_outcome-valid :
      (known : ErrorCodes) (c : FanoutCounts)
      → AreKnown known
      → 0 < total_of c
      → total_of c ≤ 1000000000
      → valid_outcome (items_of (total_of c)) (completed_outcome none (counted_outcome known c))
        ≡ true
  unfolding valid_outcome completed_outcome counted_outcome outcome_total is
  counted_outcome-valid known c k l u =
      let fits = in_range (c.succeeded + c.failed + 0 + c.uncertain) (total_of c) (omega arith) u in
      let some_item : is_positive (pos (total_of c)) ≡ true = positive (total_of c) l in
      let code = code_known c.audit_incomplete (ltb 0 c.uncertain) known k in
      elim (Bool-cases (c.failed == 0)) [
        | inl f ↦ elim (Bool-cases (c.uncertain == 0)) [
          | inl z ↦ elim (Bool-cases (c.succeeded == 0)) [
            | inl s ↦ absurd (ground arith)
            | inr s ↦ rw (f, z, s, fits.0, fits.1, some_item) refl
          ]
          | inr z ↦ rw (f, z, fits.0, fits.1, some_item, code) refl
        ]
        | inr f ↦ rw (f, fits.0, fits.1, some_item, code) refl
      ]

  -- The outcome of a fan-out counts each of its targets once, in the numbers that a replay of the spool
  -- demands of an outcome whose intent names that many items.
  pub fanout_mutation_outcome_total :
      (known : ErrorCodes) (results : List (Option TargetError))
      → AreKnown known
      → 0 < length results
      → length results ≤ 1000000000
      → valid_outcome
          (items_of (length results))
          (completed_outcome none (fanout_mutation_outcome known results))
        ≡ true
  unfolding fanout_mutation_outcome
  fanout_mutation_outcome_total known results k l u =
      let c = count_results no_counts results in
      let total : total_of c ≡ length results =
        omega (arith, count_results-total no_counts results) in
      rw (← total) (counted_outcome-valid known c k (omega (arith, total)) (omega (arith, total)))
