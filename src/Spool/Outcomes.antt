-- ===== src/Spool/Outcomes.antt =====
-- The outcomes that the commands hand to `finishMutationAudit`: a remote mutation's, a fan-out's, that of a
-- prune of the audit log, of an installation of skills, and of a migration of credentials.
pub mod Totals
pub mod Accepted
pub mod Readable
use srvgov_cli.Prelude.{
  ◌/◌, ◌%◌, ℕ, zero, suc, ◌+◌, ◌-◌, ◌*◌, ◌≤◌, ◌<◌, String, ◌≡◌, refl, sym, ap, ◌∙◌, ◌≢◌, ◌↔◌, ◌⊎◌,
  inl, inr, Bool, true, false, not, ◌&&◌, ◌||◌, Option, none, some, List, [], ◌∷◌, ◌++◌, map,
  append-nil, append_assoc, arith, ltb, leb, ◌==◌, if◌then◌else◌, ==_iff, Bool-cases, or_resolve,
  Option-cases, ◌>>=◌, >>=-eq-some, length, take, any, all, length-append, any-append, All,
  All-append, All-map, All-of, IfSome, split_if, IfSome-eq, holds_below, holds_below-at, ℤ, pos,
  negsuc, is_negative, clamp, is_positive,
}
use srvgov_cli.GoText.{Text, codes, is, has_prefix}
use srvgov_cli.Audit.Events.{FileInfo, MutationOutcome}
use srvgov_cli.Spool.Records.{no_outcome, is_none}

-- The fingerprint of a payload from the digest of a file.
unfoldable pub prefixed_sha256 : Text → Text
unfolding is has_prefix
prefixed_sha256 sha256 =
    if not (is sha256 "") && not (has_prefix sha256 "sha256:")
    then codes "sha256:" ++ sha256
    else sha256

-- The outcome that `finishRemoteMutationAudit` makes, for the code of the command's error.
unfoldable pub remote_mutation_audit_outcome :
    Option FileInfo → Option Text → Bool → Bool → MutationOutcome
unfolding prefixed_sha256
remote_mutation_audit_outcome file operation uncertain incomplete =
    let counted : MutationOutcome = elim operation [
      | none ↦ record no_outcome {
        status = codes "succeeded";
        succeeded = pos 1;
        output_incomplete = incomplete;
      }
      | some code ↦
          if uncertain
          then record no_outcome {
            status = codes "failed";
            uncertain = pos 1;
            output_incomplete = incomplete;
          }
          else record no_outcome {
            status = codes "failed";
            failed = pos 1;
            output_incomplete = incomplete;
          }
    ] in
    elim file [
      | none ↦ counted
      | some f ↦ record counted {
        payload_fingerprint = prefixed_sha256 f.sha256;
        payload_bytes = f.bytes_written;
      }
    ]

-- The mark of an error of a remote mutation (remoteMutationResultStateOf), beside its code.
pub data ResultMark : Type 0 where
  unmarked marked_uncertain marked_output_incomplete : ResultMark

pub record TargetError : Type 0 where
  pub mark : ResultMark
  pub code : Text

-- The counts of the loop of `finishFanoutMutationAudit`, and whether an error says that an audit is
-- incomplete.
pub record FanoutCounts : Type 0 where
  pub succeeded : ℕ
  pub failed : ℕ
  pub uncertain : ℕ
  pub output_incomplete : Bool
  pub audit_incomplete : Bool

unfoldable pub count_error : FanoutCounts → ResultMark → Text → FanoutCounts
unfolding is
count_error c marked_uncertain code = record c { uncertain = c.uncertain + 1 }
count_error c marked_output_incomplete code = record c {
  succeeded = c.succeeded + 1;
  output_incomplete = true;
}
count_error c unmarked code = record c {
  failed = c.failed + 1;
  audit_incomplete = c.audit_incomplete || is code "AUDIT_INCOMPLETE";
}

unfoldable pub count_result : FanoutCounts → Option TargetError → FanoutCounts
unfolding count_error
count_result c none = record c { succeeded = c.succeeded + 1 }
count_result c (some e) = count_error c e.mark e.code

unfoldable pub count_results : FanoutCounts → List (Option TargetError) → FanoutCounts
unfolding count_result
count_results c [] = c
count_results c (r ∷ rs) = count_results (count_result c r) rs

abbrev pub no_counts : FanoutCounts
no_counts = record {
  succeeded = 0;
  failed = 0;
  uncertain = 0;
  output_incomplete = false;
  audit_incomplete = false;
}

-- The codes of the errors of other components that an outcome names.
pub record ErrorCodes : Type 0 where
  pub backend_error : Text
  pub partial_failure : Text

unfoldable pub counted_outcome : ErrorCodes → FanoutCounts → MutationOutcome
counted_outcome known c =
    let success = c.failed == 0 && c.uncertain == 0 in
    record no_outcome {
      status = if success then codes "succeeded" else codes "failed";
      error_code =
          if success
          then []
          else if c.audit_incomplete
          then codes "AUDIT_INCOMPLETE"
          else if ltb 0 c.uncertain
          then known.partial_failure
          else known.backend_error;
      succeeded = pos c.succeeded;
      failed = pos c.failed;
      uncertain = pos c.uncertain;
      output_incomplete = c.output_incomplete;
    }

-- The outcome that `finishFanoutMutationAudit` makes.
unfoldable pub fanout_mutation_outcome : ErrorCodes → List (Option TargetError) → MutationOutcome
unfolding counted_outcome count_results
fanout_mutation_outcome known results = counted_outcome known (count_results no_counts results)

-- auditPruneMutationOutcome, for the number of files that the prune has deleted, whether its checkpoint's
-- state is indeterminate, and whether there is an error.
unfoldable pub audit_prune_mutation_outcome : ℤ → ℕ → Bool → Bool → MutationOutcome
audit_prune_mutation_outcome given deleted_files indeterminate has_error =
    let total : ℕ = elim given [ pos n ↦ n | negsuc n ↦ 0 ] in
    let deleted = if ltb total deleted_files then total else deleted_files in
    if not has_error
    then record no_outcome {
      status = codes "succeeded";
      succeeded = pos deleted;
      skipped = pos (total - deleted);
    }
    else if indeterminate
    then record no_outcome {
      status = codes "failed";
      succeeded = pos deleted;
      uncertain = pos (total - deleted);
    }
    else if ltb deleted total
    then record no_outcome {
      status = codes "failed";
      succeeded = pos deleted;
      failed = pos 1;
      skipped = pos (total - deleted - 1);
    }
    else record no_outcome {
      status = codes "failed";
      succeeded = pos deleted;
      skipped = pos (total - deleted);
    }

-- The outcome of an installation of skills, from the files that have been written.
unfoldable pub install_mutation_outcome : ℕ → ℕ → Bool → MutationOutcome
install_mutation_outcome files succeeded has_error =
    if not has_error
    then record no_outcome { status = codes "succeeded"; succeeded = pos succeeded }
    else record no_outcome {
      status = codes "failed";
      succeeded = pos succeeded;
      failed = pos 1;
      skipped = pos (files - succeeded - 1);
    }

-- The outcome of a migration of credentials.
unfoldable pub migrate_mutation_outcome : ℕ → Bool → Bool → MutationOutcome
migrate_mutation_outcome candidates has_error unclear =
    if not has_error
    then record no_outcome { status = codes "succeeded"; succeeded = pos candidates }
    else if unclear
    then record no_outcome { status = codes "failed"; uncertain = pos candidates }
    else record no_outcome { status = codes "failed"; failed = pos candidates }
