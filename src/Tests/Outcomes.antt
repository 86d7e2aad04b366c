-- ===== src/Tests/Outcomes.antt =====
-- The theorem of the outcome of a fan-out, at two targets.
use srvgov_cli.Prelude.{◌≡◌, refl, true, false, Option, none, some, List, [], ◌∷◌, arith}
use srvgov_cli.GoText.{Text, codes, is, byte_length}
use srvgov_cli.Audit.Fingerprints.{is_hex_digest}
use srvgov_cli.Spool.Names.{spool_name, validate_mutation_spool_filename}
use srvgov_cli.Spool.Records.{MutationAuditHandle, valid_mutation_id}
use srvgov_cli.Spool.Outcomes.{ErrorCodes, TargetError, unmarked, fanout_mutation_outcome}
use srvgov_cli.Spool.Outcomes.Readable.{batch_metadata, fanout_mutation_outcome-read}
use srvgov_cli.Spool.Queue.{SpoolFile, returned, read_mutation_spool_record}
use srvgov_cli.Spool.Transactions.{outcome_record}
use srvgov_cli.Tests.Sample.{ascii, zeros}

abbrev known_codes : ErrorCodes
known_codes = record {
  backend_error = codes "BACKEND_ERROR";
  partial_failure = codes "PARTIAL_FAILURE";
}

abbrev two_results : List (Option TargetError)
two_results = none ∷ some (record { mark = unmarked; code = codes "BACKEND_ERROR" }) ∷ []

abbrev batch_id : Text
batch_id = codes "00112233445566778899aabbccddeeff"

abbrev batch_handle : MutationAuditHandle
batch_handle = record {
  id = batch_id;
  spec = record {
    action = codes "exec.run.batch";
    context = record { name = codes "fanout"; env = codes "prod"; protected_ = true };
    target = codes "db1";
    risk_tier = codes "R2";
    ticket = codes "T-1";
    reason = codes "fix";
    metadata = batch_metadata (codes "exec.run") (codes "touch /tmp/x") 2;
    audit_path = codes "/var/audit.jsonl";
  };
  now = 5;
  current_operator = codes "ops";
}

abbrev batch_file : SpoolFile
unfolding outcome_record spool_name
batch_file = record {
  name = spool_name 1 batch_id ".json";
  is_dir = false;
  content =
      some (outcome_record batch_handle (fanout_mutation_outcome known_codes two_results) none);
}

batch_named : validate_mutation_spool_filename batch_file.name batch_id ≡ true
unfolding validate_mutation_spool_filename batch_file
batch_named = refl

fanout_mutation_outcome-read_example :
    read_mutation_spool_record batch_file
    ≡ returned (outcome_record batch_handle (fanout_mutation_outcome known_codes two_results) none)
unfolding batch_file
fanout_mutation_outcome-read_example =
    fanout_mutation_outcome-read (λ t. unfold is_hex_digest in refl) known_codes two_results
      batch_handle batch_file (unfold is in (refl, refl))
      (record {
        backend = unfold byte_length in omega arith;
        partial = unfold byte_length in omega arith;
      })
      (omega arith) (omega arith)
      (record {
        action = unfold is in refl;
        short = unfold byte_length in omega arith;
        id = unfold byte_length in refl;
        hex = unfold valid_mutation_id in refl;
        now = omega arith;
        metadata = (codes "exec.run", codes "touch /tmp/x", refl);
      })
      refl batch_named
