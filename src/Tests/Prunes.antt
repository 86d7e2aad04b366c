-- ===== src/Tests/Prunes.antt =====
-- The theorem of the prune at a directory with three rotated logs.
use srvgov_cli.Prelude.{
  ◌≡◌, refl, true, false, none, some, List, [], ◌∷◌, if◌then◌else◌, take, ℤ, pos, negsuc,
}
use srvgov_cli.GoText.{Text, codes, is}
use srvgov_cli.Contexts.{returned}
use srvgov_cli.Prune.{
  regular_file, PruneWorld, AuditPruneOptions, strict_audit_rotated_files,
  select_audit_prune_candidates,
}
use srvgov_cli.Prune.Oldest.{IsChoice, select_audit_prune_candidates-IsChoice}

abbrev logs : PruneWorld
logs = record {
  entries = returned (
      codes "audit.log"
      ∷ codes "audit.log.20240102-000000.log"
      ∷ codes "audit.log.20240101-000000.2.log"
      ∷ codes "audit.log.20240101-000000.log"
      ∷ []);
  kind = λ name. regular_file;
  parse_time = λ s.
      if is s "20240101-000000" then some 1 else if is s "20240102-000000" then some 2 else none;
  cutoff = λ s. returned 2;
}

abbrev prune_options : ℤ → AuditPruneOptions
prune_options keep = record {
  before = codes "1d";
  keep_last = keep;
  dry_run = false;
  dry_run_explicit = false;
  confirm = true;
}

abbrev rotated_logs : List Text
rotated_logs =
    codes "audit.log.20240101-000000.log"
    ∷ codes "audit.log.20240101-000000.2.log"
    ∷ codes "audit.log.20240102-000000.log"
    ∷ []

listed_logs : strict_audit_rotated_files logs (codes "audit.log") ≡ returned rotated_logs
unfolding strict_audit_rotated_files
listed_logs = refl

keep_one :
    select_audit_prune_candidates logs (codes "audit.log") (prune_options (pos 1)) rotated_logs
    ≡ returned (take 2 rotated_logs)
unfolding select_audit_prune_candidates
keep_one = refl

older_than_a_day :
    select_audit_prune_candidates logs (codes "audit.log") (prune_options (negsuc 0)) rotated_logs
    ≡ returned (take 2 rotated_logs)
unfolding select_audit_prune_candidates
older_than_a_day = refl

select_audit_prune_candidates-IsChoice_example :
    IsChoice logs (codes "audit.log") (prune_options (pos 1)) rotated_logs (take 2 rotated_logs)
select_audit_prune_candidates-IsChoice_example =
    select_audit_prune_candidates-IsChoice logs (codes "audit.log") (prune_options (pos 1))
      listed_logs keep_one
