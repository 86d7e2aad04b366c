-- ===== src/Credentials/Migration.antt =====
-- The transaction of `ctx migrate-credentials`: `applyCredentialMigration` of cmd/ctx_migrate.go behind its
-- checks, within `Update` of internal/srvgovctx/context.go. What is outside answers in MigrationWorld.
pub mod Endings
pub mod Transaction
use srvgov_cli.Prelude.{
  ◌/◌, ◌%◌, ℕ, zero, suc, ◌+◌, ◌-◌, ◌*◌, ◌≤◌, ◌<◌, String, ◌≡◌, refl, sym, ap, ◌∙◌, ◌≢◌, ◌↔◌, ◌⊎◌,
  inl, inr, Bool, true, false, not, ◌&&◌, ◌||◌, Option, none, some, List, [], ◌∷◌, ◌++◌, map,
  append-nil, append_assoc, arith, ltb, leb, ◌==◌, if◌then◌else◌, ==_iff, Bool-cases, or_resolve,
  Option-cases, ◌>>=◌, >>=-eq-some, length, take, any, all, length-append, any-append, All,
  All-append, All-map, All-of, IfSome, split_if, IfSome-eq, holds_below, holds_below-at, ℤ, pos,
  negsuc, is_negative, clamp, is_positive,
}
use srvgov_cli.GoText.{Text, is, Map, get_key, put_key}
use srvgov_cli.Audit.Events.{MutationOutcome}
use srvgov_cli.Spool.Outcomes.{migrate_mutation_outcome}
use srvgov_cli.Contexts.{
  Context, Config, ContextError, usage_error, validation_failed, partial_failure,
  credential_state_uncertain, Result, failed, returned,
}
use srvgov_cli.Contexts.Control.{Commit, committed, committed_with, not_committed}
use srvgov_cli.Contexts.Normalize.{Urls}
use srvgov_cli.Credentials.{
  Caller, background, Backend, Candidate, CredentialWrite, is_credential_state_uncertain,
  compensated, prepare_credential_writes, rollback_credential_writes, apply_credential_writes,
}
use srvgov_cli.Credentials.Candidates.{
  Credstore, valid_credential_migration_backend, migrated_credential_context,
  credential_migration_candidates,
}

-- `reflect.DeepEqual`, the authorization of a context's change, the audit, the cancellation of the
-- command, and the lock and the file of the contexts.
pub record MigrationWorld : Type 0 where
  pub deep_equal : Context → Context → Bool
  pub authorize : Context → Text → Option ContextError
  pub begin_audit : Context → Text → Option ContextError
  pub canceled : Option ContextError
  pub opens : Option ContextError
  pub commit : Commit
  pub finish_audit : MutationOutcome → Option ContextError → Option ContextError

-- validateCredentialMigrationSnapshot; `none` is Go's `nil`.
unfoldable pub is_current : MigrationWorld → Candidate → Option Context → Bool
is_current w c none = false
is_current w c (some item) = w.deep_equal item c.context

unfoldable pub validate_credential_migration_snapshot :
    MigrationWorld → Config → List Candidate → Option ContextError
unfolding get_key is_current
validate_credential_migration_snapshot w cfg [] = none
validate_credential_migration_snapshot w cfg (c ∷ cs) =
    let rest = validate_credential_migration_snapshot w cfg cs in
    if is_current w c (get_key c.name cfg.contexts)
    then rest
    else some (validation_failed "context changed while credential migration was being prepared")

-- The loop of authorizations.
unfoldable pub authorize_all : MigrationWorld → List Candidate → Option ContextError
authorize_all w [] = none
authorize_all w (c ∷ cs) =
    let rest = authorize_all w cs in
    elim (w.authorize c.context c.name) [ some e ↦ some e | none ↦ rest ]

-- credentialMigrationAuditPolicy
unfoldable pub first_candidate : List Candidate → Result (Context × Text)
first_candidate [] = failed (validation_failed "credential migration has no auditable context")
first_candidate (c ∷ cs) = returned (c.context, c.name)

unfoldable pub credential_migration_audit_policy : Config → List Candidate → Result (Context × Text)
unfolding is get_key first_candidate
credential_migration_audit_policy cfg candidates =
    if is cfg.current_context ""
    then first_candidate candidates
    else elim (get_key cfg.current_context cfg.contexts) [
      | none ↦
          failed (
            validation_failed "current context does not exist; refusing credential migration audit")
      | some item ↦ returned (item, cfg.current_context)
    ]

-- What the callback of the update has done: the store, whether the intent is in the audit, the two
-- flags of the transaction, and the configuration or the error.
pub record Attempt (S : Type 0) : Type 0 where
  pub state : S
  pub audited : Bool
  pub stored : Bool
  pub unsure : Bool
  pub result : Result Config

-- What the transaction comes to.
pub record Migrated (S : Type 0) : Type 0 where
  pub state : S
  pub config : Config
  pub outcome : Option MutationOutcome
  pub error : Option ContextError

unfoldable pub migrate_contexts : Credstore → Text → List Candidate → Map Context → Map Context
unfolding put_key migrated_credential_context
migrate_contexts cs backend [] contexts = contexts
migrate_contexts cs backend (c ∷ candidates) contexts =
    migrate_contexts cs backend candidates
      (put_key c.name (migrated_credential_context cs c backend) contexts)

-- The contexts and the error behind the update, for what its callback returns.
unfoldable pub committed_result : Commit → Config → Result Config → Config × Option ContextError
committed_result commit cfg (failed e) = (cfg, some e)
committed_result committed cfg (returned new) = (new, none)
committed_result (committed_with e) cfg (returned new) = (new, some e)
committed_result (not_committed e) cfg (returned new) = (cfg, some e)

-- The error that is reported where the update failed behind the writes.
unfoldable pub final_error : Bool → Option ContextError → Option ContextError
final_error stored none = none
final_error stored (some e) =
    if stored
    then some (
        partial_failure
          "context update reported failure after credential storage; the configuration commit state is uncertain"
          e)
    else some e

abbrev pub is_error : Option ContextError → Bool
is_error none = false
is_error (some e) = true

module _ (b : Backend) where
  -- Before the first write.
  abbrev pub refused_attempt : b.State → Bool → ContextError → Attempt b.State
  refused_attempt s audited e = record {
    state = s;
    audited = audited;
    stored = false;
    unsure = false;
    result = failed e;
  }

  -- A canceled migration behind its rollback, for the causes that the rollback failed by.
  unfoldable pub canceled_attempt : b.State → ContextError → List ℕ → Attempt b.State
  unfolding compensated
  canceled_attempt s e causes = record {
    state = s;
    audited = true;
    stored = false;
    unsure = elim causes [ [] ↦ false | _ ∷ _ ↦ true ];
    result =
        failed (
          compensated "credential migration was canceled and compensation was incomplete" e causes);
  }

  module _ (w : MigrationWorld) (cs : Credstore) (target : Text) where
    -- Behind the application of the writes: the cancellation, or the new contexts.
    unfoldable pub behind_writes :
        Option ContextError
        → b.State
        → List CredentialWrite
        → List Candidate
        → Config
        → Attempt b.State
    unfolding rollback_credential_writes canceled_attempt migrate_contexts
    behind_writes (some e) s writes candidates cfg =
        let back : b.State × List ℕ = rollback_credential_writes b s writes in
        canceled_attempt back.0 e back.1
    behind_writes none s writes candidates cfg = record {
      state = s;
      audited = true;
      stored = true;
      unsure = false;
      result =
          returned (record cfg { contexts = migrate_contexts cs target candidates cfg.contexts });
    }

    unfoldable pub behind_apply :
        b.State × Option ContextError
        → List CredentialWrite
        → List Candidate
        → Config
        → Attempt b.State
    unfolding behind_writes is_credential_state_uncertain
    behind_apply (s, some e) writes candidates cfg = record {
      state = s;
      audited = true;
      stored = false;
      unsure = is_credential_state_uncertain e;
      result = failed e;
    }
    behind_apply (s, none) writes candidates cfg = behind_writes w.canceled s writes candidates cfg

    -- The writes behind the intent, the intent behind its policy, and the policy behind the checks.
    unfoldable pub behind_intent :
        Option ContextError
        → b.State
        → List CredentialWrite
        → List Candidate
        → Config
        → Attempt b.State
    unfolding behind_apply apply_credential_writes
    behind_intent (some e) s writes candidates cfg = refused_attempt s false e
    behind_intent none s writes candidates cfg =
        behind_apply (apply_credential_writes b s writes) writes candidates cfg

    unfoldable pub behind_policy :
        Result (Context × Text)
        → b.State
        → List CredentialWrite
        → List Candidate
        → Config
        → Attempt b.State
    unfolding behind_intent
    behind_policy (failed e) s writes candidates cfg = refused_attempt s false e
    behind_policy (returned (policy, name)) s writes candidates cfg =
        behind_intent (w.begin_audit policy name) s writes candidates cfg

    unfoldable pub behind_checks :
        Option ContextError
        → Option ContextError
        → b.State
        → List CredentialWrite
        → List Candidate
        → Config
        → Attempt b.State
    unfolding credential_migration_audit_policy behind_policy
    behind_checks (some e) authorized s writes candidates cfg = refused_attempt s false e
    behind_checks none (some e) s writes candidates cfg = refused_attempt s false e
    behind_checks none none s writes candidates cfg =
        behind_policy (credential_migration_audit_policy cfg candidates) s writes candidates cfg

    -- The callback of the update.
    unfoldable pub attempt_migration :
        b.State → List CredentialWrite → List Candidate → Config → Attempt b.State
    unfolding validate_credential_migration_snapshot authorize_all behind_checks
    attempt_migration s writes candidates cfg =
        behind_checks (validate_credential_migration_snapshot w cfg candidates)
          (authorize_all w candidates) s writes candidates cfg

    -- The outcome behind the update, for the fields of its attempt.
    unfoldable pub finish_attempt :
        Commit → ℕ → Config → b.State → Bool → Bool → Bool → Result Config → Migrated b.State
    unfolding committed_result final_error migrate_mutation_outcome
    finish_attempt commit count cfg s audited stored unsure result =
        let end : Config × Option ContextError = committed_result commit cfg result in
        let error : Option ContextError = final_error stored end.1 in
        let outcome : MutationOutcome =
          migrate_mutation_outcome count (is_error error) (stored || unsure) in
        if audited
        then record {
          state = s;
          config = end.0;
          outcome = some outcome;
          error = w.finish_audit outcome error;
        }
        else record { state = s; config = end.0; outcome = none; error = error }

    unfoldable pub finish_migration : ℕ → Config → Attempt b.State → Migrated b.State
    unfolding finish_attempt
    finish_migration count cfg a =
        finish_attempt w.commit count cfg a.state a.audited a.stored a.unsure a.result

    -- The update, for the error that it may return before its callback.
    unfoldable pub update_contexts :
        Option ContextError
        → b.State
        → List CredentialWrite
        → List Candidate
        → Config
        → Migrated b.State
    unfolding attempt_migration finish_migration
    update_contexts (some e) s writes candidates cfg = record {
      state = s;
      config = cfg;
      outcome = none;
      error = some e;
    }
    update_contexts none s writes candidates cfg =
        finish_migration (length candidates) cfg (attempt_migration s writes candidates cfg)

    -- applyCredentialMigration
    unfoldable pub apply_credential_migration :
        b.State → List CredentialWrite → List Candidate → Config → Migrated b.State
    unfolding update_contexts
    apply_credential_migration = update_contexts w.opens
