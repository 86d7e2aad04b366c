-- ===== src/Credentials.antt =====
-- The writes of credentials in cmd/ctx_migrate.go: their preparation, their application with its
-- compensation, and the rollback. The credential backend is a package outside: a state, and what its
-- operations answer in it.
pub mod Rollback
pub mod Applied
pub mod Wanted
pub mod Candidates
pub mod Migration
use srvgov_cli.Prelude.{
  ◌/◌, ◌%◌, ℕ, zero, suc, ◌+◌, ◌-◌, ◌*◌, ◌≤◌, ◌<◌, String, ◌≡◌, refl, sym, ap, ◌∙◌, ◌≢◌, ◌↔◌, ◌⊎◌,
  inl, inr, Bool, true, false, not, ◌&&◌, ◌||◌, Option, none, some, List, [], ◌∷◌, ◌++◌, map,
  append-nil, append_assoc, arith, ltb, leb, ◌==◌, if◌then◌else◌, ==_iff, Bool-cases, or_resolve,
  Option-cases, length, take, any, all, length-append, any-append, All, All-append, All-map, All-of,
  IfSome, split_if, IfSome-eq, holds_below, holds_below-at, ℤ, pos, negsuc, is_negative, clamp,
  is_positive,
}
use srvgov_cli.GoText.{Text, codes, is, equal}
use srvgov_cli.Contexts.{
  Context, ContextError, outside_error, credential_store_error, credential_state_uncertain,
  partial_failure, Result, failed, returned, ◌>>=◌,
}

-- The Go context that a call gets: that of the command, which may be canceled, or the background.
pub data Caller : Type 0 where
  command background : Caller

-- What `Get` answers: a secret, ErrNotFound, or another error.
pub data Found : Type 0 where
  found : Text → Found
  missing : Found
  unreadable : ℕ → Found

-- What `Delete` answers.
pub data Deleted : Type 0 where
  deleted not_found : Deleted
  undeleted : ℕ → Deleted

-- `credstore.Backend`
pub record Backend : Type 1 where
  pub State : Type 0
  pub get : Caller → State → Text → Found
  pub put : Caller → State → Text → Text → State × Option ℕ
  pub delete : Caller → State → Text → State × Deleted

-- `migrateCredentialCandidate`
pub record Candidate : Type 0 where
  pub name : Text
  pub context : Context
  pub password : Text
  pub passphrase : Text

-- `credentialWrite`
pub record CredentialWrite : Type 0 where
  pub name : Text
  pub value : Text
  pub previous : Text
  pub existed : Bool

-- The name of a passphrase.
unfoldable pub identity_name : Text → Text
identity_name name = name ++ codes "#identity"

-- isCredentialStateUncertain
unfoldable pub is_credential_state_uncertain : ContextError → Bool
is_credential_state_uncertain (credential_state_uncertain message e causes) = true
is_credential_state_uncertain (partial_failure message e) = is_credential_state_uncertain e
is_credential_state_uncertain _ = false

-- The errors of one compensating call.
unfoldable pub put_errors : Option ℕ → List ℕ
put_errors none = []
put_errors (some e) = e ∷ []

unfoldable pub delete_errors : Deleted → List ℕ
delete_errors (undeleted e) = e ∷ []
delete_errors _ = []

-- A failure behind its compensation.
unfoldable pub compensated : String → ContextError → List ℕ → ContextError
compensated message e [] = e
compensated message e (cause ∷ causes) = credential_state_uncertain message e (cause ∷ causes)

-- A write behind what `Get` answers for its name.
unfoldable pub write_behind : Text → Text → Found → Result CredentialWrite
write_behind name value (found previous) =
    returned (record { name = name; value = value; previous = previous; existed = true })
write_behind name value missing =
    returned (record { name = name; value = value; previous = []; existed = false })
write_behind name value (unreadable e) = failed (credential_store_error name e)

module _ (b : Backend) where
  -- prepareCredentialWriteContext
  unfoldable pub prepare_credential_write : b.State → Text → Text → Result CredentialWrite
  unfolding write_behind
  prepare_credential_write s name value = write_behind name value (b.get command s name)

  -- One secret of a candidate, which is written unless it is empty.
  unfoldable pub prepare_secret :
      b.State → Text → Text → List CredentialWrite → Result (List CredentialWrite)
  unfolding prepare_credential_write is
  prepare_secret s name value writes =
      if is value ""
      then returned writes
      else prepare_credential_write s name value >>= λ write. returned (writes ++ write ∷ [])

  unfoldable pub prepare_loop :
      b.State → List CredentialWrite → List Candidate → Result (List CredentialWrite)
  unfolding prepare_secret identity_name
  prepare_loop s writes [] = returned writes
  prepare_loop s writes (c ∷ candidates) =
      prepare_secret s c.name c.password writes
      >>= (λ passwords. prepare_secret s (identity_name c.name) c.passphrase passwords)
      >>= (λ both. prepare_loop s both candidates)

  -- prepareCredentialWrites
  unfoldable pub prepare_credential_writes :
      b.State → List Candidate → Result (List CredentialWrite)
  unfolding prepare_loop
  prepare_credential_writes s candidates = prepare_loop s [] candidates

  -- One round of the rollback.
  unfoldable pub compensate : b.State → CredentialWrite → b.State × List ℕ
  unfolding put_errors delete_errors
  compensate s write =
      if write.existed
      then (
        (b.put background s write.name write.previous).0,
        put_errors (b.put background s write.name write.previous).1,
      )
      else (
        (b.delete background s write.name).0,
        delete_errors (b.delete background s write.name).1,
      )

  -- rollbackCredentialWrites: from the last write to the first; no error is Go's `nil`.
  unfoldable pub rollback_credential_writes : b.State → List CredentialWrite → b.State × List ℕ
  unfolding compensate
  rollback_credential_writes s [] = (s, [])
  rollback_credential_writes s (write ∷ writes) =
      let later : b.State × List ℕ = rollback_credential_writes s writes in
      let own : b.State × List ℕ = compensate later.0 write in (own.0, later.1 ++ own.1)

  -- The loop of applyCredentialWritesContext, with the writes that it has behind it.
  unfoldable pub apply_loop :
      b.State → List CredentialWrite → List CredentialWrite → b.State × Option ContextError
  unfolding rollback_credential_writes compensated
  apply_loop s done [] = (s, none)
  apply_loop s done (write ∷ writes) =
      let step : b.State × Option ℕ = b.put command s write.name write.value in
      elim (step.1) [
        | none ↦ apply_loop step.0 (done ++ write ∷ []) writes
        | some e ↦
            let back : b.State × List ℕ = rollback_credential_writes step.0 (done ++ write ∷ []) in
            (
              back.0,
              some (
                  compensated "credential update failed and compensation was incomplete"
                    (credential_store_error write.name e) back.1),
            )
      ]

  -- applyCredentialWritesContext
  unfoldable pub apply_credential_writes :
      b.State → List CredentialWrite → b.State × Option ContextError
  unfolding apply_loop
  apply_credential_writes s writes = apply_loop s [] writes
