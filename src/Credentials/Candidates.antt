-- ===== src/Credentials/Candidates.antt =====
-- The contexts whose credentials `ctx migrate-credentials` moves, and what they become. The package
-- credstore is a parameter: its references, and the secrets that it answers.
use srvgov_cli.Prelude.{ℕ, Bool, ◌&&◌, ◌||◌, Option, none, some, List, [], ◌∷◌, ◌++◌, if◌then◌else◌}
use srvgov_cli.GoText.{Text, is, Map, get_key, sort_strings}
use srvgov_cli.Contexts.{
  Context, zero_context, Config, usage_error, credential_store_error, Result, failed, returned,
  ◌>>=◌,
}
use srvgov_cli.Contexts.Normalize.{Urls, normalize}
use srvgov_cli.Credentials.{Candidate, identity_name}

-- `ParseRef` answers the backend of a reference, and nothing for another text; `New` and `Get` answer an
-- error, or Go's `nil` with the secret.
pub record Credstore : Type 0 where
  pub parse_ref : Text → Option Text
  pub encode_ref : Text → Text
  pub opens : Text → Option ℕ
  pub secret : Text → Text → Option ℕ × Text

-- validCredentialMigrationBackend
unfoldable pub valid_credential_migration_backend : Text → Bool
unfolding is
valid_credential_migration_backend name = is name "encrypted-file" || is name "keychain"

unfoldable pub append_candidate : List Candidate → Option Candidate → List Candidate
append_candidate candidates none = candidates
append_candidate candidates (some c) = candidates ++ c ∷ []

-- `cfg.Contexts[name]`: Go's zero value where the name is missing
unfoldable pub context_at : Map Context → Text → Context
unfolding get_key
context_at contexts name = elim (get_key name contexts) [ none ↦ zero_context | some item ↦ item ]

unfoldable pub names_of : Map Context → List Text
names_of [] = []
names_of ((name, item) ∷ contexts) = name ∷ names_of contexts

module _ (cs : Credstore) where
  unfoldable pub referenced_secret : Text → Text → Result Text
  referenced_secret name backend = elim (cs.opens backend) [
    | some e ↦ failed (credential_store_error name e)
    | none ↦ elim ((cs.secret backend name).0) [
      | some e ↦ failed (credential_store_error name e)
      | none ↦ returned (cs.secret backend name).1
    ]
  ]

  -- resolvedCredential
  unfoldable pub resolved_credential : Text → Text → Result Text
  unfolding is referenced_secret
  resolved_credential name value = if is value "" then returned [] else elim (cs.parse_ref value) [
    | none ↦ returned value
    | some backend ↦ referenced_secret name backend
  ]

  -- migratedCredentialContext
  unfoldable pub migrated_credential_context : Candidate → Text → Context
  unfolding is
  migrated_credential_context c backend = record c.context {
    password = if is c.password "" then c.context.password else cs.encode_ref backend;
    identity_passphrase =
        if is c.passphrase "" then c.context.identity_passphrase else cs.encode_ref backend;
    credential_backend =
        if is c.password "" && is c.passphrase "" then c.context.credential_backend else backend;
  }

  module _ (urls : Urls) where
    -- credentialMigrationCandidate; `none` is a nil candidate.
    unfoldable pub credential_migration_candidate : Text → Context → Result (Option Candidate)
    unfolding normalize resolved_credential identity_name is
    credential_migration_candidate name item =
        normalize urls item
        >>= (λ validated. resolved_credential name item.password)
        >>= λ password.
            resolved_credential (identity_name name) item.identity_passphrase >>= λ passphrase.
            returned (
              if is password "" && is passphrase ""
              then none
              else some (record {
                name = name;
                context = item;
                password = password;
                passphrase = passphrase;
              }))

    unfoldable pub candidates_loop :
        Map Context → List Candidate → List Text → Result (List Candidate)
    unfolding credential_migration_candidate append_candidate context_at
    candidates_loop contexts candidates [] = returned candidates
    candidates_loop contexts candidates (name ∷ names) =
        credential_migration_candidate name (context_at contexts name) >>= λ c.
        candidates_loop contexts (append_candidate candidates c) names

    -- credentialMigrationCandidates
    unfoldable pub credential_migration_candidates : Config → Text → Result (List Candidate)
    unfolding is get_key credential_migration_candidate append_candidate candidates_loop names_of
        sort_strings
    credential_migration_candidates cfg context_name =
        if is context_name ""
        then candidates_loop cfg.contexts [] (sort_strings (names_of cfg.contexts))
        else elim (get_key context_name cfg.contexts) [
          | none ↦ failed (usage_error "context not found")
          | some item ↦ credential_migration_candidate context_name item >>= λ c.
              returned (append_candidate [] c)
        ]
