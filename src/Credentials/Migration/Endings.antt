-- ===== src/Credentials/Migration/Endings.antt =====
-- How the callback of a migration can end: nothing is written, all is, or the rollback has failed.
use srvgov_cli.Prelude.{
  ℕ, String, ◌≡◌, refl, ◌∙◌, ◌⊎◌, inl, inr, Bool, true, false, Option, none, some, List, [], ◌∷◌,
  Bool-cases, all, All,
}
use srvgov_cli.GoText.{Text}
use srvgov_cli.Contexts.{Context, Config, ContextError, Result, failed, returned}
use srvgov_cli.Credentials.{
  Backend, Candidate, CredentialWrite, is_credential_state_uncertain, compensated,
  prepare_credential_writes, rollback_credential_writes, apply_credential_writes,
}
use srvgov_cli.Credentials.Rollback.{
  IsStore, writes_to, Remembers, rollback_credential_writes-others,
  rollback_credential_writes-restores,
}
use srvgov_cli.Credentials.Applied.{
  stored, stored-others, IsAtomic, apply_credential_writes-IsAtomic,
  prepare_credential_writes-Remembers,
}
use srvgov_cli.Credentials.Candidates.{Credstore}
use srvgov_cli.Credentials.Migration.{
  MigrationWorld, validate_credential_migration_snapshot, authorize_all,
  credential_migration_audit_policy, Attempt, canceled_attempt, migrate_contexts, behind_writes,
  behind_apply, behind_intent, behind_policy, behind_checks, attempt_migration,
}

-- The contexts that a migration makes.
abbrev pub migrated_config : Credstore → Text → List Candidate → Config → Config
migrated_config cs target candidates cfg = record cfg {
  contexts = migrate_contexts cs target candidates cfg.contexts;
}

-- The end of an attempt, for what the store holds before and behind it, by name.
pub data Ended {S : Type 0} (before after : Text → Option Text) (ws : List CredentialWrite)
    (new : Config) (a : Attempt S) : Type 0 where
  untouched :
      (e : ContextError)
      → a.stored ≡ false
      → a.unsure ≡ false
      → a.result ≡ failed e
      → ((m : Text) → after m ≡ before m)
      → Ended before after ws new a
  kept :
      a.stored ≡ true
      → a.audited ≡ true
      → a.result ≡ returned new
      → ((m : Text) → after m ≡ stored ws m (before m))
      → Ended before after ws new a
  in_doubt :
      (e : ContextError)
      → a.stored ≡ false
      → a.unsure ≡ true
      → a.audited ≡ true
      → a.result ≡ failed e
      → ((m : Text) → (after m ≡ before m) ⊎ (writes_to m ws ≡ true))
      → Ended before after ws new a

-- What an all-or-nothing application says of one name.
named :
    {P U : Type 0} (m : Text) (ws : List CredentialWrite)
    → P ⊎ (U × (writes_to m ws ≡ true))
    → P ⊎ (writes_to m ws ≡ true)
named m ws (inl p) = inl p
named m ws (inr (u, n)) = inr n

certain : {P U : Type 0} {b : Bool} → b ≡ false → P ⊎ ((b ≡ true) × U) → P
certain f (inl p) = p
certain f (inr (u, n)) = absurd (cc)

abbrev message : String
message = "credential migration was canceled and compensation was incomplete"

module _ (b : Backend) (store : IsStore b) (w : MigrationWorld) (cs : Credstore) (target : Text)
    (candidates : List Candidate) (cfg : Config) where
  -- An attempt at the store's contents.
  abbrev pub EndsWell : (Text → Option Text) → List CredentialWrite → Attempt b.State → Type 0
  EndsWell before ws a =
      Ended before (store.contents a.state) ws (migrated_config cs target candidates cfg) a

  -- A rollback of all the writes behind a cancellation.
  canceled_attempt-Ended :
      (s0 s : b.State) (ws : List CredentialWrite) (e : ContextError)
      → All (Remembers (store.contents s0)) ws
      → ((m : Text) → writes_to m ws ≡ false → store.contents s m ≡ store.contents s0 m)
      → (causes : List ℕ) → (rollback_credential_writes b s ws).1 ≡ causes
      → EndsWell
          (store.contents s0)
          ws
          (canceled_attempt b (rollback_credential_writes b s ws).0 e causes)
  unfolding canceled_attempt
  canceled_attempt-Ended s0 s ws e all outside [] h =
      untouched (compensated message e []) refl refl refl
        (rollback_credential_writes-restores b store s ws (store.contents s0) all outside h)
  canceled_attempt-Ended s0 s ws e all outside (c ∷ causes) h =
      in_doubt (compensated message e (c ∷ causes)) refl refl refl refl λ m.
        elim (Bool-cases (writes_to m ws)) [
          | inl n ↦ inr n
          | inr n ↦ inl (rollback_credential_writes-others b store s ws m n ∙ outside m n)
        ]

  behind_writes-Ended :
      (o : Option ContextError) (s0 s : b.State) (ws : List CredentialWrite)
      → All (Remembers (store.contents s0)) ws
      → ((m : Text) → store.contents s m ≡ stored ws m (store.contents s0 m))
      → EndsWell (store.contents s0) ws (behind_writes b w cs target o s ws candidates cfg)
  unfolding behind_writes
  behind_writes-Ended none s0 s ws all here = kept refl refl refl here
  behind_writes-Ended (some e) s0 s ws all here =
      canceled_attempt-Ended s0 s ws e all
        (λ m n. here m ∙ stored-others ws m (store.contents s0 m) n)
        (rollback_credential_writes b s ws).1 refl

  behind_apply-Ended :
      (s0 s : b.State) (o : Option ContextError) (ws : List CredentialWrite)
      → All (Remembers (store.contents s0)) ws
      → IsAtomic (store.contents s0) (store.contents s) ws o
      → EndsWell (store.contents s0) ws (behind_apply b w cs target (s, o) ws candidates cfg)
  unfolding behind_apply
  behind_apply-Ended s0 s none ws all atomic = behind_writes-Ended w.canceled s0 s ws all atomic
  behind_apply-Ended s0 s (some e) ws all atomic =
      elim (Bool-cases (is_credential_state_uncertain e)) [
        | inl u ↦ in_doubt e refl u refl refl λ m. named m ws (atomic m)
        | inr u ↦ untouched e refl u refl λ m. certain u (atomic m)
      ]

  behind_intent-Ended :
      (o : Option ContextError) (s : b.State) (cands : List Candidate) (ws : List CredentialWrite)
      → prepare_credential_writes b s cands ≡ returned ws
      → EndsWell (store.contents s) ws (behind_intent b w cs target o s ws candidates cfg)
  unfolding behind_intent
  behind_intent-Ended (some e) s cands ws h = untouched e refl refl refl λ m. refl
  behind_intent-Ended none s cands ws h =
      let end = apply_credential_writes b s ws in
      behind_apply-Ended s end.0 end.1 ws (prepare_credential_writes-Remembers b store s cands h)
        (apply_credential_writes-IsAtomic b store s cands h)

  behind_policy-Ended :
      (r : Result (Context × Text)) (s : b.State) (cands : List Candidate)
      (ws : List CredentialWrite)
      → prepare_credential_writes b s cands ≡ returned ws
      → EndsWell (store.contents s) ws (behind_policy b w cs target r s ws candidates cfg)
  unfolding behind_policy
  behind_policy-Ended (failed e) s cands ws h = untouched e refl refl refl λ m. refl
  behind_policy-Ended (returned (policy, name)) s cands ws h =
      behind_intent-Ended (w.begin_audit policy name) s cands ws h

  behind_checks-Ended :
      (o p : Option ContextError) (s : b.State) (cands : List Candidate) (ws : List CredentialWrite)
      → prepare_credential_writes b s cands ≡ returned ws
      → EndsWell (store.contents s) ws (behind_checks b w cs target o p s ws candidates cfg)
  unfolding behind_checks
  behind_checks-Ended (some e) p s cands ws h = untouched e refl refl refl λ m. refl
  behind_checks-Ended none (some e) s cands ws h = untouched e refl refl refl λ m. refl
  behind_checks-Ended none none s cands ws h =
      behind_policy-Ended (credential_migration_audit_policy cfg candidates) s cands ws h

  pub attempt_migration-Ended :
      (s : b.State) (cands : List Candidate) (ws : List CredentialWrite)
      → prepare_credential_writes b s cands ≡ returned ws
      → EndsWell (store.contents s) ws (attempt_migration b w cs target s ws candidates cfg)
  unfolding attempt_migration
  attempt_migration-Ended s cands ws h =
      behind_checks-Ended (validate_credential_migration_snapshot w cfg candidates)
        (authorize_all w candidates) s cands ws h
