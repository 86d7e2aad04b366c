-- ===== src/Credentials/Migration/Transaction.antt =====
-- What a migration of credentials leaves behind: the store, the contexts, and what the audit is told.
use srvgov_cli.Prelude.{
  ℕ, String, ◌≡◌, refl, sym, ◌∙◌, ◌⊎◌, inl, inr, Bool, true, false, Option, none, some, List,
  Bool-cases, length, all, pos,
}
use mathlib.Core.Path.{subst}
use srvgov_cli.GoText.{Text, codes}
use srvgov_cli.Audit.Events.{MutationOutcome}
use srvgov_cli.Contexts.{Config, ContextError, failed, returned}
use srvgov_cli.Credentials.{Backend, Candidate, CredentialWrite, prepare_credential_writes}
use srvgov_cli.Credentials.Rollback.{IsStore, writes_to}
use srvgov_cli.Credentials.Applied.{stored, stored-others}
use srvgov_cli.Credentials.Candidates.{Credstore}
use srvgov_cli.Contexts.Control.{Commit, committed, committed_with, not_committed}
use srvgov_cli.Credentials.Migration.{
  MigrationWorld, Attempt, Migrated, attempt_migration, committed_result, finish_attempt,
  update_contexts, finish_migration, apply_credential_migration,
}
use srvgov_cli.Credentials.Migration.Endings.{
  migrated_config, Ended, untouched, kept, in_doubt, attempt_migration-Ended,
}

-- What the audit is told, in numbers of contexts.
abbrev pub Told : Option MutationOutcome → String → ℕ → ℕ → ℕ → Type 0
Told o status succeeded lost unclear =
    (t : MutationOutcome) × (o ≡ some t)
    × (t.status ≡ codes status)
    × (t.succeeded ≡ pos succeeded)
    × (t.failed ≡ pos lost)
    × (t.uncertain ≡ pos unclear)

-- The end of a migration of `count` contexts from `cfg` to `new`.
pub data Settled {S : Type 0} (before after : Text → Option Text) (ws : List CredentialWrite)
    (count : ℕ) (cfg new : Config) (end : Migrated S) : Type 0 where
  refused :
      (e : ContextError)
      → end.outcome ≡ none
      → end.error ≡ some e
      → end.config ≡ cfg
      → ((m : Text) → after m ≡ before m)
      → Settled before after ws count cfg new end
  undone :
      Told end.outcome "failed" 0 count 0
      → end.config ≡ cfg
      → ((m : Text) → after m ≡ before m)
      → Settled before after ws count cfg new end
  migrated :
      Told end.outcome "succeeded" count 0 0
      → end.config ≡ new
      → ((m : Text) → after m ≡ stored ws m (before m))
      → Settled before after ws count cfg new end
  doubtful :
      Told end.outcome "failed" 0 0 count
      → (end.config ≡ cfg) ⊎ (end.config ≡ new)
      → ((m : Text) → (after m ≡ before m) ⊎ (writes_to m ws ≡ true))
      → Settled before after ws count cfg new end

-- A name of which the last write holds is written to, or as it was.
written :
    (ws : List CredentialWrite) (m : Text) {o p : Option Text}
    → o ≡ stored ws m p
    → (o ≡ p) ⊎ (writes_to m ws ≡ true)
written ws m {o} {p} h = elim (Bool-cases (writes_to m ws)) [
  | inl n ↦ inr n
  | inr n ↦ inl (h ∙ stored-others ws m p n)
]

subst3 {ℓ} :
    {A : Type ℓ} (P : Bool → Bool → A → Type 0) {x x' y y' : Bool} {z z' : A}
    → x ≡ x'
    → y ≡ y'
    → z ≡ z'
    → P x y z
    → P x' y' z'
subst3 P {x} {x'} {y} {y'} {z} {z'} e f g p =
    subst (λ a. P a y' z') e (subst (λ b. P x b z') f (subst (λ c. P x y c) g p))

module _ (b : Backend) (store : IsStore b) (w : MigrationWorld) (cs : Credstore) (target : Text)
    (cfg new : Config) (count : ℕ) (before : Text → Option Text) (ws : List CredentialWrite) where
  -- An end, for what the store holds in it.
  abbrev pub SettledAt : Migrated b.State → Type 0
  SettledAt end = Settled before (store.contents end.state) ws count cfg new end

  untouched-Settled :
      (c : Commit) (s : b.State) (audited : Bool) (e : ContextError)
      → ((m : Text) → store.contents s m ≡ before m)
      → SettledAt (finish_attempt b w cs target c count cfg s audited false false (failed e))
  unfolding finish_attempt committed_result
  untouched-Settled c s true e same = undone (_, refl, refl, refl, refl, refl) refl same
  untouched-Settled c s false e same = refused e refl refl refl same

  kept-Settled :
      (c : Commit) (s : b.State) (unsure : Bool)
      → ((m : Text) → store.contents s m ≡ stored ws m (before m))
      → SettledAt (finish_attempt b w cs target c count cfg s true true unsure (returned new))
  unfolding finish_attempt committed_result
  kept-Settled committed s u all = migrated (_, refl, refl, refl, refl, refl) refl all
  kept-Settled (committed_with e) s u all =
      doubtful (_, refl, refl, refl, refl, refl) (inr refl) λ m. written ws m (all m)
  kept-Settled (not_committed e) s u all =
      doubtful (_, refl, refl, refl, refl, refl) (inl refl) λ m. written ws m (all m)

  in_doubt-Settled :
      (c : Commit) (s : b.State) (e : ContextError)
      → ((m : Text) → (store.contents s m ≡ before m) ⊎ (writes_to m ws ≡ true))
      → SettledAt (finish_attempt b w cs target c count cfg s true false true (failed e))
  unfolding finish_attempt committed_result
  in_doubt-Settled c s e outside = doubtful (_, refl, refl, refl, refl, refl) (inl refl) outside

  finish_attempt-Settled :
      (c : Commit) (a : Attempt b.State)
      → Ended before (store.contents a.state) ws new a
      → SettledAt
          (finish_attempt b w cs target c count cfg a.state a.audited a.stored a.unsure a.result)
  finish_attempt-Settled c a (untouched e st un r same) =
      subst3 (λ x y z. SettledAt (finish_attempt b w cs target c count cfg a.state a.audited x y z))
        (sym st) (sym un) (sym r) (untouched-Settled c a.state a.audited e same)
  finish_attempt-Settled c a (kept st au r all) =
      subst3 (λ x y z. SettledAt (finish_attempt b w cs target c count cfg a.state x y a.unsure z))
        (sym au) (sym st) (sym r) (kept-Settled c a.state a.unsure all)
  finish_attempt-Settled c a (in_doubt e st un au r outside) =
      subst
        (λ u.
          SettledAt (finish_attempt b w cs target c count cfg a.state u a.stored a.unsure a.result))
        (sym au)
        (subst3 (λ x y z. SettledAt (finish_attempt b w cs target c count cfg a.state true x y z))
          (sym st) (sym un) (sym r) (in_doubt-Settled c a.state e outside))

update_contexts-Settled :
    (b : Backend) (store : IsStore b) (w : MigrationWorld) (cs : Credstore) (target : Text)
    (candidates : List Candidate) (cfg : Config) (o : Option ContextError) (s : b.State)
    (ws : List CredentialWrite)
    → prepare_credential_writes b s candidates ≡ returned ws
    → SettledAt b store w cs target cfg
        (migrated_config cs target candidates cfg)
        (length candidates)
        (store.contents s)
        ws
        (update_contexts b w cs target o s ws candidates cfg)
unfolding update_contexts finish_migration
update_contexts-Settled b store w cs target candidates cfg (some e) s ws h =
    refused e refl refl refl λ m. refl
update_contexts-Settled b store w cs target candidates cfg none s ws h =
    finish_attempt-Settled b store w cs target cfg (migrated_config cs target candidates cfg)
      (length candidates) (store.contents s) ws w.commit
      (attempt_migration b w cs target s ws candidates cfg)
      (attempt_migration-Ended b store w cs target candidates cfg s candidates ws h)

-- Whatever the world answers, a migration of prepared credentials, from the store in which they
-- were prepared, ends in one of four ways: it is refused with an error, with no outcome, and
-- changes nothing; or the audit is told that all of it failed, and nothing has changed; or that
-- all of it succeeded, and every value is stored and the contexts are the migrated ones; or that
-- all of it is uncertain, the contexts are the old or the migrated ones, and no name has changed
-- but those that it writes to.
pub apply_credential_migration-Settled :
    (b : Backend) (store : IsStore b) (w : MigrationWorld) (cs : Credstore) (target : Text)
    (candidates : List Candidate) (cfg : Config) (s : b.State) {ws : List CredentialWrite}
    → prepare_credential_writes b s candidates ≡ returned ws
    → Settled
        (store.contents s)
        (store.contents (apply_credential_migration b w cs target s ws candidates cfg).state)
        ws
        (length candidates)
        cfg
        (migrated_config cs target candidates cfg)
        (apply_credential_migration b w cs target s ws candidates cfg)
unfolding apply_credential_migration
apply_credential_migration-Settled b store w cs target candidates cfg s {ws} h =
    update_contexts-Settled b store w cs target candidates cfg w.opens s ws h
