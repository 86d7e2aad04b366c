-- ===== src/Credentials/Rollback.antt =====
-- What the rollback of credential writes gives back.
use srvgov_cli.Prelude.{
  ℕ, ◌≡◌, refl, sym, ◌∙◌, inl, inr, Bool, true, false, Option, none, some, List, [], ◌∷◌, ◌++◌,
  arith, if◌then◌else◌, Bool-cases, any, all, All, split_if,
}
use mathlib.Core.Path.{subst}
use srvgov_cli.GoText.{Text, equal, equal_iff}
use srvgov_cli.Credentials.{
  Caller, background, found, missing, Backend, CredentialWrite, put_errors, delete_errors,
  compensate, rollback_credential_writes,
}

-- What the writes rely on of a backend: `contents` says which secrets its state holds. A call changes
-- no other name than its own, also where it fails; where it succeeds, it has done what it says.
pub record IsStore (b : Backend) : Type 0 where
  pub contents : b.State → Text → Option Text
  pub get-found :
      (x : Caller) (s : b.State) (n v : Text) → b.get x s n ≡ found v → contents s n ≡ some v
  pub get-missing :
      (x : Caller) (s : b.State) (n : Text) → b.get x s n ≡ missing → contents s n ≡ none
  pub put-stored :
      (x : Caller) (s : b.State) (n v : Text)
      → (b.put x s n v).1 ≡ none
      → contents (b.put x s n v).0 n ≡ some v
  pub put-others :
      (x : Caller) (s : b.State) (n v m : Text)
      → equal n m ≡ false
      → contents (b.put x s n v).0 m ≡ contents s m
  pub delete-gone :
      (x : Caller) (s : b.State) (n : Text)
      → delete_errors (b.delete x s n).1 ≡ []
      → contents (b.delete x s n).0 n ≡ none
  pub delete-others :
      (x : Caller) (s : b.State) (n m : Text)
      → equal n m ≡ false
      → contents (b.delete x s n).0 m ≡ contents s m

-- Whether some of the writes has the name.
abbrev pub writes_to : Text → List CredentialWrite → Bool
writes_to m writes = any (λ w. equal w.name m) writes

-- What a write remembers of its name, as the content of a store.
abbrev pub remembered : CredentialWrite → Option Text
remembered w = if w.existed then some w.previous else none

-- Each write remembers what was there.
abbrev pub Remembers : (Text → Option Text) → CredentialWrite → Type 0
Remembers before w = before w.name ≡ remembered w

put_errors-none : (o : Option ℕ) → put_errors o ≡ [] → o ≡ none
unfolding put_errors
put_errors-none none h = refl
put_errors-none (some e) h = cc

no_errors-append : (xs ys : List ℕ) → (xs ++ ys) ≡ [] → (xs ≡ []) × (ys ≡ [])
no_errors-append [] ys h = (refl, h)
no_errors-append (x ∷ xs) ys h = cc

module _ (b : Backend) (store : IsStore b) where
  compensate-others :
      (s : b.State) (w : CredentialWrite) (m : Text)
      → equal w.name m ≡ false
      → store.contents (compensate b s w).0 m ≡ store.contents s m
  unfolding compensate
  compensate-others s w m n =
      split_if (λ (r : b.State × List ℕ). store.contents r.0 m ≡ store.contents s m) w.existed
        (λ _. store.put-others background s w.name w.previous m n)
        (λ _. store.delete-others background s w.name m n)

  compensate-restores :
      (s : b.State) (w : CredentialWrite)
      → (compensate b s w).1 ≡ []
      → store.contents (compensate b s w).0 w.name ≡ remembered w
  unfolding compensate
  compensate-restores s w h = elim (Bool-cases w.existed) [
    | inl e ↦ rw e (store.put-stored background s w.name w.previous (put_errors-none _ (rw e at h)))
    | inr e ↦ rw e (store.delete-gone background s w.name (rw e at h))
  ]

  -- A rollback changes no name but those of its writes.
  pub rollback_credential_writes-others :
      (s : b.State) (ws : List CredentialWrite) (m : Text)
      → writes_to m ws ≡ false
      → store.contents (rollback_credential_writes b s ws).0 m ≡ store.contents s m
  unfolding rollback_credential_writes
  rollback_credential_writes-others s [] m n = refl
  rollback_credential_writes-others s (w ∷ ws) m n =
      let later = (rollback_credential_writes b s ws).0 in
      compensate-others later w m (ground arith)
      ∙ rollback_credential_writes-others s ws m (ground arith)

  rollback_credential_writes-remembered :
      (s : b.State) (ws : List CredentialWrite) (before : Text → Option Text) (m : Text)
      → All (Remembers before) ws
      → (rollback_credential_writes b s ws).1 ≡ []
      → writes_to m ws ≡ true
      → store.contents (rollback_credential_writes b s ws).0 m ≡ before m
  unfolding rollback_credential_writes
  rollback_credential_writes-remembered s [] before m all h n = cc
  rollback_credential_writes-remembered s (w ∷ ws) before m all h n =
      let later = rollback_credential_writes b s ws in
      let clean = no_errors-append later.1 (compensate b later.0 w).1 h in
      elim (Bool-cases (equal w.name m)) [
        | inl e ↦
            subst (λ k. store.contents (compensate b later.0 w).0 k ≡ before k)
              ((equal_iff w.name m).0 e) (compensate-restores later.0 w clean.1 ∙ sym all.0)
        | inr e ↦
            compensate-others later.0 w m e
            ∙ rollback_credential_writes-remembered s ws before m all.1 clean.0 (ground arith)
      ]

  -- Where every compensating call succeeds, and no other name had changed, all is as it was.
  pub rollback_credential_writes-restores :
      (s : b.State) (ws : List CredentialWrite) (before : Text → Option Text)
      → All (Remembers before) ws
      → ((m : Text) → writes_to m ws ≡ false → store.contents s m ≡ before m)
      → (rollback_credential_writes b s ws).1 ≡ []
      → (m : Text) → store.contents (rollback_credential_writes b s ws).0 m ≡ before m
  rollback_credential_writes-restores s ws before all outside h m =
      elim (Bool-cases (writes_to m ws)) [
        | inl n ↦ rollback_credential_writes-remembered s ws before m all h n
        | inr n ↦ rollback_credential_writes-others s ws m n ∙ outside m n
      ]
