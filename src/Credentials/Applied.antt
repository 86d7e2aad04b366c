-- ===== src/Credentials/Applied.antt =====
-- What the application of prepared credential writes leaves in the store, on every path.
use srvgov_cli.Prelude.{
  ℕ, String, ◌≡◌, refl, sym, ap, ◌∙◌, ◌⊎◌, inl, inr, Bool, true, false, Option, none, some, List,
  [], ◌∷◌, ◌++◌, append-nil, append_assoc, arith, if◌then◌else◌, Bool-cases, Option-cases, all,
  any-append, All, All-append, split_if,
}
use mathlib.Core.Path.{subst}
use srvgov_cli.GoText.{Text, equal, equal_iff, is}
use srvgov_cli.Contexts.{
  ContextError, credential_store_error, returned, ◌>>=◌, IfReturned, IfReturned-eq, IfReturned-bind,
}
use srvgov_cli.Credentials.{
  command, Found, found, missing, unreadable, Backend, Candidate, CredentialWrite, identity_name,
  write_behind, is_credential_state_uncertain, prepare_credential_write, prepare_secret,
  prepare_loop, prepare_credential_writes, rollback_credential_writes, compensated, apply_loop,
  apply_credential_writes,
}
use srvgov_cli.Credentials.Rollback.{
  IsStore, writes_to, Remembers, rollback_credential_writes-others,
  rollback_credential_writes-restores,
}

-- What stands under a name behind the writes: the value of the last one that has it.
unfoldable pub stored : List CredentialWrite → Text → Option Text → Option Text
unfolding equal
stored [] m before = before
stored (w ∷ ws) m before = stored ws m (if equal w.name m then some w.value else before)

pub stored-append :
    (xs ys : List CredentialWrite) (m : Text) (o : Option Text)
    → stored (xs ++ ys) m o ≡ stored ys m (stored xs m o)
unfolding stored
stored-append [] ys m o = refl
stored-append (x ∷ xs) ys m o = stored-append xs ys m (if equal x.name m then some x.value else o)

pub stored-others :
    (ws : List CredentialWrite) (m : Text) (o : Option Text)
    → writes_to m ws ≡ false
    → stored ws m o ≡ o
unfolding stored
stored-others [] m o n = refl
stored-others (w ∷ ws) m o n =
    let miss : equal w.name m ≡ false = ground arith in
    rw miss (stored-others ws m o (ground arith))

All-prefix {ℓ κ} : {A : Type ℓ} (P : A → Type κ) (xs ys : List A) → All P (xs ++ ys) → All P xs
All-prefix P [] ys h = tt
All-prefix P (x ∷ xs) ys h = (h.0, All-prefix P xs ys h.1)

-- Without an error every value is stored. With one each name holds what it held before; only where
-- the error says that the state is uncertain, a name that is written to may hold something else.
abbrev pub IsAtomic :
    (Text → Option Text)
    → (Text → Option Text)
    → List CredentialWrite
    → Option ContextError
    → Type 0
IsAtomic before after ws none = (m : Text) → after m ≡ stored ws m (before m)
IsAtomic before after ws (some e) =
    (m : Text)
    → (after m ≡ before m) ⊎ ((is_credential_state_uncertain e ≡ true) × (writes_to m ws ≡ true))

-- A name that is written to before is one that is written to.
widened {ℓ κ} :
    {P : Type ℓ} {U : Type κ} (m : Text) (done : List CredentialWrite) (w : CredentialWrite)
    (ws : List CredentialWrite)
    → P ⊎ (U × (writes_to m (done ++ w ∷ []) ≡ true))
    → P ⊎ (U × (writes_to m (done ++ w ∷ ws) ≡ true))
widened m done w ws (inl p) = inl p
widened m done w ws (inr (u, n)) =
    let names : CredentialWrite → Bool = λ v. equal v.name m in
    inr (u, ground (arith, any-append names done (w ∷ []), any-append names done (w ∷ ws), n))

module _ (b : Backend) (store : IsStore b) where
  write_behind-Remembers :
      (s : b.State) (name value : Text) (a : Found)
      → b.get command s name ≡ a
      → IfReturned (Remembers (store.contents s)) (write_behind name value a)
  unfolding write_behind
  write_behind-Remembers s name value (found previous) e = store.get-found command s name previous e
  write_behind-Remembers s name value missing e = store.get-missing command s name e
  write_behind-Remembers s name value (unreadable x) e = tt

  prepare_secret-Remembers :
      (s : b.State) (name value : Text) (ws : List CredentialWrite)
      → All (Remembers (store.contents s)) ws
      → IfReturned (All (Remembers (store.contents s))) (prepare_secret b s name value ws)
  unfolding prepare_secret prepare_credential_write
  prepare_secret-Remembers s name value ws all =
      split_if (IfReturned (All (Remembers (store.contents s)))) (is value "") (λ _. all)
        λ _.
          IfReturned-bind (Remembers (store.contents s)) (All (Remembers (store.contents s)))
            (write_behind name value (b.get command s name)) (λ w. returned (ws ++ w ∷ []))
            (write_behind-Remembers s name value (b.get command s name) refl)
            λ w h. All-append (Remembers (store.contents s)) ws (w ∷ []) all (h, tt)

  prepare_loop-Remembers :
      (s : b.State) (ws : List CredentialWrite) (cs : List Candidate)
      → All (Remembers (store.contents s)) ws
      → IfReturned (All (Remembers (store.contents s))) (prepare_loop b s ws cs)
  unfolding prepare_loop
  prepare_loop-Remembers s ws [] all = all
  prepare_loop-Remembers s ws (c ∷ cs) all =
      let P = All (Remembers (store.contents s)) in
      IfReturned-bind P P
        (prepare_secret b s c.name c.password ws >>= λ passwords.
          prepare_secret b s (identity_name c.name) c.passphrase passwords)
        (λ both. prepare_loop b s both cs)
        (IfReturned-bind P P (prepare_secret b s c.name c.password ws)
          (λ passwords. prepare_secret b s (identity_name c.name) c.passphrase passwords)
          (prepare_secret-Remembers s c.name c.password ws all)
          λ passwords h. prepare_secret-Remembers s (identity_name c.name) c.passphrase passwords h)
        λ both h. prepare_loop-Remembers s both cs h

  -- Prepared writes remember what is in the store.
  pub prepare_credential_writes-Remembers :
      (s : b.State) (cs : List Candidate) {ws : List CredentialWrite}
      → prepare_credential_writes b s cs ≡ returned ws
      → All (Remembers (store.contents s)) ws
  unfolding prepare_credential_writes
  prepare_credential_writes-Remembers s cs h =
      IfReturned-eq (All (Remembers (store.contents s))) (prepare_loop-Remembers s [] cs tt) h

  -- What a rollback behind a failure comes to, for a store in which no other names had changed.
  pub compensated-IsAtomic :
      (before : Text → Option Text) (s : b.State) (done : List CredentialWrite) (m : Text)
      (message : String) (e : ContextError)
      → All (Remembers before) done
      → ((n : Text) → writes_to n done ≡ false → store.contents s n ≡ before n)
      → (causes : List ℕ) → (rollback_credential_writes b s done).1 ≡ causes
      → (store.contents (rollback_credential_writes b s done).0 m ≡ before m)
        ⊎ ((is_credential_state_uncertain (compensated message e causes) ≡ true)
            × (writes_to m done ≡ true))
  unfolding compensated is_credential_state_uncertain
  compensated-IsAtomic before s done m message e all outside [] h =
      inl (rollback_credential_writes-restores b store s done before all outside h m)
  compensated-IsAtomic before s done m message e all outside (c ∷ causes) h =
      elim (Bool-cases (writes_to m done)) [
        | inl n ↦ inr (refl, n)
        | inr n ↦ inl (rollback_credential_writes-others b store s done m n ∙ outside m n)
      ]

  -- What a failed call comes to.
  abbrev refused :
      b.State → List CredentialWrite → CredentialWrite → ℕ → b.State × Option ContextError
  refused s done w x =
      let back : b.State × List ℕ = rollback_credential_writes b s (done ++ w ∷ []) in
      (
        back.0,
        some (
            compensated "credential update failed and compensation was incomplete"
              (credential_store_error w.name x) back.1),
      )

  put-stored_value :
      (s : b.State) (w : CredentialWrite) (m : Text)
      → (b.put command s w.name w.value).1 ≡ none
      → store.contents (b.put command s w.name w.value).0 m ≡ stored (w ∷ []) m (store.contents s m)
  unfolding stored
  put-stored_value s w m e = elim (Bool-cases (equal w.name m)) [
    | inl q ↦ rw q (
        subst (λ k. store.contents (b.put command s w.name w.value).0 k ≡ some w.value)
          ((equal_iff w.name m).0 q) (store.put-stored command s w.name w.value e))
    | inr q ↦ rw q (store.put-others command s w.name w.value m q)
  ]

  -- A name that no write has, the last call included, is as it was.
  outside-put :
      (before : Text → Option Text) (s : b.State) (done : List CredentialWrite)
      (w : CredentialWrite) (m : Text)
      → ((n : Text) → store.contents s n ≡ stored done n (before n))
      → writes_to m (done ++ w ∷ []) ≡ false
      → store.contents (b.put command s w.name w.value).0 m ≡ before m
  outside-put before s done w m here n =
      let split = any-append (λ (v : CredentialWrite). equal v.name m) done (w ∷ []) in
      store.put-others command s w.name w.value m (ground (arith, split))
      ∙ here m
      ∙ stored-others done m (before m) (ground (arith, split))

  apply_loop-put :
      (s : b.State) (done ws : List CredentialWrite) (w : CredentialWrite)
      → (b.put command s w.name w.value).1 ≡ none
      → apply_loop b s done (w ∷ ws)
        ≡ apply_loop b (b.put command s w.name w.value).0 (done ++ w ∷ []) ws
  unfolding apply_loop
  apply_loop-put s done ws w e = rw (e, apply_loop)

  apply_loop-refused :
      (s : b.State) (done ws : List CredentialWrite) (w : CredentialWrite) (x : ℕ)
      → (b.put command s w.name w.value).1 ≡ some x
      → apply_loop b s done (w ∷ ws) ≡ refused (b.put command s w.name w.value).0 done w x
  unfolding apply_loop
  apply_loop-refused s done ws w x e = rw (e, apply_loop)

  apply_loop-IsAtomic :
      (before : Text → Option Text) (s : b.State) (done ws : List CredentialWrite)
      → All (Remembers before) (done ++ ws)
      → ((m : Text) → store.contents s m ≡ stored done m (before m))
      → IsAtomic before
          (store.contents (apply_loop b s done ws).0)
          (done ++ ws)
          (apply_loop b s done ws).1
  apply_loop-IsAtomic before s done [] all here =
      unfold apply_loop in
      subst (λ k. (m : Text) → store.contents s m ≡ stored k m (before m)) (sym (append-nil done))
        here
  apply_loop-IsAtomic before s done (w ∷ ws) all here =
      let step = b.put command s w.name w.value in
      let regroup = append_assoc done (w ∷ []) ws in
      let all' = subst (All (Remembers before)) (sym regroup) all in
      elim (Option-cases step.1) [
        | inl e ↦
            subst (λ r. IsAtomic before (store.contents r.0) (done ++ w ∷ ws) r.1)
              (sym (apply_loop-put s done ws w e))
              (subst
                (λ k.
                  IsAtomic before (store.contents (apply_loop b step.0 (done ++ w ∷ []) ws).0) k
                    (apply_loop b step.0 (done ++ w ∷ []) ws).1)
                regroup
                (apply_loop-IsAtomic before step.0 (done ++ w ∷ []) ws all' λ m.
                  put-stored_value s w m e
                  ∙ ap (stored (w ∷ []) m) (here m)
                  ∙ sym (stored-append done (w ∷ []) m (before m))))
        | inr (x, e) ↦
            subst (λ r. IsAtomic before (store.contents r.0) (done ++ w ∷ ws) r.1)
              (sym (apply_loop-refused s done ws w x e))
              λ m. widened m done w ws (
                compensated-IsAtomic before step.0 (done ++ w ∷ []) m
                  "credential update failed and compensation was incomplete"
                  (credential_store_error w.name x)
                  (All-prefix (Remembers before) (done ++ w ∷ []) ws all')
                  (λ n k. outside-put before s done w n here k)
                  (rollback_credential_writes b step.0 (done ++ w ∷ [])).1 refl)
      ]

  -- Writes that were prepared in a store are applied to it all or not at all: without an error
  -- each name holds the value of the last write to it, and with one each name holds what it held
  -- before; only where the error says that the state is uncertain, a name that is written to may
  -- hold something else.
  pub apply_credential_writes-IsAtomic :
      (s : b.State) (cs : List Candidate) {ws : List CredentialWrite}
      → prepare_credential_writes b s cs ≡ returned ws
      → IsAtomic
          (store.contents s)
          (store.contents (apply_credential_writes b s ws).0)
          ws
          (apply_credential_writes b s ws).1
  unfolding apply_credential_writes stored
  apply_credential_writes-IsAtomic s cs {ws} h =
      apply_loop-IsAtomic (store.contents s) s [] ws (prepare_credential_writes-Remembers s cs h)
        λ m. refl
