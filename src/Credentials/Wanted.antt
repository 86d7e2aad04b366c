-- ===== src/Credentials/Wanted.antt =====
-- What the writes of a list of candidates store under each name, and where one secret replaces another.
use srvgov_cli.Prelude.{
  ◌≡◌, refl, sym, ap, ◌∙◌, ◌≢◌, true, false, Option, none, some, List, [], ◌∷◌, ◌++◌, if◌then◌else◌,
  split_if,
}
use srvgov_cli.GoText.{Text, equal, equal_iff, is}
use srvgov_cli.Contexts.{
  Context, ContextError, returned, ◌>>=◌, IfReturned, IfReturned-eq, IfReturned-bind,
}
use srvgov_cli.Credentials.{
  command, Backend, Found, found, missing, unreadable, Candidate, CredentialWrite, identity_name,
  write_behind, prepare_credential_write, prepare_secret, prepare_loop, prepare_credential_writes,
  apply_credential_writes,
}
use srvgov_cli.Credentials.Rollback.{IsStore}
use srvgov_cli.Credentials.Applied.{
  stored, stored-append, IsAtomic, apply_credential_writes-IsAtomic,
}

-- A secret under its name, unless it is empty.
unfoldable pub wanted_secret : Text → Text → Text → Option Text → Option Text
unfolding is equal
wanted_secret name value m before =
    if is value "" then before else if equal name m then some value else before

-- What the candidates want under a name, from the first to the last.
unfoldable pub wanted : List Candidate → Text → Option Text → Option Text
unfolding wanted_secret identity_name
wanted [] m before = before
wanted (c ∷ cs) m before =
    wanted cs m (
      wanted_secret (identity_name c.name) c.passphrase m
        (wanted_secret c.name c.password m before))

-- The writes store what is wanted.
abbrev Stores : (Text → Option Text → Option Text) → List CredentialWrite → Type 0
Stores f ws = (m : Text) (o : Option Text) → stored ws m o ≡ f m o

abbrev IsWrite : Text → Text → CredentialWrite → Type 0
IsWrite name value w = (w.name ≡ name) × (w.value ≡ value)

write_behind-IsWrite :
    (name value : Text) (a : Found) → IfReturned (IsWrite name value) (write_behind name value a)
unfolding write_behind
write_behind-IsWrite name value (found previous) = (refl, refl)
write_behind-IsWrite name value missing = (refl, refl)
write_behind-IsWrite name value (unreadable e) = tt

wanted_secret-empty :
    (name value m : Text) (o : Option Text) → is value "" ≡ true → wanted_secret name value m o ≡ o
unfolding wanted_secret
wanted_secret-empty name value m o e = rw e refl

stored-IsWrite :
    (name value : Text) (w : CredentialWrite) (m : Text) (o : Option Text)
    → is value "" ≡ false
    → IsWrite name value w
    → stored (w ∷ []) m o ≡ wanted_secret name value m o
unfolding stored wanted_secret
stored-IsWrite name value w m o e (n, v) = rw e (rw n (rw v refl))

some_value : {a b : Text} → some a ≡ some b → a ≡ b
some_value h = cc

module _ (b : Backend) where
  prepare_secret-Stores :
      (s : b.State) (name value : Text) (ws : List CredentialWrite)
      (f : Text → Option Text → Option Text)
      → Stores f ws
      → IfReturned
          (Stores (λ m o. wanted_secret name value m (f m o)))
          (prepare_secret b s name value ws)
  unfolding prepare_secret prepare_credential_write
  prepare_secret-Stores s name value ws f h =
      let P = IfReturned (Stores (λ m o. wanted_secret name value m (f m o))) in
      split_if P (is value "") (λ e m o. h m o ∙ sym (wanted_secret-empty name value m (f m o) e))
        λ e.
          IfReturned-bind (IsWrite name value) (Stores (λ m o. wanted_secret name value m (f m o)))
            (write_behind name value (b.get command s name)) (λ w. returned (ws ++ w ∷ []))
            (write_behind-IsWrite name value (b.get command s name))
            λ w k m o.
              stored-append ws (w ∷ []) m o
              ∙ ap (stored (w ∷ []) m) (h m o)
              ∙ stored-IsWrite name value w m (f m o) e k

  prepare_loop-Stores :
      (s : b.State) (ws : List CredentialWrite) (cs : List Candidate)
      (f : Text → Option Text → Option Text)
      → Stores f ws
      → IfReturned (Stores (λ m o. wanted cs m (f m o))) (prepare_loop b s ws cs)
  unfolding prepare_loop wanted
  prepare_loop-Stores s ws [] f h = h
  prepare_loop-Stores s ws (c ∷ cs) f h =
      let g : Text → Option Text → Option Text = λ m o. wanted_secret c.name c.password m (f m o) in
      let k : Text → Option Text → Option Text =
        λ m o. wanted_secret (identity_name c.name) c.passphrase m (g m o) in
      IfReturned-bind (Stores k) (Stores (λ m o. wanted cs m (k m o)))
        (prepare_secret b s c.name c.password ws >>= λ passwords.
          prepare_secret b s (identity_name c.name) c.passphrase passwords)
        (λ both. prepare_loop b s both cs)
        (IfReturned-bind (Stores g) (Stores k) (prepare_secret b s c.name c.password ws)
          (λ passwords. prepare_secret b s (identity_name c.name) c.passphrase passwords)
          (prepare_secret-Stores s c.name c.password ws f h)
          λ passwords e. prepare_secret-Stores s (identity_name c.name) c.passphrase passwords g e)
        λ both e. prepare_loop-Stores s both cs k e

  pub prepare_credential_writes-wanted :
      (s : b.State) (cs : List Candidate) {ws : List CredentialWrite}
      → prepare_credential_writes b s cs ≡ returned ws
      → (m : Text) (o : Option Text) → stored ws m o ≡ wanted cs m o
  unfolding prepare_credential_writes stored
  prepare_credential_writes-wanted s cs h =
      IfReturned-eq (Stores (wanted cs)) (prepare_loop-Stores s [] cs (λ m o. o) (λ m o. refl)) h

atomic_success :
    (before after : Text → Option Text) (ws : List CredentialWrite) (o : Option ContextError)
    → IsAtomic before after ws o
    → o ≡ none
    → (m : Text) → after m ≡ stored ws m (before m)
atomic_success before after ws none h e = h
atomic_success before after ws (some x) h e = cc

module _ (b : Backend) (store : IsStore b) where
  -- Behind a success the store holds under each name the last secret that the candidates want there,
  -- and what it held before where they want none.
  pub apply_credential_writes-wanted :
      (s : b.State) (cs : List Candidate) {ws : List CredentialWrite}
      → prepare_credential_writes b s cs ≡ returned ws
      → (apply_credential_writes b s ws).1 ≡ none
      → (m : Text)
      → store.contents (apply_credential_writes b s ws).0 m ≡ wanted cs m (store.contents s m)
  apply_credential_writes-wanted s cs {ws} h e m =
      atomic_success (store.contents s) (store.contents (apply_credential_writes b s ws).0) ws
        (apply_credential_writes b s ws).1 (apply_credential_writes-IsAtomic b store s cs h) e m
      ∙ prepare_credential_writes-wanted b s cs h m (store.contents s m)

wanted_secret_self :
    (name value : Text) (o : Option Text)
    → is value "" ≡ false
    → wanted_secret name value name o ≡ some value
unfolding wanted_secret
wanted_secret_self name value o h = rw h (rw ((equal_iff name name).1 refl) refl)

-- A candidate whose name is that of the passphrase of the one before it.
abbrev pub named_alike : Text → Context → Context → Text → Text → List Candidate
named_alike name x y passphrase password =
    record { name = name; context = x; password = []; passphrase = passphrase }
    ∷ record { name = identity_name name; context = y; password = password; passphrase = [] }
    ∷ []

wanted-named_alike :
    (name : Text) (x y : Context) (passphrase password : Text) (o : Option Text)
    → is password "" ≡ false
    → wanted (named_alike name x y passphrase password) (identity_name name) o ≡ some password
unfolding wanted
wanted-named_alike name x y passphrase password o h =
    wanted_secret_self (identity_name name) password _ h

-- Where a context with a passphrase alone is migrated together with a context whose name is that
-- of its passphrase, and which has a different password alone, the store does not hold the
-- passphrase under its name behind a success.
pub passphrase_lost :
    (b : Backend) (store : IsStore b) (s : b.State) (name : Text) (x y : Context)
    (passphrase password : Text) {ws : List CredentialWrite}
    → is password "" ≡ false
    → passphrase ≢ password
    → prepare_credential_writes b s (named_alike name x y passphrase password) ≡ returned ws
    → (apply_credential_writes b s ws).1 ≡ none
    → store.contents (apply_credential_writes b s ws).0 (identity_name name) ≢ some passphrase
passphrase_lost b store s name x y passphrase password h n p e kept =
    let lost =
      apply_credential_writes-wanted b store s (named_alike name x y passphrase password) p e
        (identity_name name)
      ∙ wanted-named_alike name x y passphrase password (store.contents s (identity_name name)) h in
    n (some_value (sym kept ∙ lost))
