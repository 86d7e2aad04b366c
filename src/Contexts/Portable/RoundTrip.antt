-- ===== src/Contexts/Portable/RoundTrip.antt =====
-- An exported context is imported again, without its literal credentials.
use srvgov_cli.Prelude.{
  ◌≡◌, refl, ap, ◌∙◌, inl, inr, Bool, true, false, not, ◌&&◌, ◌||◌, none, [], ◌∷◌, arith,
  if◌then◌else◌, Bool-cases, split_if,
}
use srvgov_cli.GoText.{Text, is, equal, equal_iff}
use srvgov_cli.Contexts.{Context, Result, returned, ◌>>=◌}
use srvgov_cli.Contexts.Normalize.{ServerUrl, Urls, normalize}
use srvgov_cli.Contexts.Normalize.Normal.{IsNormal}
use srvgov_cli.Contexts.Normalize.Twice.{ReadsBack, normalize-normal}
use srvgov_cli.Spool.Names.{is_some}
use srvgov_cli.Contexts.Control.{ControlWorld}
use srvgov_cli.Contexts.Portable.{
  References, PreparedContextImport, redacted_credential, context_import_name, checked_document,
  validate_requested_roles, is_literal_credential, redacted, prepare_context_for_export,
  export_document, context_credential_reference_backend, adopt_backend, unredacted, import_item,
  accepted_item, prepare_context_import,
}

module _ (refs : References) where
  -- A value without what is a secret itself.
  unfoldable pub dropped : Text → Text
  unfolding is_literal_credential
  dropped value = if is_literal_credential refs value then [] else value

  -- A context without literal credentials.
  unfoldable pub portable : Context → Context
  unfolding dropped
  portable c = record c {
    password = dropped c.password;
    identity_passphrase = dropped c.identity_passphrase;
  }

  dropped-is_literal : (v : Text) → is_literal_credential refs (dropped v) ≡ false
  unfolding dropped
  dropped-is_literal v =
      split_if (λ t. is_literal_credential refs t ≡ false) (is_literal_credential refs v)
        (λ _. refl) λ e. e

  module _ (no_reference : refs.parse_ref redacted_credential ≡ none) where
    redacted_credential-is_literal : is_literal_credential refs redacted_credential ≡ true
    unfolding is_literal_credential redacted_credential
    redacted_credential-is_literal =
        ap (λ o. not (is redacted_credential "") && not (is_some o)) no_reference

    kept_differs :
        (v : Text)
        → is_literal_credential refs v ≡ false
        → (b : Bool) → equal v redacted_credential ≡ b
        → b ≡ false
    kept_differs v e false h = refl
    kept_differs v e true h =
        let same = (equal_iff v redacted_credential).0 h in
        let literal = redacted_credential-is_literal in
        absurd (let k = ap (is_literal_credential refs) same in cc)

    -- Only a literal credential is printed as a redacted one.
    redacted-equal :
        (v : Text) → equal (redacted refs v) redacted_credential ≡ is_literal_credential refs v
    unfolding redacted redacted_credential
    redacted-equal v = elim (Bool-cases (is_literal_credential refs v)) [
      | inl e ↦ rw (e, redacted) ((equal_iff redacted_credential redacted_credential).1 refl)
      | inr e ↦ rw (e, redacted) (kept_differs v e (equal v redacted_credential) refl)
    ]

    redacted-dropped :
        (v : Text) → (if is_literal_credential refs v then [] else redacted refs v) ≡ dropped v
    unfolding redacted dropped
    redacted-dropped v = elim (Bool-cases (is_literal_credential refs v)) [
      | inl e ↦ rw e refl
      | inr e ↦ rw e refl
    ]

    unredacted-redacted : (v : Text) → unredacted (redacted refs v) ≡ dropped v
    unfolding unredacted
    unredacted-redacted v = rw (redacted-equal v) (redacted-dropped v)

-- What an import makes of an exported context: the context without its literal credentials.
unfoldable pub imported : References → Text → Context → Bool → PreparedContextImport
unfolding portable is_literal_credential
imported refs name c referenced = record {
  name = name;
  item = portable refs c;
  password_redacted = is_literal_credential refs c.password;
  passphrase_redacted = is_literal_credential refs c.identity_passphrase;
  referenced = referenced;
}

-- What is needed of a context to be imported again: it is normal, its server parses back, its roles are
-- valid, and the credentials that are references agree with its backend.
pub record IsPortable (refs : References) (urls : Urls) (w : ControlWorld) (c : Context)
    (backend : Text) (referenced : Bool) : Type 0 where
  pub normal : IsNormal urls c
  pub url : ServerUrl
  pub reads : ReadsBack urls c url
  pub roles : validate_requested_roles w c.roles ≡ returned tt
  pub references :
      context_credential_reference_backend refs []
        (dropped refs c.password ∷ dropped refs c.identity_passphrase ∷ [])
      ≡ returned backend
  pub adopted :
      adopt_backend refs (portable refs c) backend ≡ returned (portable refs c, referenced)

module _ (refs : References) (urls : Urls) (w : ControlWorld) (c : Context) {backend : Text}
    {referenced : Bool} (p : IsPortable refs urls w c backend referenced) where
  normalize-portable : normalize urls (portable refs c) ≡ returned (portable refs c)
  unfolding portable
  normalize-portable =
      normalize-normal urls (portable refs c) p.url
        (record {
          host = p.normal.host;
          port = p.normal.port;
          server = p.normal.server;
          some_method = p.normal.some_method;
          in_order = p.normal.in_order;
        })
        (record { parsed = p.reads.parsed; valid = p.reads.valid; no_user = p.reads.no_user })

  no_literals :
      (is_literal_credential refs (portable refs c).password
        || is_literal_credential refs (portable refs c).identity_passphrase)
      ≡ false
  unfolding portable
  no_literals =
      ground
        (arith, dropped-is_literal refs c.password, dropped-is_literal refs c.identity_passphrase)

  -- What follows the adoption of a backend, and what follows Normalize.
  abbrev behind_normalize : Bool → Context → Result (Context × Bool)
  behind_normalize flag normal =
      validate_requested_roles w normal.roles >>= λ _. returned (normal, flag)

  abbrev behind_adoption : Context × Bool → Result (Context × Bool)
  behind_adoption pair = normalize urls pair.0 >>= behind_normalize pair.1

  accepted_item-portable :
      accepted_item refs urls w (portable refs c) ≡ returned (portable refs c, referenced)
  unfolding accepted_item portable
  accepted_item-portable =
      let item = portable refs c in
      let out : Result (Context × Bool) = returned (item, referenced) in
      split_if (λ a. a ≡ out)
        (is_literal_credential refs item.password
          || is_literal_credential refs item.identity_passphrase)
        (λ h. absurd (let k = no_literals in cc))
        λ _.
          ap (λ r. r >>= (λ b. adopt_backend refs item b) >>= behind_adoption) p.references
          ∙ ap (λ r. r >>= behind_adoption) p.adopted
          ∙ ap (λ r. r >>= behind_normalize referenced) normalize-portable
          ∙ ap (λ r. r >>= λ _. out) p.roles

  import_item-exported :
      refs.parse_ref redacted_credential ≡ none
      → import_item (record c {
        password = redacted refs c.password;
        identity_passphrase = redacted refs c.identity_passphrase;
      })
        ≡ portable refs c
  unfolding import_item portable
  import_item-exported r =
      ap
        (λ t. record c {
          password = t;
          identity_passphrase = unredacted (redacted refs c.identity_passphrase);
        })
        (unredacted-redacted refs r c.password)
      ∙ ap (λ t. record c { password = dropped refs c.password; identity_passphrase = t })
          (unredacted-redacted refs r c.identity_passphrase)

  -- The result of the import of the exported document, for the item that is accepted.
  abbrev result_for : Text → Bool → Bool → Context × Bool → Result PreparedContextImport
  result_for name password passphrase pair = returned (record {
    name = name;
    item = pair.0;
    password_redacted = password;
    passphrase_redacted = passphrase;
    referenced = pair.1;
  })

  context_import_name-same :
      (name : Text) → is name "" ≡ false → context_import_name name [] ≡ returned name
  unfolding context_import_name is
  context_import_name-same name n =
      split_if (λ r. r ≡ returned name) (is name "") (λ e. absurd (cc)) λ _. refl

  -- The document of an exported context is imported again under its name, which is not empty:
  -- without the literal credentials, which the result reports, and otherwise as the context was;
  -- if the context is normal, its server parses back, its roles are valid and its references
  -- agree with its backend, and the text that stands for a redacted credential is no reference.
  pub import-export :
      (name : Text)
      → is name "" ≡ false
      → refs.parse_ref redacted_credential ≡ none
      → (export_document refs name c >>= λ doc. prepare_context_import refs urls w doc [])
        ≡ returned (imported refs name c referenced)
  unfolding export_document prepare_context_for_export prepare_context_import checked_document is
      equal imported
  import-export name n r =
      let sent : Context = record c {
        password = redacted refs c.password;
        identity_passphrase = redacted refs c.identity_passphrase;
      } in
      let a = equal sent.password redacted_credential in
      let b = equal sent.identity_passphrase redacted_credential in
      ap (λ o. o >>= λ k. accepted_item refs urls w (import_item sent) >>= result_for k a b)
        (context_import_name-same name n)
      ∙ ap (λ i. accepted_item refs urls w i >>= result_for name a b) (import_item-exported r)
      ∙ ap (λ o. o >>= result_for name a b) accepted_item-portable
      ∙ ap (λ x. result_for name x b (portable refs c, referenced))
          (redacted-equal refs r c.password)
      ∙ ap
          (λ x.
            result_for name (is_literal_credential refs c.password) x (portable refs c, referenced))
          (redacted-equal refs r c.identity_passphrase)
