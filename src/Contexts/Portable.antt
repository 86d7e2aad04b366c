-- ===== src/Contexts/Portable.antt =====
-- Portable documents of cmd/ctx_portable.go, from the decoded document on: what an export makes of a
-- context, and what an import accepts. The YAML codec and the file are outside; the references of the
-- package credstore are the parameter References.
pub mod RoundTrip
use srvgov_cli.Prelude.{
  ◌/◌, ◌%◌, ℕ, zero, suc, ◌+◌, ◌-◌, ◌*◌, ◌≤◌, ◌<◌, String, ◌≡◌, refl, sym, ap, ◌∙◌, ◌≢◌, ◌↔◌, ◌⊎◌,
  inl, inr, Bool, true, false, not, ◌&&◌, ◌||◌, Option, none, some, List, [], ◌∷◌, ◌++◌, map,
  append-nil, append_assoc, arith, ltb, leb, ◌==◌, if◌then◌else◌, ==_iff, Bool-cases, or_resolve,
  Option-cases, length, take, any, all, length-append, any-append, All, All-append, All-map, All-of,
  IfSome, split_if, IfSome-eq, holds_below, holds_below-at, ℤ, pos, negsuc, is_negative, clamp,
  is_positive,
}
use srvgov_cli.GoText.{Text, codes, is, equal, trim_space, Map}
use srvgov_cli.Contexts.{
  Context, ContextError, usage_error, unsupported_protocol, Result, failed, returned, ◌>>=◌,
}
use srvgov_cli.Contexts.Normalize.{Urls, normalize}
use srvgov_cli.Spool.Names.{is_some}
use srvgov_cli.Contexts.Control.{ControlWorld, valid_role}

-- credstore.ParseRef, which answers the backend of a reference, and credstore.IsPlaintextBackend.
pub record References : Type 0 where
  pub parse_ref : Text → Option Text
  pub is_plaintext_backend : Text → Bool

-- `contextExportDocument`
pub record ContextExportDocument : Type 0 where
  pub api_version : Text
  pub name : Text
  pub context : Context

-- `preparedContextImport`
pub record PreparedContextImport : Type 0 where
  pub name : Text
  pub item : Context
  pub password_redacted : Bool
  pub passphrase_redacted : Bool
  pub referenced : Bool

unfoldable pub redacted_credential : Text
redacted_credential = codes "<REDACTED>"

-- contextImportName
unfoldable pub context_import_name : Text → Text → Result Text
unfolding is
context_import_name original rename =
    let name : Text = if is rename "" then original else rename in
    if is name "" then failed (usage_error "context name is required") else returned name

-- The test of readContextExportDocument for the version of a document.
unfoldable pub checked_document : ContextExportDocument → Result ContextExportDocument
unfolding is
checked_document doc =
    if is doc.api_version "srvgov-cli.io/ctx-export/v1"
      || is doc.api_version "srvgov.io/ctx-export/v1"
    then returned doc
    else failed (unsupported_protocol "unsupported context export apiVersion")

-- validateRequestedRoles
unfoldable pub validate_requested_roles : ControlWorld → Map Text → Result (Unit {0})
unfolding is trim_space valid_role
validate_requested_roles w [] = returned tt
validate_requested_roles w ((operator, role) ∷ roles) =
    let rest = validate_requested_roles w roles in
    if is (trim_space operator) ""
    then failed (usage_error "context role operator must not be empty")
    else if not (valid_role w role)
    then failed (usage_error "context role must be reader, writer, or admin")
    else rest

-- One round of contextCredentialReferenceBackend, for what `ParseRef` answers.
unfoldable pub reference_step : Text → Option Text → Result Text
unfolding is equal
reference_step backend_name none = returned backend_name
reference_step backend_name (some backend) =
    if is backend ""
    then failed (usage_error "credential reference backend must not be empty")
    else if not (is backend_name "") && not (equal backend_name backend)
    then failed (usage_error "credential references must use the same backend")
    else returned backend

-- A redacted credential becomes the empty one.
unfoldable pub unredacted : Text → Text
unfolding equal redacted_credential
unredacted value = if equal value redacted_credential then [] else value

unfoldable pub import_item : Context → Context
unfolding unredacted
import_item c = record c {
  password = unredacted c.password;
  identity_passphrase = unredacted c.identity_passphrase;
}

module _ (refs : References) where
  abbrev pub is_reference : Text → Bool
  is_reference value = is_some (refs.parse_ref value)

  -- isLiteralCredential
  unfoldable pub is_literal_credential : Text → Bool
  unfolding is
  is_literal_credential value = not (is value "") && not (is_reference value)

  unfoldable pub redacted : Text → Text
  unfolding is_literal_credential redacted_credential
  redacted value = if is_literal_credential value then redacted_credential else value

  -- prepareContextForExport
  unfoldable pub prepare_context_for_export : Context → Bool → Result Context
  unfolding redacted
  prepare_context_for_export item include_credentials =
      if include_credentials
      then failed (usage_error "--include-credentials is disabled")
      else returned (record item {
        password = redacted item.password;
        identity_passphrase = redacted item.identity_passphrase;
      })

  -- The document of runCtxExport.
  unfoldable pub export_document : Text → Context → Result ContextExportDocument
  unfolding prepare_context_for_export
  export_document name item = prepare_context_for_export item false >>= λ context.
      returned (record {
        api_version = codes "srvgov-cli.io/ctx-export/v1";
        name = name;
        context = context;
      })

  -- contextCredentialReferenceBackend
  unfoldable pub context_credential_reference_backend : Text → List Text → Result Text
  unfolding reference_step
  context_credential_reference_backend backend_name [] = returned backend_name
  context_credential_reference_backend backend_name (value ∷ values) =
      reference_step backend_name (refs.parse_ref value) >>= λ next.
      context_credential_reference_backend next values

  -- The backend of an imported context, and whether its credentials are references.
  unfoldable pub adopt_backend : Context → Text → Result (Context × Bool)
  unfolding is equal
  adopt_backend item reference_backend =
      if is reference_backend ""
      then returned (item, false)
      else if refs.is_plaintext_backend item.credential_backend
      then returned (record item { credential_backend = reference_backend }, true)
      else if equal item.credential_backend reference_backend
      then returned (item, true)
      else failed (usage_error "credential references must match context credentialBackend")

  module _ (urls : Urls) (w : ControlWorld) where
    unfoldable pub accepted_item : Context → Result (Context × Bool)
    unfolding is_literal_credential context_credential_reference_backend adopt_backend normalize
        validate_requested_roles
    accepted_item item =
        if is_literal_credential item.password || is_literal_credential item.identity_passphrase
        then failed
            (usage_error "context import accepts only redacted credentials or credstore references")
        else context_credential_reference_backend [] (item.password ∷ item.identity_passphrase ∷ [])
          >>= (λ backend. adopt_backend item backend)
          >>= λ (adopted, referenced). normalize urls adopted >>= λ normal.
              validate_requested_roles w normal.roles >>= λ _. returned (normal, referenced)

    -- prepareContextImport, behind the reading of its file
    unfoldable pub prepare_context_import :
        ContextExportDocument → Text → Result PreparedContextImport
    unfolding checked_document context_import_name import_item accepted_item equal
        redacted_credential
    prepare_context_import document rename = checked_document document >>= λ doc.
        context_import_name doc.name rename >>= λ name.
        accepted_item (import_item doc.context) >>= λ (item, referenced). returned (record {
          name = name;
          item = item;
          password_redacted = equal doc.context.password redacted_credential;
          passphrase_redacted = equal doc.context.identity_passphrase redacted_credential;
          referenced = referenced;
        })
