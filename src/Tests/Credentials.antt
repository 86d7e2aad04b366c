-- ===== src/Tests/Credentials.antt =====
-- The theorems of credentials at a store that is a map, where one name refuses its writes.
use srvgov_cli.Prelude.{
  String, ◌≡◌, refl, ◌∙◌, ◌≢◌, Bool, true, false, Option, none, some, List, [], ◌∷◌, ◌++◌, arith,
  if◌then◌else◌,
}
use srvgov_cli.GoText.{
  Text, codes, is, equal, equal_iff, Map, get_key, put_key, delete_key, get_key-put_key,
  get_key-delete_key,
}
use srvgov_cli.Contexts.{zero_context, Config, credential_store_error, returned}
use srvgov_cli.Contexts.Control.{committed}
use srvgov_cli.Credentials.{
  Found, found, missing, Deleted, deleted, not_found, Backend, Candidate, CredentialWrite,
  identity_name, prepare_credential_writes, apply_credential_writes,
}
use srvgov_cli.Credentials.Rollback.{IsStore}
use srvgov_cli.Credentials.Applied.{IsAtomic, apply_credential_writes-IsAtomic}
use srvgov_cli.Credentials.Wanted.{named_alike, passphrase_lost}
use srvgov_cli.Credentials.Candidates.{Credstore}
use srvgov_cli.Credentials.Migration.{MigrationWorld, apply_credential_migration}
use srvgov_cli.Credentials.Migration.Endings.{migrated_config}
use srvgov_cli.Credentials.Migration.Transaction.{Settled, apply_credential_migration-Settled}

abbrev found_of : Option Text → Found
found_of none = missing
found_of (some v) = found v

abbrev deleted_of : Option Text → Deleted
deleted_of none = not_found
deleted_of (some v) = deleted

-- A write to the bad name reports an error, behind a change of the map.
abbrev map_backend : Text → Backend
map_backend bad = record {
  State = Map Text;
  get = λ x s n. found_of (get_key n s);
  put = λ x s n v. (put_key n v s, if equal n bad then some 7 else none);
  delete = λ x s n. (delete_key n s, deleted_of (get_key n s));
}

found_of-found : (o : Option Text) (v : Text) → found_of o ≡ found v → o ≡ some v
found_of-found none v h = cc
found_of-found (some x) v h = cc

found_of-missing : (o : Option Text) → found_of o ≡ missing → o ≡ none
found_of-missing none h = refl
found_of-missing (some x) h = cc

map_backend-IsStore : (bad : Text) → IsStore (map_backend bad)
map_backend-IsStore bad = record {
  contents = λ s n. get_key n s;
  get-found = λ x s n v h. found_of-found (get_key n s) v h;
  get-missing = λ x s n h. found_of-missing (get_key n s) h;
  put-stored = λ x s n v h. get_key-put_key n n v s ∙ rw ((equal_iff n n).1 refl) refl;
  put-others = λ x s n v m h. get_key-put_key m n v s ∙ rw h refl;
  delete-gone = λ x s n h. get_key-delete_key n n s ∙ rw ((equal_iff n n).1 refl) refl;
  delete-others = λ x s n m h. get_key-delete_key m n s ∙ rw h refl;
}

abbrev candidate : String → String → String → Candidate
candidate name password passphrase = record {
  name = codes name;
  context = zero_context;
  password = codes password;
  passphrase = codes passphrase;
}

abbrev prod_and_dev : List Candidate
prod_and_dev = candidate "prod" "new" "" ∷ candidate "dev" "two" "key" ∷ []

abbrev held : Map Text
held = (codes "prod", codes "old") ∷ []

abbrev write_of : String → String → String → Bool → CredentialWrite
write_of name value previous existed = record {
  name = codes name;
  value = codes value;
  previous = codes previous;
  existed = existed;
}

abbrev three_writes : List CredentialWrite
three_writes =
    write_of "prod" "new" "old" true
    ∷ write_of "dev" "two" "" false
    ∷ write_of "dev#identity" "key" "" false
    ∷ []

-- The third write fails, and the two before it are taken back.
abbrev failing : Backend
failing = map_backend (codes "dev#identity")

prepare-three_writes : prepare_credential_writes failing held prod_and_dev ≡ returned three_writes
unfolding prepare_credential_writes get_key
prepare-three_writes = refl

taken_back :
    apply_credential_writes failing held three_writes
    ≡ ((codes "prod", codes "old") ∷ [], some (credential_store_error (codes "dev#identity") 7))
unfolding apply_credential_writes put_key delete_key get_key equal
taken_back = refl

apply_credential_writes-IsAtomic_example :
    IsAtomic
      (λ n. get_key n held)
      (λ n. get_key n (apply_credential_writes failing held three_writes).0)
      three_writes
      (apply_credential_writes failing held three_writes).1
unfolding map_backend-IsStore
apply_credential_writes-IsAtomic_example =
    apply_credential_writes-IsAtomic failing (map_backend-IsStore (codes "dev#identity")) held
      prod_and_dev prepare-three_writes

-- A backend that refuses no name of the candidates.
abbrev working : Backend
working = map_backend (codes "")

abbrev no_references : Credstore
no_references = record {
  parse_ref = λ value. none;
  encode_ref = λ backend. codes "credstore:" ++ backend;
  opens = λ backend. none;
  secret = λ backend name. (none, []);
}

abbrev willing : MigrationWorld
willing = record {
  deep_equal = λ x y. true;
  authorize = λ x name. none;
  begin_audit = λ x name. none;
  canceled = none;
  opens = none;
  commit = committed;
  finish_audit = λ outcome error. error;
}

abbrev two_contexts : Config
two_contexts = record {
  current_context = codes "prod";
  contexts = (codes "prod", zero_context) ∷ (codes "dev", zero_context) ∷ [];
}

prepare-working : prepare_credential_writes working held prod_and_dev ≡ returned three_writes
unfolding prepare_credential_writes get_key
prepare-working = refl

apply_credential_migration-Settled_example :
    Settled
      (λ n. get_key n held)
      (λ n.
        get_key n
          (apply_credential_migration working willing no_references
            (codes "keychain")
            held
            three_writes
            prod_and_dev
            two_contexts).state)
      three_writes
      2
      two_contexts
      (migrated_config no_references (codes "keychain") prod_and_dev two_contexts)
      (apply_credential_migration working willing no_references
        (codes "keychain")
        held
        three_writes
        prod_and_dev
        two_contexts)
unfolding map_backend-IsStore
apply_credential_migration-Settled_example =
    apply_credential_migration-Settled working (map_backend-IsStore (codes "")) willing
      no_references (codes "keychain") prod_and_dev two_contexts held prepare-working

-- The context `prod` has a passphrase, and a context is called `prod#identity`.
abbrev alike : List Candidate
alike = named_alike (codes "prod") zero_context zero_context (codes "one") (codes "two")

abbrev alike_writes : List CredentialWrite
alike_writes =
    write_of "prod#identity" "one" "" false ∷ write_of "prod#identity" "two" "" false ∷ []

prepare-alike : prepare_credential_writes working held alike ≡ returned alike_writes
unfolding prepare_credential_writes get_key identity_name
prepare-alike = refl

apply-alike : (apply_credential_writes working held alike_writes).1 ≡ none
unfolding apply_credential_writes put_key delete_key get_key equal
apply-alike = refl

one-ne-two : codes "one" ≢ codes "two"
one-ne-two = λ e. ground arith

passphrase_lost_example :
    get_key (codes "prod#identity") (apply_credential_writes working held alike_writes).0
    ≢ some (codes "one")
unfolding map_backend-IsStore identity_name is
passphrase_lost_example =
    passphrase_lost working (map_backend-IsStore (codes "")) held (codes "prod") zero_context
      zero_context (codes "one") (codes "two") refl one-ne-two prepare-alike apply-alike
