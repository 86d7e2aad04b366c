-- ===== src/Tests/Contexts.antt =====
-- The theorems of contexts at a server that a URL names.
use srvgov_cli.Prelude.{
  ◌≡◌, refl, inr, true, false, Option, none, some, List, [], ◌∷◌, ◌++◌, arith, if◌then◌else◌, pos,
}
use srvgov_cli.GoText.{Text, codes, is, get_key}
use srvgov_cli.Contexts.{Context, zero_context, Config, outside_error, returned, ◌>>=◌}
use srvgov_cli.Contexts.Normalize.{
  ServerUrl, Urls, has_method, or_default, validate_server_uri, normalize,
}
use srvgov_cli.Contexts.Normalize.Normal.{IsNormal, normalize-IsNormal}
use srvgov_cli.Contexts.Normalize.Twice.{ReadsBack}
use srvgov_cli.Contexts.Control.{committed, ControlWorld, control_change}
use srvgov_cli.Contexts.Control.Governed.{Governed, control_change-Governed}
use srvgov_cli.Contexts.Commands.{existing_context, delete_change}
use srvgov_cli.Contexts.Commands.Current.{
  use_command, delete_command, role_set, import_command, Command, run_commands, HasCurrent,
  run_commands-HasCurrent,
}
use srvgov_cli.Contexts.Portable.{References, export_document, prepare_context_import}
use srvgov_cli.Contexts.Portable.RoundTrip.{imported, IsPortable, import-export}

abbrev server_url : ServerUrl
server_url = record {
  scheme = codes "ssh";
  user = some (codes "ops", none);
  hostname = codes "db";
  port = codes "2222";
  path = [];
  raw_query = [];
  fragment = [];
}

abbrev printed : Option Text → Text → Text
printed none address = codes "ssh://" ++ address
printed (some user) address = codes "ssh://" ++ (user ++ b'@' ∷ address)

abbrev one_url : Urls
one_url = record { parse = λ server. some server_url; print = printed }

abbrev asked : Context
asked = record zero_context {
  server = codes "ssh://ops@db:2222";
  password = codes "secret";
  auth_methods = codes "password" ∷ codes "agent" ∷ codes "password" ∷ [];
}

abbrev normal : Context
normal = record asked {
  username = codes "ops";
  host = codes "db";
  port = pos 2222;
  auth_methods = codes "agent" ∷ codes "password" ∷ [];
}

normalize-asked : normalize one_url asked ≡ returned normal
unfolding normalize
normalize-asked = refl

normalize-IsNormal_example :
    IsNormal one_url normal
    × ((m : Text) → has_method normal.auth_methods m ≡ has_method (or_default asked.auth_methods) m)
normalize-IsNormal_example = normalize-IsNormal one_url asked normalize-asked

normal-ReadsBack : ReadsBack one_url normal server_url
unfolding validate_server_uri
normal-ReadsBack = record { parsed = refl; valid = refl; no_user = λ h. absurd (ground arith) }

abbrev control : ControlWorld
control = record {
  role_reader = codes "reader";
  role_writer = codes "writer";
  role_admin = codes "admin";
  trusted_operator = none;
  safety_authorize = λ policy granted. if granted then none else some (outside_error 1);
  begin_audit = λ policy. none;
  opens = none;
  commit = committed;
  finish_audit = λ outcome error. error;
}

abbrev one_context : Config
one_context = record { current_context = codes "prod"; contexts = (codes "prod", normal) ∷ [] }

control_change-Governed_example :
    Governed control
      (existing_context (codes "prod"))
      true
      (delete_change (codes "prod"))
      one_context
      (control_change control none
        (existing_context (codes "prod"))
        true
        (delete_change (codes "prod"))
        one_context)
control_change-Governed_example =
    control_change-Governed control (existing_context (codes "prod")) true
      (delete_change (codes "prod")) one_context none

abbrev session : List (ControlWorld × Command)
session =
    (control, import_command (codes "dev") normal false true)
    ∷ (control, use_command (codes "dev") true)
    ∷ (control, role_set (codes "dev") (codes "ann") (codes "admin") true)
    ∷ (control, delete_command (codes "dev") true)
    ∷ (control, use_command (codes "gone") true)
    ∷ []

-- The deletion of the current context leaves none.
run_commands-session : (run_commands session one_context).current_context ≡ []
unfolding run_commands control_change
run_commands-session = refl

one_context-HasCurrent : HasCurrent one_context
unfolding get_key
one_context-HasCurrent = inr (normal, refl)

run_commands-HasCurrent_example : HasCurrent (run_commands session one_context)
run_commands-HasCurrent_example = run_commands-HasCurrent session one_context one_context-HasCurrent

abbrev no_backends : References
no_backends = record { parse_ref = λ value. none; is_plaintext_backend = λ backend. true }

normal-IsPortable : IsPortable no_backends one_url control normal [] false
unfolding imported prepare_context_import
normal-IsPortable = record {
  normal = normalize-IsNormal_example.0;
  url = server_url;
  reads = normal-ReadsBack;
  roles = refl;
  references = refl;
  adopted = refl;
}

-- The password is a literal one, and is dropped.
import-export_example :
    (export_document no_backends (codes "prod") normal >>= λ doc.
    prepare_context_import no_backends one_url control doc [])
    ≡ returned (imported no_backends (codes "prod") normal false)
unfolding is
import-export_example =
    import-export no_backends one_url control normal normal-IsPortable (codes "prod") refl refl
