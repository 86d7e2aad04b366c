-- ===== src/Contexts/Normalize.antt =====
-- `Normalize` of internal/srvgovctx/context.go. Go's net/url is the parameter Urls: what `url.Parse`
-- answers for a server, and what `URL.String` prints for a user name and an address.
pub mod Methods
pub mod Normal
pub mod Twice
use srvgov_cli.Prelude.{
  ◌/◌, ◌%◌, ℕ, zero, suc, ◌+◌, ◌-◌, ◌*◌, ◌≤◌, ◌<◌, String, ◌≡◌, refl, sym, ap, ◌∙◌, ◌≢◌, ◌↔◌, ◌⊎◌,
  inl, inr, Bool, true, false, not, ◌&&◌, ◌||◌, Option, none, some, List, [], ◌∷◌, ◌++◌, map,
  append-nil, append_assoc, arith, ltb, leb, ◌==◌, if◌then◌else◌, ==_iff, Bool-cases, or_resolve,
  Option-cases, length, take, any, all, length-append, any-append, All, All-append, All-map, All-of,
  IfSome, split_if, IfSome-eq, holds_below, holds_below-at, ℤ, pos, negsuc, is_negative, clamp,
  is_positive,
}
use srvgov_cli.GoText.{Text, codes, is, equal, mem_unit, atoi}
use srvgov_cli.Remote.{itoa}
use srvgov_cli.Contexts.{
  Context, ContextError, outside_error, usage_error, Result, failed, returned, ◌>>=◌,
}

-- The parts of `url.URL` that are read: `user` is its user name, with its password.
pub record ServerUrl : Type 0 where
  pub scheme : Text
  pub user : Option (Text × Option Text)
  pub hostname : Text
  pub port : Text
  pub path : Text
  pub raw_query : Text
  pub fragment : Text

pub record Urls : Type 0 where
  pub parse : Text → Option ServerUrl
  pub print : Option Text → Text → Text

-- validateServerURI; `none` is Go's `nil`.
unfoldable pub has_password : Option (Text × Option Text) → Bool
has_password (some (username, some password)) = true
has_password _ = false

unfoldable pub validate_server_uri : ServerUrl → Option ContextError
unfolding has_password is
validate_server_uri parsed =
    if not (is parsed.scheme "ssh") || is parsed.hostname ""
    then some (usage_error "SSH server must use ssh:// with a host")
    else if has_password parsed.user
    then some (usage_error "SSH server URI must not contain a password")
    else if not (is parsed.path "") && not (is parsed.path "/")
        || not (is parsed.raw_query "")
        || not (is parsed.fragment "")
    then some (usage_error "SSH server URI must not contain a path, query, or fragment")
    else none

-- strconv.Itoa
unfoldable pub itoa_int : ℤ → Text
unfolding itoa
itoa_int (pos n) = itoa n
itoa_int (negsuc n) = b'-' ∷ itoa (n + 1)

-- net.JoinHostPort
unfoldable pub join_host_port : Text → Text → Text
unfolding mem_unit
join_host_port host port =
    if mem_unit host b':' then b'[' ∷ (host ++ b']' ∷ b':' ∷ port) else host ++ b':' ∷ port

-- The user name that `applyServer` takes over.
unfoldable pub url_username : Option (Text × Option Text) → Text
url_username none = []
url_username (some (username, password)) = username

abbrev pub is_zero : ℤ → Bool
is_zero (pos n) = n == 0
is_zero (negsuc n) = false

-- The port that `applyServer` takes over.
unfoldable pub server_port : ℤ → Text → Result ℤ
unfolding is atoi
server_port port text =
    if is_zero port && not (is text "")
    then (elim (atoi text) [
      | none ↦ failed (usage_error "invalid SSH server port")
      | some p ↦ returned p
    ])
    else returned port

unfoldable pub valid_port : ℤ → Bool
valid_port (pos n) = leb 1 n && leb n 65535
valid_port (negsuc n) = false

unfoldable pub default_auth_methods : List Text
default_auth_methods = codes "private-key" ∷ codes "agent" ∷ codes "password" ∷ []

unfoldable pub is_auth_method : Text → Bool
unfolding is
is_auth_method method = is method "private-key" || is method "agent" || is method "password"

-- `enabledMethods[method]`
unfoldable pub has_method : List Text → Text → Bool
unfolding equal
has_method methods method = any (equal method) methods

unfoldable pub keep_enabled : List Text → List Text → List Text
unfolding has_method
keep_enabled methods [] = []
keep_enabled methods (d ∷ defaults) =
    let rest = keep_enabled methods defaults in if has_method methods d then d ∷ rest else rest

-- The methods behind the test for an empty list.
unfoldable pub or_default : List Text → List Text
unfolding default_auth_methods
or_default [] = default_auth_methods
or_default (m ∷ methods) = m ∷ methods

unfoldable pub normalize_methods : Context → Result Context
unfolding or_default is_auth_method keep_enabled default_auth_methods
normalize_methods c =
    if all is_auth_method (or_default c.auth_methods)
    then returned
        (record c { auth_methods = keep_enabled (or_default c.auth_methods) default_auth_methods })
    else failed (usage_error "unsupported SSH auth method")

-- The port behind its default.
unfoldable pub or_ssh_port : ℤ → ℤ
or_ssh_port port = if is_zero port then pos 22 else port

module _ (urls : Urls) where
  -- sshServer
  unfoldable pub ssh_server : Text → Text → ℤ → Text
  unfolding is join_host_port itoa_int
  ssh_server username host port =
      urls.print (if is username "" then none else some username)
        (join_host_port host (itoa_int port))

  unfoldable pub take_over : Context → ServerUrl → Result Context
  unfolding is url_username server_port
  take_over c parsed = server_port c.port parsed.port >>= λ port. returned (record c {
    host = if is c.host "" then parsed.hostname else c.host;
    username = if is c.username "" then url_username parsed.user else c.username;
    port = port;
  })

  -- What applyServer does behind validateServerURI, and behind `url.Parse`.
  unfoldable pub if_valid : Context → ServerUrl → Option ContextError → Result Context
  unfolding take_over
  if_valid c parsed (some e) = failed e
  if_valid c parsed none = take_over c parsed

  unfoldable pub if_parsed : Context → Option ServerUrl → Result Context
  unfolding if_valid validate_server_uri
  if_parsed c none = failed (usage_error "invalid SSH server URI")
  if_parsed c (some parsed) = if_valid c parsed (validate_server_uri parsed)

  -- applyServer
  unfoldable pub apply_server : Context → Result Context
  unfolding if_parsed
  apply_server c = if_parsed c (urls.parse c.server)

  unfoldable pub normalize_server : Context → Result Context
  unfolding is apply_server
  normalize_server c = if is c.server "" then returned c else apply_server c

  unfoldable pub normalize_address : Context → Result Context
  unfolding is valid_port ssh_server or_ssh_port
  normalize_address c =
      if is c.host ""
      then failed (usage_error "SSH host is required")
      else if not (valid_port (or_ssh_port c.port))
      then failed (usage_error "SSH port must be between 1 and 65535")
      else returned (record c {
        port = or_ssh_port c.port;
        server = ssh_server c.username c.host (or_ssh_port c.port);
      })

  -- Normalize; where it fails, the caller drops the context.
  unfoldable pub normalize : Context → Result Context
  unfolding normalize_server normalize_address normalize_methods
  normalize c = normalize_server c >>= normalize_address >>= normalize_methods
