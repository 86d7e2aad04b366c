-- ===== src/Contexts/Normalize/Normal.antt =====
-- What `Normalize` makes of a context.
use srvgov_cli.Prelude.{
  ℕ, ◌≤◌, ◌≡◌, refl, ap, ◌∙◌, ◌≢◌, true, false, not, Option, none, some, List, [], arith, all,
  split_if, ℤ, pos, negsuc,
}
use srvgov_cli.GoText.{Text, is}
use srvgov_cli.Contexts.{
  Context, ContextError, returned, ◌>>=◌, IfReturned, IfReturned-eq, IfReturned-of, IfReturned-bind,
  >>=-eq-returned,
}
use srvgov_cli.Contexts.Normalize.{
  ServerUrl, Urls, validate_server_uri, server_port, valid_port, default_auth_methods,
  is_auth_method, has_method, keep_enabled, or_default, normalize_methods, ssh_server, take_over,
  if_valid, if_parsed, apply_server, normalize_server, or_ssh_port, normalize_address, normalize,
}
use srvgov_cli.Contexts.Normalize.Methods.{
  keep_enabled_fixed, has_method-keep_enabled, or_default-ne-nil, keep_enabled-ne-nil,
}

-- The context reaches a server, by methods that stand in the order of the defaults.
pub record IsNormal (urls : Urls) (c : Context) : Type 0 where
  pub host : is c.host "" ≡ false
  pub port : (n : ℕ) × (c.port ≡ pos n) × (1 ≤ n) × (n ≤ 65535)
  pub server : c.server ≡ ssh_server urls c.username c.host c.port
  pub some_method : c.auth_methods ≢ []
  pub in_order : keep_enabled c.auth_methods default_auth_methods ≡ c.auth_methods

-- A normal context has the server's parts, but for the methods.
abbrev IsAddressed : Urls → Context → Type 0
IsAddressed urls c =
    (is c.host "" ≡ false)
    × (valid_port c.port ≡ true)
    × (c.server ≡ ssh_server urls c.username c.host c.port)

normalize_address-IsAddressed :
    (urls : Urls) (c : Context) → IfReturned (IsAddressed urls) (normalize_address urls c)
unfolding normalize_address
normalize_address-IsAddressed urls c =
    split_if (IfReturned (IsAddressed urls)) (is c.host "") (λ _. tt)
      λ h.
        split_if (IfReturned (IsAddressed urls)) (not (valid_port (or_ssh_port c.port))) (λ _. tt)
          λ p. (h, ground arith, refl)

valid_port-range : (p : ℤ) → valid_port p ≡ true → (n : ℕ) × (p ≡ pos n) × (1 ≤ n) × (n ≤ 65535)
unfolding valid_port
valid_port-range (pos n) h = (n, refl, ground arith, ground arith)
valid_port-range (negsuc n) h = cc

-- The methods are as the context asks for, and its address is that of the one before.
abbrev HasMethods : Context → Context → Type 0
HasMethods c d =
    (d.auth_methods ≢ [])
    × (keep_enabled d.auth_methods default_auth_methods ≡ d.auth_methods)
    × ((m : Text) → has_method d.auth_methods m ≡ has_method (or_default c.auth_methods) m)

normalize_methods-HasMethods :
    (urls : Urls) (c : Context)
    → IsAddressed urls c
    → IfReturned (λ d. IsAddressed urls d × HasMethods c d) (normalize_methods c)
unfolding normalize_methods
normalize_methods-HasMethods urls c a =
    let ms = or_default c.auth_methods in
    split_if (IfReturned (λ d. IsAddressed urls d × HasMethods c d)) (all is_auth_method ms)
      (λ h. (
        a,
        (
          keep_enabled-ne-nil ms h (or_default-ne-nil c.auth_methods),
          keep_enabled_fixed ms,
          λ m. has_method-keep_enabled ms m h,
        ),
      ))
      λ _. tt

abbrev SameMethods : Context → Context → Type 0
SameMethods c d = d.auth_methods ≡ c.auth_methods

take_over-SameMethods :
    (urls : Urls) (c : Context) (u : ServerUrl) → IfReturned (SameMethods c) (take_over urls c u)
unfolding take_over
take_over-SameMethods urls c u =
    IfReturned-bind (λ _. Unit {0}) (SameMethods c) (server_port c.port u.port) _
      (IfReturned-of (server_port c.port u.port)) λ port h. refl

if_valid-SameMethods :
    (urls : Urls) (c : Context) (u : ServerUrl) (o : Option ContextError)
    → IfReturned (SameMethods c) (if_valid urls c u o)
unfolding if_valid
if_valid-SameMethods urls c u none = take_over-SameMethods urls c u
if_valid-SameMethods urls c u (some e) = tt

if_parsed-SameMethods :
    (urls : Urls) (c : Context) (o : Option ServerUrl)
    → IfReturned (SameMethods c) (if_parsed urls c o)
unfolding if_parsed
if_parsed-SameMethods urls c none = tt
if_parsed-SameMethods urls c (some u) = if_valid-SameMethods urls c u (validate_server_uri u)

normalize_server-SameMethods :
    (urls : Urls) (c : Context) → IfReturned (SameMethods c) (normalize_server urls c)
unfolding normalize_server apply_server
normalize_server-SameMethods urls c =
    split_if (IfReturned (SameMethods c)) (is c.server "") (λ _. refl)
      λ _. if_parsed-SameMethods urls c (urls.parse c.server)

normalize_address-SameMethods :
    (urls : Urls) (c : Context) → IfReturned (SameMethods c) (normalize_address urls c)
unfolding normalize_address
normalize_address-SameMethods urls c =
    split_if (IfReturned (SameMethods c)) (is c.host "") (λ _. tt)
      λ h.
        split_if (IfReturned (SameMethods c)) (not (valid_port (or_ssh_port c.port))) (λ _. tt)
          λ p. refl

-- What Normalize returns has a host, a port from 1 to 65535, the URL of its user name, host and
-- port as its server, and at least one authentication method; its methods are those that the
-- context asks for, or all where it asks for none, each once and in the order of the defaults.
pub normalize-IsNormal :
    (urls : Urls) (c : Context) {d : Context}
    → normalize urls c ≡ returned d
    → IsNormal urls d
      × ((m : Text) → has_method d.auth_methods m ≡ has_method (or_default c.auth_methods) m)
unfolding normalize
normalize-IsNormal urls c {d} h =
    let (b, before, e) =
      >>=-eq-returned (normalize_server urls c >>= normalize_address urls) normalize_methods h in
    let (a, first, second) =
      >>=-eq-returned (normalize_server urls c) (normalize_address urls) before in
    let at_server = IfReturned-eq (SameMethods c) (normalize_server-SameMethods urls c) first in
    let at_address = IfReturned-eq (SameMethods a) (normalize_address-SameMethods urls a) second in
    let addressed =
      IfReturned-eq (IsAddressed urls) (normalize_address-IsAddressed urls a) second in
    let (whole, methods) =
      IfReturned-eq (λ k. IsAddressed urls k × HasMethods b k)
        (normalize_methods-HasMethods urls b addressed) e in
    (
      record {
        host = whole.0;
        port = valid_port-range d.port whole.1;
        server = whole.2;
        some_method = methods.0;
        in_order = methods.1;
      },
      λ m.
          methods.2 m
          ∙ ap (λ (k : List Text). has_method (or_default k) m) (at_address ∙ at_server),
    )
