-- ===== src/Contexts/Normalize/Twice.antt =====
-- `Normalize` leaves its own results alone.
use srvgov_cli.Prelude.{
  ℕ, ◌≤◌, ◌≡◌, refl, sym, ap, ◌∙◌, ◌≢◌, inl, inr, true, false, not, none, some, List, [], ◌∷◌,
  arith, ◌==◌, if◌then◌else◌, Bool-cases, all, split_if, ℤ, pos,
}
use mathlib.Core.Path.{subst}
use srvgov_cli.GoText.{Text, is, is_iff}
use srvgov_cli.Contexts.{Context, returned, ◌>>=◌}
use srvgov_cli.Contexts.Normalize.{
  ServerUrl, Urls, validate_server_uri, url_username, server_port, valid_port, default_auth_methods,
  is_auth_method, keep_enabled, or_default, normalize_methods, ssh_server, take_over, if_valid,
  if_parsed, apply_server, normalize_server, or_ssh_port, normalize_address, normalize,
}
use srvgov_cli.Contexts.Normalize.Methods.{keep_enabled_methods}
use srvgov_cli.Contexts.Normalize.Normal.{IsNormal, normalize-IsNormal}

-- The URL parses back: it is one that Normalize accepts, and it has no user name where none is printed.
pub record ReadsBack (urls : Urls) (c : Context) (u : ServerUrl) : Type 0 where
  pub parsed : urls.parse c.server ≡ some u
  pub valid : validate_server_uri u ≡ none
  pub no_user : is c.username "" ≡ true → u.user ≡ none

non_zero : (n : ℕ) → 1 ≤ n → (n == 0) ≡ false
non_zero n h = ground arith

or_ssh_port_kept : (p : ℤ) → (n : ℕ) × (p ≡ pos n) × (1 ≤ n) × (n ≤ 65535) → or_ssh_port p ≡ p
unfolding or_ssh_port
or_ssh_port_kept p (n, e, h, k) = rw e (rw (non_zero n h) refl)

server_port_kept :
    (p : ℤ) (text : Text)
    → (n : ℕ) × (p ≡ pos n) × (1 ≤ n) × (n ≤ 65535)
    → server_port p text ≡ returned p
unfolding server_port
server_port_kept p text (n, e, h, k) = rw e (rw (non_zero n h) refl)

-- The parts of a server's URL that the context has already are not taken over.
taken_username :
    (c : Context) (u : ServerUrl)
    → (is c.username "" ≡ true → u.user ≡ none)
    → (if is c.username "" then url_username u.user else c.username) ≡ c.username
unfolding url_username
taken_username c u h = elim (Bool-cases (is c.username "")) [
  | inl e ↦ rw e (rw (h e) (sym ((is_iff c.username "").0 e)))
  | inr e ↦ rw e refl
]

taken_host :
    (c : Context) (u : ServerUrl)
    → is c.host "" ≡ false
    → (if is c.host "" then u.hostname else c.host) ≡ c.host
taken_host c u h = rw h refl

-- A context with other values for what is taken over.
abbrev taking : Context → Text → Text → ℤ → Context
taking c host username port = record c { host = host; username = username; port = port }

take_over_kept :
    (urls : Urls) (c : Context) (u : ServerUrl)
    → IsNormal urls c
    → ReadsBack urls c u
    → take_over urls c u ≡ returned c
unfolding take_over
take_over_kept urls c u n r =
    ap
      (λ p. p >>= λ port. returned (
        taking c (if is c.host "" then u.hostname else c.host)
          (if is c.username "" then url_username u.user else c.username) port))
      (server_port_kept c.port u.port n.port)
    ∙ ap
        (λ host.
          returned
            (taking c host (if is c.username "" then url_username u.user else c.username) c.port))
        (taken_host c u n.host)
    ∙ ap (λ username. returned (taking c c.host username c.port)) (taken_username c u r.no_user)

normalize_server_kept :
    (urls : Urls) (c : Context) (u : ServerUrl)
    → IsNormal urls c
    → ReadsBack urls c u
    → normalize_server urls c ≡ returned c
unfolding normalize_server apply_server if_parsed if_valid
normalize_server_kept urls c u n r =
    split_if (λ a. a ≡ returned c) (is c.server "") (λ _. refl)
      λ _.
        ap (if_parsed urls c) r.parsed
        ∙ ap (if_valid urls c u) r.valid
        ∙ take_over_kept urls c u n r

in_range-valid_port :
    (p : ℤ) → (n : ℕ) × (p ≡ pos n) × (1 ≤ n) × (n ≤ 65535) → not (valid_port p) ≡ false
unfolding valid_port
in_range-valid_port p (n, e, h, k) = rw e (ground arith)

abbrev with_address : Urls → Context → ℤ → Context
with_address urls c port = record c { port = port; server = ssh_server urls c.username c.host port }

normalize_address_kept :
    (urls : Urls) (c : Context) → IsNormal urls c → normalize_address urls c ≡ returned c
unfolding normalize_address
normalize_address_kept urls c n =
    split_if (λ a. a ≡ returned c) (is c.host "") (λ h. absurd (let k = n.host in cc))
      λ _.
        split_if (λ a. a ≡ returned c) (not (valid_port (or_ssh_port c.port)))
          (λ h. absurd (
            let k = in_range-valid_port c.port n.port in
            let same = or_ssh_port_kept c.port n.port in cc))
          λ _.
            ap (λ p. returned (with_address urls c p)) (or_ssh_port_kept c.port n.port)
            ∙ ap (λ s. returned (record c { server = s })) (sym n.server)

or_default_kept : (ms : List Text) → ms ≢ [] → or_default ms ≡ ms
unfolding or_default
or_default_kept [] n = absurd (n refl)
or_default_kept (m ∷ ms) n = refl

normalize_methods_kept :
    (urls : Urls) (c : Context) → IsNormal urls c → normalize_methods c ≡ returned c
unfolding normalize_methods
normalize_methods_kept urls c n =
    let same = or_default_kept c.auth_methods n.some_method in
    let known : all is_auth_method c.auth_methods ≡ true =
      subst (λ k. all is_auth_method k ≡ true) n.in_order (keep_enabled_methods c.auth_methods) in
    split_if (λ a. a ≡ returned c) (all is_auth_method (or_default c.auth_methods))
      (λ _.
        ap (λ ms. returned (record c { auth_methods = keep_enabled ms default_auth_methods })) same
        ∙ ap (λ ms. returned (record c { auth_methods = ms })) n.in_order)
      λ h. absurd (cc)

-- A normal context whose server parses back is one that Normalize leaves as it is.
pub normalize-normal :
    (urls : Urls) (c : Context) (u : ServerUrl)
    → IsNormal urls c
    → ReadsBack urls c u
    → normalize urls c ≡ returned c
unfolding normalize
normalize-normal urls c u n r =
    ap (λ a. a >>= normalize_address urls >>= normalize_methods)
      (normalize_server_kept urls c u n r)
    ∙ ap (λ a. a >>= normalize_methods) (normalize_address_kept urls c n)
    ∙ normalize_methods_kept urls c n

-- Normalize is idempotent, where the URL that it makes is one that net/url reads back.
pub normalize-normalize :
    (urls : Urls) (c d : Context) (u : ServerUrl)
    → normalize urls c ≡ returned d
    → ReadsBack urls d u
    → normalize urls d ≡ returned d
normalize-normalize urls c d u h r = normalize-normal urls d u (normalize-IsNormal urls c h).0 r
