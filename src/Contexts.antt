-- ===== src/Contexts.antt =====
-- The contexts of internal/srvgovctx/context.go and the configuration that holds them, and the errors of
-- the commands on them. The fields that the shared library adds and the source never names stand in
-- `extra`.
pub mod Normalize
pub mod Control
pub mod Commands
pub mod Portable
use srvgov_cli.Prelude.{
  ◌/◌, ◌%◌, ℕ, zero, suc, ◌+◌, ◌-◌, ◌*◌, ◌≤◌, ◌<◌, String, ◌≡◌, refl, sym, ap, ◌∙◌, ◌≢◌, ◌↔◌, ◌⊎◌,
  inl, inr, Bool, true, false, not, ◌&&◌, ◌||◌, Option, none, some, List, [], ◌∷◌, ◌++◌, map,
  append-nil, append_assoc, arith, ltb, leb, ◌==◌, if◌then◌else◌, ==_iff, Bool-cases, or_resolve,
  Option-cases, length, take, any, all, length-append, any-append, All, All-append, All-map, All-of,
  IfSome, split_if, IfSome-eq, holds_below, holds_below-at, ℤ, pos, negsuc, is_negative, clamp,
  is_positive,
}
use mathlib.Core.Path.{subst}
use srvgov_cli.GoText.{Text, Map}

-- `srvgovctx.Context` with the fields of `ctx.Base`
pub record Context : Type 0 where
  pub server : Text
  pub username : Text
  pub password : Text
  pub env : Text
  pub protected : Bool
  pub ticket_pattern : Text
  pub roles : Map Text
  pub credential_backend : Text
  pub host : Text
  pub port : ℤ
  pub identity_file : Text
  pub identity_passphrase : Text
  pub auth_methods : List Text
  pub labels : Map Text
  pub extra : ℕ

-- Go's zero value of it
abbrev pub zero_context : Context
zero_context = record {
  server = [];
  username = [];
  password = [];
  env = [];
  protected = false;
  ticket_pattern = [];
  roles = [];
  credential_backend = [];
  host = [];
  port = pos 0;
  identity_file = [];
  identity_passphrase = [];
  auth_methods = [];
  labels = [];
  extra = 0;
}

-- `Config`
pub record Config : Type 0 where
  pub current_context : Text
  pub contexts : Map Context

-- The errors of the commands; those of code outside are numbered. `errors.Join` is a list.
pub data ContextError : Type 0 where
  outside_error : ℕ → ContextError
  usage_error : String → ContextError
  validation_failed : String → ContextError
  authorization_required : String → ContextError
  unsupported_protocol : String → ContextError
  resource_not_found : String → ContextError
  credential_store_error : Text → ℕ → ContextError
  credential_state_uncertain : String → ContextError → List ℕ → ContextError
  partial_failure : String → ContextError → ContextError

-- A value or an error.
pub data Result {ℓ} (A : Type ℓ) : Type ℓ where
  failed : ContextError → Result A
  returned : A → Result A

-- A property of the value, where there is one.
abbrev pub IfReturned {ℓ κ} : {A : Type ℓ} → (A → Type κ) → Result A → Type κ
IfReturned P (failed e) = Unit
IfReturned P (returned a) = P a

pub IfReturned-eq {ℓ κ} :
    {A : Type ℓ} (P : A → Type κ) {r : Result A} {a : A} → IfReturned P r → r ≡ returned a → P a
IfReturned-eq P {a} h e = subst (IfReturned P) e h

pub IfReturned-of {ℓ} : {A : Type ℓ} (r : Result A) → IfReturned (λ _. Unit {0}) r
IfReturned-of (failed e) = tt
IfReturned-of (returned a) = tt

-- A step that goes on with the value.
infixl 5 ◌>>=◌
abbrev pub ◌>>=◌ {ℓ κ} : {A : Type ℓ} {B : Type κ} → Result A → (A → Result B) → Result B
failed e >>= f = failed e
returned a >>= f = f a

pub IfReturned-bind {ℓ κ μ ν} :
    {A : Type ℓ} {B : Type κ} (P : A → Type μ) (Q : B → Type ν) (r : Result A) (f : A → Result B)
    → IfReturned P r
    → ((a : A) → P a → IfReturned Q (f a))
    → IfReturned Q (r >>= f)
IfReturned-bind P Q (failed e) f h k = tt
IfReturned-bind P Q (returned a) f h k = k a h

pub >>=-eq-returned {ℓ κ} :
    {A : Type ℓ} {B : Type κ} (r : Result A) (f : A → Result B) {b : B}
    → (r >>= f) ≡ returned b
    → (a : A) × (r ≡ returned a) × (f a ≡ returned b)
>>=-eq-returned (failed e) f h = cc
>>=-eq-returned (returned a) f h = (a, refl, h)
