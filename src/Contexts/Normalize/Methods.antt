-- ===== src/Contexts/Normalize/Methods.antt =====
-- The authentication methods that `Normalize` keeps.
use srvgov_cli.Prelude.{
  String, ◌≡◌, refl, sym, ◌∙◌, ◌≢◌, inl, inr, Bool, true, false, ◌&&◌, ◌||◌, List, [], ◌∷◌, arith,
  if◌then◌else◌, Bool-cases, all,
}
use mathlib.Core.Path.{subst}
use srvgov_cli.GoText.{Text, codes, is, is_iff, equal_iff}
use srvgov_cli.Contexts.Normalize.{
  default_auth_methods, is_auth_method, has_method, keep_enabled, or_default,
}

-- The default methods of which the tests hold, in their order.
abbrev selected : Bool → Bool → Bool → List Text
selected a b c =
    let words = if c then codes "password" ∷ [] else [] in
    let agents = if b then codes "agent" ∷ words else words in
    if a then codes "private-key" ∷ agents else agents

keep_enabled-selected :
    (ms : List Text)
    → keep_enabled ms default_auth_methods
      ≡ selected
          (has_method ms (codes "private-key"))
          (has_method ms (codes "agent"))
          (has_method ms (codes "password"))
unfolding keep_enabled default_auth_methods
keep_enabled-selected ms = refl

selected_fixed :
    (a b c : Bool) → keep_enabled (selected a b c) default_auth_methods ≡ selected a b c
unfolding keep_enabled default_auth_methods has_method
selected_fixed true true true = refl
selected_fixed true true false = refl
selected_fixed true false true = refl
selected_fixed true false false = refl
selected_fixed false true true = refl
selected_fixed false true false = refl
selected_fixed false false true = refl
selected_fixed false false false = refl

selected_methods : (a b c : Bool) → all is_auth_method (selected a b c) ≡ true
unfolding is_auth_method
selected_methods true true true = refl
selected_methods true true false = refl
selected_methods true false true = refl
selected_methods true false false = refl
selected_methods false true true = refl
selected_methods false true false = refl
selected_methods false false true = refl
selected_methods false false false = refl

pub keep_enabled_fixed :
    (ms : List Text)
    → keep_enabled (keep_enabled ms default_auth_methods) default_auth_methods
      ≡ keep_enabled ms default_auth_methods
keep_enabled_fixed ms =
    subst (λ k. keep_enabled k default_auth_methods ≡ k) (sym (keep_enabled-selected ms))
      (selected_fixed _ _ _)

pub keep_enabled_methods :
    (ms : List Text) → all is_auth_method (keep_enabled ms default_auth_methods) ≡ true
keep_enabled_methods ms =
    subst (λ k. all is_auth_method k ≡ true) (sym (keep_enabled-selected ms))
      (selected_methods _ _ _)

has_method-selected :
    (a b c : Bool) (m : Text)
    → has_method (selected a b c) m
      ≡ (a && is m "private-key" || b && is m "agent" || c && is m "password")
unfolding has_method is
has_method-selected true true true m = ground arith
has_method-selected true true false m = ground arith
has_method-selected true false true m = ground arith
has_method-selected true false false m = ground arith
has_method-selected false true true m = ground arith
has_method-selected false true false m = ground arith
has_method-selected false false true m = ground arith
has_method-selected false false false m = ground arith

-- A method of a list of methods that SSH knows is one of the defaults.
has_method-is_auth_method :
    (ms : List Text) (m : Text)
    → all is_auth_method ms ≡ true
    → has_method ms m ≡ true
    → is_auth_method m ≡ true
unfolding has_method
has_method-is_auth_method [] m h k = cc
has_method-is_auth_method (x ∷ ms) m h k =
    ground (arith, equal_iff m x, has_method-is_auth_method ms m)

has_method-at :
    (ms : List Text) (m : Text) (s : String)
    → (is m s && has_method ms (codes s)) ≡ (is m s && has_method ms m)
has_method-at ms m s = elim (Bool-cases (is m s)) [
  | inl e ↦ rw ((is_iff m s).0 e) refl
  | inr e ↦ rw e refl
]

-- What is kept of methods that SSH knows is every one of them.
pub has_method-keep_enabled :
    (ms : List Text) (m : Text)
    → all is_auth_method ms ≡ true
    → has_method (keep_enabled ms default_auth_methods) m ≡ has_method ms m
unfolding is_auth_method
has_method-keep_enabled ms m h = rw (keep_enabled-selected ms) (
    has_method-selected (has_method ms (codes "private-key")) (has_method ms (codes "agent"))
      (has_method ms (codes "password")) m
    ∙ ground (
      arith,
      has_method-at ms m "private-key",
      has_method-at ms m "agent",
      has_method-at ms m "password",
      has_method-is_auth_method ms m h,
    ))

-- A method keeps the list from being empty.
ne-nil-of_method : (ms : List Text) (m : Text) → has_method ms m ≡ true → ms ≢ []
unfolding has_method
ne-nil-of_method [] m h = cc
ne-nil-of_method (x ∷ ms) m h = λ e. cc

pub or_default-ne-nil : (ms : List Text) → or_default ms ≢ []
unfolding or_default default_auth_methods
or_default-ne-nil [] = λ e. cc
or_default-ne-nil (m ∷ ms) = λ e. cc

pub keep_enabled-ne-nil :
    (ms : List Text)
    → all is_auth_method ms ≡ true
    → ms ≢ []
    → keep_enabled ms default_auth_methods ≢ []
unfolding has_method
keep_enabled-ne-nil [] h n = absurd (n refl)
keep_enabled-ne-nil (m ∷ ms) h n =
    ne-nil-of_method (keep_enabled (m ∷ ms) default_auth_methods) m
      (has_method-keep_enabled (m ∷ ms) m h ∙ ground (arith, equal_iff m m))
