-- ===== src/Fanout/Loading/Chosen.antt =====
-- Which contexts a fan-out is loaded with.
use srvgov_cli.Prelude.{
  ◌≡◌, refl, sym, ap, ◌∙◌, inl, inr, Bool, true, false, ◌&&◌, ◌||◌, Option, none, some, List, [],
  ◌∷◌, map, arith, Bool-cases, any, All, is_positive,
}
use srvgov_cli.GoText.{Text, equal, Map, get_key, sort_strings, any-sort_strings}
use srvgov_cli.Contexts.{
  Context, Config, ContextError, Result, failed, returned, ◌>>=◌, IfReturned, IfReturned-eq,
  IfReturned-bind, >>=-eq-returned,
}
use srvgov_cli.Contexts.Normalize.{Urls, normalize}
use srvgov_cli.Fanout.{Target}
use srvgov_cli.Fanout.Selectors.{parse_selector, labels_match}
use srvgov_cli.Fanout.Loading.{
  FanoutFlags, address, matching_names, some_names, selected_names, fanout_target_names, target_of,
  targets_of, load_fanout_targets,
}

-- The target is a context of the configuration, normalized, under its name and with its address.
pub record IsOf (urls : Urls) (cfg : Config) (t : Target Context) : Type 0 where
  pub item : Context
  pub there : get_key t.name cfg.contexts ≡ some item
  pub normal : normalize urls item ≡ returned t.value
  pub dialed : t.host ≡ address t.value

-- Whether some context has the name and labels that match.
abbrev pub chosen : Map Text → Text → Map Context → Bool
chosen selector n contexts =
    any (λ (e : Text × Context). labels_match e.1.labels selector && equal e.0 n) contexts

any-matching_names :
    (selector : Map Text) (n : Text) (contexts : Map Context)
    → any (λ m. equal m n) (matching_names selector contexts) ≡ chosen selector n contexts
unfolding matching_names
any-matching_names selector n [] = refl
any-matching_names selector n ((name, item) ∷ contexts) =
    ground (arith, any-matching_names selector n contexts)

at_normal :
    (urls : Urls) (cfg : Config) (name : Text) (item : Context)
    → get_key name cfg.contexts ≡ some item
    → (r : Result Context) → normalize urls item ≡ r
    → IfReturned
        (λ (t : Target Context). (t.name ≡ name) × IsOf urls cfg t)
        (r >>= λ normal. returned (record { name = name; host = address normal; value = normal }))
at_normal urls cfg name item h (failed e) n = tt
at_normal urls cfg name item h (returned normal) n =
    (refl, record { item = item; there = h; normal = n; dialed = refl })

target_of-IsOf :
    (urls : Urls) (cfg : Config) (name : Text) (o : Option Context)
    → get_key name cfg.contexts ≡ o
    → IfReturned (λ (t : Target Context). (t.name ≡ name) × IsOf urls cfg t) (target_of urls name o)
unfolding target_of
target_of-IsOf urls cfg name none h = tt
target_of-IsOf urls cfg name (some item) h =
    at_normal urls cfg name item h (normalize urls item) refl

both : (a b : Text) (xs ys : List Text) → a ≡ b → xs ≡ ys → ◌≡◌ {A = List Text} (a ∷ xs) (b ∷ ys)
both a b xs ys h k = rw h (rw k refl)

-- Targets of the names, in their order.
abbrev AreOf : Urls → Config → List Text → List (Target Context) → Type 0
AreOf urls cfg names ts = (map (λ (t : Target Context). t.name) ts ≡ names) × All (IsOf urls cfg) ts

targets_of-AreOf :
    (urls : Urls) (cfg : Config) (names : List Text)
    → IfReturned (AreOf urls cfg names) (targets_of urls cfg names)
unfolding targets_of
targets_of-AreOf urls cfg [] = (refl, tt)
targets_of-AreOf urls cfg (name ∷ names) =
    IfReturned-bind (λ (t : Target Context). (t.name ≡ name) × IsOf urls cfg t)
      (AreOf urls cfg (name ∷ names)) (target_of urls name (get_key name cfg.contexts))
      (λ t. targets_of urls cfg names >>= λ targets. returned (t ∷ targets))
      (target_of-IsOf urls cfg name (get_key name cfg.contexts) refl)
      λ t h.
        IfReturned-bind (AreOf urls cfg names) (AreOf urls cfg (name ∷ names))
          (targets_of urls cfg names) (λ targets. returned (t ∷ targets))
          (targets_of-AreOf urls cfg names) λ ts k. (both t.name name _ names h.0 k.0, (h.1, k.1))

any-names :
    (n : Text) (ts : List (Target Context))
    → any (λ (t : Target Context). equal t.name n) ts
      ≡ any (λ m. equal m n) (map (λ (t : Target Context). t.name) ts)
any-names n [] = refl
any-names n (t ∷ ts) = ap (λ b. equal t.name n || b) (any-names n ts)

some_names-returned :
    (e : ContextError) (names : List Text) {ns : List Text}
    → some_names e names ≡ returned ns
    → names ≡ ns
unfolding some_names
some_names-returned e [] h = cc
some_names-returned e (n ∷ names) h = cc

selected_names-returned :
    (cfg : Config) (o : Option (Map Text)) {ns : List Text}
    → selected_names cfg o ≡ returned ns
    → (selector : Map Text) × (o ≡ some selector) × (matching_names selector cfg.contexts ≡ ns)
unfolding selected_names
selected_names-returned cfg none h = cc
selected_names-returned cfg (some selector) h =
    (selector, refl, some_names-returned _ (matching_names selector cfg.contexts) h)

-- What a selector loads: a fan-out's targets and the contexts whose labels match.
pub record IsSelected (urls : Urls) (cfg : Config) (flags : FanoutFlags)
    (targets : List (Target Context)) : Type 0 where
  pub selector : Map Text
  pub parsed : parse_selector flags.selector ≡ some selector
  pub names :
      (n : Text)
      → any (λ (t : Target Context). equal t.name n) targets ≡ chosen selector n cfg.contexts
  pub contexts : All (IsOf urls cfg) targets
  pub workers : is_positive flags.concurrency ≡ true

loaded-IsSelected :
    (urls : Urls) (cfg : Config) (flags : FanoutFlags) (names : List Text)
    {targets : List (Target Context)}
    → is_positive flags.concurrency ≡ true
    → selected_names cfg (parse_selector flags.selector) ≡ returned names
    → targets_of urls cfg (sort_strings names) ≡ returned targets
    → IsSelected urls cfg flags targets
loaded-IsSelected urls cfg flags names {targets} w n t =
    let (selector, parsed, matched) =
      selected_names-returned cfg (parse_selector flags.selector) n in
    let of =
      IfReturned-eq (AreOf urls cfg (sort_strings names))
        (targets_of-AreOf urls cfg (sort_strings names)) t in
    record {
      selector = selector;
      parsed = parsed;
      names = λ m.
          any-names m targets
          ∙ ap (any (λ k. equal k m)) of.0
          ∙ any-sort_strings (λ k. equal k m) names
          ∙ ap (any (λ k. equal k m)) (sym matched)
          ∙ any-matching_names selector m cfg.contexts;
      contexts = of.1;
      workers = w;
    }

-- Where targets are loaded by --selector alone, the selector was parsed and the concurrency is
-- positive; a name is the name of a target exactly when some context of that name has labels that
-- match the selector; and each target is a context of the configuration, normalized, under its name
-- and with its address.
pub load_fanout_targets-IsSelected :
    (urls : Urls) (cfg : Config) (flags : FanoutFlags) {targets : List (Target Context)}
    → load_fanout_targets urls cfg flags false false true ≡ returned targets
    → IsSelected urls cfg flags targets
unfolding load_fanout_targets fanout_target_names
load_fanout_targets-IsSelected urls cfg flags {targets} h =
    elim (Bool-cases (is_positive flags.concurrency)) [
      | inr e ↦ absurd (let k = rw e at h in cc)
      | inl e ↦
          let k = rw e at h in
          let (names, n, t) =
            >>=-eq-returned (selected_names cfg (parse_selector flags.selector))
              (λ names. targets_of urls cfg (sort_strings names)) k in
          loaded-IsSelected urls cfg flags names e n t
    ]
