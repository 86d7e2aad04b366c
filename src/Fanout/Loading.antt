-- ===== src/Fanout/Loading.antt =====
-- The targets of a fan-out: `loadFanoutTargets` and `fanoutTargetNames` of cmd/fanout.go, behind the
-- loading of the contexts, and `Address` of internal/srvgovctx/context.go.
pub mod Chosen
use srvgov_cli.Prelude.{
  ◌/◌, ◌%◌, ℕ, zero, suc, ◌+◌, ◌-◌, ◌*◌, ◌≤◌, ◌<◌, String, ◌≡◌, refl, sym, ap, ◌∙◌, ◌≢◌, ◌↔◌, ◌⊎◌,
  inl, inr, Bool, true, false, not, ◌&&◌, ◌||◌, Option, none, some, List, [], ◌∷◌, ◌++◌, map,
  append-nil, append_assoc, arith, ltb, leb, ◌==◌, if◌then◌else◌, ==_iff, Bool-cases, or_resolve,
  Option-cases, length, take, any, all, length-append, any-append, All, All-append, All-map, All-of,
  IfSome, split_if, IfSome-eq, holds_below, holds_below-at, ℤ, pos, negsuc, is_negative, clamp,
  is_positive,
}
use srvgov_cli.GoText.{Text, is, equal, trim_space, split_on, Map, get_key, put_key, sort_strings}
use srvgov_cli.Contexts.{
  Context, Config, ContextError, usage_error, resource_not_found, Result, failed, returned, ◌>>=◌,
}
use srvgov_cli.Contexts.Normalize.{Urls, itoa_int, join_host_port, normalize}
use srvgov_cli.Fanout.{Target}
use srvgov_cli.Fanout.Selectors.{parse_selector, labels_match}

-- `fanoutFlags`
pub record FanoutFlags : Type 0 where
  pub targets : Text
  pub selector : Text
  pub concurrency : ℤ

-- Address
unfoldable pub address : Context → Text
unfolding trim_space join_host_port itoa_int
address c = join_host_port (trim_space c.host) (itoa_int c.port)

-- A name in a set of names, once.
unfoldable pub add_name : Text → List Text → List Text
unfolding equal
add_name name [] = name ∷ []
add_name name (n ∷ names) =
    let rest = add_name name names in if equal n name then n ∷ names else n ∷ rest

-- The names of the contexts whose labels match.
unfoldable pub matching_names : Map Text → Map Context → List Text
unfolding labels_match
matching_names selector [] = []
matching_names selector ((name, item) ∷ contexts) =
    let rest = matching_names selector contexts in
    if labels_match item.labels selector then name ∷ rest else rest

-- The names of `--targets`, of which the empty ones are left out.
unfoldable pub listed_names : List Text → List Text → List Text
unfolding is trim_space add_name
listed_names names [] = names
listed_names names (value ∷ values) =
    listed_names (if is (trim_space value) "" then names else add_name (trim_space value) names)
      values

-- The names, of which there is one at least.
unfoldable pub some_names : ContextError → List Text → Result (List Text)
some_names e [] = failed e
some_names e (n ∷ names) = returned (n ∷ names)

-- What `fanoutTargetNames` makes of a parsed selector.
unfoldable pub selected_names : Config → Option (Map Text) → Result (List Text)
unfolding matching_names some_names
selected_names cfg none =
    failed (usage_error "--selector must be key=value pairs with non-empty keys and values")
selected_names cfg (some selector) =
    some_names (resource_not_found "no contexts match selector")
      (matching_names selector cfg.contexts)

-- fanoutTargetNames
unfoldable pub fanout_target_names : Config → FanoutFlags → Bool → Result (List Text)
unfolding parse_selector selected_names some_names listed_names split_on
fanout_target_names cfg flags selector_set =
    if selector_set
    then selected_names cfg (parse_selector flags.selector)
    else some_names (usage_error "--targets requires at least one target")
        (listed_names [] (split_on b',' flags.targets))

module _ (urls : Urls) where
  unfoldable pub target_of : Text → Option Context → Result (Target Context)
  unfolding normalize address
  target_of name none = failed (resource_not_found "context not found")
  target_of name (some item) = normalize urls item >>= λ normal.
      returned (record { name = name; host = address normal; value = normal })

  -- The loop over the sorted names.
  unfoldable pub targets_of : Config → List Text → Result (List (Target Context))
  unfolding target_of get_key
  targets_of cfg [] = returned []
  targets_of cfg (name ∷ names) = target_of name (get_key name cfg.contexts) >>= λ t.
      targets_of cfg names >>= λ targets. returned (t ∷ targets)

  -- loadFanoutTargets
  unfoldable pub load_fanout_targets :
      Config → FanoutFlags → Bool → Bool → Bool → Result (List (Target Context))
  unfolding fanout_target_names targets_of sort_strings
  load_fanout_targets cfg flags context_set targets_set selector_set =
      if context_set && (targets_set || selector_set)
      then failed (usage_error "--targets, --selector, and --context are mutually exclusive")
      else if targets_set && selector_set
      then failed (usage_error "--targets and --selector are mutually exclusive")
      else if not (is_positive flags.concurrency)
      then failed (usage_error "--concurrency must be at least 1")
      else fanout_target_names cfg flags selector_set >>= λ names.
          targets_of cfg (sort_strings names)
