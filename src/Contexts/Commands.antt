-- ===== src/Contexts/Commands.antt =====
-- The commands that change contexts: `ctx use`, `ctx delete`, `ctx role set`, `ctx role unset` and the
-- write of `ctx import`. Each is its policy and its change within one control change.
pub mod Current
use srvgov_cli.Prelude.{
  ◌/◌, ◌%◌, ℕ, zero, suc, ◌+◌, ◌-◌, ◌*◌, ◌≤◌, ◌<◌, String, ◌≡◌, refl, sym, ap, ◌∙◌, ◌≢◌, ◌↔◌, ◌⊎◌,
  inl, inr, Bool, true, false, not, ◌&&◌, ◌||◌, Option, none, some, List, [], ◌∷◌, ◌++◌, map,
  append-nil, append_assoc, arith, ltb, leb, ◌==◌, if◌then◌else◌, ==_iff, Bool-cases, or_resolve,
  Option-cases, length, take, any, all, length-append, any-append, All, All-append, All-map, All-of,
  IfSome, split_if, IfSome-eq, holds_below, holds_below-at, ℤ, pos, negsuc, is_negative, clamp,
  is_positive,
}
use srvgov_cli.GoText.{Text, is, equal, trim_space, Map, get_key, put_key, delete_key}
use srvgov_cli.Contexts.{
  Context, zero_context, Config, ContextError, usage_error, Result, failed, returned, ◌>>=◌,
}
use srvgov_cli.Contexts.Control.{
  context_pre_change_policy, context_use_pre_change_policy, ControlWorld, valid_role, Controlled,
  refused_change, control_change,
}

-- `cfg.Contexts[name]`, or the error that it is not there.
unfoldable pub existing_context : Text → Config → Result Context
unfolding get_key
existing_context name cfg = elim (get_key name cfg.contexts) [
  | none ↦ failed (usage_error "context not found")
  | some item ↦ returned item
]

-- A change of the context of a name, which is there.
unfoldable pub change_context : Text → (Context → Context) → Config → Config
unfolding get_key put_key
change_context name f cfg = elim (get_key name cfg.contexts) [
  | none ↦ cfg
  | some item ↦ record cfg { contexts = put_key name (f item) cfg.contexts }
]

-- ctx use
unfoldable pub use_policy : Text → Config → Result Context
unfolding existing_context context_use_pre_change_policy
use_policy name cfg =
    existing_context name cfg >>= λ target. context_use_pre_change_policy cfg target

unfoldable pub use_change : Text → Config → Config
use_change name cfg = record cfg { current_context = name }

-- ctx delete
unfoldable pub delete_change : Text → Config → Config
unfolding delete_key equal
delete_change name cfg = record {
  current_context = if equal cfg.current_context name then [] else cfg.current_context;
  contexts = delete_key name cfg.contexts;
}

-- ctx role set, and ctx role unset
unfoldable pub assign_role : Text → Text → Context → Context
unfolding put_key
assign_role operator role item = record item { roles = put_key operator role item.roles }

unfoldable pub revoke_role : Text → Context → Context
unfolding delete_key
revoke_role operator item = record item { roles = delete_key operator item.roles }

-- ctx import
unfoldable pub import_policy : Text → Bool → Config → Result Context
unfolding get_key context_pre_change_policy
import_policy name force cfg = elim (get_key name cfg.contexts) [
  | none ↦ context_pre_change_policy cfg name
  | some item ↦
      if force
      then context_pre_change_policy cfg name
      else failed (usage_error "context already exists; use --force to overwrite")
]

unfoldable pub import_change : Text → Context → Config → Config
unfolding put_key
import_change name item cfg = record cfg { contexts = put_key name item cfg.contexts }

module _ (w : ControlWorld) where
  unfoldable pub ctx_use : Text → Bool → Config → Controlled
  unfolding use_policy use_change control_change
  ctx_use name granted cfg =
      control_change w w.opens (use_policy name) granted (use_change name) cfg

  unfoldable pub ctx_delete : Text → Bool → Config → Controlled
  unfolding existing_context delete_change control_change
  ctx_delete name granted cfg =
      control_change w w.opens (existing_context name) granted (delete_change name) cfg

  unfoldable pub run_ctx_role_set : Text → Text → Text → Bool → Config → Controlled
  unfolding is trim_space valid_role existing_context change_context assign_role control_change
  run_ctx_role_set name target_operator role granted cfg =
      if is (trim_space target_operator) ""
      then refused_change w cfg false (usage_error "--target-operator is required")
      else if not (valid_role w role)
      then refused_change w cfg false (usage_error "--role must be reader, writer, or admin")
      else control_change w w.opens (existing_context name) granted
          (change_context name (assign_role (trim_space target_operator) role)) cfg

  unfoldable pub run_ctx_role_unset : Text → Text → Bool → Config → Controlled
  unfolding is trim_space existing_context change_context revoke_role control_change
  run_ctx_role_unset name target_operator granted cfg =
      if is (trim_space target_operator) ""
      then refused_change w cfg false (usage_error "--target-operator is required")
      else control_change w w.opens (existing_context name) granted
          (change_context name (revoke_role (trim_space target_operator))) cfg

  unfoldable pub ctx_import : Text → Context → Bool → Bool → Config → Controlled
  unfolding import_policy import_change control_change
  ctx_import name item force granted cfg =
      control_change w w.opens (import_policy name force) granted (import_change name item) cfg
