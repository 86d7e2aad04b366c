-- ===== src/Contexts/Commands/Current.antt =====
-- The current context is always one that is there, whatever commands run.
use srvgov_cli.Prelude.{
  ◌≡◌, refl, sym, ◌∙◌, ◌⊎◌, inl, inr, Bool, false, not, Option, none, some, List, [], ◌∷◌, arith,
  Bool-cases, Option-cases, split_if,
}
use mathlib.Core.Path.{subst}
use srvgov_cli.GoText.{
  Text, is, equal, equal_iff, trim_space, get_key, put_key, delete_key, get_key-put_key,
  get_key-delete_key,
}
use srvgov_cli.Contexts.{Context, Config, ContextError, Result, returned, >>=-eq-returned}
use srvgov_cli.Contexts.Control.{ControlWorld, valid_role, Controlled, control_change}
use srvgov_cli.Contexts.Control.Governed.{refused, changed, lost, control_change-Governed}
use srvgov_cli.Contexts.Commands.{
  existing_context, change_context, use_policy, use_change, delete_change, assign_role, revoke_role,
  import_policy, import_change, ctx_use, ctx_delete, run_ctx_role_set, run_ctx_role_unset,
  ctx_import,
}

-- A command with its arguments: whether its flag is granted stands last.
pub data Command : Type 0 where
  use_command delete_command : Text → Bool → Command
  role_set : Text → Text → Text → Bool → Command
  role_unset : Text → Text → Bool → Command
  import_command : Text → Context → Bool → Bool → Command

unfoldable pub run_command : ControlWorld → Command → Config → Controlled
unfolding ctx_use ctx_delete run_ctx_role_set run_ctx_role_unset ctx_import
run_command w (use_command name granted) cfg = ctx_use w name granted cfg
run_command w (delete_command name granted) cfg = ctx_delete w name granted cfg
run_command w (role_set name operator role granted) cfg =
    run_ctx_role_set w name operator role granted cfg
run_command w (role_unset name operator granted) cfg =
    run_ctx_role_unset w name operator granted cfg
run_command w (import_command name item force granted) cfg =
    ctx_import w name item force granted cfg

-- A sequence of commands, each in its own world.
unfoldable pub run_commands : List (ControlWorld × Command) → Config → Config
unfolding run_command
run_commands [] cfg = cfg
run_commands ((w, c) ∷ cs) cfg = run_commands cs (run_command w c cfg).config

-- There is no current context, or it is one of the contexts.
abbrev pub HasCurrent : Config → Type 0
HasCurrent cfg =
    (cfg.current_context ≡ [])
    ⊎ ((item : Context) × (get_key cfg.current_context cfg.contexts ≡ some item))

-- A control change keeps what its change keeps, where its policy decides on it.
control_change-keeps :
    (P : Config → Type 0) (w : ControlWorld) (o : Option ContextError)
    (policy : Config → Result Context) (granted : Bool) (change : Config → Config) (cfg : Config)
    → P cfg
    → ((p : Context) → policy cfg ≡ returned p → P (change cfg))
    → P (control_change w o policy granted change cfg).config
control_change-keeps P w o policy granted change cfg h keep =
    elim (control_change-Governed w policy granted change cfg o) [
      | refused e n x same ↦ subst P (sym same) h
      | changed p e a out new ↦ subst P (sym new) (keep p e)
      | lost p x e a out (inl same) ↦ subst P (sym same) h
      | lost p x e a out (inr new) ↦ subst P (sym new) (keep p e)
    ]

existing_context-some :
    (name : Text) (cfg : Config) {p : Context}
    → existing_context name cfg ≡ returned p
    → get_key name cfg.contexts ≡ some p
unfolding existing_context
existing_context-some name cfg h = elim (Option-cases (get_key name cfg.contexts)) [
  | inl e ↦ absurd (let k = rw (e, existing_context) at h in cc)
  | inr (x, e) ↦ (let k = rw (e, existing_context) at h in cc)
]

put_key-HasCurrent :
    (name : Text) (item : Context) (cfg : Config)
    → HasCurrent cfg
    → HasCurrent (record cfg { contexts = put_key name item cfg.contexts })
put_key-HasCurrent name item cfg (inl e) = inl e
put_key-HasCurrent name item cfg (inr (x, e)) =
    let law = get_key-put_key cfg.current_context name item cfg.contexts in
    elim (Bool-cases (equal name cfg.current_context)) [
      | inl q ↦ inr (item, law ∙ rw q refl)
      | inr q ↦ inr (x, law ∙ rw q e)
    ]

still_there :
    (name : Text) (cfg : Config)
    → equal cfg.current_context name ≡ false
    → HasCurrent cfg
    → HasCurrent (record cfg { contexts = delete_key name cfg.contexts })
still_there name cfg q (inl e) = inl e
still_there name cfg q (inr (x, e)) =
    let other : equal name cfg.current_context ≡ false =
      ground (arith, equal_iff name cfg.current_context, equal_iff cfg.current_context name) in
    inr (x, get_key-delete_key cfg.current_context name cfg.contexts ∙ rw other e)

delete_change-HasCurrent :
    (name : Text) (cfg : Config) → HasCurrent cfg → HasCurrent (delete_change name cfg)
unfolding delete_change
delete_change-HasCurrent name cfg h = elim (Bool-cases (equal cfg.current_context name)) [
  | inl q ↦ rw q (inl refl)
  | inr q ↦ rw q (still_there name cfg q h)
]

change_context-missing :
    (name : Text) (f : Context → Context) (cfg : Config)
    → get_key name cfg.contexts ≡ none
    → change_context name f cfg ≡ cfg
unfolding change_context
change_context-missing name f cfg e = rw (e, change_context)

change_context-found :
    (name : Text) (f : Context → Context) (cfg : Config) (x : Context)
    → get_key name cfg.contexts ≡ some x
    → change_context name f cfg ≡ record cfg { contexts = put_key name (f x) cfg.contexts }
unfolding change_context
change_context-found name f cfg x e = rw (e, change_context)

use_policy-some :
    (name : Text) (cfg : Config) {p : Context}
    → use_policy name cfg ≡ returned p
    → (item : Context) × (get_key name cfg.contexts ≡ some item)
unfolding use_policy
use_policy-some name cfg h =
    let (item, e, rest) = >>=-eq-returned (existing_context name cfg) _ h in
    (item, existing_context-some name cfg e)

change_context-HasCurrent :
    (name : Text) (f : Context → Context) (cfg : Config)
    → HasCurrent cfg
    → HasCurrent (change_context name f cfg)
unfolding change_context
change_context-HasCurrent name f cfg h = elim (Option-cases (get_key name cfg.contexts)) [
  | inl e ↦ subst HasCurrent (sym (change_context-missing name f cfg e)) h
  | inr (x, e) ↦
      subst HasCurrent (sym (change_context-found name f cfg x e))
        (put_key-HasCurrent name (f x) cfg h)
]

run_command-HasCurrent :
    (w : ControlWorld) (c : Command) (cfg : Config)
    → HasCurrent cfg
    → HasCurrent (run_command w c cfg).config
unfolding run_command ctx_use ctx_delete run_ctx_role_set run_ctx_role_unset ctx_import use_change
    import_change
run_command-HasCurrent w (use_command name granted) cfg h =
    control_change-keeps HasCurrent w w.opens (use_policy name) granted (use_change name) cfg h
      λ p e. inr (use_policy-some name cfg e)
run_command-HasCurrent w (delete_command name granted) cfg h =
    control_change-keeps HasCurrent w w.opens (existing_context name) granted (delete_change name)
      cfg h λ p e. delete_change-HasCurrent name cfg h
run_command-HasCurrent w (role_set name operator role granted) cfg h =
    let change = change_context name (assign_role (trim_space operator) role) in
    split_if (λ (r : Controlled). HasCurrent r.config) (is (trim_space operator) "") (λ _. h)
      λ _.
        split_if (λ (r : Controlled). HasCurrent r.config) (not (valid_role w role)) (λ _. h)
          λ _.
            control_change-keeps HasCurrent w w.opens (existing_context name) granted change cfg h
              λ p e. change_context-HasCurrent name (assign_role (trim_space operator) role) cfg h
run_command-HasCurrent w (role_unset name operator granted) cfg h =
    let change = change_context name (revoke_role (trim_space operator)) in
    split_if (λ (r : Controlled). HasCurrent r.config) (is (trim_space operator) "") (λ _. h)
      λ _.
        control_change-keeps HasCurrent w w.opens (existing_context name) granted change cfg h
          λ p e. change_context-HasCurrent name (revoke_role (trim_space operator)) cfg h
run_command-HasCurrent w (import_command name item force granted) cfg h =
    control_change-keeps HasCurrent w w.opens (import_policy name force) granted
      (import_change name item) cfg h λ p e. put_key-HasCurrent name item cfg h

-- Where there is no current context, or it is one of the contexts, this holds behind any sequence
-- of ctx use, ctx delete, ctx role set, ctx role unset and ctx import, whatever the world answers
-- to each.
pub run_commands-HasCurrent :
    (cs : List (ControlWorld × Command)) (cfg : Config)
    → HasCurrent cfg
    → HasCurrent (run_commands cs cfg)
unfolding run_commands
run_commands-HasCurrent [] cfg h = h
run_commands-HasCurrent ((w, c) ∷ cs) cfg h =
    run_commands-HasCurrent cs (run_command w c cfg).config (run_command-HasCurrent w c cfg h)
