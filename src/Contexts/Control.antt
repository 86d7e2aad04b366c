-- ===== src/Contexts/Control.antt =====
-- The control changes of cmd/control.go: the policy that decides on a change, its authorization, and the
-- transaction of a change with its audit, which the commands of cmd/ctx.go, cmd/ctx_role.go and
-- cmd/ctx_portable.go share. What is outside answers in ControlWorld.
pub mod Governed
use srvgov_cli.Prelude.{
  ◌/◌, ◌%◌, ℕ, zero, suc, ◌+◌, ◌-◌, ◌*◌, ◌≤◌, ◌<◌, String, ◌≡◌, refl, sym, ap, ◌∙◌, ◌≢◌, ◌↔◌, ◌⊎◌,
  inl, inr, Bool, true, false, not, ◌&&◌, ◌||◌, Option, none, some, List, [], ◌∷◌, ◌++◌, map,
  append-nil, append_assoc, arith, ltb, leb, ◌==◌, if◌then◌else◌, ==_iff, Bool-cases, or_resolve,
  Option-cases, ◌>>=◌, >>=-eq-some, length, take, any, all, length-append, any-append, All,
  All-append, All-map, All-of, IfSome, split_if, IfSome-eq, holds_below, holds_below-at, ℤ, pos,
  negsuc, is_negative, clamp, is_positive,
}
use srvgov_cli.GoText.{Text, codes, is, equal, Map, get_key}
use srvgov_cli.Audit.Events.{MutationOutcome}
use srvgov_cli.Spool.Records.{no_outcome}
use srvgov_cli.Contexts.{
  Context, zero_context, Config, ContextError, usage_error, validation_failed,
  authorization_required, Result, failed, returned,
}

-- How the file of the contexts is replaced: not at all, with an error behind the replacement, or well.
pub data Commit : Type 0 where
  committed : Commit
  committed_with not_committed : ContextError → Commit

-- `contextPreChangePolicy`
unfoldable pub current_policy : Config → Result Context
unfolding is get_key
current_policy cfg =
    if is cfg.current_context ""
    then returned zero_context
    else elim (get_key cfg.current_context cfg.contexts) [
      | none ↦
          failed
            (validation_failed "current context does not exist; refusing bootstrap authorization")
      | some item ↦ returned item
    ]

unfoldable pub context_pre_change_policy : Config → Text → Result Context
unfolding get_key current_policy
context_pre_change_policy cfg target_name = elim (get_key target_name cfg.contexts) [
  | some item ↦ returned item
  | none ↦ current_policy cfg
]

-- contextUsePreChangePolicy
unfoldable pub context_use_pre_change_policy : Config → Context → Result Context
unfolding is get_key
context_use_pre_change_policy cfg target =
    if is cfg.current_context ""
    then returned target
    else elim (get_key cfg.current_context cfg.contexts) [
      | none ↦ failed (validation_failed "current context does not exist; refusing context switch")
      | some item ↦ returned item
    ]

-- The names of the roles and the authorization of the shared package safety, which is given the policy and
-- whether the flag of the change is granted; the operator; the audit; the lock and the file.
pub record ControlWorld : Type 0 where
  pub role_reader : Text
  pub role_writer : Text
  pub role_admin : Text
  pub trusted_operator : Option ContextError
  pub safety_authorize : Context → Bool → Option ContextError
  pub begin_audit : Context → Option ContextError
  pub opens : Option ContextError
  pub commit : Commit
  pub finish_audit : MutationOutcome → Option ContextError → Option ContextError

-- The outcome of finishControlMutationAudit.
unfoldable pub control_mutation_outcome : Option ContextError → MutationOutcome
control_mutation_outcome none = record no_outcome { status = codes "succeeded"; succeeded = pos 1 }
control_mutation_outcome (some e) = record no_outcome { status = codes "failed"; failed = pos 1 }

-- The outcome of finishUncertainControlMutationAudit.
unfoldable pub uncertain_control_outcome : MutationOutcome
uncertain_control_outcome = record no_outcome { status = codes "failed"; uncertain = pos 1 }

-- What a change comes to: whether a denial is emitted, the contexts, the outcome and the error.
pub record Controlled : Type 0 where
  pub denied : Bool
  pub config : Config
  pub outcome : Option MutationOutcome
  pub error : Option ContextError

-- The contexts and the error behind the update.
unfoldable pub commit_change : Commit → Config → Config → Config × Option ContextError
commit_change committed cfg new = (new, none)
commit_change (committed_with e) cfg new = (new, some e)
commit_change (not_committed e) cfg new = (cfg, some e)

module _ (w : ControlWorld) where
  -- validRole
  unfoldable pub valid_role : Text → Bool
  unfolding equal
  valid_role role = equal role w.role_reader || equal role w.role_writer || equal role w.role_admin

  unfoldable pub valid_roles : Map Text → Bool
  unfolding valid_role
  valid_roles [] = true
  valid_roles ((operator, role) ∷ roles) = valid_role role && valid_roles roles

  -- authorizeControlChange: its error, and whether a denial is emitted.
  unfoldable pub authorize_control_change : Context → Bool → Option ContextError × Bool
  unfolding valid_roles
  authorize_control_change policy granted = elim (w.trusted_operator) [
    | some e ↦ (some e, false)
    | none ↦
        if not (valid_roles policy.roles)
        then (some (authorization_required "context policy contains invalid role"), true)
        else elim (w.safety_authorize policy granted) [
          | some e ↦ (some e, true)
          | none ↦ (none, false)
        ]
  ]

  abbrev pub refused_change : Config → Bool → ContextError → Controlled
  refused_change cfg denied e = record {
    denied = denied;
    config = cfg;
    outcome = none;
    error = some e;
  }

  -- The change behind its intent.
  unfoldable pub audited_change : Option ContextError → (Config → Config) → Config → Controlled
  unfolding commit_change control_mutation_outcome
  audited_change (some e) change cfg = refused_change cfg false e
  audited_change none change cfg =
      let end : Config × Option ContextError = commit_change w.commit cfg (change cfg) in
      record {
        denied = false;
        config = end.0;
        outcome = some (control_mutation_outcome end.1);
        error = w.finish_audit (control_mutation_outcome end.1) end.1;
      }

  unfoldable pub authorized_change :
      Context → Option ContextError × Bool → (Config → Config) → Config → Controlled
  unfolding audited_change
  authorized_change policy (some e, denied) change cfg = refused_change cfg denied e
  authorized_change policy (none, denied) change cfg =
      audited_change (w.begin_audit policy) change cfg

  -- The callback of an update, for the policy that decides on it.
  unfoldable pub policy_change : Result Context → Bool → (Config → Config) → Config → Controlled
  unfolding authorized_change authorize_control_change
  policy_change (failed e) granted change cfg = refused_change cfg false e
  policy_change (returned policy) granted change cfg =
      authorized_change policy (authorize_control_change policy granted) change cfg

  -- The update and finishControlMutationAudit behind it.
  unfoldable pub control_change :
      Option ContextError
      → (Config → Result Context)
      → Bool
      → (Config → Config)
      → Config
      → Controlled
  unfolding policy_change
  control_change (some e) policy granted change cfg = refused_change cfg false e
  control_change none policy granted change cfg = policy_change (policy cfg) granted change cfg
