-- ===== src/Contexts/Control/Governed.antt =====
-- No control change without its policy, its authorization and its intent.
use srvgov_cli.Prelude.{
  ◌≡◌, refl, ◌⊎◌, inl, inr, Bool, true, false, Option, none, some, Bool-cases, Option-cases,
}
use srvgov_cli.Contexts.{Context, Config, ContextError, Result, failed, returned}
use srvgov_cli.Contexts.Control.{
  Commit, committed, committed_with, not_committed, ControlWorld, control_mutation_outcome,
  Controlled, commit_change, valid_roles, authorize_control_change, audited_change,
  authorized_change, policy_change, control_change,
}

-- Everything that a change needs has been given, for the policy that decides on it.
pub record IsAuthorized (w : ControlWorld) (policy : Context) (granted : Bool) : Type 0 where
  pub operator : w.trusted_operator ≡ none
  pub roles : valid_roles w policy.roles ≡ true
  pub authorized : w.safety_authorize policy granted ≡ none
  pub intent : w.begin_audit policy ≡ none

-- The end of a control change.
pub data Governed (w : ControlWorld) (policy : Config → Result Context) (granted : Bool)
    (change : Config → Config) (cfg : Config) (end : Controlled) : Type 0 where
  refused :
      (e : ContextError)
      → end.outcome ≡ none
      → end.error ≡ some e
      → end.config ≡ cfg
      → Governed w policy granted change cfg end
  changed :
      (p : Context)
      → policy cfg ≡ returned p
      → IsAuthorized w p granted
      → end.outcome ≡ some (control_mutation_outcome none)
      → end.config ≡ change cfg
      → Governed w policy granted change cfg end
  lost :
      (p : Context) (e : ContextError)
      → policy cfg ≡ returned p
      → IsAuthorized w p granted
      → end.outcome ≡ some (control_mutation_outcome (some e))
      → (end.config ≡ cfg) ⊎ (end.config ≡ change cfg)
      → Governed w policy granted change cfg end

module _ (w : ControlWorld) (policy : Config → Result Context) (granted : Bool)
    (change : Config → Config) (cfg : Config) where
  authorize_control_change-none :
      (p : Context)
      → (authorize_control_change w p granted).0 ≡ none
      → (w.trusted_operator ≡ none)
        × (valid_roles w p.roles ≡ true)
        × (w.safety_authorize p granted ≡ none)
  unfolding authorize_control_change
  authorize_control_change-none p h = elim (Option-cases w.trusted_operator) [
    | inr (x, e) ↦ absurd (let k = rw (e, authorize_control_change) at h in cc)
    | inl e ↦ elim (Bool-cases (valid_roles w p.roles)) [
      | inr f ↦ absurd (let k = rw (e, f, authorize_control_change) at h in cc)
      | inl f ↦ elim (Option-cases (w.safety_authorize p granted)) [
        | inr (x, g) ↦ absurd (let k = rw (e, f, g, authorize_control_change) at h in cc)
        | inl g ↦ (e, f, g)
      ]
    ]
  ]

  behind_commit-Governed :
      (c : Commit) (p : Context)
      → policy cfg ≡ returned p
      → IsAuthorized w p granted
      → Governed w policy granted change cfg (record {
        denied = false;
        config = (commit_change c cfg (change cfg)).0;
        outcome = some (control_mutation_outcome (commit_change c cfg (change cfg)).1);
        error =
            w.finish_audit
              (control_mutation_outcome (commit_change c cfg (change cfg)).1)
              (commit_change c cfg (change cfg)).1;
      })
  unfolding commit_change
  behind_commit-Governed committed p e a = changed p e a refl refl
  behind_commit-Governed (committed_with x) p e a = lost p x e a refl (inr refl)
  behind_commit-Governed (not_committed x) p e a = lost p x e a refl (inl refl)

  audited_change-Governed :
      (o : Option ContextError) (p : Context)
      → policy cfg ≡ returned p
      → w.begin_audit p ≡ o
      → (authorize_control_change w p granted).0 ≡ none
      → Governed w policy granted change cfg (audited_change w o change cfg)
  unfolding audited_change
  audited_change-Governed (some x) p e b h = refused x refl refl refl
  audited_change-Governed none p e b h =
      let given = authorize_control_change-none p h in
      behind_commit-Governed w.commit p e
        (record { operator = given.0; roles = given.1; authorized = given.2; intent = b })

  authorized_change-Governed :
      (o : Option ContextError) (denied : Bool) (p : Context)
      → policy cfg ≡ returned p
      → (authorize_control_change w p granted).0 ≡ o
      → Governed w policy granted change cfg (authorized_change w p (o, denied) change cfg)
  unfolding authorized_change
  authorized_change-Governed (some x) denied p e h = refused x refl refl refl
  authorized_change-Governed none denied p e h =
      audited_change-Governed (w.begin_audit p) p e refl h

  policy_change-Governed :
      (r : Result Context)
      → policy cfg ≡ r
      → Governed w policy granted change cfg (policy_change w r granted change cfg)
  unfolding policy_change
  policy_change-Governed (failed x) e = refused x refl refl refl
  policy_change-Governed (returned p) e =
      authorized_change-Governed (authorize_control_change w p granted).0
        (authorize_control_change w p granted).1 p e refl

  -- Whatever the world answers, a control change is refused with an error, without an outcome and
  -- with the contexts as they were; or its policy decides on it, the operator is trusted, the
  -- roles of the policy are valid, the authorization succeeds and the intent is persisted: then
  -- the contexts are the changed ones and the outcome is a success, or the update reported an
  -- error, the contexts are the old or the changed ones, and the outcome is a failure.
  pub control_change-Governed :
      (o : Option ContextError)
      → Governed w policy granted change cfg (control_change w o policy granted change cfg)
  unfolding control_change
  control_change-Governed (some x) = refused x refl refl refl
  control_change-Governed none = policy_change-Governed (policy cfg) refl
