-- ===== src/Fanout.antt =====
-- `Run` of internal/fanout/fanout.go: workers take targets from a channel and send results to one.
pub mod Schedules
pub mod Ending
pub mod Selectors
pub mod Outcomes
pub mod Batch
pub mod Loading
use srvgov_cli.Prelude.{
  ◌/◌, ◌%◌, ℕ, zero, suc, ◌+◌, ◌-◌, ◌*◌, ◌≤◌, ◌<◌, String, ◌≡◌, refl, sym, ap, ◌∙◌, ◌≢◌, ◌↔◌, ◌⊎◌,
  inl, inr, Bool, true, false, not, ◌&&◌, ◌||◌, Option, none, some, List, [], ◌∷◌, ◌++◌, map,
  append-nil, append_assoc, arith, ltb, leb, ◌==◌, if◌then◌else◌, ==_iff, Bool-cases, or_resolve,
  Option-cases, ◌>>=◌, >>=-eq-some, length, take, any, all, length-append, any-append, All,
  All-append, All-map, All-of, IfSome, split_if, IfSome-eq, holds_below, holds_below-at,
}
use srvgov_cli.GoText.{Text}

pub record Target {ℓ} (T : Type ℓ) : Type ℓ where
  pub name : Text
  pub host : Text
  pub value : T

-- What `run` returns for a target, under the target's name and host.
pub record Result {ℓ} (R : Type ℓ) : Type ℓ where
  pub target : Text
  pub host : Text
  pub data_and_error : R

unfoldable pub result_of {ℓ κ} : {T : Type ℓ} {R : Type κ} → (Target T → R) → Target T → Result R
result_of run t = record { target = t.name; host = t.host; data_and_error = run t }

-- The number of workers, where there is a target.
unfoldable pub workers : ℕ → ℕ → ℕ
workers concurrency targets =
    let at_least = if ltb concurrency 1 then 1 else concurrency in
    if ltb targets at_least then targets else at_least

-- The targets that no worker has taken, those that a worker runs, and the results, in the order in
-- which they arrive.
pub record Channels {ℓ κ} (T : Type ℓ) (R : Type κ) : Type (ℓ ⊔ κ) where
  pub jobs : List (Target T)
  pub running : List (Target T)
  pub results : List (Result R)

module _ {ℓ κ} {T : Type ℓ} {R : Type κ} where
  abbrev pub state : List (Target T) → List (Target T) → List (Result R) → Channels T R
  state jobs running results = record { jobs = jobs; running = running; results = results }

  -- A worker that is free takes the next target; a worker is done with its own, in any order.
  pub data Step (limit : ℕ) (run : Target T → R) : Channels T R → Channels T R → Type (ℓ ⊔ κ) where
    taken :
        (t : Target T) (jobs running : List (Target T)) (results : List (Result R))
        → length running < limit
        → Step limit run (state (t ∷ jobs) running results) (state jobs (t ∷ running) results)
    finished :
        (t : Target T) (before after jobs : List (Target T)) (results : List (Result R))
        → Step limit run
            (state jobs (before ++ t ∷ after) results)
            (state jobs (before ++ after) (results ++ result_of run t ∷ []))

  pub data Schedule (limit : ℕ) (run : Target T → R)
      : Channels T R → Channels T R → Type (ℓ ⊔ κ) where
    stop : {s : Channels T R} → Schedule limit run s s
    next :
        {s u v : Channels T R}
        → Step limit run s u
        → Schedule limit run u v
        → Schedule limit run s v
