-- ===== src/Fanout/Schedules.antt =====
-- What every schedule of the workers has in common.
use srvgov_cli.Prelude.{
  ℕ, ◌+◌, ◌≤◌, ◌≡◌, refl, ap, ◌∙◌, Bool, List, [], ◌∷◌, ◌++◌, map, arith, if◌then◌else◌, length,
  length-append,
}
use srvgov_cli.Fanout.{
  Target, Result, result_of, Channels, state, Step, taken, finished, Schedule, stop, next,
}

unfoldable pub count {ℓ} : {A : Type ℓ} → (A → Bool) → List A → ℕ
count p [] = 0
count p (x ∷ xs) = (if p x then 1 else 0) + count p xs

count-append {ℓ} :
    {A : Type ℓ} (p : A → Bool) (xs ys : List A) → count p (xs ++ ys) ≡ count p xs + count p ys
unfolding count
count-append p [] ys = omega arith
count-append p (x ∷ xs) ys = omega (arith, count-append p xs ys)

map-append_lem {ℓ κ} :
    {A : Type ℓ} {B : Type κ} (f : A → B) (xs ys : List A) → map f (xs ++ ys) ≡ map f xs ++ map f ys
map-append_lem f [] ys = refl
map-append_lem f (x ∷ xs) ys = ap (λ r. f x ∷ r) (map-append_lem f xs ys)

module _ {ℓ κ} {T : Type ℓ} {R : Type κ} where
  -- How many results with a property there are, once everything has run.
  abbrev total : (Target T → R) → (Result R → Bool) → Channels T R → ℕ
  total run p s =
      count p (map (result_of run) s.jobs)
      + count p (map (result_of run) s.running)
      + count p s.results

  step-total :
      (limit : ℕ) (run : Target T → R) (p : Result R → Bool) {s u : Channels T R}
      → Step limit run s u
      → total run p s ≡ total run p u
  unfolding count
  step-total limit run p (taken t jobs running results h) = omega arith
  step-total limit run p (finished t before after jobs results) =
      rw (map-append_lem, map-append_lem)
        (omega (
          arith,
          count-append p (map (result_of run) before) (result_of run t ∷ map (result_of run) after),
          count-append p (map (result_of run) before) (map (result_of run) after),
          count-append p results (result_of run t ∷ []),
        ))

  schedule-total :
      (limit : ℕ) (run : Target T → R) (p : Result R → Bool) {s u : Channels T R}
      → Schedule limit run s u
      → total run p s ≡ total run p u
  schedule-total limit run p stop = refl
  schedule-total limit run p (next a b) = step-total limit run p a ∙ schedule-total limit run p b

  -- Whatever the order in which the workers end, the results that have arrived when nothing is left
  -- are, up to their order, those of running each target once.
  pub schedule-results :
      (limit : ℕ) (run : Target T → R) (targets : List (Target T)) (results : List (Result R))
      → Schedule limit run (state targets [] []) (state [] [] results)
      → (p : Result R → Bool) → count p results ≡ count p (map (result_of run) targets)
  unfolding count
  schedule-results limit run targets results h p = omega (arith, schedule-total limit run p h)

  step_bounded :
      (limit : ℕ) (run : Target T → R) {s u : Channels T R}
      → Step limit run s u
      → length s.running ≤ limit
      → length u.running ≤ limit
  step_bounded limit run (taken t jobs running results h) b = omega arith
  step_bounded limit run (finished t before after jobs results) b =
      omega (arith, length-append before (t ∷ after), length-append before after)

  -- At no time do more workers run than the limit allows.
  pub schedule_bounded :
      (limit : ℕ) (run : Target T → R) {s u : Channels T R}
      → Schedule limit run s u
      → length s.running ≤ limit
      → length u.running ≤ limit
  schedule_bounded limit run stop b = b
  schedule_bounded limit run (next a c) b =
      schedule_bounded limit run c (step_bounded limit run a b)
