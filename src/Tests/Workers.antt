-- ===== src/Tests/Workers.antt =====
-- The theorems of the fan-out at two targets and two workers, the second of which ends first.
use srvgov_cli.Prelude.{
  ℕ, ◌+◌, String, ◌≡◌, refl, Bool, true, some, List, [], ◌∷◌, map, arith, ◌==◌,
}
use srvgov_cli.GoText.{codes}
use srvgov_cli.Fanout.{
  Target, Result, result_of, Channels, state, taken, finished, Schedule, stop, next, workers,
}
use srvgov_cli.Fanout.Schedules.{count, schedule-results}
use srvgov_cli.Fanout.Selectors.{Pairs, parse_selector, labels_match}
use srvgov_cli.Fanout.Ending.{left, steps, schedule-steps, Ends, schedule-Ends}

abbrev target : String → ℕ → Target ℕ
target name value = record { name = codes name; host = codes name; value = value }

abbrev increment : Target ℕ → ℕ
increment t = t.value + 1

abbrev targets : List (Target ℕ)
targets = target "a" 1 ∷ target "b" 2 ∷ []

abbrev arrived : List (Result ℕ)
arrived = result_of increment (target "b" 2) ∷ result_of increment (target "a" 1) ∷ []

crossed : Schedule 2 increment (state targets [] []) (state [] [] arrived)
crossed = next (taken (target "a" 1) (target "b" 2 ∷ []) [] [] (omega arith)) (
    next (taken (target "b" 2) [] (target "a" 1 ∷ []) [] (omega arith)) (
      next (finished (target "b" 2) [] (target "a" 1 ∷ []) [] [])
        (next (finished (target "a" 1) [] [] [] (result_of increment (target "b" 2) ∷ [])) stop)))

abbrev is_three : Result ℕ → Bool
is_three r = r.data_and_error == 3

schedule-results_example :
    count is_three arrived ≡ count is_three (map (result_of increment) targets)
schedule-results_example = schedule-results 2 increment targets arrived crossed is_three

abbrev fresh : Channels ℕ ℕ
fresh = state targets [] []

abbrev done : Channels ℕ ℕ
done = state [] [] arrived

schedule-steps_example : steps crossed + left done ≡ left fresh
schedule-steps_example = schedule-steps 2 increment crossed

schedule-Ends_example :
    Ends (workers 5 2) increment (state (target "b" 2 ∷ []) (target "a" 1 ∷ []) [])
schedule-Ends_example =
    schedule-Ends 5 increment (target "a" 1) (target "b" 2 ∷ [])
      (state (target "b" 2 ∷ []) (target "a" 1 ∷ []) [])

abbrev web_labels : Pairs
web_labels = (codes "role", codes "web") ∷ (codes "env", codes "prod") ∷ []

abbrev web_selector : Pairs
web_selector = (codes "env", codes "prod") ∷ (codes "role", codes "web") ∷ []

web_parsed : parse_selector (codes "env=prod, role = web") ≡ some web_selector
unfolding parse_selector
web_parsed = refl

web_match : labels_match web_labels web_selector ≡ true
unfolding labels_match
web_match = refl
