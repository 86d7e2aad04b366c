-- ===== src/Fanout/Ending.antt =====
-- That the workers come to an end: no schedule is longer than two steps per target, and none gets
-- stuck before every target has its result.
use srvgov_cli.Prelude.{
  ℕ, suc, ◌+◌, ◌*◌, ◌≤◌, ◌≡◌, List, [], ◌∷◌, ◌++◌, arith, length, length-append,
}
use srvgov_cli.Fanout.{
  Target, Result, result_of, Channels, state, Step, taken, finished, Schedule, stop, next, workers,
}

workers-ge : (concurrency n : ℕ) → 1 ≤ n → 1 ≤ workers concurrency n
unfolding workers
workers-ge concurrency n h = ground arith

module _ {ℓ κ} {T : Type ℓ} {R : Type κ} where
  abbrev pub left : Channels T R → ℕ
  left s = 2 * length s.jobs + length s.running

  unfoldable pub steps :
      {limit : ℕ} {run : Target T → R} {s u : Channels T R} → Schedule limit run s u → ℕ
  steps stop = 0
  steps (next a b) = suc (steps b)

  step_left :
      (limit : ℕ) (run : Target T → R) {s u : Channels T R}
      → Step limit run s u
      → left s ≡ suc (left u)
  step_left limit run (taken t jobs running results h) = omega arith
  step_left limit run (finished t before after jobs results) =
      omega (arith, length-append before (t ∷ after), length-append before after)

  -- The steps of a schedule and what is left behind it add up to what was left before it, where a
  -- target that is not taken counts 2 and one that is run counts 1: no schedule goes on for ever.
  pub schedule-steps :
      (limit : ℕ) (run : Target T → R) {s u : Channels T R} (h : Schedule limit run s u)
      → steps h + left u ≡ left s
  unfolding steps
  schedule-steps limit run stop = omega arith
  schedule-steps limit run (next a b) =
      omega (arith, step_left limit run a, schedule-steps limit run b)

  -- Some schedule from here leaves nothing to do.
  abbrev pub Ends : ℕ → (Target T → R) → Channels T R → Type (ℓ ⊔ κ)
  Ends limit run s = (results : List (Result R)) × Schedule limit run s (state [] [] results)

  idle-Ends :
      (limit : ℕ) (run : Target T → R) (jobs : List (Target T)) (results : List (Result R))
      → 1 ≤ limit
      → Ends limit run (state jobs [] results)
  idle-Ends limit run [] results h = (results, stop)
  idle-Ends limit run (t ∷ jobs) results h =
      let (final, rest) = idle-Ends limit run jobs (results ++ result_of run t ∷ []) h in
      (
        final,
        next (taken t jobs [] results (omega arith)) (next (finished t [] [] jobs results) rest),
      )

  running-Ends :
      (limit : ℕ) (run : Target T → R) (jobs running : List (Target T)) (results : List (Result R))
      → 1 ≤ limit
      → Ends limit run (state jobs running results)
  running-Ends limit run jobs [] results h = idle-Ends limit run jobs results h
  running-Ends limit run jobs (t ∷ running) results h =
      let (final, rest) = running-Ends limit run jobs running (results ++ result_of run t ∷ []) h in
      (final, next (finished t [] running jobs results) rest)

  -- With the number of workers that the source starts for one target or more, a run can go on from
  -- wherever it stands until nothing is left: the workers do not block one another.
  pub schedule-Ends :
      (concurrency : ℕ) (run : Target T → R) (t : Target T) (targets : List (Target T))
      (s : Channels T R)
      → Ends (workers concurrency (length (t ∷ targets))) run s
  schedule-Ends concurrency run t targets s =
      running-Ends (workers concurrency (length (t ∷ targets))) run s.jobs s.running s.results
        (workers-ge concurrency (length (t ∷ targets)) (omega arith))
