-- ===== src/Utils/Batch.antt =====
-- `SlowStartBatch` of upstream/slurm-operator/internal/utils/tools.go.
-- The goroutines of one batch run in the order that the scheduler chooses: `order` lists the
-- indices of a batch as their calls take place, each call as one step.
pub mod Attempts
pub mod Tallied
pub mod Complete
use slinky_on_openshift.Prelude.{
  ℕ, zero, suc, ◌+◌, ◌-◌, ◌*◌, min, Option, none, some, List, [], ◌∷◌, range,
}
use slinky_on_openshift.Exec.{Error, Result, ok, err, panic, M, pure, ◌>>=◌}

-- What the calls of a batch come to: how many returned nil, and the first error in the channel.
abbrev pub Tally : Type 0
Tally = ℕ × Option Error

module _ {S : Type 0} where
  -- `successes += n`, and an earlier error stands before a later one
  abbrev pub add : ℕ → Result Tally × S → Result Tally × S
  add n (ok (m, e), s) = (ok (n + m, e), s)
  add n (err e, s) = (err e, s)
  add n (panic, s) = (panic, s)

  abbrev pub first_error : Error → Result Tally × S → Result Tally × S
  first_error e (ok (m, _), s) = (ok (m, some e), s)
  first_error e (err e', s) = (err e', s)
  first_error e (panic, s) = (panic, s)

  -- every goroutine of the batch runs to its end, also behind one that failed
  unfoldable pub run_batch : (ℕ → M S (Unit {0})) → List ℕ → M S Tally
  run_batch fn [] s = (ok (0, none), s)
  run_batch fn (i ∷ is) s = elim (fn i s).0 [
    | ok _ ↦ add 1 (run_batch fn is (fn i s).1)
    | err e ↦ first_error e (run_batch fn is (fn i s).1)
    | panic ↦ (panic, (fn i s).1)
  ]

  module _ (order : List ℕ → List ℕ) (fn : ℕ → M S (Unit {0})) where
    -- the `for` loop, with fuel for its rounds: each round takes at least one off `remaining`
    unfoldable pub slow_start_loop : (fuel batch_size remaining index successes : ℕ) → M S Tally
    slow_start_loop zero batch_size remaining index successes = pure (successes, none)
    slow_start_loop (suc fuel) zero remaining index successes = pure (successes, none)
    slow_start_loop (suc fuel) (suc b) remaining index successes = do
      (cur_successes, e) ← run_batch fn (order (range index (suc b)))
      elim e [
        | some e ↦ pure (successes + cur_successes, some e)
        | none ↦
            slow_start_loop fuel (min (2 * suc b) (remaining - suc b)) (remaining - suc b)
              (index + suc b) (successes + cur_successes)
      ]

    unfoldable pub slow_start_batch : (count initial_batch_size : ℕ) → M S Tally
    unfolding slow_start_loop run_batch
    slow_start_batch count initial_batch_size =
        slow_start_loop count (min count initial_batch_size) count 0 0
