-- ===== src/Utils/Batch/Tallied.antt =====
-- What the calls of a batch (`SlowStartBatch` of upstream/slurm-operator/internal/utils/tools.go)
-- come to where each of them counts what it creates.
use mathlib.Core.List.{Perm}
use slinky_on_openshift.Prelude.{
  ℕ, suc, ◌+◌, ◌≤◌, ◌<◌, ◌≡◌, refl, ◌⊎◌, inl, inr, Option, none, some, List, [], ◌∷◌, arith, length,
  All, All-lt_of_perm,
}
use slinky_on_openshift.Prelude.Int.{ℤ}
use slinky_on_openshift.Exec.{Error, Result, ok, err, M}
use slinky_on_openshift.Utils.Batch.{Tally, run_batch, slow_start_batch}
use slinky_on_openshift.Utils.Batch.Attempts.{slow_start_batch-Attempted}

-- Calls that each count what they create and leave what is expected.
module _ {S : Type 0} (pending : S → ℤ) (created : S → ℕ) where
  abbrev pub Makes : M S (Unit {0}) → Type 0
  Makes m =
      (s : S)
      → (pending (m s).1 ≡ pending s)
        × ((((m s).0 ≡ ok tt) × (suc (created s) ≤ created (m s).1))
            ⊎ ((e : Error) × ((m s).0 ≡ err e) × (created s ≤ created (m s).1)))

  abbrev pub Tallied : ℕ → S → Result Tally × S → Type 0
  Tallied most s r =
      (t : ℕ) × (e : Option Error) × (r.0 ≡ ok (t, e))
      × (pending r.1 ≡ pending s)
      × (t + created s ≤ created r.1)
      × (t ≤ most)

  run_batch-Tallied :
      (fn : ℕ → M S (Unit {0})) (calls : List ℕ) (s : S)
      → All (λ i. Makes (fn i)) calls
      → Tallied (length calls) s (run_batch fn calls s)
  unfolding run_batch
  run_batch-Tallied fn [] s h = (0, none, refl, refl, omega arith, omega arith)
  run_batch-Tallied fn (i ∷ is) s h =
      let (t, e, res, same, more, most) = run_batch-Tallied fn is (fn i s).1 h.1 in
      let (kept, made) = h.0 s in
      elim made [
        | inl (fine, one) ↦ (
          suc t,
          e,
          ground (arith, fine, res),
          ground (arith, fine, same, kept),
          ground (arith, fine, more, one),
          omega (arith, most),
        )
        | inr (e', failed, few) ↦ (
          t,
          some e',
          ground (arith, failed, res),
          ground (arith, failed, same, kept),
          ground (arith, failed, more, few),
          omega (arith, most),
        )
      ]

  All-Makes :
      (fn : ℕ → M S (Unit {0})) (n : ℕ) (calls : List ℕ)
      → ((i : ℕ) → i < n → Makes (fn i))
      → All (λ i. i < n) calls
      → All (λ i. Makes (fn i)) calls
  All-Makes fn n [] h below = tt
  All-Makes fn n (i ∷ is) h below = (h i below.0, All-Makes fn n is h below.1)

  -- For every order of the goroutines, the batch returns a tally, and the calls that returned nil are
  -- among what was created.
  pub slow_start_batch-Tallied :
      (order : List ℕ → List ℕ) (fn : ℕ → M S (Unit {0})) (n : ℕ) (s : S)
      → ((l : List ℕ) → Perm (order l) l)
      → ((i : ℕ) → i < n → Makes (fn i))
      → Tallied n s (slow_start_batch order fn n 1 s)
  slow_start_batch-Tallied order fn n s perm makes =
      let a = slow_start_batch-Attempted fn order perm n 1 s (omega arith) in
      let below = All-lt_of_perm (length a.calls) a.calls a.indices in
      let (t, e, res, same, more, most) = run_batch-Tallied fn a.calls s (
        All-Makes fn (length a.calls) a.calls (λ i h. makes i (omega (arith, h, a.within)))
          below) in
      (
        t,
        e,
        ground (arith, a.result, res),
        ground (arith, a.result, res, same),
        ground (arith, a.result, res, more),
        omega (arith, most, a.within),
      )
