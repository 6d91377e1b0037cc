-- ===== src/Utils/Batch/Complete.antt =====
-- A batch (`SlowStartBatch` of upstream/slurm-operator/internal/utils/tools.go) whose calls all
-- return nil.
use mathlib.Core.List.{Perm}
use mathlib.Core.List.Perm
use mathlib.Core.Path.{subst}
use slinky_on_openshift.Prelude.{
  ℕ, ◌-◌, ◌<◌, ◌≤◌, ◌≡◌, refl, ap, ◌∙◌, none, List, [], ◌∷◌, ◌++◌, arith, length, range, All,
  All-lt_of_perm,
}
use slinky_on_openshift.Exec.{Result, ok, err, panic, M}
use slinky_on_openshift.Utils.Batch.{Tally, add, run_batch, slow_start_batch}
use slinky_on_openshift.Utils.Batch.Attempts.{range-append, slow_start_batch-Attempted}

add-state : {S : Type 0} (n : ℕ) (r : Result Tally × S) → (add n r).1 ≡ r.1
add-state n (ok (m, e), s) = refl
add-state n (err e, s) = refl
add-state n (panic, s) = refl

All-below : (m n : ℕ) (is : List ℕ) → m ≤ n → All (λ i. i < m) is → All (λ i. i < n) is
All-below m n [] h all = tt
All-below m n (i ∷ is) h all = (omega (arith, all.0), All-below m n is h all.1)

-- What holds of the state while some calls are to be made, in whichever order they are listed.
module _ {ℓ} {S : Type 0} (fn : ℕ → M S (Unit {0})) (n : ℕ) (P : List ℕ → S → Type ℓ) where
  -- each of the first calls returns nil and leaves what holds for the others
  abbrev pub Leads : Type ℓ
  Leads =
      (i : ℕ) (rest : List ℕ) (s : S)
      → i < n
      → P (i ∷ rest) s
      → ((fn i s).0 ≡ ok tt) × P rest (fn i s).1

  run_batch-Leads :
      Leads
      → (calls rest : List ℕ) (s : S) → All (λ i. i < n) calls
      → P (calls ++ rest) s
      → ((run_batch fn calls s).0 ≡ ok (length calls, none)) × P rest (run_batch fn calls s).1
  unfolding run_batch
  run_batch-Leads leads [] rest s below h = (refl, h)
  run_batch-Leads leads (i ∷ is) rest s below h =
      let (fine, h') = leads i (is ++ rest) s below.0 h in
      let (all, h'') = run_batch-Leads leads is rest (fn i s).1 below.1 h' in
      (
        ground (arith, fine, all),
        rw (run_batch, fine) (rw (add-state 1 (run_batch fn is (fn i s).1)) h''),
      )

  -- For every order of the goroutines: every call is made and returns nil.
  pub slow_start_batch-Leads :
      (order : List ℕ → List ℕ) (s : S)
      → ((l : List ℕ) → Perm (order l) l)
      → ((a b : List ℕ) (s : S) → Perm a b → P a s → P b s)
      → Leads
      → P (range 0 n) s
      → let p = slow_start_batch order fn n 1 s in (p.0 ≡ ok (n, none)) × P [] p.1
  slow_start_batch-Leads order s perm P-perm leads h =
      let a = slow_start_batch-Attempted fn order perm n 1 s (omega arith) in
      let m = length a.calls in
      let rest = range m (n - m) in
      let below = All-lt_of_perm m a.calls a.indices in
      let split : range 0 m ++ rest ≡ range 0 n =
        range-append m (n - m) 0 m (omega arith) ∙ ap (range 0) (omega (arith, a.within)) in
      let held : P (a.calls ++ rest) s =
        P-perm (range 0 n) (a.calls ++ rest) s
          (Perm.symm
            (subst (λ l. Perm (a.calls ++ rest) l) split (Perm.append_right rest a.indices)))
          h in
      let (all, led) =
        run_batch-Leads leads a.calls rest s (All-below m n a.calls a.within below) held in
      let count : m ≡ n = a.complete m all in
      let none_left : rest ≡ [] = ap (range m) {y = 0} (omega (arith, count)) in
      rw a.result (
        ground (arith, all, count),
        rw (add-state 0 (run_batch fn a.calls s))
            (subst (λ l. P l (run_batch fn a.calls s).1) none_left led),
      )

-- Calls that return nil and each keep what holds of the state.
module _ {ℓ} {S : Type 0} (P : S → Type ℓ) where
  abbrev pub Keeps : M S (Unit {0}) → Type ℓ
  Keeps m = (s : S) → P s → ((m s).0 ≡ ok tt) × P (m s).1

  pub slow_start_batch-Keeps :
      (order : List ℕ → List ℕ) (fn : ℕ → M S (Unit {0})) (n : ℕ) (s : S)
      → ((l : List ℕ) → Perm (order l) l)
      → ((i : ℕ) → i < n → Keeps (fn i))
      → P s
      → let p = slow_start_batch order fn n 1 s in (p.0 ≡ ok (n, none)) × P p.1
  slow_start_batch-Keeps order fn n s perm keeps =
      slow_start_batch-Leads fn n (λ calls s'. P s') order s perm (λ a b s' p h. h)
        (λ i rest s' below h. keeps i below s' h)
