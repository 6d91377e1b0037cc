-- ===== src/Utils/Batch/Attempts.antt =====
-- Which calls `SlowStartBatch` of upstream/slurm-operator/internal/utils/tools.go makes.
use mathlib.Core.List.{Perm}
use mathlib.Core.List.Perm
use mathlib.Core.Path.{subst}
use slinky_on_openshift.Prelude.{
  ℕ, zero, suc, ◌+◌, ◌-◌, ◌*◌, ◌≤◌, ◌<◌, ◌≡◌, refl, sym, ap, ◌∙◌, ◌≢◌, ◌⊎◌, inl, inr, min, Option,
  none, some, List, [], ◌∷◌, ◌++◌, arith, length, range, length-append, length-range, length-perm,
}
use slinky_on_openshift.Exec.{Error, Result, ok, err, panic, M, pure}
use slinky_on_openshift.Utils.Batch.{Tally, add, run_batch, slow_start_loop, slow_start_batch}

-- An end written as a variable with an equation, since `lo + 0` is stuck.
pub range-append : (n m lo mid : ℕ) → lo + n ≡ mid → range lo n ++ range mid m ≡ range lo (n + m)
range-append zero m lo mid e = ground arith
range-append (suc n) m lo mid e =
    let e' : suc n + m ≡ suc (n + m) = omega arith in
    rw e' (ap (λ xs. lo ∷ xs) (range-append n m (suc lo) mid (omega arith)))

tally-cases :
    (r : Result Tally)
    → ((n : ℕ) × (r ≡ ok (n, none)))
      ⊎ ((n : ℕ) × (e : Error) × (r ≡ ok (n, some e)))
      ⊎ ((e : Error) × (r ≡ err e))
      ⊎ (r ≡ panic)
tally-cases (ok (n, none)) = inl (n, refl)
tally-cases (ok (n, some e)) = inr (inl (n, e, refl))
tally-cases (err e) = inr (inr (inl (e, refl)))
tally-cases panic = inr (inr (inr refl))

module _ {S : Type 0} where
  add-add : (n m : ℕ) (r : Result Tally × S) → add n (add m r) ≡ add (n + m) r
  add-add n m (ok (t, e), s) = ground arith
  add-add n m (err e, s) = refl
  add-add n m (panic, s) = refl

  add-eq-ok :
      (n t : ℕ) (e : Option Error) (r : Result Tally × S)
      → (add n r).0 ≡ ok (t, e)
      → (r.0 ≡ ok (t - n, e)) × (n ≤ t)
  add-eq-ok n t e (ok (m, e'), s) h = ground arith
  add-eq-ok n t e (err e', s) h = cc
  add-eq-ok n t e (panic, s) h = cc

  module _ (fn : ℕ → M S (Unit {0})) where
    add-zero : (r : Result Tally × S) → add 0 r ≡ r
    add-zero (ok (n, e), s) = ground arith
    add-zero (err e, s) = refl
    add-zero (panic, s) = refl

    -- with no error, each call returned nil
    run_batch-length :
        (is : List ℕ) (s : S) (n : ℕ) → (run_batch fn is s).0 ≡ ok (n, none) → n ≡ length is
    unfolding run_batch
    run_batch-length [] s n h = ground arith
    run_batch-length (i ∷ is) s n h = ground (arith, run_batch-length is (fn i s).1 (n - 1))

    -- calls behind a list of calls that all returned nil
    run_batch-append :
        (is js : List ℕ) (s : S) (n : ℕ)
        → (run_batch fn is s).0 ≡ ok (n, none)
        → run_batch fn (is ++ js) s ≡ add n (run_batch fn js (run_batch fn is s).1)
    unfolding run_batch
    run_batch-append [] js s n h =
        let e : n ≡ 0 = ground arith in rw e (sym (add-zero (run_batch fn js s)))
    run_batch-append (i ∷ is) js s n h = ground (
      arith,
      run_batch-append is js (fn i s).1 (n - 1),
      add-add 1 (n - 1) (run_batch fn js (run_batch fn is (fn i s).1).1),
    )

    -- The calls of a run that starts at `index` with `remaining` to go and the batch size given,
    -- as a list that is a permutation of the next indices.
    pub record Attempted (batch_size remaining index successes : ℕ) (s : S) (r : Result Tally × S)
        : Type 0 where
      pub calls : List ℕ
      pub indices : Perm calls (range index (length calls))
      pub within : length calls ≤ remaining
      pub result : r ≡ add successes (run_batch fn calls s)
      pub complete : (t : ℕ) → (run_batch fn calls s).0 ≡ ok (t, none) → length calls ≡ remaining
      pub slow_start :
          (t : ℕ) (e : Error)
          → (run_batch fn calls s).0 ≡ ok (t, some e)
          → length calls ≤ batch_size + 2 * t

    no_calls :
        (batch_size remaining index successes : ℕ) (s : S)
        → remaining ≡ 0
        → Attempted batch_size remaining index successes s (pure (successes, none) s)
    unfolding run_batch
    no_calls batch_size remaining index successes s h = record {
      calls = [];
      indices = Perm.refl [];
      within = omega arith;
      result = ground arith;
      complete = λ t e. omega arith;
      slow_start = λ t e h. omega arith;
    }

    -- A batch with an error, or a panic, is the last one.
    last_batch :
        (calls : List ℕ) (b remaining index successes : ℕ) (s : S)
        → Perm calls (range index b)
        → b ≤ remaining
        → ((t : ℕ) → (run_batch fn calls s).0 ≢ ok (t, none))
        → Attempted b remaining index successes s (add successes (run_batch fn calls s))
    last_batch calls b remaining index successes s p hb stop =
        let len : length calls ≡ b = length-perm p ∙ length-range b index in
        record {
          calls = calls;
          indices = rw len p;
          within = omega arith;
          result = refl;
          complete = λ t e. absurd (stop t e);
          slow_start = λ t e h. omega arith;
        }

    next_batch :
        (calls : List ℕ) (b n remaining index successes : ℕ) (s : S) (r : Result Tally × S)
        → Perm calls (range index b)
        → b ≤ remaining
        → (run_batch fn calls s).0 ≡ ok (n, none)
        → Attempted
            (min (2 * b) (remaining - b))
            (remaining - b)
            (index + b)
            (successes + n)
            (run_batch fn calls s).1
            r
        → Attempted b remaining index successes s r
    next_batch calls b n remaining index successes s r p hb ran rest =
        let len : length calls ≡ b = length-perm p ∙ length-range b index in
        let all : length (calls ++ rest.calls) ≡ b + length rest.calls =
          omega (arith, length-append calls rest.calls) in
        let joined : run_batch fn (calls ++ rest.calls) s
            ≡ add n (run_batch fn rest.calls (run_batch fn calls s).1) =
          run_batch-append calls rest.calls s n ran in
        record {
          calls = calls ++ rest.calls;
          indices = rw all (
              subst (λ ys. Perm (calls ++ rest.calls) ys)
                (range-append b (length rest.calls) index (index + b) refl)
                (Perm.append p rest.indices));
          within = omega (arith, rest.within);
          result = rest.result ∙ sym (add-add successes n _) ∙ ap (add successes) (sym joined);
          complete = λ t e.
              let left =
                add-eq-ok n t none (run_batch fn rest.calls (run_batch fn calls s).1)
                  (rw joined at e) in
              omega (arith, rest.complete (t - n) left.0);
          slow_start = λ t e h.
              let left =
                add-eq-ok n t (some e) (run_batch fn rest.calls (run_batch fn calls s).1)
                  (rw joined at h) in
              omega
                (arith, left.1, rest.slow_start (t - n) e left.0, run_batch-length calls s n ran);
        }

    module _ (order : List ℕ → List ℕ) (order-perm : (l : List ℕ) → Perm (order l) l) where
      loop-Attempted :
          (fuel batch_size remaining index successes : ℕ) (s : S)
          → remaining ≤ fuel
          → batch_size ≤ remaining
          → (batch_size ≡ 0 → remaining ≡ 0)
          → Attempted batch_size remaining index successes s
              (slow_start_loop order fn fuel batch_size remaining index successes s)
      unfolding slow_start_loop
      loop-Attempted zero batch_size remaining index successes s hf hb h0 =
          no_calls batch_size remaining index successes s (omega arith)
      loop-Attempted (suc fuel) zero remaining index successes s hf hb h0 =
          no_calls 0 remaining index successes s (h0 refl)
      loop-Attempted (suc fuel) (suc b) remaining index successes s hf hb h0 =
          let calls = order (range index (suc b)) in
          let p : Perm calls (range index (suc b)) = order-perm (range index (suc b)) in
          elim (tally-cases (run_batch fn calls s).0) [
            | inl (n, ran) ↦ rw ran (
                next_batch calls (suc b) n remaining index successes s _ p hb ran (
                  loop-Attempted fuel (min (2 * suc b) (remaining - suc b)) (remaining - suc b)
                    (index + suc b) (successes + n) (run_batch fn calls s).1 (omega arith)
                    (omega arith) (λ e. omega arith)))
            | inr (inl (n, e, ran)) ↦
                rw ran (
                  rw ran at (last_batch calls (suc b) remaining index successes s p hb (λ t h. cc)))
            | inr (inr (inl (e, ran))) ↦
                rw ran (
                  rw ran at (last_batch calls (suc b) remaining index successes s p hb (λ t h. cc)))
            | inr (inr (inr ran)) ↦
                rw ran (
                  rw ran at (last_batch calls (suc b) remaining index successes s p hb (λ t h. cc)))
          ]

      -- For every order of the goroutines: the calls made are a permutation of the first indices,
      -- the result and the state are those of making these calls one after another, all `count`
      -- are made when no call fails, and if a call fails, at most `initial` more than twice
      -- as many calls were made as returned nil.
      pub slow_start_batch-Attempted :
          (count initial : ℕ) (s : S)
          → 0 < initial
          → Attempted initial count 0 0 s (slow_start_batch order fn count initial s)
      unfolding slow_start_batch
      slow_start_batch-Attempted count initial s h =
          let a =
            loop-Attempted count (min count initial) count 0 0 s (omega arith) (omega arith)
              (λ e. omega arith) in
          record {
            calls = a.calls;
            indices = a.indices;
            within = a.within;
            result = a.result;
            complete = a.complete;
            slow_start = λ t e ran. omega (arith, a.slow_start t e ran);
          }
