-- ===== src/Prelude/Perms.antt =====
-- The library's `Perm` with the native length, and what it says of a permutation of indices.
use mathlib.Core.Logic.Or
use mathlib.Core.List.{List, [], ◌∷◌, Perm, Mem, mem-cons, mem-cons_self, not-mem-nil}
use mathlib.Core.List
use mathlib.Core.List.Perm
use mathlib.Core.Path.{◌≡◌, refl, sym, ap, ◌∙◌}
use native.Mathlib.Bridge.{from_ℕ, le_prop}
use native.Mathlib.Omega.{arith}
use slinky_on_openshift.Prelude.Lists.{length, All, range}
use Prim.Native.Nat.{ℕ, zero, suc, ◌+◌, ◌<◌}

module _ {ℓ} {A : Type ℓ} where
  length-from_ℕ : (xs : List A) → length xs ≡ from_ℕ (List.length xs)
  length-from_ℕ [] = refl
  length-from_ℕ (x ∷ xs) = ap suc (length-from_ℕ xs)

  pub length-perm : {xs ys : List A} → Perm xs ys → length xs ≡ length ys
  length-perm {xs} {ys} p = length-from_ℕ xs ∙ ap from_ℕ (Perm.length-eq p) ∙ sym (length-from_ℕ ys)

  All-of_mem {κ} : (P : A → Type κ) (xs : List A) → ((x : A) → Mem x xs → P x) → All P xs
  All-of_mem P [] h = tt
  All-of_mem P (x ∷ xs) h =
      (h x mem-cons_self, All-of_mem P xs (λ y m. h y (mem-cons.1 (Or.inr m))))

lt_of_mem-range : (i n lo : ℕ) → Mem i (range lo n) → i < lo + n
lt_of_mem-range i zero lo m = absurd (not-mem-nil m)
lt_of_mem-range i (suc n) lo m =
    Or.elim le_prop (mem-cons.0 m) (λ e. rw e (omega arith))
      (λ m'. omega (arith, lt_of_mem-range i n (suc lo) m'))

pub All-lt_of_perm : (n : ℕ) (xs : List ℕ) → Perm xs (range 0 n) → All (λ i. i < n) xs
All-lt_of_perm n xs p =
    All-of_mem (λ i. i < n) xs (λ i m. omega (arith, lt_of_mem-range i n 0 ((Perm.mem_iff p).0 m)))

module _ {ℓ κ} {A : Type ℓ} (P : A → Type κ) (P-prop : (x : A) → IsProp (P x)) where
  of_mem-All : (x : A) (xs : List A) → All P xs → Mem x xs → P x
  of_mem-All x [] h m = absurd (not-mem-nil m)
  of_mem-All x (y ∷ ys) h m =
      Or.elim (P-prop x) (mem-cons.0 m) (λ e. rw e h.0) (λ m'. of_mem-All x ys h.1 m')

  pub All-perm : (xs ys : List A) → Perm xs ys → All P ys → All P xs
  All-perm xs ys p h = All-of_mem P xs (λ x m. of_mem-All x ys h ((Perm.mem_iff p).0 m))
