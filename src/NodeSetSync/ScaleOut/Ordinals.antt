-- ===== src/NodeSetSync/ScaleOut/Ordinals.antt =====
-- The ordinals of the pods that a scale-out creates
-- (upstream/slurm-operator/internal/controller/nodeset/nodeset_sync.go).
use slinky_on_openshift.Prelude.{
  ℕ, zero, suc, ◌+◌, ◌≤◌, ◌<◌, ◌≡◌, refl, ap, inl, inr, Bool, true, false, ◌||◌, List, [], ◌∷◌,
  arith, length, leb, ◌==◌, Bool-cases, if◌then◌else◌, length-map, map, String, ◌∙◌,
}
use slinky_on_openshift.Prelude.Int.{ℤ, pos, negsuc}
use slinky_on_openshift.NodeSetSync.ScaleOut.{is_used, free_ordinal, new_ordinals, pods_to_create}
use slinky_on_openshift.Kube.{Pod, NodeSet, Library}
use slinky_on_openshift.Naming.{get_ordinal}

-- how many of the used ordinals are not below a bound
count_from : ℕ → List ℤ → ℕ
count_from o [] = 0
count_from o (pos m ∷ used) = (if leb o m then 1 else 0) + count_from o used
count_from o (negsuc m ∷ used) = count_from o used

count_from-le-length : (o : ℕ) (used : List ℤ) → count_from o used ≤ length used
unfolding count_from
count_from-le-length o [] = omega arith
count_from-le-length o (pos m ∷ used) = ground (arith, count_from-le-length o used)
count_from-le-length o (negsuc m ∷ used) = ground (arith, count_from-le-length o used)

count_from-suc-le : (o : ℕ) (used : List ℤ) → count_from (suc o) used ≤ count_from o used
unfolding count_from
count_from-suc-le o [] = omega arith
count_from-suc-le o (pos m ∷ used) = ground (arith, count_from-suc-le o used)
count_from-suc-le o (negsuc m ∷ used) = count_from-suc-le o used

count_from-used :
    (o : ℕ) (used : List ℤ) → is_used used o ≡ true → count_from (suc o) used < count_from o used
unfolding count_from
count_from-used o [] h = ground arith
count_from-used o (pos m ∷ used) h =
    ground (arith, count_from-suc-le o used, count_from-used o used)
count_from-used o (negsuc m ∷ used) h = ground (arith, count_from-used o used)

count_from-zero : (o : ℕ) (used : List ℤ) → count_from o used ≡ 0 → is_used used o ≡ false
unfolding count_from
count_from-zero o used h = elim (Bool-cases (is_used used o)) [
  | inl u ↦ absurd (omega (arith, count_from-used o used u))
  | inr u ↦ u
]

-- What a search from an ordinal finds: it is not used, and all that it passes are.
record Free (used : List ℤ) (ordinal o : ℕ) : Type 0 where
  from_here : ordinal ≤ o
  unused : is_used used o ≡ false
  passed : (m : ℕ) → ordinal ≤ m → m < o → is_used used m ≡ true

free_ordinal-Free :
    (fuel : ℕ) (used : List ℤ) (ordinal : ℕ)
    → count_from ordinal used ≤ fuel
    → Free used ordinal (free_ordinal fuel used ordinal)
unfolding free_ordinal
free_ordinal-Free zero used ordinal h = record {
  from_here = omega arith;
  unused = count_from-zero ordinal used (omega arith);
  passed = λ m lo hi. absurd (omega arith);
}
free_ordinal-Free (suc fuel) used ordinal h = elim (Bool-cases (is_used used ordinal)) [
  | inr u ↦
      rw u
        (record { from_here = omega arith; unused = u; passed = λ m lo hi. absurd (omega arith) })
  | inl u ↦
      let rest =
        free_ordinal-Free fuel used (suc ordinal) (omega (arith, count_from-used ordinal used u)) in
      rw u (record {
        from_here = omega (arith, rest.from_here);
        unused = rest.unused;
        passed =
            λ m lo hi. ground (arith, u, rest.passed m, ap (is_used used) {x = ordinal} {y = m});
      })
]

abbrev pub mem : ℕ → List ℕ → Bool
mem m [] = false
mem m (o ∷ os) = (m == o) || mem m os

-- each is above the one before it, which the first is not below
abbrev pub Increasing : ℕ → List ℕ → Type 0
Increasing lo [] = Unit
Increasing lo (o ∷ os) = (lo ≤ o) × Increasing (suc o) os

-- The new ordinals, `n` of them from `lo` on: each is above the one before it, none is used, and
-- every smaller ordinal is used or is among them.
pub record Fresh (n : ℕ) (used : List ℤ) (lo : ℕ) (os : List ℕ) : Type 0 where
  pub count : length os ≡ n
  pub increasing : Increasing lo os
  pub unused : (x : ℕ) → mem x os ≡ true → is_used used x ≡ false
  pub no_gap : (m x : ℕ) → mem x os ≡ true → lo ≤ m → m < x → (is_used used m || mem m os) ≡ true

Increasing-suc : (o : ℕ) (os : List ℕ) → Increasing o os → mem o os ≡ false → Increasing (suc o) os
Increasing-suc o [] h n = tt
Increasing-suc o (x ∷ os) h n = (ground (arith, h.0), h.1)

-- For any used ordinals, also the -1 of a pod whose name has none: the ordinals that a scale-out
-- takes are as many as asked for, in increasing order, unused, and the smallest that are.
pub new_ordinals-Fresh : (n : ℕ) (used : List ℤ) (lo : ℕ) → Fresh n used lo (new_ordinals n used lo)
unfolding new_ordinals
new_ordinals-Fresh zero used lo = record {
  count = refl;
  increasing = tt;
  unused = λ x h. absurd (ground arith);
  no_gap = λ m x h. absurd (ground arith);
}
new_ordinals-Fresh (suc n) used lo =
    let o = free_ordinal (length used) used lo in
    let free = free_ordinal-Free (length used) used lo (count_from-le-length lo used) in
    let os = new_ordinals n (pos o ∷ used) o in
    let rest = new_ordinals-Fresh n (pos o ∷ used) o in
    record {
      count = ap suc rest.count;
      increasing =
          (free.from_here, Increasing-suc o os rest.increasing (ground (arith, rest.unused o)));
      unused = λ x h. ground (arith, free.unused, rest.unused x);
      no_gap = λ m x h lo hi. ground (arith, free.passed m, rest.no_gap m x, rest.unused x);
    }

pub length-pods_to_create :
    (k : Library) (nodeset : NodeSet) (pods : List Pod) (n : ℕ) (hash : String)
    → length (pods_to_create k nodeset pods n hash) ≡ n
unfolding pods_to_create
length-pods_to_create k nodeset pods n hash =
    length-map _ (new_ordinals n (map get_ordinal pods) 0)
    ∙ (new_ordinals-Fresh n (map get_ordinal pods) 0).count
