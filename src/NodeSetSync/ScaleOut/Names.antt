-- ===== src/NodeSetSync/ScaleOut/Names.antt =====
-- The pods that a scale-out creates have names of their own
-- (upstream/slurm-operator/internal/controller/nodeset/nodeset_sync.go).
use mathlib.Core.Logic.Or
use mathlib.Core.List.{Mem, mem-cons, not-mem-nil, Nodup, Nodup-cons}
use slinky_on_openshift.Prelude.{
  ℕ, zero, suc, ◌+◌, ◌*◌, ◌^◌, ◌≤◌, ◌<◌, ◌≡◌, refl, sym, ap, ◌∙◌, false, true, List, [], ◌∷◌, ◌++◌,
  String, arith, length, length-map, map, All,
}
use slinky_on_openshift.Prelude.Int.{ℤ, pos}
use slinky_on_openshift.Kube.{Pod, NodeSet, Library}
use slinky_on_openshift.Naming.{
  get_ordinal, get_pod_name, new_nodeset_pod, update_storage, init_identity, update_identity,
}
use slinky_on_openshift.Naming.Ordinal.{get_parent_name_and_ordinal-get_pod_name}
use slinky_on_openshift.NodeSetSync.ScaleOut.{is_used, free_ordinal, new_ordinals, pods_to_create}
use slinky_on_openshift.NodeSetSync.ScaleOut.Ordinals.{mem, Increasing, new_ordinals-Fresh}
use slinky_on_openshift.NodeSetSync.ScaleOut.Made.{pod_name}

nothing-prop : IsProp ⊥
nothing-prop x y = absurd x

not_mem : (x : String) (l : List String) → All (λ y. ¬ (x ≡ y)) l → ¬ Mem x l
not_mem x [] h m = not-mem-nil m
not_mem x (y ∷ ys) h m = Or.elim nothing-prop (mem-cons.0 m) h.0 (not_mem x ys h.1)

All-append : (P : String → Type 0) (xs ys : List String) → All P xs → All P ys → All P (xs ++ ys)
All-append P [] ys a b = b
All-append P (x ∷ xs) ys a b = (a.0, All-append P xs ys a.1 b)

All-of_mem : (P : ℕ → Type 0) (os : List ℕ) → ((x : ℕ) → mem x os ≡ true → P x) → All P os
All-of_mem P [] h = tt
All-of_mem P (o ∷ os) h = (h o (ground arith), All-of_mem P os (λ x m. h x (ground (arith, m))))

All-up : (a b : ℕ) (os : List ℕ) → a ≤ b → All (λ o. o ≤ a) os → All (λ o. o ≤ b) os
All-up a b [] h all = tt
All-up a b (o ∷ os) h all = (omega (arith, h, all.0), All-up a b os h all.1)

All-small : (a b : ℕ) (os : List ℕ) → a < b → All (λ o. o ≤ a) os → All (λ o. o < b) os
All-small a b [] h all = tt
All-small a b (o ∷ os) h all = (omega (arith, h, all.0), All-small a b os h all.1)

free_ordinal-near :
    (fuel : ℕ) (used : List ℤ) (ordinal : ℕ) → free_ordinal fuel used ordinal ≤ ordinal + fuel
unfolding free_ordinal
free_ordinal-near zero used ordinal = omega arith
free_ordinal-near (suc fuel) used ordinal =
    ground (arith, free_ordinal-near fuel used (suc ordinal))

suc_times : (n m : ℕ) → suc n * m ≡ m + n * m
suc_times n m = omega arith

-- a new ordinal is not far above the start
new_ordinals-near :
    (n bound : ℕ) (used : List ℤ) (lo : ℕ)
    → length used + n ≤ bound
    → All (λ o. o ≤ lo + n * bound) (new_ordinals n used lo)
unfolding new_ordinals
new_ordinals-near zero bound used lo h = tt
new_ordinals-near (suc n) bound used lo h =
    let o = free_ordinal (length used) used lo in
    let near = free_ordinal-near (length used) used lo in
    let more = suc_times n bound in
    (
      omega (arith, near, more, h),
      All-up (o + n * bound) (lo + suc n * bound) (new_ordinals n (pos o ∷ used) o)
          (omega (arith, near, more, h))
          (new_ordinals-near n bound (pos o ∷ used) o (omega (arith, h))),
    )

times_le : (n k m : ℕ) → n ≤ k → n * m ≤ k * m
times_le zero k m h = omega arith
times_le (suc n) zero m h = absurd (omega (arith, h))
times_le (suc n) (suc k) m h =
    omega (arith, suc_times n m, suc_times k m, times_le n k m (omega (arith, h)))

module _ (nodeset : NodeSet) where
  abbrev named : ℕ → String
  named o = get_pod_name nodeset (pos o)

  ordinal-of_named : (pod : Pod) (o : ℕ) → o < 2 ^ 31 → pod.name ≡ named o → get_ordinal pod ≡ pos o
  unfolding get_ordinal
  ordinal-of_named pod o small e =
      ap (λ (p : String × ℤ). p.1) (get_parent_name_and_ordinal-get_pod_name nodeset pod o small e)

  named-injective : (pod : Pod) (o o' : ℕ) → o < 2 ^ 31 → o' < 2 ^ 31 → named o ≡ named o' → o ≡ o'
  named-injective pod o o' small small' e =
      let p : Pod = record pod { name = named o } in
      let same : pos o ≡ pos o' =
        sym (ordinal-of_named p o small refl) ∙ ordinal-of_named p o' small' e in
      ground (arith, same)

  -- a name of an ordinal is none of those of later ordinals
  later :
      (pod : Pod) (o lo : ℕ) (os : List ℕ)
      → o < 2 ^ 31
      → o < lo
      → Increasing lo os
      → All (λ x. x < 2 ^ 31) os
      → All (λ y. ¬ (named o ≡ y)) (map named os)
  later pod o lo [] small below up all = tt
  later pod o lo (x ∷ os) small below up all = (
    λ e. omega (arith, below, up.0, named-injective pod o x small all.0 e),
    later pod o (suc x) os small (omega (arith, below, up.0)) up.1 all.1,
  )

  -- a name of an unused ordinal is that of no pod
  unused :
      (o : ℕ) (pods : List Pod)
      → o < 2 ^ 31
      → is_used (map get_ordinal pods) o ≡ false
      → All (λ y. ¬ (named o ≡ y)) (map pod_name pods)
  unused o [] small h = tt
  unused o (p ∷ ps) small h = (
    λ e. ground (arith, h, ordinal-of_named p o small (sym e)),
    unused o ps small (ground (arith, h)),
  )

  names-Nodup :
      (pod : Pod) (pods : List Pod) (lo : ℕ) (os : List ℕ)
      → Increasing lo os
      → All (λ x. x < 2 ^ 31) os
      → All (λ x. is_used (map get_ordinal pods) x ≡ false) os
      → Nodup (map pod_name pods)
      → Nodup (map named os ++ map pod_name pods)
  names-Nodup pod pods lo [] up all free h = h
  names-Nodup pod pods lo (o ∷ os) up all free h = Nodup-cons.1 (
    not_mem (named o) (map named os ++ map pod_name pods) (
        All-append (λ y. ¬ (named o ≡ y)) (map named os) (map pod_name pods)
          (later pod o (suc o) os all.0 (omega arith) up.1 all.1) (unused o pods all.0 free.0)),
    names-Nodup pod pods (suc o) os up.1 all.1 free.1 h,
  )

  module _ (k : Library) (tolerated : (pod : Pod) → (k.add_tolerations pod).name ≡ pod.name) where
    new_pod-named :
        (o : ℕ) (hash : String)
        → o < 2 ^ 31
        → (new_nodeset_pod k nodeset (pos o) hash).name ≡ named o
    unfolding new_nodeset_pod update_storage init_identity update_identity
    new_pod-named o hash small =
        let start : Pod = record (k.pod_from_template nodeset.template nodeset) {
          name = named o;
        } in
        tolerated _ ∙ ap (get_pod_name nodeset) (ordinal-of_named start o small refl)

    new_pods-named :
        (os : List ℕ) (hash : String)
        → All (λ x. x < 2 ^ 31) os
        → map pod_name (map (λ o. new_nodeset_pod k nodeset (pos o) hash) os) ≡ map named os
    new_pods-named [] hash h = refl
    new_pods-named (o ∷ os) hash h = rw (new_pod-named o hash h.0, new_pods-named os hash h.1) refl

    -- For pods with distinct names, and so many pods in the end that the ordinals are within 32 bits:
    -- the names of the pods to create and of those that are there are distinct.
    pub pods_to_create-Nodup :
        (pods : List Pod) (n total : ℕ) (hash : String)
        → n ≤ 250
        → length pods + n ≤ total
        → 250 * total < 2 ^ 31
        → Nodup (map pod_name pods)
        → Nodup (map pod_name (pods_to_create k nodeset pods n hash) ++ map pod_name pods)
    unfolding pods_to_create
    pods_to_create-Nodup pods n total hash burst room small h =
        let used = map get_ordinal pods in
        let os = new_ordinals n used 0 in
        let fresh = new_ordinals-Fresh n used 0 in
        let near =
          new_ordinals-near n total used 0 (omega (arith, length-map get_ordinal pods, room)) in
        let bound : 0 + n * total < 2 ^ 31 = omega (arith, times_le n 250 total burst, small) in
        let all = All-small (0 + n * total) (2 ^ 31) os bound near in
        let start = k.pod_from_template nodeset.template nodeset in
        rw (new_pods-named os hash all) (
          names-Nodup start pods 0 os fresh.increasing all
            (All-of_mem (λ x. is_used used x ≡ false) os fresh.unused) h)
