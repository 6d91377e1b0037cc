-- ===== src/NodeSetSync/Process/Shrink.antt =====
-- Syncs in a row bring a NodeSet with too many pods down to the wanted number
-- (upstream/slurm-operator/internal/controller/nodeset/nodeset_sync.go).
use mathlib.Core.Bool.{Bool-set}
use mathlib.Core.List.{Perm}
use mathlib.Core.List
use mathlib.Core.List.Perm
use mathlib.Core.Path.{subst}
use slinky_on_openshift.Prelude.{
  ℕ, zero, suc, ◌+◌, ◌*◌, ◌-◌, ◌≤◌, ◌<◌, ◌≡◌, refl, sym, ap, ◌∙◌, Bool, false, List, [], ◌∷◌, ◌++◌,
  map, String, arith, length, length-append, length-map, length-perm, min, All-perm,
}
use slinky_on_openshift.Prelude.Int.{pos}
use slinky_on_openshift.Kube.{Pod, NodeSet}
use slinky_on_openshift.Utils.Pods.{is_terminating}
use slinky_on_openshift.NodeSetSync.Reconciler.{Reconciler}
use slinky_on_openshift.NodeSetSync.ScaleOut.{burst_replicas}
use slinky_on_openshift.NodeSetSync.ScaleIn.{pod_key}
use slinky_on_openshift.NodeSetSync.ScaleIn.Removed.{
  AllAlive, drop, Removes, do_pod_scale_in-removes,
}
use slinky_on_openshift.NodeSetSync.Update.{replicas_of}
use slinky_on_openshift.NodeSetSync.Process.{sync_nodeset}
use slinky_on_openshift.NodeSetSync.Process.Replicas.{sync_nodeset_lem}
use slinky_on_openshift.NodeSetSync.Update.Budget.{live_pods}

length-drop : (n : ℕ) (pods : List Pod) → length (drop n pods) ≡ length pods - n
length-drop zero pods = omega arith
length-drop (suc n) [] = omega arith
length-drop (suc n) (pod ∷ pods) = omega (arith, length-drop n pods)

AllAlive-append : (xs ys : List Pod) → AllAlive (xs ++ ys) → AllAlive xs
AllAlive-append [] ys h = tt
AllAlive-append (x ∷ xs) ys h = (h.0, AllAlive-append xs ys h.1)

-- one step of `min 250` down to a bound
step_above : (l l' n : ℕ) → n ≤ l → l' ≡ l - min (l - n) 250 → n ≤ l'
step_above l l' n h e = ground (arith, h, e)

step_near :
    (k l l' n : ℕ)
    → n ≤ l
    → l' ≡ l - min (l - n) 250
    → 250 * suc k < l - n + 250
    → 250 * k < l' - n + 250
step_near k l l' n h e near = ground (arith, h, e, near)

step_down :
    (k l l' n : ℕ)
    → n ≤ l
    → l' ≡ l - min (l - n) 250
    → 250 * suc k < l - n + 250
    → n + (l' - n - 250 * k) ≡ n + (l - n - 250 * suc k)
step_down k l l' n h e near = ground (arith, h, e, near)

pub live_pods-alive : (pods : List Pod) → AllAlive pods → live_pods pods ≡ pods
unfolding live_pods
live_pods-alive [] h = refl
live_pods-alive (pod ∷ pods) h = ground (arith, h.0, live_pods-alive pods h.1)

-- the keys of the pods that are not terminating
abbrev pub live_keys : List Pod → List String
live_keys pods = map pod_key (live_pods pods)

-- Between two syncs, the pods that are terminating go, and only they.
pub record Goes {S : Type 0} (pods_of : S → List Pod) (go : S → S) : Type 0 where
  pub others : (s : S) → live_keys (pods_of (go s)) ≡ live_keys (pods_of s)
  pub alive : (s : S) → AllAlive (pods_of (go s))

module _ {S : Type 0} (r : Reconciler S) (pods_of : S → List Pod) (nodeset : NodeSet)
    (hash : String) (go : S → S) where
  -- the state behind a number of syncs, each of them with the pods that there are by then, and each
  -- followed by what goes on the server
  unfoldable pub rounds : ℕ → S → S
  rounds zero s = s
  rounds (suc k) s = rounds k (go (sync_nodeset r nodeset (pods_of s) hash s).1)

  module _ (sort-perm : (lt : Pod → Pod → Bool) (xs : List Pod) → Perm (r.sort lt xs) xs)
      (removes : Removes r nodeset (λ s. live_keys (pods_of s))) (goes : Goes pods_of go) where
    one_round :
        (n : ℕ) (s : S)
        → replicas_of nodeset ≡ pos n
        → n < length (pods_of s)
        → AllAlive (pods_of s)
        → length (pods_of (go (sync_nodeset r nodeset (pods_of s) hash s).1))
          ≡ length (pods_of s) - min (length (pods_of s) - n) burst_replicas
    one_round n s wanted many alive =
        let pods = pods_of s in
        let (condemned, kept, split, left, sync) =
          (sync_nodeset_lem r sort-perm nodeset pods hash n wanted).2 many in
        let keys = λ (s : S). live_keys (pods_of s) in
        let living = AllAlive-append condemned kept (
          All-perm (λ p. is_terminating p ≡ false) (λ p. Bool-set (is_terminating p) false)
            (condemned ++ kept) pods split alive) in
        let same : map pod_key pods ≡ keys s =
          ap (map pod_key) (sym (live_pods-alive pods alive)) in
        let there : Perm (keys s) (map pod_key condemned ++ map pod_key kept) =
          subst (λ l. Perm l (map pod_key condemned ++ map pod_key kept)) same
            (subst (λ l. Perm (map pod_key pods) l) (List.map-append pod_key condemned kept)
              (Perm.symm (Perm.map pod_key split))) in
        let (fine, gone) =
          do_pod_scale_in-removes r nodeset keys removes condemned kept (map pod_key kept) s living
            there in
        let m = min (length condemned) burst_replicas in
        let s1 = (sync_nodeset r nodeset pods hash s).1 in
        let rest = drop m condemned in
        let left' : Perm (keys s1) (map pod_key rest ++ map pod_key kept) = rw sync gone in
        let pods' = pods_of (go s1) in
        let all : length pods' ≡ length (keys s1) =
          ap length (sym (live_pods-alive pods' (goes.alive s1)))
          ∙ sym (length-map pod_key (live_pods pods'))
          ∙ ap length (goes.others s1) in
        omega (
          arith,
          many,
          left,
          all,
          length-perm left',
          length-append (map pod_key rest) (map pod_key kept),
          length-map pod_key rest,
          length-map pod_key kept,
          length-drop m condemned,
          length-append condemned kept,
          length-perm split,
        )

    -- With any order of the goroutines, a sort that permutes, where every call returns nil, every Slurm
    -- node is drained, and a deletion makes the pod terminate: for a NodeSet with no fewer pods than
    -- wanted, of which none is terminating, and where the pods that a sync leaves terminating have gone
    -- before the next one, up to as many syncs as are needed each remove 250 pods, or as many as are
    -- too many, and the last of these comes to exactly the wanted number.
    pub syncs-shrink :
        (k n : ℕ) (s : S)
        → replicas_of nodeset ≡ pos n
        → AllAlive (pods_of s)
        → n ≤ length (pods_of s)
        → burst_replicas * k < length (pods_of s) - n + burst_replicas
        → length (pods_of (rounds k s)) ≡ n + (length (pods_of s) - n - burst_replicas * k)
    unfolding rounds
    syncs-shrink zero n s wanted alive many near = ground (arith, many)
    syncs-shrink (suc k) n s wanted alive many near =
        let l = length (pods_of s) in
        let s1 = (sync_nodeset r nodeset (pods_of s) hash s).1 in
        let one = one_round n s wanted (omega (arith, many, near)) alive in
        let rest =
          syncs-shrink k n (go s1) wanted (goes.alive s1) (step_above l _ n many one)
            (step_near k l _ n many one near) in
        rest ∙ step_down k l _ n many one near
