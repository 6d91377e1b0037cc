-- ===== src/NodeSetSync/ScaleOut/Made.antt =====
-- Which pods a scale-out makes where no call fails
-- (upstream/slurm-operator/internal/controller/nodeset/nodeset_sync.go).
use mathlib.Core.List.{Perm, Mem, Nodup, Nodup-cons, perm_middle, mem-append_right}
use mathlib.Core.List.Perm
use slinky_on_openshift.Prelude.{
  ℕ, zero, suc, ◌+◌, ◌-◌, ◌<◌, ◌≡◌, refl, sym, ap, ◌∙◌, some, List, [], ◌∷◌, ◌++◌, String, arith,
  length, length-perm, length-range, map, range, get_elem?, get_elem?-some,
}
use slinky_on_openshift.Prelude.Int.{ℤ, pos, pos_part}
use slinky_on_openshift.Exec.{ok}
use slinky_on_openshift.Kube.{Pod, NodeSet}
use slinky_on_openshift.Utils.Math.{clamp}
use slinky_on_openshift.Utils.Pods.{key_func}
use slinky_on_openshift.Utils.Batch.Complete.{Keeps, slow_start_batch-Keeps, slow_start_batch-Leads}
use slinky_on_openshift.NodeSetSync.Reconciler.{Reconciler, at_pod, batch, for_pods}
use slinky_on_openshift.NodeSetSync.Cordon.{
  reason_about, uncordoned, make_pod_uncordon, make_pod_uncordon_and_undrain,
}
use slinky_on_openshift.NodeSetSync.ScaleOut.{
  burst_replicas, pods_to_create, create_pod, do_pod_scale_out,
}
use slinky_on_openshift.NodeSetSync.ScaleOut.Ordinals.{length-pods_to_create}

abbrev pub pod_name : Pod → String
pod_name pod = pod.name

-- the name of the pod with an index, or none of a pod
abbrev name_at : List Pod → ℕ → String
name_at [] i = ""
name_at (pod ∷ pods) zero = pod.name
name_at (pod ∷ pods) (suc i) = name_at pods i

map-range :
    (pod : Pod) (pods : List Pod) (n lo : ℕ)
    → map (name_at (pod ∷ pods)) (range (suc lo) n) ≡ map (name_at pods) (range lo n)
map-range pod pods zero lo = refl
map-range pod pods (suc n) lo = ap (λ l. name_at pods lo ∷ l) (map-range pod pods n (suc lo))

names-range : (pods : List Pod) → map (name_at pods) (range 0 (length pods)) ≡ map pod_name pods
names-range [] = refl
names-range (pod ∷ pods) =
    ap (λ l. pod.name ∷ l) (map-range pod pods (length pods) 0 ∙ names-range pods)

name_at-some :
    (pods : List Pod) (i : ℕ) (pod : Pod) → get_elem? pods i ≡ some pod → name_at pods i ≡ pod.name
name_at-some [] i pod h = cc
name_at-some (p ∷ pods) zero pod h = ground (arith, h)
name_at-some (p ∷ pods) (suc i) pod h = name_at-some pods i pod h

-- Every call on what is there returns nil. A pod is created if no pod has its name, under this name;
-- no other call adds, removes or renames a pod. The tolerations leave a pod its name.
pub record Succeeds {S : Type 0} (r : Reconciler S) (nodeset : NodeSet) (names : S → List String)
    : Type 0 where
  pub schedule : (l : List ℕ) → Perm (r.order l) l
  pub tolerated : (pod : Pod) → (r.library.add_tolerations pod).name ≡ pod.name
  pub patched :
      (pod from : Pod) (ns : List String) → Keeps (λ s. names s ≡ ns) (r.kube.patch_pod pod from)
  pub undrained :
      (pod : Pod) (reason : String) (ns : List String)
      → Keeps (λ s. names s ≡ ns) (r.slurm_control.make_node_undrain nodeset pod reason)
  pub expected :
      (key : String) (n : ℤ) (ns : List String)
      → Keeps (λ s. names s ≡ ns) (r.expectations.expect_creations key n)
  pub made :
      (pod : Pod) (s : S)
      → ¬ Mem pod.name (names s)
      → let p = r.pod_control.create_nodeset_pod nodeset pod s in
        (p.0 ≡ ok tt) × (names p.1 ≡ pod.name ∷ names s)

module _ {S : Type 0} (r : Reconciler S) (nodeset : NodeSet) (names : S → List String)
    (succeeds : Succeeds r nodeset names) where
  uncordon-Keeps :
      (pod : Pod) (ns : List String)
      → Keeps (λ s. names s ≡ ns) (make_pod_uncordon_and_undrain r nodeset pod)
  unfolding make_pod_uncordon_and_undrain make_pod_uncordon uncordoned
  uncordon-Keeps pod ns s h =
      let reason = reason_about pod "has been uncordoned" in
      let patched = succeeds.patched (uncordoned pod) pod ns s h in
      let undrained = succeeds.undrained pod reason ns in
      ground (arith, patched, undrained s h, undrained (r.kube.patch_pod (uncordoned pod) pod s).1)

  uncordon_all-Keeps :
      (pods : List Pod) (s : S)
      → let p = for_pods r pods (make_pod_uncordon_and_undrain r nodeset) s in
        (p.0 ≡ ok tt) × (names p.1 ≡ names s)
  unfolding for_pods
  uncordon_all-Keeps pods s =
      let uncordon = make_pod_uncordon_and_undrain r nodeset in
      let (fine, same) =
        slow_start_batch-Keeps (λ s'. names s' ≡ names s) r.order (at_pod pods uncordon)
          (length pods) s succeeds.schedule
          (λ i h.
            let (pod, there) = get_elem?-some pods i h in
            rw (there, at_pod) (uncordon-Keeps pod (names s)))
          refl in
      (ground (arith, fine), ground (arith, fine, same))

  -- while some pods are to be created: all names are distinct, and so many pods there will be
  abbrev ToMake : List Pod → ℕ → List ℕ → S → Type 0
  ToMake pods total calls s =
      Nodup (map (name_at pods) calls ++ names s) × (length calls + length (names s) ≡ total)

  ToMake-perm :
      (pods : List Pod) (total : ℕ) (a b : List ℕ) (s : S)
      → Perm a b
      → ToMake pods total a s
      → ToMake pods total b s
  ToMake-perm pods total a b s p h = (
    Perm.nodup (Perm.append_right (names s) (Perm.map (name_at pods) p)) h.0,
    omega (arith, length-perm p, h.1),
  )

  create_pod-makes :
      (pods : List Pod) (total i : ℕ) (rest : List ℕ) (s : S)
      → i < length pods
      → ToMake pods total (i ∷ rest) s
      → let p = at_pod pods (create_pod r nodeset) i s in (p.0 ≡ ok tt) × ToMake pods total rest p.1
  unfolding create_pod
  create_pod-makes pods total i rest s below h =
      let (pod, there) = get_elem?-some pods i below in
      let named = name_at-some pods i pod there in
      let others = map (name_at pods) rest in
      let distinct : Nodup (pod.name ∷ (others ++ names s)) = rw named at h.0 in
      let (fine, more) =
        succeeds.made pod s (λ m. (Nodup-cons.0 distinct).0 (mem-append_right others m)) in
      let s1 = (r.pod_control.create_nodeset_pod nodeset pod s).1 in
      let moved : Nodup (others ++ (pod.name ∷ names s)) =
        Perm.nodup (Perm.symm (perm_middle others (names s))) distinct in
      let done : create_pod r nodeset pod s ≡ (ok tt, s1) = ground (arith, fine) in
      rw (there, at_pod) (rw done (refl, (rw more moved, omega (arith, ap length more, h.1))))

  -- With any order of the goroutines, and where every call returns nil: if the names of the pods to
  -- create and of those that are there are distinct, then a scale-out makes as many pods as asked for,
  -- but at most 250, and the names stay distinct.
  pub do_pod_scale_out-makes :
      (pods : List Pod) (num_create : ℤ) (hash : String) (s : S)
      → let n = pos_part (clamp num_create (pos 0) (pos burst_replicas)) in
        Nodup (map pod_name (pods_to_create r.library nodeset pods n hash) ++ names s)
        → let p = do_pod_scale_out r nodeset pods num_create hash s in
          (p.0 ≡ ok tt) × Nodup (names p.1) × (length (names p.1) ≡ n + length (names s))
  unfolding do_pod_scale_out
  do_pod_scale_out-makes pods num_create hash s distinct =
      let n = pos_part (clamp num_create (pos 0) (pos burst_replicas)) in
      let key = key_func nodeset.namespace nodeset.name in
      let to_create = pods_to_create r.library nodeset pods n hash in
      let (uncordoned, same) = uncordon_all-Keeps pods s in
      let s0 = (for_pods r pods (make_pod_uncordon_and_undrain r nodeset) s).1 in
      let (expected, kept) = succeeds.expected key (pos n) (names s) s0 same in
      let s1 = (r.expectations.expect_creations key (pos n) s0).1 in
      let count = length-pods_to_create r.library nodeset pods n hash in
      let all_names : map (name_at to_create) (range 0 n) ≡ map pod_name to_create =
        ap (λ m. map (name_at to_create) (range 0 m)) (sym count) ∙ names-range to_create in
      let (all, (unique, total)) =
        slow_start_batch-Leads (at_pod to_create (create_pod r nodeset)) n
          (ToMake to_create (n + length (names s))) r.order s1 succeeds.schedule
          (ToMake-perm to_create (n + length (names s)))
          (λ i rest s' below h.
            create_pod-makes to_create (n + length (names s)) i rest s'
              (omega (arith, below, count)) h)
          (rw (all_names, kept) distinct, omega (arith, length-range n 0, ap length kept)) in
      let none_left : n - n ≡ 0 = omega arith in
      let state : do_pod_scale_out r nodeset pods num_create hash s
          ≡ (ok tt, (batch r n (at_pod to_create (create_pod r nodeset)) s1).1) =
        rw (uncordoned, expected, all, none_left) refl in
      rw state (refl, unique, omega (arith, total))
