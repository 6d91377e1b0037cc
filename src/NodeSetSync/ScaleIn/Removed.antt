-- ===== src/NodeSetSync/ScaleIn/Removed.antt =====
-- Which pods are there behind a scale-in where no call fails
-- (upstream/slurm-operator/internal/controller/nodeset/nodeset_sync.go).
use mathlib.Core.List.{Perm}
use mathlib.Core.List.Perm
use slinky_on_openshift.Prelude.{
  ℕ, zero, suc, ◌<◌, ◌≤◌, ◌≡◌, refl, ap, ◌∙◌, sym, Bool, false, true, some, List, [], ◌∷◌, ◌++◌,
  String, arith, length, map, range, get_elem?, get_elem?-some, min, All, Bool-cases, inl, inr,
}
use slinky_on_openshift.Prelude.Int.{pos, pos_part}
use slinky_on_openshift.Exec.{ok, M}
use slinky_on_openshift.Kube.{Pod, NodeSet}
use slinky_on_openshift.Utils.Math.{clamp}
use slinky_on_openshift.Utils.Pods.{key_func, is_terminating}
use slinky_on_openshift.Utils.Batch.Complete.{Keeps, slow_start_batch-Keeps, slow_start_batch-Leads}
use slinky_on_openshift.NodeSetSync.Reconciler.{Reconciler, at_pod, for_pods, for_first_pods}
use slinky_on_openshift.NodeSetSync.Cordon.{
  reason_about, uncordoned, make_pod_uncordon, make_pod_uncordon_and_undrain,
}
use slinky_on_openshift.NodeSetSync.ScaleOut.{burst_replicas}
use slinky_on_openshift.NodeSetSync.ScaleIn.{
  pod_key, get_pod_keys, process_condemned, forget_undrained, scale_in_pod, fix_pod_pvcs,
  do_pod_scale_in,
}

-- the key of the pod with an index, or none of a pod
abbrev key_at : List Pod → ℕ → String
key_at [] i = ""
key_at (pod ∷ pods) zero = pod_key pod
key_at (pod ∷ pods) (suc i) = key_at pods i

abbrev pub drop : ℕ → List Pod → List Pod
drop zero pods = pods
drop (suc n) [] = []
drop (suc n) (pod ∷ pods) = drop n pods

map-range :
    (pod : Pod) (pods : List Pod) (n lo : ℕ)
    → map (key_at (pod ∷ pods)) (range (suc lo) n) ≡ map (key_at pods) (range lo n)
map-range pod pods zero lo = refl
map-range pod pods (suc n) lo = ap (λ l. key_at pods lo ∷ l) (map-range pod pods n (suc lo))

keys-split :
    (pods : List Pod) (n : ℕ) (rest : List String)
    → n ≤ length pods
    → map (key_at pods) (range 0 n) ++ (map pod_key (drop n pods) ++ rest)
      ≡ map pod_key pods ++ rest
keys-split pods zero rest h = refl
keys-split [] (suc n) rest h = absurd (omega arith)
keys-split (pod ∷ pods) (suc n) rest h =
    ap (λ l. pod_key pod ∷ (l ++ (map pod_key (drop n pods) ++ rest))) (map-range pod pods n 0)
    ∙ ap (λ l. pod_key pod ∷ l) (keys-split pods n rest (omega arith))

key_at-some :
    (pods : List Pod) (i : ℕ) (pod : Pod)
    → get_elem? pods i ≡ some pod
    → key_at pods i ≡ pod_key pod
key_at-some [] i pod h = cc
key_at-some (p ∷ pods) zero pod h = ground (arith, h)
key_at-some (p ∷ pods) (suc i) pod h = key_at-some pods i pod h

-- no pod of a list is terminating
abbrev pub AllAlive : List Pod → Type 0
AllAlive = All (λ pod. is_terminating pod ≡ false)

alive_at :
    (pods : List Pod) (i : ℕ) (pod : Pod)
    → get_elem? pods i ≡ some pod
    → AllAlive pods
    → is_terminating pod ≡ false
alive_at [] i pod h alive = cc
alive_at (p ∷ pods) zero pod h alive = ground (arith, h, alive.0)
alive_at (p ∷ pods) (suc i) pod h alive = alive_at pods i pod h alive.1

-- Every call returns nil, and every Slurm node is drained. The deletion of a pod whose key is among
-- those of a state takes the key off and leaves the others, and no other call changes the keys.
pub record Removes {S : Type 0} (r : Reconciler S) (nodeset : NodeSet) (keys : S → List String)
    : Type 0 where
  pub schedule : (l : List ℕ) → Perm (r.order l) l
  pub patched :
      (pod from : Pod) (ks : List String) → Keeps (λ s. keys s ≡ ks) (r.kube.patch_pod pod from)
  pub undrained :
      (pod : Pod) (reason : String) (ks : List String)
      → Keeps (λ s. keys s ≡ ks) (r.slurm_control.make_node_undrain nodeset pod reason)
  pub matched :
      (pod : Pod) (s : S)
      → let p = r.pod_control.pod_pvcs_match_retention_policy nodeset pod s in
        (b : Bool) × (p.0 ≡ ok b) × (keys p.1 ≡ keys s)
  pub claimed :
      (pod : Pod) (ks : List String)
      → Keeps (λ s. keys s ≡ ks) (r.pod_control.update_pod_pvcs_for_retention_policy nodeset pod)
  pub expected :
      (key : String) (pods ks : List String)
      → Keeps (λ s. keys s ≡ ks) (r.expectations.expect_deletions key pods)
  pub drained :
      (pod : Pod) (s : S)
      → let p = r.slurm_control.is_node_drained nodeset pod s in
        (p.0 ≡ ok true) × (keys p.1 ≡ keys s)
  pub deleted :
      (pod : Pod) (rest : List String) (s : S)
      → Perm (keys s) (pod_key pod ∷ rest)
      → let p = r.pod_control.delete_nodeset_pod nodeset pod s in
        (p.0 ≡ ok tt) × Perm (keys p.1) rest

module _ {S : Type 0} (r : Reconciler S) (nodeset : NodeSet) (keys : S → List String)
    (removes : Removes r nodeset keys) where
  at_pod-Keeps :
      (ks : List String) (f : Pod → M S (Unit {0})) (pods : List Pod)
      → ((pod : Pod) → Keeps (λ s. keys s ≡ ks) (f pod))
      → (i : ℕ) → i < length pods
      → Keeps (λ s. keys s ≡ ks) (at_pod pods f i)
  at_pod-Keeps ks f pods keeps i h =
      let (pod, there) = get_elem?-some pods i h in rw (there, at_pod) (keeps pod)

  for_pods-Keeps :
      (f : Pod → M S (Unit {0})) (pods : List Pod)
      → ((pod : Pod) (ks : List String) → Keeps (λ s. keys s ≡ ks) (f pod))
      → (s : S) → let p = for_pods r pods f s in (p.0 ≡ ok tt) × (keys p.1 ≡ keys s)
  unfolding for_pods
  for_pods-Keeps f pods keeps s =
      let (fine, same) =
        slow_start_batch-Keeps (λ s'. keys s' ≡ keys s) r.order (at_pod pods f) (length pods) s
          removes.schedule (at_pod-Keeps (keys s) f pods (λ pod. keeps pod (keys s))) refl in
      (ground (arith, fine), ground (arith, fine, same))

  uncordon-Keeps :
      (pod : Pod) (ks : List String)
      → Keeps (λ s. keys s ≡ ks) (make_pod_uncordon_and_undrain r nodeset pod)
  unfolding make_pod_uncordon_and_undrain make_pod_uncordon uncordoned
  uncordon-Keeps pod ks s h =
      let reason = reason_about pod "has been uncordoned" in
      let patched = removes.patched (uncordoned pod) pod ks s h in
      let undrained = removes.undrained pod reason ks in
      ground (arith, patched, undrained s h, undrained (r.kube.patch_pod (uncordoned pod) pod s).1)

  fix_pod_pvcs-Keeps :
      (pod : Pod) (ks : List String) → Keeps (λ s. keys s ≡ ks) (fix_pod_pvcs r nodeset pod)
  unfolding fix_pod_pvcs
  fix_pod_pvcs-Keeps pod ks s h =
      let (b, fine, same) = removes.matched pod s in
      let claimed =
        removes.claimed pod ks (r.pod_control.pod_pvcs_match_retention_policy nodeset pod s).1
          (same ∙ h) in
      elim (Bool-cases b) [
        | inl e ↦ ground (arith, fine, same, e, h)
        | inr e ↦ ground (arith, fine, e, claimed)
      ]

  scale_in_pod-removes :
      (key : String) (pod : Pod) (rest : List String) (s : S)
      → is_terminating pod ≡ false
      → Perm (keys s) (pod_key pod ∷ rest)
      → let p = scale_in_pod r key nodeset pod s in (p.0 ≡ ok tt) × Perm (keys p.1) rest
  unfolding scale_in_pod process_condemned forget_undrained
  scale_in_pod-removes key pod rest s alive there =
      let (once, same) = removes.drained pod s in
      let s1 = (r.slurm_control.is_node_drained nodeset pod s).1 in
      let (gone, others) = removes.deleted pod rest s1 (rw same there) in
      let s2 = (r.pod_control.delete_nodeset_pod nodeset pod s1).1 in
      let (twice, same') = removes.drained pod s2 in
      let state : scale_in_pod r key nodeset pod s
          ≡ (ok tt, (r.slurm_control.is_node_drained nodeset pod s2).1) =
        ground (arith, alive, once, gone, twice) in
      rw state (refl, rw same' others)

  -- what the batch of deletions leaves of the keys, while some of its calls are to be made
  abbrev Left : List Pod → List String → List ℕ → S → Type 0
  Left pods rest calls s = Perm (keys s) (map (key_at pods) calls ++ rest)

  delete_first :
      (key : String) (pods : List Pod) (n : ℕ) (rest : List String) (s : S)
      → n ≤ length pods
      → AllAlive pods
      → Perm (keys s) (map pod_key pods ++ rest)
      → let p = for_first_pods r n pods (scale_in_pod r key nodeset) s in
        (p.0 ≡ ok tt) × Perm (keys p.1) (map pod_key (drop n pods) ++ rest)
  unfolding for_first_pods
  delete_first key pods n rest s within alive there =
      let kept = map pod_key (drop n pods) ++ rest in
      let (fine, left) =
        slow_start_batch-Leads (at_pod pods (scale_in_pod r key nodeset)) n (Left pods kept) r.order
          s removes.schedule
          (λ a b s' p h. Perm.trans h (Perm.append_right kept (Perm.map (key_at pods) p)))
          (λ i others s' below h.
            let (pod, found) = get_elem?-some pods i (omega (arith, below, within)) in
            rw (found, at_pod)
              (scale_in_pod-removes key pod (map (key_at pods) others ++ kept) s'
                (alive_at pods i pod found alive) (rw (sym (key_at-some pods i pod found)) h)))
          (rw (keys-split pods n rest within) there) in
      (ground (arith, fine), ground (arith, fine, left))

  clamp-burst :
      (l : ℕ) → pos_part (clamp (pos l) (pos 0) (pos burst_replicas)) ≡ min l burst_replicas
  unfolding clamp
  clamp-burst l = ground arith

  -- a scale-in removes the first of the condemned pods
  pub do_pod_scale_in-removes :
      (condemned kept : List Pod) (rest : List String) (s : S)
      → AllAlive condemned
      → Perm (keys s) (map pod_key condemned ++ rest)
      → let p = do_pod_scale_in r nodeset condemned kept s in
        (p.0 ≡ ok tt)
        × Perm
            (keys p.1)
            (map pod_key (drop (min (length condemned) burst_replicas) condemned) ++ rest)
  unfolding do_pod_scale_in get_pod_keys
  do_pod_scale_in-removes condemned kept rest s alive there =
      let key = key_func nodeset.namespace nodeset.name in
      let n = pos_part (clamp (pos (length condemned)) (pos 0) (pos burst_replicas)) in
      let (f1, k1) =
        for_pods-Keeps (make_pod_uncordon_and_undrain r nodeset) kept uncordon-Keeps s in
      let s1 = (for_pods r kept (make_pod_uncordon_and_undrain r nodeset) s).1 in
      let (f2, k2) = for_pods-Keeps (fix_pod_pvcs r nodeset) condemned fix_pod_pvcs-Keeps s1 in
      let s2 = (for_pods r condemned (fix_pod_pvcs r nodeset) s1).1 in
      let (f3, k3) = removes.expected key (get_pod_keys condemned) (keys s2) s2 refl in
      let s3 = (r.expectations.expect_deletions key (get_pod_keys condemned) s2).1 in
      let (f4, left) =
        delete_first key condemned (min (length condemned) burst_replicas) rest s3 (omega arith)
          alive (rw (k3, k2, k1) there) in
      let state : do_pod_scale_in r nodeset condemned kept s
          ≡ for_first_pods r n condemned (scale_in_pod r key nodeset) s3 =
        rw (f1, f2, f3) refl in
      rw (state, clamp-burst (length condemned)) (f4, left)
