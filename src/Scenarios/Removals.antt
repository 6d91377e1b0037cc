-- ===== src/Scenarios/Removals.antt =====
-- Syncs of a NodeSet with three pods of which one is wanted, over a server that deletes gracefully.
use mathlib.Core.Logic.Or
use mathlib.Core.List.{Perm-prop, Mem, mem-cons, mem-cons_self, not-mem-nil}
use mathlib.Core.List.Perm
use slinky_on_openshift.Prelude.{
  ◌+◌, ◌*◌, ◌-◌, ◌≡◌, refl, sym, ap, true, Bool-cases, inl, inr, some, List, [], ◌∷◌, Perm, String,
  arith, length, map, str_eq, eq_iff, if◌then◌else◌,
}
use slinky_on_openshift.Prelude.Int.{pos}
use slinky_on_openshift.Exec.{ok}
use slinky_on_openshift.Kube.{Pod, NodeSet}
use slinky_on_openshift.Utils.Pods.{is_terminating}
use slinky_on_openshift.Sort.Split.{insertion_sort-perm}
use slinky_on_openshift.NodeSetSync.Reconciler.{Reconciler}
use slinky_on_openshift.NodeSetSync.ScaleIn.{pod_key}
use slinky_on_openshift.NodeSetSync.ScaleIn.Removed.{AllAlive, Removes}
use slinky_on_openshift.NodeSetSync.Update.Budget.{live_pods}
use slinky_on_openshift.NodeSetSync.Process.Shrink.{
  live_keys, live_pods-alive, Goes, rounds, syncs-shrink,
}
use slinky_on_openshift.Scenarios.World.{a_nodeset, ready_pod, same_order}
use slinky_on_openshift.Scenarios.Still.{a_still_reconciler}

-- the first live pod with the key is left terminating
abbrev deleted_from : String → List Pod → List Pod
deleted_from key [] = []
deleted_from key (pod ∷ pods) =
    let rest = deleted_from key pods in
    if is_terminating pod
    then pod ∷ rest
    else if str_eq (pod_key pod) key
    then record pod { deletion_timestamp = some (pos 9) } ∷ pods
    else pod ∷ rest

deleted_from-Perm :
    (key : String) (pods : List Pod)
    → Mem key (live_keys pods)
    → Perm (live_keys pods) (key ∷ live_keys (deleted_from key pods))
unfolding live_pods is_terminating
deleted_from-Perm key [] m = absurd (not-mem-nil m)
deleted_from-Perm key (pod ∷ pods) m = elim (Bool-cases (is_terminating pod)) [
  | inl gone ↦ rw gone (rw gone (deleted_from-Perm key pods (rw gone at m)))
  | inr alive ↦ elim (Bool-cases (str_eq (pod_key pod) key)) [
    | inl same ↦ rw alive (rw same (rw ((eq_iff (pod_key pod) key).0 same) Perm.rfl))
    | inr other ↦
        let m' : Mem key (pod_key pod ∷ live_keys pods) = rw alive at m in
        rw alive (
          rw other (
            rw alive (
              Or.elim Perm-prop (mem-cons.0 m')
                (λ e. ground (arith, other, (eq_iff (pod_key pod) key).1 (sym e)))
                (λ there.
                  Perm.trans (Perm.cons (pod_key pod) (deleted_from-Perm key pods there))
                    (Perm.swap key (pod_key pod) (live_keys (deleted_from key pods)))))))
  ]
]

abbrev removing : Reconciler (List Pod)
removing = record a_still_reconciler {
  slurm_control = record a_still_reconciler.slurm_control {
    is_node_drained = λ nodeset pod s. (ok true, s);
  };
  pod_control = record a_still_reconciler.pod_control {
    delete_nodeset_pod = λ nodeset pod s. (ok tt, deleted_from (pod_key pod) s);
  };
}

abbrev one_wanted : NodeSet
one_wanted = record a_nodeset { replicas = some (pos 1) }

removes : Removes removing one_wanted (λ s. live_keys s)
removes = record {
  schedule = same_order;
  patched = λ pod from ks s h. (refl, h);
  undrained = λ pod reason ks s h. (refl, h);
  matched = λ pod s. (true, refl, refl);
  claimed = λ pod ks s h. (refl, h);
  expected = λ key pods ks s h. (refl, h);
  drained = λ pod s. (refl, refl);
  deleted = λ pod rest s there. (
    refl,
    Perm.cons_inv (
        Perm.trans
          (Perm.symm (deleted_from-Perm (pod_key pod) s ((Perm.mem_iff there).1 mem-cons_self)))
          there),
  );
}

live_pods-AllAlive : (pods : List Pod) → AllAlive (live_pods pods)
unfolding live_pods
live_pods-AllAlive [] = tt
live_pods-AllAlive (pod ∷ pods) = elim (Bool-cases (is_terminating pod)) [
  | inl gone ↦ rw gone (live_pods-AllAlive pods)
  | inr alive ↦ rw alive (alive, live_pods-AllAlive pods)
]

-- the pods that are terminating go
goes : Goes (λ s. s) live_pods
goes = record {
  others = λ s. ap (map pod_key) (live_pods-alive (live_pods s) (live_pods-AllAlive s));
  alive = live_pods-AllAlive;
}

abbrev three_pods : List Pod
three_pods =
    record ready_pod { name = "a-0" }
    ∷ record ready_pod { name = "a-1" }
    ∷ record ready_pod { name = "a-2" }
    ∷ []

syncs-shrink_example :
    length (rounds removing (λ s. s) one_wanted "new" live_pods 1 three_pods)
    ≡ 1 + (length three_pods - 1 - 250 * 1)
unfolding is_terminating
syncs-shrink_example =
    syncs-shrink removing (λ s. s) one_wanted "new" live_pods insertion_sort-perm removes goes 1 1
      three_pods refl (refl, (refl, (refl, tt))) (omega arith) (omega arith)
