-- ===== src/Scenarios/Rounds.antt =====
-- Syncs in a row of a NodeSet of 300 pods, of which there are none yet.
use mathlib.Core.List.{Mem, mem-cons, Nodup-nil}
use mathlib.Core.Logic.Or
use slinky_on_openshift.Prelude.{
  ◌*◌, ◌+◌, ◌≡◌, ◌||◌, refl, sym, ap, min, Bool, false, some, List, [], ◌∷◌, String, arith, length,
  map, str_eq, eq_iff, Bool-cases, inl, inr, if◌then◌else◌,
}
use slinky_on_openshift.Prelude.Int.{pos}
use slinky_on_openshift.Kube.{Pod, NodeSet}
use slinky_on_openshift.Exec.{message, ok, err}
use slinky_on_openshift.NodeSetSync.Reconciler.{Reconciler}
use slinky_on_openshift.Scenarios.Still.{a_still_reconciler}
use slinky_on_openshift.Sort.Split.{insertion_sort-perm}
use slinky_on_openshift.NodeSetSync.ScaleOut.Made.{pod_name, Succeeds}
use slinky_on_openshift.NodeSetSync.Process.Converge.{syncs, syncs-reach}
use slinky_on_openshift.Scenarios.World.{a_nodeset, ready_pod, same_order}

abbrev large_nodeset : NodeSet
large_nodeset = record a_nodeset { replicas = some (pos 300) }

-- the state of the server is the names of its pods, and it creates no second pod of a name
abbrev has_name : String → List String → Bool
has_name name [] = false
has_name name (n ∷ names) = str_eq n name || has_name name names

has_name-new :
    (name : String) (names : List String) → ¬ Mem name names → has_name name names ≡ false
has_name-new name [] new = refl
has_name-new name (n ∷ names) new =
    let rest = has_name-new name names (λ m. new (mem-cons.1 (Or.inr m))) in
    elim (Bool-cases (str_eq n name)) [
      | inl same ↦ absurd (new (mem-cons.1 (Or.inl (sym ((eq_iff n name).0 same)))))
      | inr other ↦ ground (arith, other, rest)
    ]

abbrev named : String → Pod
named name = record ready_pod { name = name }

abbrev pods_made : List String → List Pod
pods_made names = map named names

names_made : (names : List String) → map pod_name (pods_made names) ≡ names
names_made [] = refl
names_made (n ∷ names) = ap (λ l. n ∷ l) (names_made names)

abbrev creating : Reconciler (List String)
creating = record a_still_reconciler {
  pod_control = record a_still_reconciler.pod_control {
    create_nodeset_pod = λ nodeset pod names.
        if has_name pod.name names
        then (err (message "AlreadyExists"), names)
        else (ok tt, pod.name ∷ names);
  };
}

succeeds : Succeeds creating large_nodeset (λ names. map pod_name (pods_made names))
succeeds = record {
  schedule = same_order;
  tolerated = λ pod. refl;
  patched = λ pod from ns names h. (refl, h);
  undrained = λ pod reason ns names h. (refl, h);
  expected = λ key n ns names h. (refl, h);
  made = λ pod names new.
      let absent : has_name pod.name names ≡ false =
        has_name-new pod.name names (rw (names_made names) at new) in
      rw absent (refl, refl);
}

syncs-reach_example :
    length (pods_made (syncs creating pods_made large_nodeset "new" 2 [])) ≡ min 300 (0 + 250 * 2)
syncs-reach_example =
    syncs-reach creating pods_made large_nodeset "new" insertion_sort-perm succeeds 2 300 [] refl
      (omega arith) Nodup-nil (omega arith) (omega arith)
