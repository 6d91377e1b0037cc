-- ===== src/NodeSetSync/Cordon/Marks.antt =====
-- The marks that the operator writes to a pod's annotations, and what it reads back
-- (upstream/slurm-operator/internal/controller/nodeset/nodeset_sync.go).
use slinky_on_openshift.Prelude.{
  ◌≡◌, refl, ap, ◌≢◌, Bool, true, false, Option, none, some, [], String, arith, str_eq, eq_iff,
  Bool-cases, inl, inr,
}
use text.Mathlib.TextPositions.{eq_refl}
use slinky_on_openshift.Prelude.Dict.{Dict, lookup, insert, delete, lookup-insert, lookup-delete}
use slinky_on_openshift.Prelude.Int.{ℤ, pos, eqb_ℤ}
use slinky_on_openshift.Kube.{Pod, Library, get_string}
use slinky_on_openshift.Utils.Pods.{
  annotation_pod_cordon, annotation_pod_deadline, is_pod_cordon, get_time_from_annotations,
}
use slinky_on_openshift.NodeSetSync.Cordon.{without, cordoned, uncordoned, with_deadline}

abbrev is_set_true : Option String → Bool
is_set_true o = str_eq (elim o [ none ↦ "" | some v ↦ v ]) "true"

-- the same of the annotations alone
marks :
    (m : Dict String) (key : String)
    → let marked = insert annotation_pod_cordon "true" m in
      (is_set_true (lookup annotation_pod_cordon marked) ≡ true)
      × (is_set_true (lookup annotation_pod_cordon (delete annotation_pod_cordon m)) ≡ false)
      × (key ≢ annotation_pod_cordon → get_string key (some marked) ≡ get_string key (some m))
      × (get_string key (some (delete annotation_pod_cordon marked))
          ≡ get_string key (some (delete annotation_pod_cordon m)))
marks m key =
    let set : lookup annotation_pod_cordon (insert annotation_pod_cordon "true" m) ≡ some "true" =
      ground (
        arith,
        eq_refl annotation_pod_cordon,
        lookup-insert {V = String} annotation_pod_cordon annotation_pod_cordon "true" m,
      ) in
    let gone : lookup annotation_pod_cordon (delete annotation_pod_cordon m) ≡ none = ground (
      arith,
      eq_refl annotation_pod_cordon,
      lookup-delete {V = String} annotation_pod_cordon annotation_pod_cordon m,
    ) in
    (
      ap is_set_true set,
      ap is_set_true gone,
      λ other. ground (
        arith,
        eq_iff annotation_pod_cordon key,
        lookup-insert {V = String} annotation_pod_cordon key "true" m,
      ),
      ground (
        arith,
        eq_iff annotation_pod_cordon key,
        lookup-delete {V = String} annotation_pod_cordon key m,
        lookup-delete {V = String} annotation_pod_cordon key
            (insert {V = String} annotation_pod_cordon "true" m),
        lookup-insert {V = String} annotation_pod_cordon key "true" m,
      ),
    )

-- For any pod, also one whose annotations are nil: after a cordon it is cordoned and after an
-- uncordon it is not, and neither changes another annotation; an uncordon after a cordon leaves
-- every annotation as an uncordon alone does.
cordoned-uncordoned :
    (pod : Pod) (key : String)
    → (is_pod_cordon (cordoned pod) ≡ true)
      × (is_pod_cordon (uncordoned pod) ≡ false)
      × (key ≢ annotation_pod_cordon
          → get_string key (cordoned pod).annotations ≡ get_string key pod.annotations)
      × (get_string key (uncordoned (cordoned pod)).annotations
          ≡ get_string key (uncordoned pod).annotations)
unfolding cordoned uncordoned is_pod_cordon lookup delete
cordoned-uncordoned pod key = go pod.annotations
  where
    go :
        (m : Option (Dict String))
        → let p = record pod { annotations = m } in
          (is_pod_cordon (cordoned p) ≡ true)
          × (is_pod_cordon (uncordoned p) ≡ false)
          × (key ≢ annotation_pod_cordon
              → get_string key (cordoned p).annotations ≡ get_string key p.annotations)
          × (get_string key (uncordoned (cordoned p)).annotations
              ≡ get_string key (uncordoned p).annotations)
    go none = let h = marks [] key in (h.0, refl, h.2, h.3)
    go (some m) = marks m key

-- For a deadline that the time format keeps, and a pod that has annotations or a deadline that is
-- zero: the pod is written, and the deadline read back from it is the same.
with_deadline-get_time :
    (k : Library) (deadline : ℤ) (pod : Pod) (m : Dict String)
    → pod.annotations ≡ some m
    → k.parse_time (k.format_time deadline) ≡ some deadline
    → (written : Pod) × (with_deadline k deadline pod ≡ some written)
      × (get_time_from_annotations k written.annotations annotation_pod_deadline ≡ (deadline, none))
unfolding with_deadline get_time_from_annotations
with_deadline-get_time k deadline pod m has kept = elim (Bool-cases (eqb_ℤ deadline (pos 0))) [
  | inl zero ↦ (
    record pod { annotations = without annotation_pod_deadline pod.annotations },
    ground (arith, zero),
    ground (
      arith,
      has,
      zero,
      eq_refl annotation_pod_deadline,
      lookup-delete annotation_pod_deadline annotation_pod_deadline m,
    ),
  )
  | inr later ↦
      let m' = insert annotation_pod_deadline (k.format_time deadline) m in
      (
        record pod { annotations = some m' },
        ground (arith, has, later),
        ground (
          arith,
          kept,
          eq_refl annotation_pod_deadline,
          lookup-insert annotation_pod_deadline annotation_pod_deadline (k.format_time deadline) m,
        ),
      )
]
