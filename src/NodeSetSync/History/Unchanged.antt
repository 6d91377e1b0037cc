-- ===== src/NodeSetSync/History/Unchanged.antt =====
-- A NodeSet whose template is unchanged gets no new revision
-- (upstream/slurm-operator/internal/controller/nodeset/nodeset_history.go).
use mathlib.Core.Option.{some_inj}
use text.Mathlib.TextPositions.{eq_refl}
use slinky_on_openshift.Prelude.{
  ◌≡◌, refl, ap, ◌∙◌, true, Bool-cases, inl, inr, some, List, [], ◌∷◌, String, arith, str_eq,
  if◌then◌else◌,
}
use slinky_on_openshift.Prelude.Int.{ℤ}
use slinky_on_openshift.Exec.{ok}
use slinky_on_openshift.Kube.{NodeSet}
use slinky_on_openshift.NodeSetSync.Patch.{Fields, get_patch}
use slinky_on_openshift.NodeSetSync.Patch.Templates.{template_of, get_patch-template}
use slinky_on_openshift.NodeSetSync.Reconciler.{Reconciler, Revision}
use slinky_on_openshift.NodeSetSync.History.{
  last_from, last, annotated, count_of, next_revision, new_revision, with_current,
  get_nodeset_revisions,
}

-- the revisions with the patch of a revision
abbrev pub equal_to : Revision → List Revision → List Revision
equal_to x [] = []
equal_to x (y ∷ ys) = let rest = equal_to x ys in if str_eq y.patch x.patch then y ∷ rest else rest

last-cons :
    (y latest : Revision) (ys : List Revision) → last ys ≡ some latest → last (y ∷ ys) ≡ some latest
last-cons y latest [] h = cc
last-cons y latest (z ∷ zs) h = h

last_from-equal_to :
    (x y latest : Revision) (ys : List Revision)
    → last_from y ys ≡ latest
    → str_eq latest.patch x.patch ≡ true
    → last (equal_to x (y ∷ ys)) ≡ some latest
last_from-equal_to x y latest [] h same = rw h (rw same refl)
last_from-equal_to x y latest (z ∷ zs) h same =
    let rest = last_from-equal_to x z latest zs h same in
    elim (Bool-cases (str_eq y.patch x.patch)) [
      | inl e ↦ rw e (last-cons y latest (equal_to x (z ∷ zs)) rest)
      | inr e ↦ rw e rest
    ]

last-equal_to :
    (x latest : Revision) (revisions : List Revision)
    → last revisions ≡ some latest
    → str_eq latest.patch x.patch ≡ true
    → last (equal_to x revisions) ≡ some latest
last-equal_to x latest [] h same = cc
last-equal_to x latest (y ∷ ys) h same = last_from-equal_to x y latest ys (some_inj.0 h) same

-- What `NewControllerRevision`, `FindEqualRevisions` and `EqualRevision` do with patches: the first
-- stores the one that it is given, the others compare them.
pub record ComparesPatches {S : Type 0} (r : Reconciler S) : Type 0 where
  pub stored :
      (nodeset : NodeSet) (patch : String) (number count : ℤ)
      → (x : Revision) × (r.kube.new_controller_revision nodeset patch number count ≡ ok x)
        × (x.patch ≡ patch)
  pub found :
      (revisions : List Revision) (x : Revision)
      → r.kube.find_equal_revisions revisions x ≡ equal_to x revisions
  pub compared : (x y : Revision) → r.kube.equal_revision x y ≡ str_eq x.patch y.patch

module _ {S : Type 0} (r : Reconciler S) (compares : ComparesPatches r) where
  new_revision-patch :
      (nodeset : NodeSet) (patch : String) (number count : ℤ)
      → get_patch r.kube.json nodeset ≡ ok patch
      → (x : Revision) × (new_revision r nodeset number count ≡ ok x) × (x.patch ≡ patch)
  unfolding new_revision
  new_revision-patch nodeset patch number count h =
      let (x, made, same) = compares.stored nodeset patch number count in
      (annotated r nodeset x, ground (arith, h, made), same)

  -- Where the latest revision was made of a NodeSet, an older version say, with the same template in
  -- JSON: whatever else of the NodeSet is changed, no revision is created or renumbered, and the latest
  -- is the one to update to.
  pub get_nodeset_revisions-unchanged :
      (old nodeset : NodeSet) (template : Fields) (revisions : List Revision) (latest : Revision)
      (s : S)
      → template_of r.kube.json old ≡ some template
      → template_of r.kube.json nodeset ≡ some template
      → get_patch r.kube.json old ≡ ok latest.patch
      → last revisions ≡ some latest
      → get_nodeset_revisions r nodeset revisions s ≡ (
        ok (with_current r nodeset revisions (count_of r nodeset.status.collision_count) latest),
        s,
      )
  unfolding get_nodeset_revisions
  get_nodeset_revisions-unchanged old nodeset template revisions latest s was is made there =
      let count = count_of r nodeset.status.collision_count in
      let patch : get_patch r.kube.json nodeset ≡ ok latest.patch =
        get_patch-template r.kube.json nodeset old template is was ∙ made in
      let (x, fresh, stored) =
        new_revision-patch nodeset latest.patch (next_revision revisions) count patch in
      let same : str_eq latest.patch x.patch ≡ true = rw stored (eq_refl latest.patch) in
      let equal : last (r.kube.find_equal_revisions revisions x) ≡ some latest =
        ap last (compares.found revisions x) ∙ last-equal_to x latest revisions there same in
      let latest_equal : r.kube.equal_revision latest latest ≡ true =
        compares.compared latest latest ∙ eq_refl latest.patch in
      ground (arith, fresh, equal, there, latest_equal)
