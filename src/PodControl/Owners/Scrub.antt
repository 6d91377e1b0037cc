-- ===== src/PodControl/Owners/Scrub.antt =====
-- What is left of a claim's owner references once those of the NodeSet and the pod are removed, and
-- what one more reference changes (`removeRefs` and `addControllerRef` of
-- upstream/slurm-operator/internal/controller/nodeset/podcontrol/podcontrol.go).
use slinky_on_openshift.Prelude.{
  ◌≡◌, refl, Bool, true, false, ◌||◌, List, [], ◌∷◌, ◌++◌, arith, str_eq, All,
}
use slinky_on_openshift.Kube.{OwnerReference}
use slinky_on_openshift.PodControl.Owners.{
  Owner, matches_ref, is_controller, has_owner_ref, has_stale_owner_ref, other_controls,
  has_non_controller_owner, remove_refs,
}

-- The reference names the object exactly if it has the object's UID: it is not of an earlier object
-- of that name, and no other object has the UID.
abbrev pub Agrees : Owner → OwnerReference → Type 0
Agrees o r = matches_ref r o ≡ str_eq r.uid o.uid

module _ (c : OwnerReference) (o : Owner) where
  pub has-append :
      (refs : List OwnerReference)
      → has_owner_ref (refs ++ c ∷ []) o ≡ has_owner_ref refs o || str_eq c.uid o.uid
  unfolding has_owner_ref
  has-append [] = ground arith
  has-append (r ∷ refs) = ground (arith, has-append refs)

  pub stale-append :
      (refs : List OwnerReference)
      → has_stale_owner_ref refs o ≡ false
      → Agrees o c
      → has_stale_owner_ref (refs ++ c ∷ []) o ≡ false
  unfolding has_stale_owner_ref
  stale-append [] h a = ground arith
  stale-append (r ∷ refs) h a = ground (arith, stale-append refs)

module _ (n p : Owner) where
  abbrev pub ours : OwnerReference → Bool
  ours r = matches_ref r n || matches_ref r p

  pub scrub-has :
      (refs : List OwnerReference)
      → All (Agrees n) refs
      → All (Agrees p) refs
      → (has_owner_ref (remove_refs refs ours) n ≡ false)
        × (has_owner_ref (remove_refs refs ours) p ≡ false)
  unfolding has_owner_ref remove_refs
  scrub-has [] hn hp = (refl, refl)
  scrub-has (r ∷ refs) hn hp = ground (arith, scrub-has refs hn.1 hp.1)

  pub scrub-stale :
      (refs : List OwnerReference)
      → (has_stale_owner_ref (remove_refs refs ours) n ≡ false)
        × (has_stale_owner_ref (remove_refs refs ours) p ≡ false)
  unfolding has_stale_owner_ref remove_refs
  scrub-stale [] = (refl, refl)
  scrub-stale (r ∷ refs) = ground (arith, scrub-stale refs)

  pub scrub-other :
      (refs : List OwnerReference)
      → All (Agrees n) refs
      → All (Agrees p) refs
      → other_controls (remove_refs refs ours) n p ≡ other_controls refs n p
  unfolding other_controls remove_refs
  scrub-other [] hn hp = refl
  scrub-other (r ∷ refs) hn hp = ground (arith, scrub-other refs hn.1 hp.1)

  pub non_controller-of_has :
      (refs : List OwnerReference)
      → has_owner_ref refs n ≡ false
      → has_owner_ref refs p ≡ false
      → has_non_controller_owner refs n p ≡ false
  unfolding has_owner_ref has_non_controller_owner
  non_controller-of_has [] hn hp = refl
  non_controller-of_has (r ∷ refs) hn hp = ground (arith, non_controller-of_has refs)

  -- a reference of the NodeSet or of the pod is no other controller
  pub other-append :
      (c : OwnerReference) (refs : List OwnerReference)
      → Agrees n c
      → Agrees p c
      → str_eq c.uid n.uid || str_eq c.uid p.uid ≡ true
      → other_controls (refs ++ c ∷ []) n p ≡ other_controls refs n p
  unfolding other_controls
  other-append c [] an ap h = ground arith
  other-append c (r ∷ refs) an ap h = ground (arith, other-append c refs)

  pub non_controller-append :
      (c : OwnerReference) (refs : List OwnerReference)
      → is_controller c ≡ true
      → has_non_controller_owner (refs ++ c ∷ []) n p ≡ has_non_controller_owner refs n p
  unfolding has_non_controller_owner
  non_controller-append c [] h = ground arith
  non_controller-append c (r ∷ refs) h = ground (arith, non_controller-append c refs)
