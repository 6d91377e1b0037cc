-- ===== src/HistoryControl/Controlled.antt =====
-- Which revisions are adopted, released and renumbered
-- (upstream/slurm-operator/internal/utils/historycontrol/historycontrol.go).
use slinky_on_openshift.Prelude.{◌≡◌, refl, ◌∙◌, ap, false, some, String, arith}
use slinky_on_openshift.Prelude.Int.{ℤ, eqb_ℤ}
use slinky_on_openshift.Exec.{conflict, Error, message, ok, err, M}
use slinky_on_openshift.Kube.{OwnerReference, NodeSet}
use slinky_on_openshift.NodeSetSync.Reconciler.{Revision}
use slinky_on_openshift.HistoryControl.{
  RevisionClient, get_controller_of, adopt_attempt, adopt_controller_revision, release_attempt,
  release_controller_revision, update_attempt, commit,
}

module _ {S : Type 0} (client : RevisionClient S) where
  -- With a retry that returns an error of the operator's own at once: a revision that has a
  -- controller is neither adopted nor released. Both fail with the text of an adoption, without a
  -- call of the server, also if the controller is the NodeSet that releases it.
  release-controlled :
      (parent : NodeSet) (revision : Revision) (owner : OwnerReference) (s : S)
      → ((m : M (Revision × S) (Unit {0})) (x : Revision × S) (text : String)
          → (m x).0 ≡ err (message text)
          → client.retry_on_conflict m x ≡ m x)
      → get_controller_of revision.owner_references ≡ some owner
      → (adopt_controller_revision client parent revision s
          ≡ (err (message "attempt to adopt revision owned by"), s))
        × (release_controller_revision client parent revision s
            ≡ (err (message "attempt to adopt revision owned by"), s))
  unfolding adopt_controller_revision release_controller_revision adopt_attempt release_attempt
  release-controlled parent revision owner s at_once owned =
      let text : String = "attempt to adopt revision owned by" in
      let state : Revision × S = (revision, s) in
      let adopt = adopt_attempt client parent revision.namespace revision.name in
      let release = release_attempt client parent revision.namespace revision.name in
      let adopt_fails : adopt state ≡ (err (message text), state) = ground (arith, owned) in
      let release_fails : release state ≡ (err (message text), state) = ground (arith, owned) in
      (
        rw (at_once adopt state text (ap (λ p. p.0) adopt_fails) ∙ adopt_fails) refl,
        rw (at_once release state text (ap (λ p. p.0) release_fails) ∙ release_fails) refl,
      )

  -- If an update of a revision's number fails with a conflict, and the revision cannot be read behind
  -- it, the second attempt reports success without a call of the server.
  update_attempt-unwritten :
      (namespace name : String) (new_number : ℤ) (revision : Revision) (e : Error) (s s1 s2 : S)
      → eqb_ℤ revision.number new_number ≡ false
      → client.update_revision (record revision { number = new_number }) s ≡ (err conflict, s1)
      → client.get_revision namespace name s1 ≡ (err e, s2)
      → let first = update_attempt client namespace name new_number (revision, s) in
        (first.0 ≡ err conflict)
        × (update_attempt client namespace name new_number first.1
            ≡ (ok tt, (record revision { number = new_number }, s2)))
  unfolding update_attempt commit
  update_attempt-unwritten namespace name new_number revision e s s1 s2 differs failed unread =
      (ground (arith, differs, failed, unread), ground (arith, differs, failed, unread))
