-- ===== src/SlurmControl/Drain/Reasons.antt =====
-- Whose drain the operator takes back, and how its two questions about a drain agree
-- (upstream/slurm-operator/internal/controller/nodeset/slurmcontrol/slurmcontrol.go).
use Prim.Native.String.append
use Prim.Native.String.{◌++◌ as str_append}
use slinky_on_openshift.Prelude.{◌≡◌, refl, ap, true, false, none, some, ◌∷◌, String, arith}
use slinky_on_openshift.Prelude.Dict.{Dict}
use slinky_on_openshift.Exec.{ok}
use slinky_on_openshift.Strconv.{is_empty, has_prefix, contains}
use slinky_on_openshift.Kube.{NodeSet, Pod}
use slinky_on_openshift.Naming.{get_node_name}
use slinky_on_openshift.SlurmControl.Nodes.{
  Node, drain, undrain, has_state, UpdateNodeMsg, SlurmClient,
}
use slinky_on_openshift.SlurmControl.Client.{tolerating, lookup_client}
use slinky_on_openshift.SlurmControl.Drain.{
  node_reason_prefix, with_prefix, may_undrain, make_node_drain, make_node_undrain, is_node_drain,
  is_node_drained,
}

has_prefix-append : (p s : String) → has_prefix (str_append p s) p ≡ true
unfolding has_prefix
has_prefix-append String.[] s = refl
has_prefix-append (String.◌∷◌ c p) s = rw append.cons (ground (arith, has_prefix-append p s))

contains-append : (p s : String) → is_empty p ≡ false → contains (str_append p s) p ≡ true
unfolding contains
contains-append String.[] s h = cc
contains-append (String.◌∷◌ c p) s h = rw append.cons (ground (arith, has_prefix-append p s))

may_undrain-own :
    (node : Node) (drain_reason : String)
    → has_state node drain ≡ true
    → has_state node undrain ≡ false
    → node.reason ≡ some (with_prefix drain_reason)
    → may_undrain node ≡ true
unfolding may_undrain
may_undrain-own node drain_reason d u own =
    ground (arith, d, u, own, contains-append node_reason_prefix (String.◌∷◌ " " drain_reason) refl)

module _ {S : Type 0} (clusters : Dict (SlurmClient S)) (nodeset : NodeSet) (pod : Pod)
    (client : SlurmClient S) where
  -- the node with a message of a drain applied to it
  abbrev pub drained_by : UpdateNodeMsg → Node → Node
  drained_by msg node = record node { state = drain ∷ node.state; reason = msg.reason }

  -- The server accepts a drain of the node, with any reason, and then returns the node with the drain.
  abbrev pub Drains : Node → S → Type 0
  Drains node s =
      (msg : UpdateNodeMsg)
      → msg.state ≡ some drain
      → let (res, s') = client.update_node node msg s in
        (res ≡ ok tt) × (client.get_node (get_node_name pod) s' ≡ (ok (drained_by msg node), s'))

  drained_by-IsDrain :
      (msg : UpdateNodeMsg) (node : Node) → has_state (drained_by msg node) drain ≡ true
  unfolding has_state
  drained_by-IsDrain msg node = refl

  drained_by-undrain :
      (msg : UpdateNodeMsg) (node : Node)
      → has_state node undrain ≡ false
      → has_state (drained_by msg node) undrain ≡ false
  unfolding has_state
  drained_by-undrain msg node h = h

  -- For a node that the server has, that is not in UNDRAIN, and that it drains when it is told to:
  -- the operator's drain succeeds, and an undrain behind it, whatever the two reasons are, finds the
  -- node as its own and undrains it.
  pub make_node_undrain-of_drain :
      (drain_reason reason : String) (node : Node) (s s1 : S)
      → lookup_client clusters nodeset ≡ some client
      → client.get_node (get_node_name pod) s ≡ (ok node, s1)
      → has_state node undrain ≡ false
      → Drains node s1
      → let (res, s2) = make_node_drain clusters nodeset pod drain_reason s in
        (res ≡ ok tt)
        × ((node' : Node) × ((client.get_node (get_node_name pod) s2).0 ≡ ok node')
            × (has_state node' drain ≡ true)
            × (make_node_undrain clusters nodeset pod reason s2
                ≡ tolerating tt
                    (client.update_node node' (record {
                      comment = none;
                      state = some undrain;
                      reason = some (with_prefix reason);
                    }))
                    s2))
  unfolding make_node_drain make_node_undrain
  make_node_undrain-of_drain drain_reason reason node s s1 found read calm drains =
      let msg : UpdateNodeMsg = record {
        comment = none;
        state = some drain;
        reason = some (with_prefix drain_reason);
      } in
      let node' = drained_by msg node in
      let s2 = (client.update_node node msg s1).1 in
      let (accepted, read') = drains msg refl in
      let calm' = drained_by-undrain msg node calm in
      let drained = drained_by-IsDrain msg node in
      let own = may_undrain-own node' drain_reason drained calm' refl in
      let same : (make_node_drain clusters nodeset pod drain_reason s) ≡ (ok tt, s2) =
        ground (arith, found, read, accepted) in
      rw same (refl, (node', ap (λ p. p.0) read', drained, ground (arith, found, read', own)))

-- Where the operator takes a node as drained, it also takes it as being in DRAIN: both questions
-- read alike, also where a node or its client is missing.
is_node_drain-of_drained :
    {S : Type 0} (clusters : Dict (SlurmClient S)) (nodeset : NodeSet) (pod : Pod) (s s' : S)
    → is_node_drained clusters nodeset pod s ≡ (ok true, s')
    → is_node_drain clusters nodeset pod s ≡ (ok true, s')
unfolding is_node_drained is_node_drain
is_node_drain-of_drained clusters nodeset pod s s' h = ground arith
