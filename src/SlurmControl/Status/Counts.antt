-- ===== src/SlurmControl/Status/Counts.antt =====
-- What the counts of `CalculateNodeStatus` add up to
-- (upstream/slurm-operator/internal/controller/nodeset/slurmcontrol/slurmcontrol.go).
use slinky_on_openshift.Prelude.{
  ℕ, ◌+◌, ◌≡◌, refl, Bool, ◌&&◌, ◌||◌, List, [], ◌∷◌, arith, Bool-cases, inl, inr,
}
use slinky_on_openshift.Kube.{Pod}
use slinky_on_openshift.SlurmControl.Nodes.{NodeState, Node, has_state}
use slinky_on_openshift.SlurmControl.Status.{
  SlurmNodeStatus, no_nodes, count_base_state, count_flag_states, one_if, is_listed, count_nodes,
}

-- how many of the nodes have the property
pub count_if : (Node → Bool) → List Node → ℕ
count_if p [] = 0
count_if p (node ∷ nodes) = one_if (p node) + count_if p nodes

-- the nodes in use: the sum of the base states but for those without one
abbrev pub base_states : SlurmNodeStatus → ℕ
base_states s = s.allocated + s.down + s.error + s.future + s.idle + s.mixed + s.unknown

abbrev pub has_base_state : Node → Bool
has_base_state node =
    has_state node NodeState.allocated
    || has_state node NodeState.down
    || has_state node NodeState.error
    || has_state node NodeState.future
    || has_state node NodeState.idle
    || has_state node NodeState.mixed
    || has_state node NodeState.unknown

base-count_base_state :
    (node : Node) (s : SlurmNodeStatus)
    → base_states (count_base_state node s) ≡ base_states s + one_if (has_base_state node)
unfolding count_base_state
base-count_base_state node s = ground arith

rest-count_base_state :
    (node : Node) (s : SlurmNodeStatus)
    → ((count_base_state node s).total ≡ s.total) × ((count_base_state node s).drain ≡ s.drain)
unfolding count_base_state
rest-count_base_state node s = ground arith

counted-count_flag_states :
    (node : Node) (s : SlurmNodeStatus)
    → (base_states (count_flag_states node s) ≡ base_states s)
      × ((count_flag_states node s).total ≡ s.total)
      × ((count_flag_states node s).drain ≡ s.drain + one_if (has_state node NodeState.drain))
unfolding count_flag_states
counted-count_flag_states node s = (refl, refl, refl)

module _ (pods : List Pod) where
  abbrev pub listed_base : Node → Bool
  listed_base node = is_listed pods node && has_base_state node

  abbrev pub listed_drain : Node → Bool
  listed_drain node = is_listed pods node && has_state node NodeState.drain

  counted :
      (nodes : List Node) (s : SlurmNodeStatus)
      → let r = count_nodes pods nodes s in
        (r.total ≡ s.total + count_if (is_listed pods) nodes)
        × (base_states r ≡ base_states s + count_if listed_base nodes)
        × (r.drain ≡ s.drain + count_if listed_drain nodes)
  unfolding count_nodes count_if
  counted [] s = omega arith
  counted (node ∷ nodes) s = elim (Bool-cases (is_listed pods node)) [
    | inl listed ↦
        let t = record s { total = s.total + 1 } in
        let b = count_base_state node t in
        ground (
          arith,
          listed,
          counted nodes (count_flag_states node b),
          counted-count_flag_states node b,
          base-count_base_state node t,
          rest-count_base_state node t,
        )
    | inr other ↦ ground (arith, other, counted nodes s)
  ]

  -- The total is the number of listed nodes that are behind a pod. Of these, the base-state counts
  -- add up to the number of nodes with a base state, so no node is counted twice, and the drain
  -- count is the number of nodes in DRAIN.
  pub count_nodes_lem :
      (nodes : List Node)
      → let r = count_nodes pods nodes no_nodes in
        (r.total ≡ count_if (is_listed pods) nodes)
        × (base_states r ≡ count_if listed_base nodes)
        × (r.drain ≡ count_if listed_drain nodes)
  count_nodes_lem nodes = omega (arith, counted nodes no_nodes)
