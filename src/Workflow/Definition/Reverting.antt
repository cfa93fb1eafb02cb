-- ===== src/Workflow/Definition/Reverting.antt =====
-- What `add_edge` leaves behind where it finds a cycle.
use liongate.Base.{
  ℕ, Bool, true, false, ◌≡◌, refl, some, Result, err, ◌==◌, arith, if◌then◌else◌, Option-cases, inl,
  inr,
}
use mathlib.Core.Option
use liongate.Base.Eq.{nat_Eq}
use liongate.Base.HashMap.{HashMap, get, get-insert, get-modify, get-insert_self}
use liongate.Base.HashMap
use liongate.Base.HashSet.{contains-insert}
use liongate.Workflow.Definition.{
  WorkflowError, cycle_detected, WorkflowDefinition, validate_edge_capabilities, remove_edge,
  detach,
}
use liongate.Workflow.Definition.Building.{attach, insert_edge, add_edge}
use liongate.Workflow.Definition.Preservation.{with_edge, get-attach}
use liongate.Workflow.Edge.{Edge}
use liongate.Workflow.Node.{
  Node, ready, is_ready, add_outgoing_edge, add_incoming_edge, increment_in_degree,
  decrement_in_degree, remove_outgoing_edge, remove_incoming_edge,
}

abbrev is_cycle_detected : Result WorkflowError (Unit {0}) → Bool
is_cycle_detected (err cycle_detected) = true
is_cycle_detected _ = false

module _ {J : Type 0} where
  -- The node `edge.target` once the edge has come and gone.
  abbrev returned : Edge J → Node J → Node J
  returned edge node =
      let node' = with_edge edge.target edge node in
      let node'' =
        if edge.source == edge.target then (remove_outgoing_edge node' edge.id).0 else node' in
      (remove_incoming_edge node'' edge.id).0

  get-detach :
      (now : ℕ) (d : WorkflowDefinition J) (edge : Edge J)
      → get edge.target (detach now (attach now d edge) edge.id edge).nodes
        ≡ Option.map (returned edge) (get edge.target d.nodes)
  unfolding detach
  get-detach now d edge = elim (Option-cases (get edge.target d.nodes)) [
    | inl missing ↦ ground (arith, missing, get-attach now edge.target d edge, by_target, by_source)
    | inr (node, found) ↦
        ground (arith, found, get-attach now edge.target d edge, by_target, by_source)
  ]
    where
      left : HashMap ℕ (Node J)
      left =
          HashMap.modify edge.source (λ n. (remove_outgoing_edge n edge.id).0)
            (attach now d edge).nodes

      by_source : get edge.target left ≡ (
          if edge.source == edge.target
          then Option.map
              (λ n. (remove_outgoing_edge n edge.id).0)
              (get edge.target (attach now d edge).nodes)
          else get edge.target (attach now d edge).nodes)
      by_source =
          get-modify edge.target edge.source (λ n. (remove_outgoing_edge n edge.id).0)
            (attach now d edge).nodes

      by_target :
          get edge.target (detach now (attach now d edge) edge.id edge).nodes
          ≡ Option.map (λ n. (remove_incoming_edge n edge.id).0) (get edge.target left)
      by_target =
          ground (
            arith,
            get-modify edge.target edge.target (λ n. (remove_incoming_edge n edge.id).0) left,
          )

  returned_ready :
      (edge : Edge J) (node : Node J)
      → is_ready node ≡ true
      → ((returned edge node).status ≡ ready) × ((returned edge node).in_degree ≡ 0)
  unfolding add_outgoing_edge add_incoming_edge increment_in_degree decrement_in_degree
      remove_outgoing_edge remove_incoming_edge
  returned_ready edge node h = (
    ground (arith, contains-insert edge.id edge.id node.incoming_edges),
    ground (arith, contains-insert edge.id edge.id node.incoming_edges),
  )

  insert_edge_cyclic :
      (now : ℕ) (d : WorkflowDefinition J) (edge : Edge J)
      → is_cycle_detected (insert_edge now d edge).0 ≡ true
      → (insert_edge now d edge).1 ≡ detach now (attach now d edge) edge.id edge
  unfolding insert_edge remove_edge attach
  insert_edge_cyclic now d edge h = ground (arith, get-insert_self edge.id edge d.edges)

  refused-detach :
      (now : ℕ) (d : WorkflowDefinition J) (edge : Edge J)
      → is_cycle_detected (add_edge now d edge).0 ≡ true
      → (add_edge now d edge).1 ≡ detach now (attach now d edge) edge.id edge
  unfolding add_edge validate_edge_capabilities
  refused-detach now d edge h = ground (arith, insert_edge_cyclic now d edge)

  -- Where `add_edge` refuses an edge as closing a cycle and the node that it leads to was pending with
  -- no dependency, that node is left ready, with no dependency: it is not among the nodes that
  -- `is_ready` accepts any more.
  pub refused_edge_changes_target :
      (now : ℕ) (d : WorkflowDefinition J) (edge : Edge J) (node : Node J)
      → (add_edge now d edge).0 ≡ err cycle_detected
      → get edge.target d.nodes ≡ some node
      → is_ready node ≡ true
      → (node' : Node J) × (get edge.target (add_edge now d edge).1.nodes ≡ some node')
        × (node'.status ≡ ready)
        × (node'.in_degree ≡ 0)
        × (is_ready node' ≡ false)
  refused_edge_changes_target now d edge node h found pending_node =
      let (is_now_ready, free) = returned_ready edge node pending_node in
      (
        returned edge node,
        rw (refused-detach now d edge (rw h refl), get-detach now d edge, found) refl,
        is_now_ready,
        free,
        ground (arith, is_now_ready),
      )
