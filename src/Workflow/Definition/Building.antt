-- ===== src/Workflow/Definition/Building.antt =====
-- lion/lion_workflow/src/model/definition.rs: the methods that call the search for a cycle or each
-- other, `add_edge` and `remove_node`.
use liongate.Base.{
  ℕ, not, ◌||◌, none, some, List, [], ◌∷◌, Result, ok, err, if◌then◌else◌, ◌==◌, filter, map,
}
use liongate.Base.Eq.{nat_Eq}
use liongate.Base.HashMap
use liongate.Base.HashMap.{HashMap, get, contains_key, values}
use liongate.Base.HashSet
use liongate.Workflow.Definition.{
  WorkflowError, node_not_found, cycle_detected, duplicate_edge, invalid_edge_source,
  invalid_edge_target, WorkflowDefinition, remove_edge, validate_edge_capabilities,
}
use liongate.Workflow.Definition.Search.{has_cycle}
use liongate.Workflow.Edge.{Edge}
use liongate.Workflow.Node.{Node, add_outgoing_edge, add_incoming_edge}

module _ {J : Type 0} where
  -- The definition with the edge, before the search for a cycle.
  unfoldable pub attach : ℕ → WorkflowDefinition J → Edge J → WorkflowDefinition J
  attach now d edge = record d {
    nodes =
        HashMap.modify edge.target (λ n. add_incoming_edge n edge.id)
          (HashMap.modify edge.source (λ n. add_outgoing_edge n edge.id) d.nodes);
    end_nodes = HashSet.remove edge.source d.end_nodes;
    start_nodes = HashSet.remove edge.target d.start_nodes;
    edges = HashMap.insert edge.id edge d.edges;
    updated_at = now;
  }

  -- `self.remove_edge(&edge_id_clone)?` and the error after it.
  abbrev pub reverted :
      Result WorkflowError (Edge J) × WorkflowDefinition J
      → Result WorkflowError (Unit {0}) × WorkflowDefinition J
  reverted (err reason, d) = (err reason, d)
  reverted (ok edge, d) = (err cycle_detected, d)

  -- What follows the checks.
  unfoldable pub insert_edge :
      ℕ → WorkflowDefinition J → Edge J → Result WorkflowError (Unit {0}) × WorkflowDefinition J
  unfolding attach
  insert_edge now d edge =
      let d' = attach now d edge in
      if has_cycle d' then reverted (remove_edge now d' edge.id) else (ok tt, d')

  unfoldable pub add_edge :
      ℕ → WorkflowDefinition J → Edge J → Result WorkflowError (Unit {0}) × WorkflowDefinition J
  unfolding insert_edge
  add_edge now d edge =
      if contains_key edge.id d.edges
      then (err (duplicate_edge edge.id), d)
      else if not (contains_key edge.source d.nodes)
      then (err (invalid_edge_source edge.source), d)
      else if not (contains_key edge.target d.nodes)
      then (err (invalid_edge_target edge.target), d)
      else elim (validate_edge_capabilities d edge) [
        | err reason ↦ (err reason, d)
        | ok _ ↦ insert_edge now d edge
      ]

  unfoldable remove_edges :
      ℕ → WorkflowDefinition J → List ℕ → Result WorkflowError (Unit {0}) × WorkflowDefinition J
  remove_edges now d [] = (ok tt, d)
  remove_edges now d (edge_id ∷ edge_ids) =
      let (result, d') = remove_edge now d edge_id in
      elim result [ err reason ↦ (err reason, d') | ok _ ↦ remove_edges now d' edge_ids ]

  abbrev removed :
      ℕ
      → ℕ
      → Node J
      → Result WorkflowError (Unit {0}) × WorkflowDefinition J
      → Result WorkflowError (Node J) × WorkflowDefinition J
  removed now node_id node (err reason, d) = (err reason, d)
  removed now node_id node (ok _, d) = (
    ok node,
    record d {
      start_nodes = HashSet.remove node_id d.start_nodes;
      end_nodes = HashSet.remove node_id d.end_nodes;
      updated_at = now;
    },
  )

  abbrev edge_id_of : Edge J → ℕ
  edge_id_of e = e.id

  unfoldable pub remove_node :
      ℕ → WorkflowDefinition J → ℕ → Result WorkflowError (Node J) × WorkflowDefinition J
  unfolding remove_edges
  remove_node now d node_id = elim (get node_id d.nodes) [
    | none ↦ (err (node_not_found node_id), d)
    | some node ↦ removed now node_id node (
        remove_edges now (record d { nodes = HashMap.remove node_id d.nodes })
          (map edge_id_of
            (filter (λ e. (e.source == node_id) || (e.target == node_id)) (values d.edges))))
  ]
