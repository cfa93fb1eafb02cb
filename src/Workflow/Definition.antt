-- ===== src/Workflow/Definition.antt =====
-- lion/lion_workflow/src/model/definition.rs: the graph of a workflow. A method that changes the
-- definition returns its result and the definition afterwards, also where it fails.
pub mod Graph
pub mod Search
pub mod Building
pub mod Preservation
pub mod Isolated
pub mod Adding
pub mod Finishing
pub mod Finding
pub mod Acyclicity
pub mod Exactness
pub mod Reverting
pub mod Ordering
use liongate.Base.{
  ℕ, ◌+◌, Bool, true, false, not, ◌&&◌, ◌||◌, Option, none, some, List, [], ◌∷◌, Result, ok, err,
  if◌then◌else◌, ◌==◌, is_some, is_none, is_empty, filter, filter_map, map, length,
}
use liongate.Base.Eq.{nat_Eq}
use liongate.Base.HashMap
use liongate.Base.HashMap.{HashMap, get, contains_key, values, keys}
use liongate.Base.HashSet
use liongate.Base.Text.{Text}
use liongate.Workflow.Edge.{Edge}
use liongate.Workflow.Node
use liongate.Workflow.Node.{
  Node, NodeStatus, pending, is_pending, add_outgoing_edge, add_incoming_edge, remove_outgoing_edge,
  remove_incoming_edge,
}

pub data WorkflowError : Type 0 where
  node_not_found edge_not_found : ℕ → WorkflowError
  cycle_detected : WorkflowError
  duplicate_node duplicate_edge invalid_edge_source invalid_edge_target : ℕ → WorkflowError
  capability_violation serialization_error validation_error core_error : WorkflowError

pub record Version : Type 0 where
  pub major : ℕ
  pub minor : ℕ
  pub patch : ℕ

pub record WorkflowDefinition (J : Type 0) : Type 0 where
  pub id : ℕ
  pub name : Text
  pub description : Option Text
  pub version : Version
  pub nodes : HashMap ℕ (Node J)
  pub edges : HashMap ℕ (Edge J)
  pub start_nodes : List ℕ
  pub end_nodes : List ℕ
  pub created_at : ℕ
  pub updated_at : ℕ
  pub required_capability : Option ℕ

abbrev option_eq : Option ℕ → Option ℕ → Bool
option_eq none none = true
option_eq (some a) (some b) = a == b
option_eq _ _ = false

module _ {J : Type 0} where
  unfoldable pub new : ℕ → ℕ → Text → WorkflowDefinition J
  new now id name = record {
    id = id;
    name = name;
    description = none;
    version = record { major = 1; minor = 0; patch = 0 };
    nodes = [];
    edges = [];
    start_nodes = [];
    end_nodes = [];
    created_at = now;
    updated_at = now;
    required_capability = none;
  }

  unfoldable pub add_node :
      ℕ → WorkflowDefinition J → Node J → Result WorkflowError (Unit {0}) × WorkflowDefinition J
  add_node now d node =
      if contains_key node.id d.nodes then (err (duplicate_node node.id), d) else (
        ok tt,
        record d {
          start_nodes = HashSet.insert node.id d.start_nodes;
          end_nodes = HashSet.insert node.id d.end_nodes;
          nodes = HashMap.insert node.id node d.nodes;
          updated_at = now;
        },
      )

  abbrev no_outgoing : Option (Node J) → Bool
  no_outgoing none = false
  no_outgoing (some node) = is_empty node.outgoing_edges

  abbrev no_incoming : Option (Node J) → Bool
  no_incoming none = false
  no_incoming (some node) = is_empty node.incoming_edges

  -- `remove_edge` where the edge is there.
  unfoldable pub detach : ℕ → WorkflowDefinition J → ℕ → Edge J → WorkflowDefinition J
  detach now d edge_id edge =
      let nodes = HashMap.modify edge.source (λ n. (remove_outgoing_edge n edge_id).0) d.nodes in
      let nodes' = HashMap.modify edge.target (λ n. (remove_incoming_edge n edge_id).0) nodes in
      record d {
        edges = HashMap.remove edge_id d.edges;
        nodes = nodes';
        end_nodes =
            if no_outgoing (get edge.source nodes)
            then HashSet.insert edge.source d.end_nodes
            else d.end_nodes;
        start_nodes =
            if no_incoming (get edge.target nodes')
            then HashSet.insert edge.target d.start_nodes
            else d.start_nodes;
        updated_at = now;
      }

  unfoldable pub remove_edge :
      ℕ → WorkflowDefinition J → ℕ → Result WorkflowError (Edge J) × WorkflowDefinition J
  unfolding detach
  remove_edge now d edge_id = elim (get edge_id d.edges) [
    | none ↦ (err (edge_not_found edge_id), d)
    | some edge ↦ (ok edge, detach now d edge_id edge)
  ]

  abbrev capability_of : Option (Node J) → Option ℕ
  capability_of none = none
  capability_of (some node) = node.required_capability

  unfoldable pub validate_edge_capabilities :
      WorkflowDefinition J → Edge J → Result WorkflowError (Unit {0})
  validate_edge_capabilities d edge =
      let source_cap = capability_of (get edge.source d.nodes) in
      let target_cap = capability_of (get edge.target d.nodes) in
      if is_none source_cap && is_none target_cap
      then ok tt
      else if not (option_eq source_cap target_cap) && is_none edge.required_capability
      then err capability_violation
      else ok tt

  pub get_node : WorkflowDefinition J → ℕ → Option (Node J)
  get_node d node_id = get node_id d.nodes

  pub get_edge : WorkflowDefinition J → ℕ → Option (Edge J)
  get_edge d edge_id = get edge_id d.edges

  -- The edges of these identifiers that are there.
  abbrev found_edges : WorkflowDefinition J → List ℕ → List (Edge J)
  found_edges d edge_ids = filter_map (λ edge_id. get edge_id d.edges) edge_ids

  unfoldable pub get_outgoing_edges :
      WorkflowDefinition J → ℕ → Result WorkflowError (List (Edge J))
  get_outgoing_edges d node_id = elim (get node_id d.nodes) [
    | none ↦ err (node_not_found node_id)
    | some node ↦ ok (found_edges d node.outgoing_edges)
  ]

  unfoldable pub get_incoming_edges :
      WorkflowDefinition J → ℕ → Result WorkflowError (List (Edge J))
  get_incoming_edges d node_id = elim (get node_id d.nodes) [
    | none ↦ err (node_not_found node_id)
    | some node ↦ ok (found_edges d node.incoming_edges)
  ]

  unfoldable pub get_child_nodes : WorkflowDefinition J → ℕ → Result WorkflowError (List (Node J))
  get_child_nodes d node_id = elim (get node_id d.nodes) [
    | none ↦ err (node_not_found node_id)
    | some node ↦
        ok (filter_map (λ edge. get edge.target d.nodes) (found_edges d node.outgoing_edges))
  ]

  unfoldable pub get_parent_nodes : WorkflowDefinition J → ℕ → Result WorkflowError (List (Node J))
  get_parent_nodes d node_id = elim (get node_id d.nodes) [
    | none ↦ err (node_not_found node_id)
    | some node ↦
        ok (filter_map (λ edge. get edge.source d.nodes) (found_edges d node.incoming_edges))
  ]

  unfoldable pub get_ready_nodes : WorkflowDefinition J → List (Node J)
  get_ready_nodes d =
      filter (λ node. (node.in_degree == 0) && is_pending node.status) (values d.nodes)

  abbrev reset_nodes : HashMap ℕ (Node J) → HashMap ℕ (Node J)
  reset_nodes [] = []
  reset_nodes ((id, node) ∷ nodes) = (id, record node { status = pending }) ∷ reset_nodes nodes

  unfoldable pub reset : WorkflowDefinition J → WorkflowDefinition J
  reset d = record d { nodes = reset_nodes d.nodes }
