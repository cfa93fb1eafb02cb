-- ===== src/Workflow/State.antt =====
-- lion/lion_workflow/src/state/machine.rs: the state of an execution of a workflow. Its errors carry
-- the identifiers and statuses that the program prints.
pub mod Activation
pub mod Flags
pub mod Outcome
pub mod Ending
pub mod Newly
pub mod Progress
pub mod Executions
pub mod Completion
pub mod Invariant
pub mod Calls
pub mod Dependencies
pub mod Start
use liongate.Base.{
  ℕ, ◌-◌, Bool, true, false, not, ◌&&◌, ◌||◌, Option, none, some, List, [], ◌∷◌, ◌++◌, Result, ok,
  err, if◌then◌else◌, ◌==◌, ltb, all,
}
use liongate.Base.Eq.{nat_Eq}
use liongate.Base.HashMap.{HashMap, get, contains_key, values}
use liongate.Base.HashMap
use liongate.Base.HashSet
use liongate.Base.Text.{Text}
use liongate.Workflow.Definition.{WorkflowDefinition}
use liongate.Workflow.Edge.{Edge}
use liongate.Workflow.Node.{Node, NodeStatus, ready, running, completed, skipped, is_pending}

pub data StateMachineError : Type 0 where
  node_not_found edge_not_found workflow_not_found node_not_ready : ℕ → StateMachineError
  invalid_transition : (from to : NodeStatus) → StateMachineError
  checkpoint_error : StateMachineError
  other : Text → StateMachineError

pub data ConditionResult : Type 0 where
  passed failed pending error : ConditionResult

pub record WorkflowState (J : Type 0) : Type 0 where
  pub definition : Option (WorkflowDefinition J)
  pub workflow_id : ℕ
  pub instance_id : Text
  pub node_status : HashMap ℕ NodeStatus
  pub node_in_degree : HashMap ℕ ℕ
  pub node_results : HashMap ℕ J
  pub edge_conditions : HashMap ℕ ConditionResult
  pub ready_nodes : List ℕ
  pub created_at : ℕ
  pub updated_at : ℕ
  pub is_completed : Bool
  pub has_failed : Bool
  pub metadata : J

-- The statuses from which a node completes or fails.
abbrev pub is_active : NodeStatus → Bool
is_active running = true
is_active ready = true
is_active _ = false

abbrev pub is_terminal : NodeStatus → Bool
is_terminal completed = true
is_terminal NodeStatus.failed = true
is_terminal skipped = true
is_terminal _ = false

module _ {J : Type 0} where
  -- The body of the loops of `new` and `reset`.
  unfoldable pub enter : WorkflowState J → ℕ → Node J → WorkflowState J
  enter s id node = record s {
    node_status = HashMap.insert id NodeStatus.pending s.node_status;
    node_in_degree = HashMap.insert id node.in_degree s.node_in_degree;
    ready_nodes = if node.in_degree == 0 then HashSet.insert id s.ready_nodes else s.ready_nodes;
  }

  unfoldable pub enter_all : HashMap ℕ (Node J) → WorkflowState J → WorkflowState J
  unfolding enter
  enter_all [] s = s
  enter_all ((id, node) ∷ nodes) s = enter_all nodes (enter s id node)

  unfoldable pub new : J → ℕ → Text → WorkflowDefinition J → WorkflowState J
  unfolding enter_all
  new null now instance_id definition = enter_all definition.nodes (record {
    definition = some definition;
    workflow_id = definition.id;
    instance_id = instance_id;
    node_status = [];
    node_in_degree = [];
    node_results = [];
    edge_conditions = [];
    ready_nodes = [];
    created_at = now;
    updated_at = now;
    is_completed = false;
    has_failed = false;
    metadata = null;
  })

  abbrev pub get_node_status : WorkflowState J → ℕ → Option NodeStatus
  get_node_status s node_id = get node_id s.node_status

  abbrev pub get_node_in_degree : WorkflowState J → ℕ → Option ℕ
  get_node_in_degree s node_id = get node_id s.node_in_degree

  abbrev pub is_node_ready : WorkflowState J → ℕ → Bool
  is_node_ready s node_id = HashSet.contains node_id s.ready_nodes

  unfoldable pub set_node_running :
      ℕ → WorkflowState J → ℕ → Result StateMachineError (WorkflowState J)
  set_node_running now s node_id =
      if not (contains_key node_id s.node_status)
      then err (node_not_found node_id)
      else if not (HashSet.contains node_id s.ready_nodes)
      then err (node_not_ready node_id)
      else ok (record s {
        node_status = HashMap.insert node_id running s.node_status;
        ready_nodes = HashSet.remove node_id s.ready_nodes;
        updated_at = now;
      })

  -- A target loses a dependency, of which `in_degree` were left.
  unfoldable pub decrease : WorkflowState J → ℕ → ℕ → WorkflowState J × List ℕ
  decrease s target in_degree =
      let s' = record s {
        node_in_degree = HashMap.insert target (in_degree - 1) s.node_in_degree;
      } in
      if not (in_degree - 1 == 0) then (s', []) else elim (get target s.node_status) [
        | none ↦ (s', [])
        | some status ↦
            if is_pending status
            then (record s' { ready_nodes = HashSet.insert target s.ready_nodes }, target ∷ [])
            else (s', [])
      ]

  -- The body of the loop of `set_node_completed` for an edge to `target`.
  unfoldable pub activate : WorkflowState J → ℕ → WorkflowState J × List ℕ
  unfolding decrease
  activate s target = elim (get target s.node_in_degree) [
    | none ↦ (s, [])
    | some in_degree ↦ if ltb 0 in_degree then decrease s target in_degree else (s, [])
  ]

  abbrev activate_edge : WorkflowState J → Option (Edge J) → WorkflowState J × List ℕ
  activate_edge s none = (s, [])
  activate_edge s (some edge) = activate s edge.target

  -- The loop over the outgoing edges: the state, and the nodes that became ready.
  unfoldable pub activate_all :
      HashMap ℕ (Edge J) → List ℕ → WorkflowState J → WorkflowState J × List ℕ
  unfolding activate
  activate_all edges [] s = (s, [])
  activate_all edges (edge_id ∷ edge_ids) s =
      let (s', newly_ready) = activate_edge s (get edge_id edges) in
      let (s'', later) = activate_all edges edge_ids s' in (s'', newly_ready ++ later)

  unfoldable pub check_workflow_completion : WorkflowState J → WorkflowState J
  check_workflow_completion s =
      if s.has_failed
      then s
      else if all is_terminal (values s.node_status)
      then record s { is_completed = true }
      else s

  -- The loop, where there is a definition that has the node.
  unfoldable pub activate_next : ℕ → WorkflowState J → WorkflowState J × List ℕ
  unfolding activate_all
  activate_next node_id s = elim s.definition [
    | none ↦ (s, [])
    | some definition ↦ elim (get node_id definition.nodes) [
      | none ↦ (s, [])
      | some node ↦ activate_all definition.edges node.outgoing_edges s
    ]
  ]

  unfoldable pub complete :
      ℕ → WorkflowState J → ℕ → J → NodeStatus → Result StateMachineError (WorkflowState J × List ℕ)
  unfolding activate_next check_workflow_completion
  complete now s node_id result current_status =
      if not (is_active current_status)
      then err (invalid_transition current_status completed)
      else (let (s', newly_ready) = activate_next node_id (record s {
        node_status = HashMap.insert node_id completed s.node_status;
        node_results = HashMap.insert node_id result s.node_results;
        updated_at = now;
      }) in
          ok (check_workflow_completion s', newly_ready))

  unfoldable pub set_node_completed :
      ℕ → WorkflowState J → ℕ → J → Result StateMachineError (WorkflowState J × List ℕ)
  unfolding complete
  set_node_completed now s node_id result = elim (get node_id s.node_status) [
    | none ↦ err (node_not_found node_id)
    | some current_status ↦ complete now s node_id result current_status
  ]

  unfoldable pub fail :
      ℕ → WorkflowState J → ℕ → J → NodeStatus → Result StateMachineError (WorkflowState J)
  unfolding check_workflow_completion
  fail now s node_id reason current_status =
      if not (is_active current_status)
      then err (invalid_transition current_status NodeStatus.failed)
      else ok (
          check_workflow_completion (record s {
            node_status = HashMap.insert node_id NodeStatus.failed s.node_status;
            node_results = HashMap.insert node_id reason s.node_results;
            ready_nodes = HashSet.remove node_id s.ready_nodes;
            has_failed = true;
            updated_at = now;
          }))

  unfoldable pub set_node_failed :
      ℕ → WorkflowState J → ℕ → J → Result StateMachineError (WorkflowState J)
  unfolding fail
  set_node_failed now s node_id reason = elim (get node_id s.node_status) [
    | none ↦ err (node_not_found node_id)
    | some current_status ↦ fail now s node_id reason current_status
  ]

  abbrev misses_edge : Option (WorkflowDefinition J) → ℕ → Bool
  misses_edge none edge_id = false
  misses_edge (some definition) edge_id = not (contains_key edge_id definition.edges)

  unfoldable pub set_edge_condition :
      ℕ → WorkflowState J → ℕ → ConditionResult → Result StateMachineError (WorkflowState J)
  set_edge_condition now s edge_id result =
      if misses_edge s.definition edge_id
      then err (edge_not_found edge_id)
      else ok (record s {
        edge_conditions = HashMap.insert edge_id result s.edge_conditions;
        updated_at = now;
      })

  unfoldable pub reset : ℕ → WorkflowState J → WorkflowState J
  unfolding enter_all
  reset now s =
      let s' = record s {
        updated_at = now;
        is_completed = false;
        has_failed = false;
        ready_nodes = [];
        node_results = [];
        edge_conditions = [];
      } in
      elim s.definition [ none ↦ s' | some definition ↦ enter_all definition.nodes s' ]
