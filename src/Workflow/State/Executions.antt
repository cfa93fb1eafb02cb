-- ===== src/Workflow/State/Executions.antt =====
-- The executions of a workflow: the states that calls of the operations reach, in any order and at
-- any times.
use liongate.Base.{ℕ, true, ◌≡◌, ◌↔◌, some, List, ok, ◌∈◌, arith, is_some_and, is_some, count-none}
use liongate.Base.Eq.{nat_Eq}
use liongate.Base.HashMap.{get, values}
use liongate.Base.Text.{Text}
use liongate.Workflow.Definition.{WorkflowDefinition}
use liongate.Workflow.Definition.Graph.{IsGraph}
use liongate.Workflow.Edge.{Edge}
use liongate.Workflow.Node.{NodeStatus, completed}
use liongate.Workflow.State.{
  ConditionResult, WorkflowState, get_node_status, get_node_in_degree, is_node_ready, new, reset,
  set_node_running, set_node_completed, set_node_failed, set_edge_condition,
}
use liongate.Workflow.State.Dependencies.{is_open, open_dependencies}
use liongate.Workflow.State.Invariant.{is_begun, IsValid, new-IsValid, reset-IsValid}
use liongate.Workflow.State.Calls.{
  set_node_running-IsValid, set_node_failed-IsValid, set_edge_condition-IsValid,
}
use liongate.Workflow.State.Completion.{set_node_completed-IsValid}

module _ {J : Type 0} where
  -- A call that changes the state.
  pub data Step (s t : WorkflowState J) : Type 0 where
    runs : (now n : ℕ) → set_node_running now s n ≡ ok t → Step s t
    completes :
        (now n : ℕ) (result : J) (newly_ready : List ℕ)
        → set_node_completed now s n result ≡ ok (t, newly_ready)
        → Step s t
    fails : (now n : ℕ) (reason : J) → set_node_failed now s n reason ≡ ok t → Step s t
    judges :
        (now edge_id : ℕ) (result : ConditionResult)
        → set_edge_condition now s edge_id result ≡ ok t
        → Step s t
    resets : (now : ℕ) → t ≡ reset now s → Step s t

  pub data IsReachable (null : J) (d : WorkflowDefinition J) : WorkflowState J → Type 0 where
    begins : (now : ℕ) (instance_id : Text) → IsReachable null d (new null now instance_id d)
    continues : {s t : WorkflowState J} → IsReachable null d s → Step s t → IsReachable null d t

  module _ (null : J) (d : WorkflowDefinition J) (graph : IsGraph d) where
    Step-IsValid : {s t : WorkflowState J} → Step s t → IsValid d s → IsValid d t
    Step-IsValid {s} {t} (runs now n h) v = set_node_running-IsValid d now s t n h v
    Step-IsValid {s} {t} (completes now n result newly_ready h) v =
        set_node_completed-IsValid d graph now s t n result newly_ready h v
    Step-IsValid {s} {t} (fails now n reason h) v = set_node_failed-IsValid d now s t n reason h v
    Step-IsValid {s} {t} (judges now edge_id result h) v =
        set_edge_condition-IsValid d now s t edge_id result h v
    Step-IsValid {s} (resets now e) v = rw e (reset-IsValid d graph now s v)

    pub IsReachable-IsValid : {s : WorkflowState J} → IsReachable null d s → IsValid d s
    IsReachable-IsValid (begins now instance_id) = new-IsValid d graph null now instance_id
    IsReachable-IsValid (continues r step) = Step-IsValid step (IsReachable-IsValid r)

    -- In every execution of a graph, the ready nodes are exactly the pending nodes whose counter is 0.
    pub ready_exact :
        (s : WorkflowState J) (n : ℕ)
        → IsReachable null d s
        → (is_node_ready s n ≡ true)
          ↔ ((get_node_status s n ≡ some NodeStatus.pending) × (get_node_in_degree s n ≡ some 0))
    ready_exact s n r =
        let c = (IsReachable-IsValid r).nodes n in
        (λ h. (ground (arith, c.exact), ground (arith, c.exact)), λ h. ground (arith, c.exact, h))

    -- In every execution of a graph, the counter of a node of the workflow is the number of edges to it
    -- whose source has not completed.
    pub in_degree_counts :
        (s : WorkflowState J) (n : ℕ)
        → IsReachable null d s
        → is_some (get n d.nodes) ≡ true
        → get_node_in_degree s n ≡ some (open_dependencies d.edges s.node_status n)
    in_degree_counts s n r h = ground (arith, ((IsReachable-IsValid r).nodes n).counted, h)

    -- In every execution of a graph, a node runs, has completed or has failed only if the sources of
    -- all edges to it have completed.
    pub dependencies_first :
        (s : WorkflowState J) (e : Edge J)
        → IsReachable null d s
        → e ∈ values d.edges
        → is_some_and is_begun (get_node_status s e.target) ≡ true
        → get_node_status s e.source ≡ some completed
    dependencies_first s e r m begun =
        let c = (IsReachable-IsValid r).nodes e.target in
        let closed =
          count-none (is_open s.node_status e.target)
            (ground (arith, c.begun begun, c.counted, c.known)) m in
        ground (arith, closed)
