-- ===== src/Workflow/State/Newly.antt =====
-- The nodes that `set_node_completed` returns.
use liongate.Base.{
  ℕ, false, not, ◌&&◌, ◌||◌, ◌≡◌, refl, ap, Option, none, some, List, [], ◌∷◌, ◌++◌, inl, inr,
  Option-cases, arith, ok,
}
use liongate.Base.Eq.{nat_Eq}
use liongate.Base.HashMap.{HashMap, get, get-insert}
use liongate.Base.HashSet.{contains, contains-insert}
use liongate.Workflow.Edge.{Edge}
use liongate.Workflow.State.{WorkflowState, is_node_ready, activate, activate_edge, activate_all}
use liongate.Workflow.Definition.{WorkflowDefinition}
use liongate.Workflow.Definition.Graph.{IsGraph}
use liongate.Workflow.Node.{completed}
use liongate.Workflow.State.{set_node_completed, check_workflow_completion}
use liongate.Workflow.State.Completion.{marked, activated, set_node_completed-IsCompletion}
use liongate.Workflow.State.Executions.{IsReachable, IsReachable-IsValid}
use liongate.Workflow.State.Activation.{IsExact, activate_edge-IsExact}

contains-append :
    (n : ℕ) (xs ys : List ℕ) → contains n (xs ++ ys) ≡ (contains n xs || contains n ys)
contains-append n [] ys = refl
contains-append n (x ∷ xs) ys = ground (arith, contains-append n xs ys)

module _ {J : Type 0} where
  -- The nodes of a list are those that one state has ready and the state before had not.
  abbrev IsNewly : WorkflowState J → WorkflowState J × List ℕ → ℕ → Type 0
  IsNewly s (t, newly_ready) n =
      (contains n newly_ready ≡ (is_node_ready t n && not (is_node_ready s n)))
      × ((is_node_ready s n && not (is_node_ready t n)) ≡ false)

  activate-IsNewly :
      (s : WorkflowState J) (target n : ℕ) → IsExact s n → IsNewly s (activate s target) n
  unfolding activate
  activate-IsNewly s target n h = elim (Option-cases (get target s.node_in_degree)) [
    | inl e ↦ (ground (arith, e), ground (arith, e))
    | inr (k, e) ↦ (
      ground (
        arith,
        e,
        h,
        ap (λ i. get i s.node_in_degree) {x = target} {y = n},
        contains-insert n target s.ready_nodes,
      ),
      ground (arith, e, contains-insert n target s.ready_nodes),
    )
  ]

  activate_edge-IsNewly :
      (s : WorkflowState J) (o : Option (Edge J)) (n : ℕ)
      → IsExact s n
      → IsNewly s (activate_edge s o) n
  activate_edge-IsNewly s none n h = (ground arith, ground arith)
  activate_edge-IsNewly s (some edge) n h = activate-IsNewly s edge.target n h

  pub activate_all-IsNewly :
      (edges : HashMap ℕ (Edge J)) (edge_ids : List ℕ) (s : WorkflowState J) (n : ℕ)
      → IsExact s n
      → IsNewly s (activate_all edges edge_ids s) n
  unfolding activate_all
  activate_all-IsNewly edges [] s n h = (ground arith, ground arith)
  activate_all-IsNewly edges (edge_id ∷ edge_ids) s n h =
      let (newly, kept) = activate_edge-IsNewly s (get edge_id edges) n h in
      let s' = (activate_edge s (get edge_id edges)).0 in
      let (later, kept') =
        activate_all-IsNewly edges edge_ids s' n
          (activate_edge-IsExact s (get edge_id edges) n h) in
      (
        ground (
          arith,
          newly,
          kept,
          later,
          kept',
          contains-append n (activate_edge s (get edge_id edges)).1
              (activate_all edges edge_ids s').1,
        ),
        ground (arith, kept, kept'),
      )

  check_ready :
      (s : WorkflowState J) (n : ℕ)
      → is_node_ready (check_workflow_completion s) n ≡ is_node_ready s n
  unfolding check_workflow_completion
  check_ready s n = ground arith

  -- In an execution of a graph, a call of `set_node_completed` that succeeds returns exactly the nodes
  -- that are ready after it and were not before.
  pub newly_ready_exact :
      (null : J) (d : WorkflowDefinition J) (graph : IsGraph d) (now : ℕ) (s t : WorkflowState J)
      (m : ℕ) (result : J) (newly_ready : List ℕ) (n : ℕ)
      → IsReachable null d s
      → set_node_completed now s m result ≡ ok (t, newly_ready)
      → contains n newly_ready ≡ (is_node_ready t n && not (is_node_ready s n))
  newly_ready_exact null d graph now s t m result newly_ready n r h =
      let v = IsReachable-IsValid null d graph r in
      let c = set_node_completed-IsCompletion d graph now s t m result newly_ready h v in
      let exact : IsExact (marked d graph now s m result) n =
        ground (arith, get-insert n m completed s.node_status, (v.nodes n).exact, c.idle) in
      let newly =
        activate_all-IsNewly d.edges c.node.outgoing_edges (marked d graph now s m result) n
          exact in
      let u = activated d graph now s m result c.node in
      ground (
        arith,
        ap (contains n) c.returned,
        newly.0,
        ap (λ x. is_node_ready x n) c.outcome,
        check_ready u n,
      )
