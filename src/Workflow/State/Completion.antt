-- ===== src/Workflow/State/Completion.antt =====
-- `set_node_completed` keeps the invariant of an execution.
use liongate.Base.{
  ℕ, true, false, ◌≡◌, refl, sym, ap, ◌∙◌, some, List, ok, ok_injective, arith, Option-cases, inl,
  inr,
}
use liongate.Base.Eq.{nat_Eq}
use liongate.Base.HashMap.{HashMap, get, get-insert, values}
use liongate.Base.HashMap
use liongate.Workflow.Definition.{WorkflowDefinition}
use liongate.Workflow.Definition.Graph.{IsGraph}
use liongate.Workflow.Node.{Node, NodeStatus, completed}
use liongate.Workflow.State.{
  is_active, WorkflowState, is_node_ready, set_node_completed, activate_all, activate_next,
  complete, check_workflow_completion,
}
use liongate.Workflow.State.Activation.{
  activate_all-Keeps, activate_all-IsExact, activate_all_in_degree,
}
use liongate.Workflow.State.Dependencies.{open_split}
use liongate.Workflow.State.Invariant.{IsConsistent, IsValid, IsEligible, active_known}

module _ {J : Type 0} (d : WorkflowDefinition J) (graph : IsGraph d) where
  -- The state before the loop, and the state after it.
  abbrev pub marked : ℕ → WorkflowState J → ℕ → J → WorkflowState J
  marked now s m result = record s {
    node_status = HashMap.insert m completed s.node_status;
    node_results = HashMap.insert m result s.node_results;
    updated_at = now;
  }

  abbrev pub activated : ℕ → WorkflowState J → ℕ → J → Node J → WorkflowState J
  activated now s m result node =
      (activate_all d.edges node.outgoing_edges (marked now s m result)).0

  activated-IsConsistent :
      (now : ℕ) (s : WorkflowState J) (m n : ℕ) (result : J) (node : Node J)
      → get m d.nodes ≡ some node
      → IsEligible d s m completed
      → is_node_ready s m ≡ false
      → IsConsistent d s n
      → IsConsistent d s m
      → IsConsistent d (activated now s m result node) n
  activated-IsConsistent now s m n result node found e idle c cm =
      let status =
        (activate_all-Keeps d.edges node.outgoing_edges (marked now s m result)).node_status in
      let tag = get-insert n m completed s.node_status in
      let in_degree =
        activate_all_in_degree d.edges node.outgoing_edges (marked now s m result) n in
      record {
        known = ground (arith, status, tag, e.known, c.known, cm.known);
        usual = ground (arith, status, tag, e.known, c.usual, cm.known);
        counted = ground (
          arith,
          status,
          in_degree,
          c.counted,
          graph.outgoing_exact m n node found,
          open_split d.edges s.node_status m n e.unfinished,
        );
        exact =
            activate_all-IsExact d.edges node.outgoing_edges (marked now s m result) n
              (ground (arith, tag, c.exact, idle));
        begun = λ h. ground (arith, status, in_degree, tag, c.begun, e.zero);
      }

  -- What a call that succeeds did.
  pub record IsCompletion (now : ℕ) (s t : WorkflowState J) (m : ℕ) (result : J)
      (newly_ready : List ℕ) : Type 0 where
    pub status : NodeStatus
    pub before : get m s.node_status ≡ some status
    pub active : is_active status ≡ true
    pub node : Node J
    pub found : get m d.nodes ≡ some node
    pub eligible : IsEligible d s m completed
    pub idle : is_node_ready s m ≡ false
    pub outcome : t ≡ check_workflow_completion (activated now s m result node)
    pub returned :
        newly_ready ≡ (activate_all d.edges node.outgoing_edges (marked now s m result)).1

  activate_next_lem :
      (s : WorkflowState J) (m : ℕ) (node : Node J)
      → s.definition ≡ some d
      → get m d.nodes ≡ some node
      → activate_next m s ≡ activate_all d.edges node.outgoing_edges s
  unfolding activate_next
  activate_next_lem s m node same found = ground (arith, same, found)

  complete_lem :
      (now : ℕ) (s : WorkflowState J) (m : ℕ) (result : J) (status : NodeStatus) (node : Node J)
      → is_active status ≡ true
      → s.definition ≡ some d
      → get m d.nodes ≡ some node
      → complete now s m result status
        ≡ ok (
          check_workflow_completion (activated now s m result node),
          (activate_all d.edges node.outgoing_edges (marked now s m result)).1,
        )
  unfolding complete
  complete_lem now s m result status node active same found =
      rw (active, activate_next_lem (marked now s m result) m node same found) refl

  complete-IsCompletion :
      (now : ℕ) (s t : WorkflowState J) (m : ℕ) (result : J) (newly_ready : List ℕ)
      (status : NodeStatus)
      → get m s.node_status ≡ some status
      → complete now s m result status ≡ ok (t, newly_ready)
      → IsValid d s
      → IsCompletion now s t m result newly_ready
  unfolding complete
  complete-IsCompletion now s t m result newly_ready status found h v =
      elim (Option-cases (get m d.nodes)) [
        | inl missing ↦ absurd (ground (arith, missing, found, (v.nodes m).known))
        | inr (node, e) ↦ record {
          status = status;
          before = found;
          active = ground arith;
          node = node;
          found = e;
          eligible = active_known d s m status completed found (ground arith) refl refl (v.nodes m);
          idle = ground (arith, found, (v.nodes m).exact);
          outcome = sym (
              ap (λ (p : WorkflowState J × List ℕ). p.0)
                (ok_injective (
                  sym (complete_lem now s m result status node (ground arith) v.definition e)
                  ∙ h)));
          returned = sym (
              ap (λ (p : WorkflowState J × List ℕ). p.1)
                (ok_injective (
                  sym (complete_lem now s m result status node (ground arith) v.definition e)
                  ∙ h)));
        }
      ]

  pub set_node_completed-IsCompletion :
      (now : ℕ) (s t : WorkflowState J) (m : ℕ) (result : J) (newly_ready : List ℕ)
      → set_node_completed now s m result ≡ ok (t, newly_ready)
      → IsValid d s
      → IsCompletion now s t m result newly_ready
  unfolding set_node_completed
  set_node_completed-IsCompletion now s t m result newly_ready h v =
      elim (Option-cases (get m s.node_status)) [
        | inl missing ↦ absurd (ground (arith, missing))
        | inr (status, found) ↦
            complete-IsCompletion now s t m result newly_ready status found (ground (arith, found))
              v
      ]

  check-IsConsistent :
      (s : WorkflowState J) (n : ℕ)
      → IsConsistent d s n
      → IsConsistent d (check_workflow_completion s) n
  unfolding check_workflow_completion
  check-IsConsistent s n c = record {
    known = ground (arith, c.known);
    usual = ground (arith, c.usual);
    counted = ground (arith, c.counted);
    exact = ground (arith, c.exact);
    begun = λ h. ground (arith, c.begun);
  }

  pub set_node_completed-IsValid :
      (now : ℕ) (s t : WorkflowState J) (m : ℕ) (result : J) (newly_ready : List ℕ)
      → set_node_completed now s m result ≡ ok (t, newly_ready)
      → IsValid d s
      → IsValid d t
  unfolding check_workflow_completion
  set_node_completed-IsValid now s t m result newly_ready h v =
      let c = set_node_completed-IsCompletion now s t m result newly_ready h v in
      let k = activate_all-Keeps d.edges c.node.outgoing_edges (marked now s m result) in
      rw c.outcome (record {
        definition = ground (arith, k.definition, v.definition);
        nodes = λ n. check-IsConsistent _ n (
            activated-IsConsistent now s m n result c.node c.found c.eligible c.idle (v.nodes n)
              (v.nodes m));
      })
