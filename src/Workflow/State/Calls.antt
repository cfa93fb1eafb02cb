-- ===== src/Workflow/State/Calls.antt =====
-- Starting, failing and judging keep the invariant of an execution.
use liongate.Base.{ℕ, ◌≡◌, refl, ◌∙◌, ok, arith, Option-cases, inl, inr}
use liongate.Base.Eq.{nat_Eq}
use liongate.Base.HashMap.{get}
use liongate.Workflow.Definition.{WorkflowDefinition}
use liongate.Workflow.Node.{NodeStatus, running}
use liongate.Workflow.State.{
  ConditionResult, WorkflowState, set_node_running, set_node_failed, set_edge_condition, fail,
  check_workflow_completion,
}
use liongate.Workflow.State.Invariant.{
  IsValid, IsRetagged, IsEligible, retag-IsConsistent, active_known,
}

module _ {J : Type 0} (d : WorkflowDefinition J) where
  pub set_node_running-IsValid :
      (now : ℕ) (s t : WorkflowState J) (m : ℕ)
      → set_node_running now s m ≡ ok t
      → IsValid d s
      → IsValid d t
  unfolding set_node_running
  set_node_running-IsValid now s t m h v =
      let e : IsEligible d s m running = record {
        known = ground arith;
        unfinished = ground (arith, (v.nodes m).exact);
        zero = ground (arith, (v.nodes m).exact);
        usual = refl;
        begun = refl;
      } in
      let r : IsRetagged d s t m running = record {
        definition = ground arith;
        node_status = ground arith;
        node_in_degree = ground arith;
        ready_nodes = ground arith;
      } in
      record {
        definition = r.definition ∙ v.definition;
        nodes = λ n. retag-IsConsistent d s t m n running r e refl (v.nodes n) (v.nodes m);
      }

  pub set_node_failed-IsValid :
      (now : ℕ) (s t : WorkflowState J) (m : ℕ) (reason : J)
      → set_node_failed now s m reason ≡ ok t
      → IsValid d s
      → IsValid d t
  unfolding set_node_failed fail check_workflow_completion
  set_node_failed-IsValid now s t m reason h v = elim (Option-cases (get m s.node_status)) [
    | inl missing ↦ absurd (ground (arith, missing))
    | inr (status, found) ↦
        let e =
          active_known d s m status NodeStatus.failed found (ground (arith, found)) refl refl
            (v.nodes m) in
        let r : IsRetagged d s t m NodeStatus.failed = record {
          definition = ground (arith, found);
          node_status = ground (arith, found);
          node_in_degree = ground (arith, found);
          ready_nodes = ground (arith, found);
        } in
        record {
          definition = r.definition ∙ v.definition;
          nodes =
              λ n. retag-IsConsistent d s t m n NodeStatus.failed r e refl (v.nodes n) (v.nodes m);
        }
  ]

  pub set_edge_condition-IsValid :
      (now : ℕ) (s t : WorkflowState J) (edge_id : ℕ) (result : ConditionResult)
      → set_edge_condition now s edge_id result ≡ ok t
      → IsValid d s
      → IsValid d t
  unfolding set_edge_condition
  set_edge_condition-IsValid now s t edge_id result h v = record {
    definition = ground (arith, v.definition);
    nodes = λ n. record {
      known = ground (arith, (v.nodes n).known);
      usual = ground (arith, (v.nodes n).usual);
      counted = ground (arith, (v.nodes n).counted);
      exact = ground (arith, (v.nodes n).exact);
      begun = λ b. ground (arith, (v.nodes n).begun);
    };
  }
