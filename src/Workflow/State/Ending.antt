-- ===== src/Workflow/State/Ending.antt =====
-- What `is_completed` and `has_failed` say of an execution.
use liongate.Base.{
  ℕ, true, false, ◌&&◌, ◌≡◌, ◌↔◌, some, ◌∈◌, arith, is_some, all-intro, inl, inr, Option-cases,
  Bool-cases,
}
use liongate.Base.Eq.{nat_Eq}
use liongate.Base.HashMap.{get, values, values_elim}
use liongate.Workflow.Definition.{WorkflowDefinition}
use liongate.Workflow.Definition.Graph.{IsGraph}
use liongate.Workflow.Node.{NodeStatus, completed}
use liongate.Workflow.State.{WorkflowState, is_terminal, get_node_status}
use liongate.Workflow.State.Invariant.{IsValid}
use liongate.Workflow.State.Executions.{IsReachable, IsReachable-IsValid}
use liongate.Workflow.State.Flags.{unfinished-all_terminal, IsOutcome}
use liongate.Workflow.State.Outcome.{IsReachable-IsOutcome}

module _ {J : Type 0} where
  module _ (null : J) (d : WorkflowDefinition J) (graph : IsGraph d) (some_node : ℕ)
      (is_there : is_some (get some_node d.nodes) ≡ true) where
    -- In every execution of a graph that has a node, `is_completed` holds exactly when every node has
    -- completed.
    pub completed_exact :
        (s : WorkflowState J)
        → IsReachable null d s
        → (s.is_completed ≡ true)
          ↔ ((n : ℕ) → is_some (get n d.nodes) ≡ true → get_node_status s n ≡ some completed)
    completed_exact s r =
        let o = IsReachable-IsOutcome null d graph some_node is_there r in
        let v = IsReachable-IsValid null d graph r in
        (λ h n known. completed_node o v h n known, λ h. all_completed o v h)
      where
        completed_node :
            IsOutcome s
            → IsValid d s
            → s.is_completed ≡ true
            → (n : ℕ) → is_some (get n d.nodes) ≡ true
            → get_node_status s n ≡ some completed
        completed_node o v h n known = elim (Option-cases (get n s.node_status)) [
          | inl missing ↦ absurd (ground (arith, missing, known, (v.nodes n).known))
          | inr (status, found) ↦ ground (
            arith,
            found,
            h,
            o.completion,
            (v.nodes n).usual,
            known,
            o.flagged.flag n,
            unfinished-all_terminal s.node_status n status found,
          )
        ]

        terminal :
            IsOutcome s
            → IsValid d s
            → ((n : ℕ) → is_some (get n d.nodes) ≡ true → get_node_status s n ≡ some completed)
            → (status : NodeStatus) → status ∈ values s.node_status
            → is_terminal status ≡ true
        terminal o v h status m =
            let (n, found) = values_elim s.node_status o.flagged.unique m in
            ground (arith, found, h n, (v.nodes n).known)

        all_completed :
            IsOutcome s
            → IsValid d s
            → ((n : ℕ) → is_some (get n d.nodes) ≡ true → get_node_status s n ≡ some completed)
            → s.is_completed ≡ true
        all_completed o v h = elim (Bool-cases s.has_failed) [
          | inl failed ↦
              let (n, found) = o.flagged.failure failed in
              absurd (ground (arith, found, h n, (v.nodes n).known))
          | inr going ↦ ground (
            arith,
            going,
            o.completion,
            all-intro is_terminal (values s.node_status) (terminal o v h),
          )
        ]

    -- In every execution of a graph that has a node, `has_failed` holds exactly when some node has
    -- failed, and then the execution is never completed.
    pub failed_exact :
        (s : WorkflowState J)
        → IsReachable null d s
        → ((s.has_failed ≡ true) ↔ ((n : ℕ) × (get_node_status s n ≡ some NodeStatus.failed)))
          × (s.has_failed && s.is_completed ≡ false)
    failed_exact s r =
        let o = IsReachable-IsOutcome null d graph some_node is_there r in
        ((o.flagged.failure, λ (n, e). o.flagged.flag n e), ground (arith, o.completion))
