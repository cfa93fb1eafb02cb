-- ===== src/Workflow/State/Progress.antt =====
-- An execution does not get stuck.
use liongate.Base.{
  ℕ, zero, suc, ◌<◌, Bool, true, false, ◌≡◌, ◌≢◌, ◌⊎◌, some, ◌∈◌, arith, is_some_and, is_some, inl,
  inr, Bool-cases, count-some, all-fail,
}
use liongate.Base.Eq.{nat_Eq}
use liongate.Base.HashMap.{get, values, values_elim}
use liongate.Workflow.Definition.{WorkflowDefinition}
use liongate.Workflow.Definition.Graph.{IsGraph}
use liongate.Workflow.Definition.Acyclicity.{Ranks, has_cycle-Ranks}
use liongate.Workflow.Definition.Search.{has_cycle}
use liongate.Workflow.Edge.{Edge}
use liongate.Workflow.Node.{NodeStatus, running}
use liongate.Workflow.State.{WorkflowState, is_terminal, get_node_status, is_node_ready}
use liongate.Workflow.State.Dependencies.{is_open}
use liongate.Workflow.State.Executions.{IsReachable, IsReachable-IsValid}
use liongate.Workflow.State.Flags.{IsOutcome, all_terminal}
use liongate.Workflow.State.Invariant.{IsValid}
use liongate.Workflow.State.Outcome.{IsReachable-IsOutcome}

abbrev is_running : NodeStatus → Bool
is_running running = true
is_running _ = false

module _ {J : Type 0} (null : J) (d : WorkflowDefinition J) (graph : IsGraph d) where
  waiting_source :
      (s : WorkflowState J) (e : Edge J) (n : ℕ)
      → IsValid d s
      → IsOutcome s
      → e ∈ values d.edges
      → is_open s.node_status n e ≡ true
      → s.has_failed ≡ false
      → is_some_and is_running (get_node_status s e.source) ≡ false
      → get_node_status s e.source ≡ some NodeStatus.pending
  waiting_source s e n v o m open_edge going idle = ground (
    arith,
    graph.has_source e m,
    (v.nodes e.source).known,
    (v.nodes e.source).usual,
    o.flagged.flag e.source,
  )

  find_ready :
      (rank : ℕ → ℕ)
      → Ranks d rank
      → (s : WorkflowState J) → IsValid d s
      → IsOutcome s
      → s.has_failed ≡ false
      → ((n : ℕ) → is_some_and is_running (get_node_status s n) ≡ false)
      → (bound n : ℕ) → rank n < bound
      → get_node_status s n ≡ some NodeStatus.pending
      → (m : ℕ) × (is_node_ready s m ≡ true)
  find_ready rank ranks s v o going idle zero n below pending = absurd (omega (arith, below))
  find_ready rank ranks s v o going idle (suc bound) n below waits =
      elim (Bool-cases (is_node_ready s n)) [
        | inl h ↦ (n, h)
        | inr h ↦
            let (e, m, open_edge) = count-some (is_open s.node_status n) (values d.edges) (λ z.
              ground
                (arith, h, z, waits, (v.nodes n).exact, (v.nodes n).counted, (v.nodes n).known)) in
            find_ready rank ranks s v o going idle bound e.source
              (ground (arith, ranks e m, open_edge, below))
              (waiting_source s e n v o m open_edge going (idle e.source))
      ]

  ranked_progress :
      (rank : ℕ → ℕ) (s : WorkflowState J) (some_node : ℕ)
      → Ranks d rank
      → is_some (get some_node d.nodes) ≡ true
      → IsReachable null d s
      → s.has_failed ≡ false
      → ((n : ℕ) → get_node_status s n ≢ some running)
      → ((n : ℕ) × (is_node_ready s n ≡ true)) ⊎ (s.is_completed ≡ true)
  ranked_progress rank s some_node ranks is_there r going idle =
      let v = IsReachable-IsValid null d graph r in
      let o = IsReachable-IsOutcome null d graph some_node is_there r in
      elim (Bool-cases (all_terminal s.node_status)) [
        | inl all_done ↦ inr (ground (arith, o.completion, going, all_done))
        | inr some_left ↦
            let (status, m, open_status) = all-fail is_terminal (values s.node_status) some_left in
            let (n, found) = values_elim s.node_status o.flagged.unique m in
            inl (
              find_ready rank ranks s v o going not_running (suc (rank n)) n (omega arith)
                (waits v n status found open_status))
      ]
    where
      not_running : (n : ℕ) → is_some_and is_running (get_node_status s n) ≡ false
      not_running n = ground (arith, idle n)

      waits :
          IsValid d s
          → (n : ℕ) (status : NodeStatus) → get_node_status s n ≡ some status
          → is_terminal status ≡ false
          → get_node_status s n ≡ some NodeStatus.pending
      waits v n status found open_status =
          ground (arith, found, open_status, (v.nodes n).usual, (v.nodes n).known, not_running n)

  -- In an execution of a graph that has a node and in which `has_cycle` finds no cycle, if no node has
  -- failed and none is running, some node is ready or the execution is completed.
  pub progress :
      (s : WorkflowState J) (some_node : ℕ)
      → has_cycle d ≡ false
      → is_some (get some_node d.nodes) ≡ true
      → IsReachable null d s
      → s.has_failed ≡ false
      → ((n : ℕ) → get_node_status s n ≢ some running)
      → ((n : ℕ) × (is_node_ready s n ≡ true)) ⊎ (s.is_completed ≡ true)
  progress s some_node acyclic is_there r going idle =
      let (rank, ranks) = has_cycle-Ranks d graph acyclic in
      ranked_progress rank s some_node ranks is_there r going idle
