-- ===== src/Workflow/State/Outcome.antt =====
-- When an execution is completed: the flags `is_completed` and `has_failed` over all steps.
use liongate.Base.{
  ℕ, true, false, ◌≡◌, refl, none, some, List, ok, arith, is_some, inl, inr, Option-cases,
}
use liongate.Base.Eq.{nat_Eq}
use liongate.Base.HashMap.{HashMap, get, values, IsUnique, get-values, values_elim}
use liongate.Base.HashMap
use liongate.Workflow.Definition.{WorkflowDefinition}
use liongate.Workflow.Definition.Graph.{IsGraph}
use liongate.Workflow.Node.{NodeStatus, running, completed}
use liongate.Workflow.State.{
  ConditionResult, WorkflowState, is_active, is_terminal, get_node_status, enter_all, new, reset,
  set_node_running, set_node_completed, set_node_failed, set_edge_condition, fail,
  check_workflow_completion,
}
use liongate.Workflow.State.Activation.{activate_all-Keeps}
use liongate.Workflow.State.Start.{enter_all_status, enter_all-Enters}
use liongate.Workflow.State.Invariant.{IsValid}
use liongate.Workflow.State.Completion.{set_node_completed-IsCompletion, marked, activated}
use liongate.Workflow.State.Executions.{
  Step, runs, completes, fails, judges, resets, IsReachable, begins, continues, IsReachable-IsValid,
}
use liongate.Workflow.State.Flags.{
  unfinished-all_terminal, IsOutcome, tag-IsFlagged, check-IsOutcome, enter_all-IsUnique,
}

active_before : (status : NodeStatus) → is_active status ≡ true → is_terminal status ≡ false
active_before status h = ground (arith, h)

module _ {J : Type 0} where
  running_before :
      (s : WorkflowState J) (n : ℕ) (old : NodeStatus)
      → get n s.node_status ≡ some old
      → is_terminal old ≡ false
      → IsOutcome s
      → s.is_completed ≡ false
  running_before s n old found h o =
      ground (arith, o.completion, unfinished-all_terminal s.node_status n old found h)

  set_node_running-IsOutcome :
      (d : WorkflowDefinition J) (now : ℕ) (s t : WorkflowState J) (n : ℕ)
      → set_node_running now s n ≡ ok t
      → IsValid d s
      → IsOutcome s
      → IsOutcome t
  unfolding set_node_running
  set_node_running-IsOutcome d now s t n h v o = record {
    flagged =
        tag-IsFlagged s t n NodeStatus.pending running waiting refl tagged (ground arith) o.flagged;
    completion = ground (
      arith,
      running_before s n NodeStatus.pending waiting refl o,
      unfinished-all_terminal t.node_status n running
          (ground (arith, tagged, HashMap.get-insert_self n running s.node_status)) refl,
    );
  }
    where
      waiting : get n s.node_status ≡ some NodeStatus.pending
      waiting = ground (arith, (v.nodes n).exact)

      tagged : t.node_status ≡ HashMap.insert n running s.node_status
      tagged = ground arith

  set_node_failed-IsOutcome :
      (now : ℕ) (s t : WorkflowState J) (n : ℕ) (reason : J)
      → set_node_failed now s n reason ≡ ok t
      → IsOutcome s
      → IsOutcome t
  unfolding set_node_failed fail check_workflow_completion
  set_node_failed-IsOutcome now s t n reason h o = elim (Option-cases (get n s.node_status)) [
    | inl missing ↦ absurd (ground (arith, missing))
    | inr (status, found) ↦
        let open_before = active_before status (ground (arith, found)) in
        record {
          flagged =
              tag-IsFlagged s t n status NodeStatus.failed found open_before (ground (arith, found))
                (ground (arith, found)) o.flagged;
          completion = ground (arith, found, running_before s n status found open_before o);
        }
  ]

  set_node_completed-IsOutcome :
      (d : WorkflowDefinition J) (graph : IsGraph d) (now : ℕ) (s t : WorkflowState J) (n : ℕ)
      (result : J) (newly_ready : List ℕ)
      → set_node_completed now s n result ≡ ok (t, newly_ready)
      → IsValid d s
      → IsOutcome s
      → IsOutcome t
  set_node_completed-IsOutcome d graph now s t n result newly_ready h v o =
      let c = set_node_completed-IsCompletion d graph now s t n result newly_ready h v in
      let k = activate_all-Keeps d.edges c.node.outgoing_edges (marked d graph now s n result) in
      let u = activated d graph now s n result c.node in
      let open_before = active_before c.status c.active in
      rw c.outcome (
        check-IsOutcome u
          (ground (arith, k.is_completed, running_before s n c.status c.before open_before o))
          (tag-IsFlagged s u n c.status completed c.before open_before k.node_status k.has_failed
            o.flagged))

  set_edge_condition-IsOutcome :
      (now : ℕ) (s t : WorkflowState J) (edge_id : ℕ) (result : ConditionResult)
      → set_edge_condition now s edge_id result ≡ ok t
      → IsOutcome s
      → IsOutcome t
  unfolding set_edge_condition
  set_edge_condition-IsOutcome now s t edge_id result h o = record {
    flagged = record {
      unique = ground (arith, o.flagged.unique);
      failure = λ k. ground (arith, o.flagged.failure);
      flag = λ n e. ground (arith, o.flagged.flag n);
    };
    completion = ground (arith, o.completion);
  }

  module _ (null : J) (d : WorkflowDefinition J) (graph : IsGraph d) (some_node : ℕ)
      (is_there : is_some (get some_node d.nodes) ≡ true) where
    enter_all-IsOutcome :
        (s : WorkflowState J)
        → IsUnique s.node_status
        → s.is_completed ≡ false
        → s.has_failed ≡ false
        → ((n : ℕ) → is_some (get n d.nodes) ≡ false → get_node_status s n ≡ none)
        → IsOutcome (enter_all d.nodes s)
    enter_all-IsOutcome s unique not_completed not_failed outside =
        let kept = enter_all-Enters d.nodes s in
        record {
          flagged = record {
            unique = enter_all-IsUnique d.nodes s unique;
            failure = λ h. absurd (ground (arith, kept.has_failed, not_failed, h));
            flag = λ n h. absurd (ground (arith, h, enter_all_status d.nodes s n, outside n));
          };
          completion = ground (
            arith,
            kept.is_completed,
            kept.has_failed,
            not_completed,
            unfinished-all_terminal (enter_all d.nodes s).node_status some_node NodeStatus.pending
                (ground (arith, is_there, enter_all_status d.nodes s some_node)) refl,
          );
        }

    reset-IsOutcome :
        (now : ℕ) (s : WorkflowState J) → IsValid d s → IsOutcome s → IsOutcome (reset now s)
    unfolding reset
    reset-IsOutcome now s v o =
        rw (v.definition, reset)
          (enter_all-IsOutcome _ o.flagged.unique refl refl
            (λ n h. ground (arith, (v.nodes n).known)))

    Step-IsOutcome : {s t : WorkflowState J} → Step s t → IsValid d s → IsOutcome s → IsOutcome t
    Step-IsOutcome {s} {t} (runs now n h) v o = set_node_running-IsOutcome d now s t n h v o
    Step-IsOutcome {s} {t} (completes now n result newly_ready h) v o =
        set_node_completed-IsOutcome d graph now s t n result newly_ready h v o
    Step-IsOutcome {s} {t} (fails now n reason h) v o =
        set_node_failed-IsOutcome now s t n reason h o
    Step-IsOutcome {s} {t} (judges now edge_id result h) v o =
        set_edge_condition-IsOutcome now s t edge_id result h o
    Step-IsOutcome {s} (resets now e) v o = rw e (reset-IsOutcome now s v o)

    pub IsReachable-IsOutcome : {s : WorkflowState J} → IsReachable null d s → IsOutcome s
    unfolding new get
    IsReachable-IsOutcome (begins now instance_id) =
        enter_all-IsOutcome _ tt refl refl (λ n _. refl)
    IsReachable-IsOutcome (continues r step) =
        Step-IsOutcome step (IsReachable-IsValid null d graph r) (IsReachable-IsOutcome r)
