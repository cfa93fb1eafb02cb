-- ===== src/Workflow/State/Invariant.antt =====
-- The invariant of an execution: its counters and its ready nodes follow the statuses.
use liongate.Base.{
  ℕ, Bool, true, false, ◌≡◌, refl, ◌∙◌, none, some, arith, is_some_and, is_some, if◌then◌else◌,
  Option-cases, inl, inr,
}
use liongate.Base.Eq.{nat_Eq}
use liongate.Base.HashMap.{HashMap, get, get-insert, values}
use liongate.Base.HashMap
use liongate.Base.HashSet
use liongate.Base.HashSet.{contains-remove}
use liongate.Base.Text.{Text}
use liongate.Workflow.Definition.{WorkflowDefinition}
use liongate.Workflow.Definition.Graph.{IsGraph}
use liongate.Workflow.Node.{NodeStatus, running, completed}
use liongate.Workflow.State.{
  is_active, WorkflowState, get_node_status, get_node_in_degree, is_node_ready, enter_all, new,
  reset,
}
use liongate.Workflow.State.Activation.{is_zero, IsExact}
use liongate.Workflow.State.Start.{
  enter_all_status, enter_all_in_degree, enter_all_ready, enter_all-Enters,
}
use liongate.Workflow.State.Dependencies.{
  is_completed_status, is_done, open_dependencies, open_kept, open_all,
}

-- The statuses that the operations give.
abbrev pub is_usual : NodeStatus → Bool
is_usual NodeStatus.pending = true
is_usual running = true
is_usual completed = true
is_usual NodeStatus.failed = true
is_usual _ = false

-- The statuses of nodes that have been run.
abbrev pub is_begun : NodeStatus → Bool
is_begun running = true
is_begun completed = true
is_begun NodeStatus.failed = true
is_begun _ = false

module _ {J : Type 0} (d : WorkflowDefinition J) where
  -- The node `n` in a state of an execution of `d`.
  pub record IsConsistent (s : WorkflowState J) (n : ℕ) : Type 0 where
    pub known : is_some (get_node_status s n) ≡ is_some (get n d.nodes)
    pub usual : is_some_and is_usual (get_node_status s n) ≡ is_some (get n d.nodes)
    pub counted : get_node_in_degree s n ≡ (
        if is_some (get n d.nodes) then some (open_dependencies d.edges s.node_status n) else none)
    pub exact : IsExact s n
    pub begun :
        is_some_and is_begun (get_node_status s n) ≡ true
        → is_some_and is_zero (get_node_in_degree s n) ≡ true

  pub record IsValid (s : WorkflowState J) : Type 0 where
    pub definition : s.definition ≡ some d
    pub nodes : (n : ℕ) → IsConsistent s n

  module _ (graph : IsGraph d) where
    -- A state that the loop of `new` and `reset` makes.
    enter_all-IsValid :
        (s : WorkflowState J)
        → s.definition ≡ some d
        → ((n : ℕ)
            → is_some (get n d.nodes) ≡ false
            → (get_node_status s n ≡ none) × (get_node_in_degree s n ≡ none))
        → ((n : ℕ) → is_node_ready s n ≡ false)
        → IsValid (enter_all d.nodes s)
    enter_all-IsValid s same outside idle = record {
      definition = (enter_all-Enters d.nodes s).definition ∙ same;
      nodes = λ n.
          let status = enter_all_status d.nodes s n in
          let in_degree = enter_all_in_degree d.nodes s n graph.nodes_unique in
          let are_ready = enter_all_ready d.nodes s n graph.nodes_unique in
          elim (Option-cases (get n d.nodes)) [
            | inl missing ↦ record {
              known = ground (arith, missing, status, outside n);
              usual = ground (arith, missing, status, outside n);
              counted = ground (arith, missing, in_degree, outside n);
              exact = ground (arith, missing, status, in_degree, are_ready, outside n, idle n);
              begun = ground (arith, missing, status, outside n);
            }
            | inr (node, found) ↦ record {
              known = ground (arith, found, status);
              usual = ground (arith, found, status);
              counted = ground (
                arith,
                found,
                in_degree,
                graph.in_degree_exact n node found,
                open_all d.edges (enter_all d.nodes s).node_status n
                    (λ m. ground (arith, enter_all_status d.nodes s m, outside m)),
              );
              exact = ground (arith, found, status, in_degree, are_ready, idle n);
              begun = ground (arith, found, status);
            }
          ];
    }

    pub new-IsValid :
        (null : J) (now : ℕ) (instance_id : Text) → IsValid (new null now instance_id d)
    unfolding new get
    new-IsValid null now instance_id = enter_all-IsValid _ refl (λ n _. (refl, refl)) (λ n. refl)

    pub reset-IsValid : (now : ℕ) (s : WorkflowState J) → IsValid s → IsValid (reset now s)
    unfolding reset
    reset-IsValid now s v =
        rw (v.definition, reset)
          (enter_all-IsValid _ v.definition
            (λ n h. (ground (arith, (v.nodes n).known), ground (arith, (v.nodes n).counted)))
            (λ n. refl))

  -- A state after one node was taken from the ready nodes and got another status.
  pub record IsRetagged (s t : WorkflowState J) (m : ℕ) (status : NodeStatus) : Type 0 where
    pub definition : t.definition ≡ s.definition
    pub node_status : t.node_status ≡ HashMap.insert m status s.node_status
    pub node_in_degree : t.node_in_degree ≡ s.node_in_degree
    pub ready_nodes : t.ready_nodes ≡ HashSet.remove m s.ready_nodes

  -- A node that may be given a status of nodes that have been run.
  pub record IsEligible (s : WorkflowState J) (m : ℕ) (status : NodeStatus) : Type 0 where
    pub known : is_some (get_node_status s m) ≡ true
    pub unfinished : is_done (get_node_status s m) ≡ false
    pub zero : is_some_and is_zero (get_node_in_degree s m) ≡ true
    pub usual : is_usual status ≡ true
    pub begun : is_begun status ≡ true

  pub retag-IsConsistent :
      (s t : WorkflowState J) (m n : ℕ) (status : NodeStatus)
      → IsRetagged s t m status
      → IsEligible s m status
      → is_completed_status status ≡ false
      → IsConsistent s n
      → IsConsistent s m
      → IsConsistent t n
  retag-IsConsistent s t m n status r e k c cm =
      let tag = get-insert n m status s.node_status in
      record {
        known = ground (arith, r.node_status, tag, e.known, c.known, cm.known);
        usual = ground (arith, r.node_status, tag, e.known, e.usual, c.usual, cm.known);
        counted = ground (
          arith,
          r.node_status,
          r.node_in_degree,
          c.counted,
          open_kept d.edges s.node_status m n status e.unfinished k,
        );
        exact = ground (
          arith,
          r.node_status,
          r.node_in_degree,
          r.ready_nodes,
          tag,
          c.exact,
          contains-remove n m s.ready_nodes,
          e.begun,
        );
        begun = λ h. ground (arith, r.node_status, r.node_in_degree, tag, c.begun, e.zero);
      }

  -- A node that may complete or fail has begun.
  pub active_known :
      (s : WorkflowState J) (m : ℕ) (status new_status : NodeStatus)
      → get m s.node_status ≡ some status
      → is_active status ≡ true
      → is_usual new_status ≡ true
      → is_begun new_status ≡ true
      → IsConsistent s m
      → IsEligible s m new_status
  active_known s m status new_status found active usual begun c = record {
    known = rw found refl;
    unfinished = ground (arith, found);
    zero = c.begun (ground (arith, found, c.usual, c.known));
    usual = usual;
    begun = begun;
  }
