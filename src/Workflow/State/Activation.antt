-- ===== src/Workflow/State/Activation.antt =====
-- What the loop of `set_node_completed` does to the counters and to the set of ready nodes.
use liongate.Base.{
  ℕ, ◌-◌, Bool, ◌&&◌, ◌≡◌, refl, ◌∙◌, Option, none, some, List, [], ◌∷◌, if◌then◌else◌, ◌==◌, inl,
  inr, Option-cases, arith, is_some_and, count,
}
use mathlib.Core.Option
use liongate.Base.Eq.{nat_Eq}
use liongate.Base.HashMap.{HashMap, get, get-insert}
use liongate.Base.HashSet.{contains-insert}
use liongate.Workflow.Definition.Graph.{reaches}
use liongate.Workflow.Edge.{Edge}
use liongate.Workflow.Node.{is_pending}
use liongate.Workflow.State.{
  WorkflowState, get_node_status, get_node_in_degree, is_node_ready, activate, activate_edge,
  activate_all,
}

abbrev pub is_zero : ℕ → Bool
is_zero n = n == 0

module _ {J : Type 0} where
  -- The ready nodes are those that are pending and have no dependency left.
  abbrev pub IsExact : WorkflowState J → ℕ → Type 0
  IsExact s n = is_node_ready s n ≡ (
      is_some_and is_pending (get_node_status s n) && is_some_and is_zero (get_node_in_degree s n))

  -- The parts of a state that the loop leaves.
  pub record Keeps (s t : WorkflowState J) : Type 0 where
    pub definition : t.definition ≡ s.definition
    pub node_status : t.node_status ≡ s.node_status
    pub is_completed : t.is_completed ≡ s.is_completed
    pub has_failed : t.has_failed ≡ s.has_failed

  activate-Keeps : (s : WorkflowState J) (target : ℕ) → Keeps s (activate s target).0
  unfolding activate
  activate-Keeps s target = record {
    definition = ground arith;
    node_status = ground arith;
    is_completed = ground arith;
    has_failed = ground arith;
  }

  activate_in_degree :
      (s : WorkflowState J) (target n : ℕ)
      → get_node_in_degree (activate s target).0 n
        ≡ Option.map (λ k. if target == n then k - 1 else k) (get_node_in_degree s n)
  unfolding activate
  activate_in_degree s target n = elim (Option-cases (get target s.node_in_degree)) [
    | inl e ↦ ground (arith, e)
    | inr (k, e) ↦ ground (arith, e, get-insert n target (k - 1) s.node_in_degree)
  ]

  activate-IsExact :
      (s : WorkflowState J) (target n : ℕ) → IsExact s n → IsExact (activate s target).0 n
  unfolding activate
  activate-IsExact s target n h = elim (Option-cases (get target s.node_in_degree)) [
    | inl e ↦ ground (arith, e)
    | inr (k, e) ↦ ground (
      arith,
      e,
      get-insert n target (k - 1) s.node_in_degree,
      contains-insert n target s.ready_nodes,
    )
  ]

  -- The same for the whole loop.
  Keeps-trans : {s t u : WorkflowState J} → Keeps s t → Keeps t u → Keeps s u
  Keeps-trans a b = record {
    definition = b.definition ∙ a.definition;
    node_status = b.node_status ∙ a.node_status;
    is_completed = b.is_completed ∙ a.is_completed;
    has_failed = b.has_failed ∙ a.has_failed;
  }

  activate_edge-Keeps : (s : WorkflowState J) (o : Option (Edge J)) → Keeps s (activate_edge s o).0
  activate_edge-Keeps s none = record {
    definition = refl;
    node_status = refl;
    is_completed = refl;
    has_failed = refl;
  }
  activate_edge-Keeps s (some edge) = activate-Keeps s edge.target

  pub activate_all-Keeps :
      (edges : HashMap ℕ (Edge J)) (edge_ids : List ℕ) (s : WorkflowState J)
      → Keeps s (activate_all edges edge_ids s).0
  unfolding activate_all
  activate_all-Keeps edges [] s = record {
    definition = refl;
    node_status = refl;
    is_completed = refl;
    has_failed = refl;
  }
  activate_all-Keeps edges (edge_id ∷ edge_ids) s =
      Keeps-trans (activate_edge-Keeps s (get edge_id edges))
        (activate_all-Keeps edges edge_ids (activate_edge s (get edge_id edges)).0)

  pub activate_edge-IsExact :
      (s : WorkflowState J) (o : Option (Edge J)) (n : ℕ)
      → IsExact s n
      → IsExact (activate_edge s o).0 n
  activate_edge-IsExact s none n h = h
  activate_edge-IsExact s (some edge) n h = activate-IsExact s edge.target n h

  pub activate_all-IsExact :
      (edges : HashMap ℕ (Edge J)) (edge_ids : List ℕ) (s : WorkflowState J) (n : ℕ)
      → IsExact s n
      → IsExact (activate_all edges edge_ids s).0 n
  unfolding activate_all
  activate_all-IsExact edges [] s n h = h
  activate_all-IsExact edges (edge_id ∷ edge_ids) s n h =
      activate_all-IsExact edges edge_ids (activate_edge s (get edge_id edges)).0 n
        (activate_edge-IsExact s (get edge_id edges) n h)

  activate_edge_in_degree :
      (s : WorkflowState J) (o : Option (Edge J)) (n : ℕ)
      → get_node_in_degree (activate_edge s o).0 n
        ≡ Option.map
            (λ k. if is_some_and (λ e. e.target == n) o then k - 1 else k)
            (get_node_in_degree s n)
  activate_edge_in_degree s none n = ground arith
  activate_edge_in_degree s (some edge) n = activate_in_degree s edge.target n

  -- Each edge to `n` takes one from its counter, down to 0.
  pub activate_all_in_degree :
      (edges : HashMap ℕ (Edge J)) (edge_ids : List ℕ) (s : WorkflowState J) (n : ℕ)
      → get_node_in_degree (activate_all edges edge_ids s).0 n
        ≡ Option.map (λ k. k - count (reaches edges n) edge_ids) (get_node_in_degree s n)
  unfolding activate_all
  activate_all_in_degree edges [] s n = ground arith
  activate_all_in_degree edges (edge_id ∷ edge_ids) s n = ground (
    arith,
    activate_all_in_degree edges edge_ids (activate_edge s (get edge_id edges)).0 n,
    activate_edge_in_degree s (get edge_id edges) n,
  )
