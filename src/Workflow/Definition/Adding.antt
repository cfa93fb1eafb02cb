-- ===== src/Workflow/Definition/Adding.antt =====
-- What `add_edge` does where it accepts an edge, and where it finds a cycle.
use liongate.Base.{
  ℕ, true, false, ◌≡◌, refl, none, Result, ok, err, is_ok, arith, is_some, Bool-cases, inl, inr,
}
use liongate.Base.Eq.{nat_Eq}
use liongate.Base.HashMap.{get}
use liongate.Workflow.Definition.{WorkflowError, WorkflowDefinition, remove_edge}
use liongate.Workflow.Definition.Building.{attach, insert_edge, add_edge, reverted}
use liongate.Workflow.Definition.Search.{has_cycle}
use liongate.Workflow.Definition.Graph.{IsGraph}
use liongate.Workflow.Definition.Preservation.{attach-IsGraph}
use liongate.Workflow.Edge.{Edge}

module _ {J : Type 0} where
  reverted_lem :
      (p : Result WorkflowError (Edge J) × WorkflowDefinition J) → is_ok (reverted p).0 ≡ false
  reverted_lem (err reason, d) = refl
  reverted_lem (ok edge, d) = refl

  -- What holds where an edge was accepted.
  record IsAccepted (now : ℕ) (d : WorkflowDefinition J) (edge : Edge J) : Type 0 where
    fresh : get edge.id d.edges ≡ none
    from_there : is_some (get edge.source d.nodes) ≡ true
    to_there : is_some (get edge.target d.nodes) ≡ true
    outcome : (add_edge now d edge).1 ≡ attach now d edge
    acyclic : has_cycle (attach now d edge) ≡ false

  insert_edge_ok :
      (now : ℕ) (d : WorkflowDefinition J) (edge : Edge J)
      → is_ok (insert_edge now d edge).0 ≡ true
      → ((insert_edge now d edge).1 ≡ attach now d edge) × (has_cycle (attach now d edge) ≡ false)
  unfolding insert_edge
  insert_edge_ok now d edge h = elim (Bool-cases (has_cycle (attach now d edge))) [
    | inl cyclic ↦
        absurd (ground (arith, cyclic, reverted_lem (remove_edge now (attach now d edge) edge.id)))
    | inr acyclic ↦ (ground (arith, acyclic), acyclic)
  ]

  add_edge_ok :
      (now : ℕ) (d : WorkflowDefinition J) (edge : Edge J)
      → is_ok (add_edge now d edge).0 ≡ true
      → IsAccepted now d edge
  unfolding add_edge
  add_edge_ok now d edge h = record {
    fresh = ground arith;
    from_there = ground arith;
    to_there = ground arith;
    outcome = ground (arith, insert_edge_ok now d edge);
    acyclic = ground (arith, insert_edge_ok now d edge);
  }

  -- An edge that `add_edge` accepts leaves a graph a graph, in which the search finds no cycle.
  pub add_edge-IsGraph :
      (now : ℕ) (d : WorkflowDefinition J) (edge : Edge J)
      → is_ok (add_edge now d edge).0 ≡ true
      → IsGraph d
      → IsGraph (add_edge now d edge).1 × (has_cycle (add_edge now d edge).1 ≡ false)
  add_edge-IsGraph now d edge h g =
      let a = add_edge_ok now d edge h in
      rw a.outcome (attach-IsGraph now d edge a.fresh a.from_there a.to_there g, a.acyclic)
