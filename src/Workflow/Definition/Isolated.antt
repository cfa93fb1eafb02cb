-- ===== src/Workflow/Definition/Isolated.antt =====
-- Adding a node to a graph.
use liongate.Base.{
  ℕ, ◌≡◌, ap, none, some, [], ◌==◌, arith, count, count-zero, if◌then◌else◌, Option-cases, inl, inr,
}
use liongate.Base.Eq.{nat_Eq}
use liongate.Base.HashMap
use liongate.Base.HashMap.{
  HashMap, get, values, IsUnique, get-insert, get-modify, insert-IsUnique, modify-IsUnique,
}
use liongate.Workflow.Definition.{WorkflowDefinition, add_node}
use liongate.Workflow.Definition.Graph.{IsGraph, reaches, leads_to, links}
use liongate.Workflow.Node.{Node}

module _ {J : Type 0} where
  -- A node without edges, as `Node::new` makes it.
  pub record IsIsolated (node : Node J) : Type 0 where
    pub in_degree : node.in_degree ≡ 0
    pub outgoing_edges : node.outgoing_edges ≡ []

  -- No edge of a graph comes from or leads to a node that is not in it.
  no_links :
      (d : WorkflowDefinition J) (m : ℕ)
      → IsGraph d
      → get m d.nodes ≡ none
      → (n : ℕ)
      → (count (leads_to m) (values d.edges) ≡ 0) × (count (links m n) (values d.edges) ≡ 0)
  no_links d m g missing n = (
    count-zero (leads_to m) (values d.edges) (λ e t.
        ground (arith, missing, g.has_target e t, ap (λ k. get k d.nodes) {x = e.target} {y = m})),
    count-zero (links m n) (values d.edges) (λ e t.
        ground (arith, missing, g.has_source e t, ap (λ k. get k d.nodes) {x = e.source} {y = m})),
  )

  -- Adding a node without edges to a graph makes a graph, whether or not its identifier is new.
  pub add_node-IsGraph :
      (now : ℕ) (d : WorkflowDefinition J) (node : Node J)
      → IsIsolated node
      → IsGraph d
      → IsGraph (add_node now d node).1
  unfolding add_node
  add_node-IsGraph now d node isolated g = elim (Option-cases (get node.id d.nodes)) [
    | inr (old, found) ↦ rw found g
    | inl missing ↦ rw missing (record {
      nodes_unique = insert-IsUnique node.id node d.nodes g.nodes_unique;
      in_degree_exact = λ n k h. ground (
        arith,
        h,
        get-insert n node.id node d.nodes,
        g.in_degree_exact n k,
        isolated.in_degree,
        (no_links d node.id g missing 0).0,
      );
      outgoing_exact = λ m n k h. outgoing missing m n k (get-insert m node.id node d.nodes) h;
      outgoing_known = λ m edge_id k h c. ground (
        arith,
        h,
        c,
        get-insert m node.id node d.nodes,
        g.outgoing_known m edge_id k,
        isolated.outgoing_edges,
      );
      has_source =
          λ e t. ground (arith, get-insert e.source node.id node d.nodes, g.has_source e t);
      has_target =
          λ e t. ground (arith, get-insert e.target node.id node d.nodes, g.has_target e t);
    })
  ]
    where
      outgoing :
          get node.id d.nodes ≡ none
          → (m n : ℕ) (k : Node J)
          → get m (HashMap.insert node.id node d.nodes)
            ≡ (if node.id == m then some node else get m d.nodes)
          → get m (HashMap.insert node.id node d.nodes) ≡ some k
          → count (reaches d.edges n) k.outgoing_edges ≡ count (links m n) (values d.edges)
      outgoing missing m n k inserted h = ground (
        arith,
        h,
        inserted,
        g.outgoing_exact m n k,
        isolated.outgoing_edges,
        (no_links d node.id g missing n).1,
      )
