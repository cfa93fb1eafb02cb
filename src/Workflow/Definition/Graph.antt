-- ===== src/Workflow/Definition/Graph.antt =====
-- When a workflow definition is a graph: its nodes and its edges agree with each other.
use liongate.Base.{ℕ, Bool, true, ◌&&◌, ◌≡◌, some, ◌==◌, ◌∈◌, is_some_and, count, is_some}
use liongate.Base.Eq.{nat_Eq}
use liongate.Base.HashMap.{HashMap, get, values, IsUnique}
use liongate.Base.HashSet
use liongate.Workflow.Edge.{Edge}
use liongate.Workflow.Node.{Node}
use liongate.Workflow.Definition.{WorkflowDefinition}

module _ {J : Type 0} where
  -- Whether the edge of this identifier leads to `n`.
  abbrev pub reaches : HashMap ℕ (Edge J) → ℕ → ℕ → Bool
  reaches edges n edge_id = is_some_and (λ e. e.target == n) (get edge_id edges)

  abbrev pub leads_to : ℕ → Edge J → Bool
  leads_to n e = e.target == n

  abbrev pub links : ℕ → ℕ → Edge J → Bool
  links m n e = (e.source == m) && (e.target == n)

  -- `in_degree` counts the edges to a node, and `outgoing_edges` names those that leave it.
  pub record IsGraph (d : WorkflowDefinition J) : Type 0 where
    pub nodes_unique : IsUnique d.nodes
    pub in_degree_exact :
        (n : ℕ) (node : Node J)
        → get n d.nodes ≡ some node
        → node.in_degree ≡ count (leads_to n) (values d.edges)
    pub outgoing_exact :
        (m n : ℕ) (node : Node J)
        → get m d.nodes ≡ some node
        → count (reaches d.edges n) node.outgoing_edges ≡ count (links m n) (values d.edges)
    pub outgoing_known :
        (m edge_id : ℕ) (node : Node J)
        → get m d.nodes ≡ some node
        → HashSet.contains edge_id node.outgoing_edges ≡ true
        → is_some (get edge_id d.edges) ≡ true
    pub has_source : (e : Edge J) → e ∈ values d.edges → is_some (get e.source d.nodes) ≡ true
    pub has_target : (e : Edge J) → e ∈ values d.edges → is_some (get e.target d.nodes) ≡ true
