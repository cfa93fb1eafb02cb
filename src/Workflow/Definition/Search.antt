-- ===== src/Workflow/Definition/Search.antt =====
-- lion/lion_workflow/src/model/definition.rs: the search for a cycle, `has_cycle` and `has_cycle_dfs`.
use liongate.Base.{
  ℕ, zero, suc, ◌+◌, Bool, true, false, Option, none, some, List, [], ◌∷◌, if◌then◌else◌, is_empty,
  length,
}
use liongate.Base.Eq.{nat_Eq}
use liongate.Base.HashMap.{HashMap, get, values, keys}
use liongate.Base.HashSet
use liongate.Workflow.Definition.{WorkflowDefinition}
use liongate.Workflow.Edge.{Edge}
use liongate.Workflow.Node.{Node}

-- The nodes that a search has visited, and those on its path.
pub record Search : Type 0 where
  pub visited : List ℕ
  pub in_stack : List ℕ

-- What follows a part of the search, unless that part found a cycle.
abbrev pub unless_cycle :
    (Search → Option (Bool × Search)) → Option (Bool × Search) → Option (Bool × Search)
unless_cycle next none = none
unless_cycle next (some (true, s)) = some (true, s)
unless_cycle next (some (false, s)) = next s

abbrev pub leave : ℕ → Search → Option (Bool × Search)
leave node_id s = some (false, record s { in_stack = HashSet.remove node_id s.in_stack })

abbrev pub found_cycle : Option (Bool × Search) → Bool
found_cycle none = true
found_cycle (some (found, s)) = found

module _ {J : Type 0} where
  -- The loop of `has_cycle_dfs` over the outgoing edges; `explore` is the recursive call.
  unfoldable pub visit_all :
      HashMap ℕ (Edge J)
      → (ℕ → Search → Option (Bool × Search))
      → List ℕ
      → Search
      → Option (Bool × Search)
  visit_all edges explore [] s = some (false, s)
  visit_all edges explore (edge_id ∷ edge_ids) s = elim (get edge_id edges) [
    | none ↦ visit_all edges explore edge_ids s
    | some edge ↦ elim (HashSet.contains edge.target s.visited) [
      | true ↦ elim (HashSet.contains edge.target s.in_stack) [
        | true ↦ some (true, s)
        | false ↦ visit_all edges explore edge_ids s
      ]
      | false ↦ unless_cycle (visit_all edges explore edge_ids) (explore edge.target s)
    ]
  ]

  abbrev pub outgoing_of : Option (Node J) → List ℕ
  outgoing_of none = []
  outgoing_of (some node) = node.outgoing_edges

  -- Its first argument bounds the depth of the recursion; `none` is that it was not enough.
  unfoldable pub has_cycle_dfs : WorkflowDefinition J → ℕ → ℕ → Search → Option (Bool × Search)
  unfolding visit_all
  has_cycle_dfs d zero node_id s = none
  has_cycle_dfs d (suc depth) node_id s = unless_cycle (leave node_id) (
      visit_all d.edges (has_cycle_dfs d depth) (outgoing_of (get node_id d.nodes)) (record {
        visited = HashSet.insert node_id s.visited;
        in_stack = HashSet.insert node_id s.in_stack;
      }))

  -- The loop of `has_cycle` over the nodes.
  unfoldable pub search_all : WorkflowDefinition J → ℕ → List ℕ → Search → Option (Bool × Search)
  unfolding has_cycle_dfs
  search_all d depth [] s = some (false, s)
  search_all d depth (node_id ∷ node_ids) s = elim (HashSet.contains node_id s.visited) [
    | true ↦ search_all d depth node_ids s
    | false ↦ unless_cycle (search_all d depth node_ids) (has_cycle_dfs d depth node_id s)
  ]

  -- Each call below the first visits the target of an edge for the first time, so the depth is at most
  -- one more than the number of edges.
  unfoldable pub cycle_search : WorkflowDefinition J → Option (Bool × Search)
  unfolding search_all
  cycle_search d =
      search_all d (length (values d.edges) + 2) (keys d.nodes)
        (record { visited = []; in_stack = [] })

  unfoldable pub has_cycle : WorkflowDefinition J → Bool
  unfolding cycle_search
  has_cycle d = if is_empty d.nodes then false else found_cycle (cycle_search d)
