-- ===== src/Workflow/Definition/Ordering.antt =====
-- lion/lion_workflow/src/model/definition.rs: `get_topological_order`. The loop is given as many
-- rounds as there are nodes and one more; `none` says that they were used up.
pub mod Rounds
pub mod Sorted
pub mod Complete
use liongate.Base.{
  ℕ, zero, suc, ◌+◌, ◌-◌, ◌^◌, Bool, true, false, Option, none, some, List, [], ◌∷◌, ◌++◌, Result,
  ok, err, if◌then◌else◌, ◌==◌, length,
}
use liongate.Base.Eq.{nat_Eq}
use liongate.Base.HashMap
use liongate.Base.HashMap.{HashMap, get}
use liongate.Workflow.Edge.{Edge}
use liongate.Workflow.Node.{Node}
use liongate.Workflow.Definition.{WorkflowDefinition, WorkflowError, cycle_detected}
use liongate.Workflow.Definition.Search.{has_cycle}

-- `*degree -= 1` on a `usize`, as in a release build.
abbrev pub decrement : ℕ → ℕ
decrement degree = if degree == 0 then 2 ^ 64 - 1 else degree - 1

-- The counters, the queue and the result of the sort.
pub record Sorting : Type 0 where
  pub in_degree : HashMap ℕ ℕ
  pub queue : List ℕ
  pub result : List ℕ

module _ {J : Type 0} where
  -- The loop that fills the counters and the queue.
  unfoldable pub initial : HashMap ℕ (Node J) → Sorting
  initial [] = record { in_degree = []; queue = []; result = [] }
  initial ((id, node) ∷ nodes) =
      let rest = initial nodes in
      record {
        in_degree = (id, node.in_degree) ∷ rest.in_degree;
        queue = if node.in_degree == 0 then id ∷ rest.queue else rest.queue;
        result = [];
      }

  -- One edge of the node that is taken from the queue. In a graph the counter is above 0 here and does not wrap.
  unfoldable pub release : HashMap ℕ (Edge J) → ℕ → Sorting → Sorting
  release edges edge_id s = elim (get edge_id edges) [
    | none ↦ s
    | some edge ↦ elim (get edge.target s.in_degree) [
      | none ↦ s
      | some degree ↦ record {
        in_degree = HashMap.insert edge.target (decrement degree) s.in_degree;
        queue = if decrement degree == 0 then s.queue ++ (edge.target ∷ []) else s.queue;
        result = s.result;
      }
    ]
  ]

  unfoldable pub release_all : HashMap ℕ (Edge J) → List ℕ → Sorting → Sorting
  release_all edges [] s = s
  release_all edges (edge_id ∷ edge_ids) s = release_all edges edge_ids (release edges edge_id s)

  unfoldable pub outgoing : Option (Node J) → List ℕ
  outgoing none = []
  outgoing (some node) = node.outgoing_edges

  -- One round: the first node of the queue goes to the result and its edges are released.
  unfoldable pub take_node : WorkflowDefinition J → ℕ → List ℕ → Sorting → Sorting
  take_node d node_id queue s =
      release_all d.edges (outgoing (get node_id d.nodes))
        (record { in_degree = s.in_degree; queue = queue; result = s.result ++ (node_id ∷ []) })

  unfoldable pub sort_loop : ℕ → WorkflowDefinition J → Sorting → Option (List ℕ)
  sort_loop zero d s = none
  sort_loop (suc rounds) d s = elim s.queue [
    | [] ↦ some s.result
    | node_id ∷ queue ↦ sort_loop rounds d (take_node d node_id queue s)
  ]

  unfoldable pub sort : WorkflowDefinition J → Option (List ℕ)
  sort d = sort_loop (suc (length d.nodes)) d (initial d.nodes)

  unfoldable pub get_topological_order : WorkflowDefinition J → Result WorkflowError (List ℕ)
  get_topological_order d = if has_cycle d then err cycle_detected else (elim (sort d) [
    | none ↦ err cycle_detected
    | some order ↦ if length order == length d.nodes then ok order else err cycle_detected
  ])
