-- ===== src/Workflow/Examples.antt =====
-- A workflow of two nodes with an edge between them, and executions of it.
use liongate.Base.{
  not, ℕ, List, true, false, ◌≡◌, ◌≢◌, ◌↔◌, ◌⊎◌, refl, some, [], ◌∷◌, ◌&&◌, Result, ok, err, is_ok,
  ◌∈◌, Memᴰ, arith, is_some, is_some_and,
}
use liongate.Base.Eq.{nat_Eq}
use liongate.Base.HashMap
use liongate.Base.HashMap.{get, values}
use liongate.Base.HashSet
use liongate.Base.Text.{codes}
use liongate.Workflow.Edge.{Edge}
use liongate.Workflow.Edge
use liongate.Workflow.Node
use liongate.Workflow.Node.{
  Node, NodeStatus, running, completed, ready, is_ready, add_outgoing_edge, add_incoming_edge,
  increment_in_degree,
}
use liongate.Workflow.Definition
use liongate.Workflow.Definition.{
  WorkflowDefinition, cycle_detected, add_node, validate_edge_capabilities, remove_edge, detach,
}
use liongate.Workflow.Definition.Search.{
  has_cycle, cycle_search, search_all, has_cycle_dfs, visit_all,
}
use liongate.Workflow.Definition.Building.{add_edge, insert_edge, attach}
use liongate.Workflow.Definition.Graph.{IsGraph}
use liongate.Workflow.Definition.Preservation.{new-IsGraph}
use liongate.Workflow.Definition.Isolated.{add_node-IsGraph}
use liongate.Workflow.Definition.Adding.{add_edge-IsGraph}
use liongate.Workflow.Definition.Reverting.{refused_edge_changes_target}
use liongate.Workflow.State
use liongate.Workflow.State.{
  WorkflowState, get_node_status, get_node_in_degree, is_node_ready, enter, enter_all,
  set_node_running, set_node_completed, complete, activate_next, activate_all, activate, decrease,
  check_workflow_completion,
}
use liongate.Workflow.State.Executions.{
  IsReachable, begins, continues, runs, completes, ready_exact, dependencies_first,
}
use liongate.Workflow.State.Ending.{completed_exact, failed_exact}
use liongate.Workflow.State.Newly.{newly_ready_exact}
use liongate.Workflow.State.Progress.{progress}
use liongate.Workflow.Definition.Acyclicity.{Ranks, cycle_search_ends}
use liongate.Workflow.Definition.Exactness.{has_cycle_exact}
use liongate.Workflow.Definition.Ordering.{
  initial, release, release_all, outgoing, take_node, sort_loop, sort, get_topological_order,
}
use liongate.Workflow.Definition.Ordering.Rounds.{Distinct}
use liongate.Workflow.Definition.Ordering.Sorted.{SourcesFirst}
use liongate.Workflow.Definition.Ordering.Complete.{topological_order_complete}
use liongate.Workflow.State.Invariant.{is_begun}

abbrev node_a : Node ℕ
node_a = Node.new 0 1 (codes "a")

abbrev node_b : Node ℕ
node_b = Node.new 0 2 (codes "b")

abbrev edge_ab : Edge ℕ
edge_ab = Edge.new 0 10 1 2

abbrev edge_ba : Edge ℕ
edge_ba = Edge.new 0 11 2 1

abbrev no_nodes : WorkflowDefinition ℕ
no_nodes = Definition.new 0 7 (codes "pair")

abbrev one_node : WorkflowDefinition ℕ
one_node = (add_node 1 no_nodes node_a).1

abbrev two_nodes : WorkflowDefinition ℕ
two_nodes = (add_node 2 one_node node_b).1

abbrev pair : WorkflowDefinition ℕ
pair = (add_edge 3 two_nodes edge_ab).1

edge_accepted : is_ok (add_edge 3 two_nodes edge_ab).0 ≡ true
unfolding add_edge add_node insert_edge attach has_cycle cycle_search search_all has_cycle_dfs
    visit_all Definition.new validate_edge_capabilities get HashMap.insert HashMap.modify
    HashSet.insert HashSet.remove add_outgoing_edge add_incoming_edge increment_in_degree
edge_accepted = refl

one_node-IsGraph : IsGraph one_node
one_node-IsGraph =
    add_node-IsGraph 1 no_nodes node_a (record { in_degree = refl; outgoing_edges = refl })
      (new-IsGraph 0 7 (codes "pair"))

two_nodes-IsGraph : IsGraph two_nodes
two_nodes-IsGraph =
    add_node-IsGraph 2 one_node node_b (record { in_degree = refl; outgoing_edges = refl })
      one_node-IsGraph

pair-IsGraph : IsGraph pair
pair-IsGraph = (add_edge-IsGraph 3 two_nodes edge_ab edge_accepted two_nodes-IsGraph).0

add_edge-IsGraph_example : IsGraph pair × (has_cycle pair ≡ false)
add_edge-IsGraph_example = add_edge-IsGraph 3 two_nodes edge_ab edge_accepted two_nodes-IsGraph

pair_acyclic : has_cycle pair ≡ false
pair_acyclic = (add_edge-IsGraph 3 two_nodes edge_ab edge_accepted two_nodes-IsGraph).1

has_cycle_exact_example : (has_cycle pair ≡ false) ↔ ((rank : ℕ → ℕ) × Ranks pair rank)
has_cycle_exact_example = has_cycle_exact pair pair-IsGraph

cycle_search_ends_example : is_some (cycle_search pair) ≡ true
cycle_search_ends_example = cycle_search_ends pair

topological_order_complete_example :
    (order : List ℕ) × (get_topological_order pair ≡ ok order)
    × SourcesFirst pair [] order
    × Distinct order
    × ((n : ℕ) → HashSet.contains n order ≡ HashMap.contains_key n pair.nodes)
topological_order_complete_example = topological_order_complete pair pair-IsGraph pair_acyclic

pair_order : get_topological_order pair ≡ ok (1 ∷ 2 ∷ [])
unfolding get_topological_order sort sort_loop take_node outgoing release_all release initial
    add_edge add_node insert_edge attach has_cycle cycle_search search_all has_cycle_dfs visit_all
    Definition.new validate_edge_capabilities remove_edge detach get HashMap.insert HashMap.modify
    HashMap.remove HashSet.insert HashSet.remove add_outgoing_edge add_incoming_edge
    increment_in_degree
pair_order = refl

edge_refused : (add_edge 4 pair edge_ba).0 ≡ err cycle_detected
unfolding add_edge add_node insert_edge attach has_cycle cycle_search search_all has_cycle_dfs
    visit_all Definition.new validate_edge_capabilities remove_edge detach get HashMap.insert
    HashMap.modify HashMap.remove HashSet.insert HashSet.remove add_outgoing_edge add_incoming_edge
    increment_in_degree
edge_refused = refl

abbrev source_a : Node ℕ
source_a = record node_a { outgoing_edges = 10 ∷ [] }

a_found : get 1 pair.nodes ≡ some source_a
unfolding add_edge add_node insert_edge attach has_cycle cycle_search search_all has_cycle_dfs
    visit_all Definition.new validate_edge_capabilities get HashMap.insert HashMap.modify
    HashSet.insert HashSet.remove add_outgoing_edge add_incoming_edge increment_in_degree
a_found = refl

refused_edge_changes_target_example :
    (node' : Node ℕ) × (get 1 (add_edge 4 pair edge_ba).1.nodes ≡ some node')
    × (node'.status ≡ ready)
    × (node'.in_degree ≡ 0)
    × (is_ready node' ≡ false)
refused_edge_changes_target_example =
    refused_edge_changes_target 4 pair edge_ba source_a edge_refused a_found refl

abbrev start : WorkflowState ℕ
start = State.new 0 5 (codes "run") pair

abbrev or_start : {E : Type 0} → Result E (WorkflowState ℕ) → WorkflowState ℕ
or_start (err _) = start
or_start (ok s) = s

abbrev state_after : {E A : Type 0} → Result E (WorkflowState ℕ × A) → WorkflowState ℕ
state_after (err _) = start
state_after (ok (s, _)) = s

abbrev a_runs : WorkflowState ℕ
a_runs = or_start (set_node_running 6 start 1)

a_started : set_node_running 6 start 1 ≡ ok a_runs
unfolding add_edge add_node insert_edge attach has_cycle cycle_search search_all has_cycle_dfs
    visit_all Definition.new validate_edge_capabilities get HashMap.insert HashMap.modify
    HashSet.insert HashSet.remove add_outgoing_edge add_incoming_edge increment_in_degree State.new
    enter_all enter set_node_running
a_started = refl

abbrev a_done : WorkflowState ℕ
a_done = state_after (set_node_completed 7 a_runs 1 33)

a_completed : set_node_completed 7 a_runs 1 33 ≡ ok (a_done, 2 ∷ [])
unfolding add_edge add_node insert_edge attach has_cycle cycle_search search_all has_cycle_dfs
    visit_all Definition.new validate_edge_capabilities get HashMap.insert HashMap.modify
    HashSet.insert HashSet.remove add_outgoing_edge add_incoming_edge increment_in_degree State.new
    enter_all enter set_node_running set_node_completed complete activate_next activate_all activate
    decrease check_workflow_completion
a_completed = refl

abbrev b_runs : WorkflowState ℕ
b_runs = or_start (set_node_running 8 a_done 2)

b_started : set_node_running 8 a_done 2 ≡ ok b_runs
unfolding add_edge add_node insert_edge attach has_cycle cycle_search search_all has_cycle_dfs
    visit_all Definition.new validate_edge_capabilities get HashMap.insert HashMap.modify
    HashSet.insert HashSet.remove add_outgoing_edge add_incoming_edge increment_in_degree State.new
    enter_all enter set_node_running set_node_completed complete activate_next activate_all activate
    decrease check_workflow_completion
b_started = refl

a_runs-IsReachable : IsReachable 0 pair a_runs
a_runs-IsReachable = continues (begins 5 (codes "run")) (runs 6 1 a_started)

a_done-IsReachable : IsReachable 0 pair a_done
a_done-IsReachable =
    continues (continues (begins 5 (codes "run")) (runs 6 1 a_started))
      (completes 7 1 33 (2 ∷ []) a_completed)

b_runs-IsReachable : IsReachable 0 pair b_runs
b_runs-IsReachable = continues a_done-IsReachable (runs 8 2 b_started)

ready_exact_example : (is_node_ready a_done 2 ≡ true) ↔ (
    (get_node_status a_done 2 ≡ some NodeStatus.pending) × (get_node_in_degree a_done 2 ≡ some 0))
ready_exact_example = ready_exact 0 pair pair-IsGraph a_done 2 a_done-IsReachable

b_there : is_some (get 2 pair.nodes) ≡ true
unfolding add_edge add_node insert_edge attach has_cycle cycle_search search_all has_cycle_dfs
    visit_all Definition.new validate_edge_capabilities get HashMap.insert HashMap.modify
    HashSet.insert HashSet.remove add_outgoing_edge add_incoming_edge increment_in_degree
b_there = refl

edge_there : edge_ab ∈ values pair.edges
unfolding add_edge add_node insert_edge attach has_cycle cycle_search search_all has_cycle_dfs
    visit_all Definition.new validate_edge_capabilities get HashMap.insert HashMap.modify
    HashSet.insert HashSet.remove add_outgoing_edge add_incoming_edge increment_in_degree
edge_there = Memᴰ.head refl

b_begun : is_some_and is_begun (get_node_status b_runs 2) ≡ true
unfolding add_edge add_node insert_edge attach has_cycle cycle_search search_all has_cycle_dfs
    visit_all Definition.new validate_edge_capabilities get HashMap.insert HashMap.modify
    HashSet.insert HashSet.remove add_outgoing_edge add_incoming_edge increment_in_degree State.new
    enter_all enter set_node_running set_node_completed complete activate_next activate_all activate
    decrease check_workflow_completion
b_begun = refl

dependencies_first_example : get_node_status b_runs 1 ≡ some completed
dependencies_first_example =
    dependencies_first 0 pair pair-IsGraph b_runs edge_ab b_runs-IsReachable edge_there b_begun

completed_exact_example :
    (b_runs.is_completed ≡ true)
    ↔ ((n : ℕ) → is_some (get n pair.nodes) ≡ true → get_node_status b_runs n ≡ some completed)
completed_exact_example = completed_exact 0 pair pair-IsGraph 2 b_there b_runs b_runs-IsReachable

failed_exact_example :
    ((b_runs.has_failed ≡ true) ↔ ((n : ℕ) × (get_node_status b_runs n ≡ some NodeStatus.failed)))
    × (b_runs.has_failed && b_runs.is_completed ≡ false)
failed_exact_example = failed_exact 0 pair pair-IsGraph 2 b_there b_runs b_runs-IsReachable

nothing_failed : a_done.has_failed ≡ false
unfolding add_edge add_node insert_edge attach has_cycle cycle_search search_all has_cycle_dfs
    visit_all Definition.new validate_edge_capabilities get HashMap.insert HashMap.modify
    HashSet.insert HashSet.remove add_outgoing_edge add_incoming_edge increment_in_degree State.new
    enter_all enter set_node_running set_node_completed complete activate_next activate_all activate
    decrease check_workflow_completion
nothing_failed = refl

nothing_runs : (n : ℕ) → get_node_status a_done n ≢ some running
unfolding add_edge add_node insert_edge attach has_cycle cycle_search search_all has_cycle_dfs
    visit_all Definition.new validate_edge_capabilities get HashMap.insert HashMap.modify
    HashSet.insert HashSet.remove add_outgoing_edge add_incoming_edge increment_in_degree State.new
    enter_all enter set_node_running set_node_completed complete activate_next activate_all activate
    decrease check_workflow_completion
nothing_runs n h = ground arith

progress_example : ((n : ℕ) × (is_node_ready a_done n ≡ true)) ⊎ (a_done.is_completed ≡ true)
progress_example =
    progress 0 pair pair-IsGraph a_done 2 pair_acyclic b_there a_done-IsReachable nothing_failed
      nothing_runs

newly_ready_exact_example :
    HashSet.contains {K = ℕ} 2 (2 ∷ []) ≡ (is_node_ready a_done 2 && not (is_node_ready a_runs 2))
newly_ready_exact_example =
    newly_ready_exact 0 pair pair-IsGraph 7 a_runs a_done 1 33 (2 ∷ []) 2 a_runs-IsReachable
      a_completed
