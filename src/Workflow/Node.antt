-- ===== src/Workflow/Node.antt =====
-- lion/lion_workflow/src/model/node.rs: the nodes of a workflow. The identifiers are UUIDs, here
-- numbers; `J` is the type of JSON values of a library, with its `null`.
use liongate.Base.{
  ℕ, ◌+◌, ◌-◌, Bool, true, false, ◌&&◌, Option, none, List, [], if◌then◌else◌, ◌==◌, ltb,
}
use liongate.Base.Eq.{nat_Eq}
use liongate.Base.HashSet
use liongate.Base.Text.{Text}

pub data NodeStatus : Type 0 where
  pending ready running completed failed skipped cancelled : NodeStatus

-- The derived comparisons with one constructor each.
abbrev pub is_pending : NodeStatus → Bool
is_pending pending = true
is_pending _ = false

abbrev is_ready_status : NodeStatus → Bool
is_ready_status ready = true
is_ready_status _ = false

pub data Priority : Type 0 where
  low normal high critical : Priority

pub record Node (J : Type 0) : Type 0 where
  pub id : ℕ
  pub name : Text
  pub status : NodeStatus
  pub in_degree : ℕ
  pub outgoing_edges : List ℕ
  pub incoming_edges : List ℕ
  pub required_capability : Option ℕ
  pub priority : Priority
  pub deadline : Option ℕ
  pub config : J

module _ {J : Type 0} where
  abbrev pub new : J → ℕ → Text → Node J
  new null id name = record {
    id = id;
    name = name;
    status = pending;
    in_degree = 0;
    outgoing_edges = [];
    incoming_edges = [];
    required_capability = none;
    priority = normal;
    deadline = none;
    config = null;
  }

  abbrev pub is_ready : Node J → Bool
  is_ready n = is_pending n.status && n.in_degree == 0

  pub mark_ready : Node J → Node J
  mark_ready n = if is_pending n.status && n.in_degree == 0 then record n { status = ready } else n

  pub mark_running : Node J → Node J
  mark_running n = if is_ready_status n.status then record n { status = running } else n

  pub mark_completed : Node J → Node J
  mark_completed n = record n { status = completed }

  pub mark_failed : Node J → Node J
  mark_failed n = record n { status = failed }

  unfoldable pub increment_in_degree : Node J → Node J
  increment_in_degree n = record n { in_degree = n.in_degree + 1 }

  -- The node, and whether it became ready.
  unfoldable pub decrement_in_degree : Node J → Node J × Bool
  decrement_in_degree n =
      if ltb 0 n.in_degree
      then (if (n.in_degree - 1 == 0) && is_pending n.status
          then (record n { in_degree = n.in_degree - 1; status = ready }, true)
          else (record n { in_degree = n.in_degree - 1 }, false))
      else (n, false)

  unfoldable pub add_outgoing_edge : Node J → ℕ → Node J
  add_outgoing_edge n edge_id = record n {
    outgoing_edges = HashSet.insert edge_id n.outgoing_edges;
  }

  unfoldable pub add_incoming_edge : Node J → ℕ → Node J
  unfolding increment_in_degree
  add_incoming_edge n edge_id =
      increment_in_degree (record n { incoming_edges = HashSet.insert edge_id n.incoming_edges })

  -- The node, and whether the edge was there.
  unfoldable pub remove_outgoing_edge : Node J → ℕ → Node J × Bool
  remove_outgoing_edge n edge_id = (
    record n { outgoing_edges = HashSet.remove edge_id n.outgoing_edges },
    HashSet.contains edge_id n.outgoing_edges,
  )

  unfoldable pub remove_incoming_edge : Node J → ℕ → Node J × Bool
  unfolding decrement_in_degree
  remove_incoming_edge n edge_id =
      if HashSet.contains edge_id n.incoming_edges
      then (
        (decrement_in_degree
            (record n { incoming_edges = HashSet.remove edge_id n.incoming_edges })).0,
        true,
      )
      else (n, false)
