-- ===== src/Workflow/State/Start.antt =====
-- What the loop of `new` and `reset` makes of a state.
use liongate.Base.{
  ℕ, ◌||◌, ◌≡◌, refl, ap, Option, none, some, [], ◌∷◌, if◌then◌else◌, arith, is_some_and, is_some,
}
use mathlib.Core.Option
use liongate.Base.Eq.{nat_Eq}
use liongate.Base.HashMap.{HashMap, get, get-insert, IsUnique}
use liongate.Base.HashSet.{contains-insert}
use liongate.Workflow.Node.{Node, NodeStatus}
use liongate.Workflow.State.{
  WorkflowState, get_node_status, get_node_in_degree, is_node_ready, enter, enter_all,
}
use liongate.Workflow.State.Activation.{is_zero}

abbrev or_else : {A : Type 0} → Option A → Option A → Option A
or_else none o = o
or_else (some a) o = some a

module _ {J : Type 0} where
  pub enter_all_status :
      (nodes : HashMap ℕ (Node J)) (s : WorkflowState J) (n : ℕ)
      → get_node_status (enter_all nodes s) n
        ≡ (if is_some (get n nodes) then some NodeStatus.pending else get_node_status s n)
  unfolding enter_all enter get
  enter_all_status [] s n = refl
  enter_all_status ((id, node) ∷ nodes) s n = ground (
    arith,
    enter_all_status nodes (enter s id node) n,
    get-insert n id NodeStatus.pending s.node_status,
  )

  pub enter_all_in_degree :
      (nodes : HashMap ℕ (Node J)) (s : WorkflowState J) (n : ℕ)
      → IsUnique nodes
      → get_node_in_degree (enter_all nodes s) n
        ≡ or_else (Option.map (λ node. node.in_degree) (get n nodes)) (get_node_in_degree s n)
  unfolding enter_all enter get
  enter_all_in_degree [] s n u = refl
  enter_all_in_degree ((id, node) ∷ nodes) s n u = ground (
    arith,
    u.0,
    ap (λ k. get k nodes) {x = id} {y = n},
    enter_all_in_degree nodes (enter s id node) n u.1,
    get-insert n id node.in_degree s.node_in_degree,
  )

  pub enter_all_ready :
      (nodes : HashMap ℕ (Node J)) (s : WorkflowState J) (n : ℕ)
      → IsUnique nodes
      → is_node_ready (enter_all nodes s) n
        ≡ (is_some_and (λ node. is_zero node.in_degree) (get n nodes) || is_node_ready s n)
  unfolding enter_all enter get
  enter_all_ready [] s n u = refl
  enter_all_ready ((id, node) ∷ nodes) s n u = ground (
    arith,
    u.0,
    ap (λ k. get k nodes) {x = id} {y = n},
    enter_all_ready nodes (enter s id node) n u.1,
    contains-insert n id s.ready_nodes,
  )

  -- The parts of a state that the loop leaves.
  pub record Enters (s t : WorkflowState J) : Type 0 where
    pub definition : t.definition ≡ s.definition
    pub is_completed : t.is_completed ≡ s.is_completed
    pub has_failed : t.has_failed ≡ s.has_failed

  pub enter_all-Enters :
      (nodes : HashMap ℕ (Node J)) (s : WorkflowState J) → Enters s (enter_all nodes s)
  unfolding enter_all enter
  enter_all-Enters [] s = record { definition = refl; is_completed = refl; has_failed = refl }
  enter_all-Enters ((id, node) ∷ nodes) s =
      let r = enter_all-Enters nodes (enter s id node) in
      record { definition = r.definition; is_completed = r.is_completed; has_failed = r.has_failed }
