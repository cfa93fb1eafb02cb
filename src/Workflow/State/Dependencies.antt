-- ===== src/Workflow/State/Dependencies.antt =====
-- The dependencies of a node that are still open, by the statuses of their sources.
use liongate.Base.{
  ℕ, ◌+◌, Bool, true, false, not, ◌&&◌, ◌≡◌, Option, ◌==◌, arith, is_some_and, count, count_cong,
  count_split,
}
use liongate.Base.Eq.{nat_Eq}
use liongate.Base.HashMap.{HashMap, get, get-insert, values}
use liongate.Base.HashMap
use liongate.Workflow.Definition.Graph.{leads_to, links}
use liongate.Workflow.Edge.{Edge}
use liongate.Workflow.Node.{NodeStatus, completed}

abbrev pub is_completed_status : NodeStatus → Bool
is_completed_status completed = true
is_completed_status _ = false

abbrev pub is_done : Option NodeStatus → Bool
is_done o = is_some_and is_completed_status o

module _ {J : Type 0} where
  abbrev pub is_open : HashMap ℕ NodeStatus → ℕ → Edge J → Bool
  is_open statuses n e = (e.target == n) && not (is_done (get e.source statuses))

  abbrev pub open_dependencies : HashMap ℕ (Edge J) → HashMap ℕ NodeStatus → ℕ → ℕ
  open_dependencies edges statuses n = count (is_open statuses n) (values edges)

  -- A node that was not completed, and is not now, leaves them.
  pub open_kept :
      (edges : HashMap ℕ (Edge J)) (statuses : HashMap ℕ NodeStatus) (m n : ℕ) (status : NodeStatus)
      → is_done (get m statuses) ≡ false
      → is_completed_status status ≡ false
      → open_dependencies edges (HashMap.insert m status statuses) n
        ≡ open_dependencies edges statuses n
  open_kept edges statuses m n status h k =
      count_cong (is_open (HashMap.insert m status statuses) n) (is_open statuses n) (values edges)
        (λ e _. ground (arith, get-insert e.source m status statuses))

  -- A node that completes closes its edges.
  pub open_split :
      (edges : HashMap ℕ (Edge J)) (statuses : HashMap ℕ NodeStatus) (m n : ℕ)
      → is_done (get m statuses) ≡ false
      → open_dependencies edges statuses n
        ≡ open_dependencies edges (HashMap.insert m completed statuses) n
          + count (links m n) (values edges)
  open_split edges statuses m n h =
      count_split (is_open statuses n) (is_open (HashMap.insert m completed statuses) n) (links m n)
        (values edges) (λ e _. ground (arith, get-insert e.source m completed statuses))
        (λ e _. ground (arith, get-insert e.source m completed statuses))

  -- Where nothing is completed, every edge is open.
  pub open_all :
      (edges : HashMap ℕ (Edge J)) (statuses : HashMap ℕ NodeStatus) (n : ℕ)
      → ((m : ℕ) → is_done (get m statuses) ≡ false)
      → open_dependencies edges statuses n ≡ count (leads_to n) (values edges)
  open_all edges statuses n h =
      count_cong (is_open statuses n) (leads_to n) (values edges)
        (λ e _. ground (arith, h e.source))
