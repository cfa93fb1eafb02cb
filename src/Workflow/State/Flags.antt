-- ===== src/Workflow/State/Flags.antt =====
-- The flags of an execution, `is_completed` and `has_failed`.
use liongate.Base.{
  ℕ, Bool, true, false, not, ◌&&◌, ◌||◌, ◌≡◌, refl, some, [], ◌∷◌, arith, all, all-elim, inl, inr,
  Bool-cases,
}
use liongate.Base.Eq.{nat_Eq}
use liongate.Base.HashMap.{
  HashMap, get, get-insert, values, IsUnique, insert-IsUnique, get-values, values_elim,
}
use liongate.Base.HashMap
use liongate.Workflow.Node.{Node, NodeStatus}
use liongate.Workflow.State.{
  WorkflowState, is_terminal, enter, enter_all, check_workflow_completion,
}

abbrev pub is_failed_status : NodeStatus → Bool
is_failed_status NodeStatus.failed = true
is_failed_status _ = false

is_failed_status_elim :
    (status : NodeStatus) → is_failed_status status ≡ true → status ≡ NodeStatus.failed
is_failed_status_elim NodeStatus.failed h = refl
is_failed_status_elim _ h = cc

abbrev pub all_terminal : HashMap ℕ NodeStatus → Bool
all_terminal statuses = all is_terminal (values statuses)

pub unfinished-all_terminal :
    (statuses : HashMap ℕ NodeStatus) (n : ℕ) (status : NodeStatus)
    → get n statuses ≡ some status
    → is_terminal status ≡ false
    → all_terminal statuses ≡ false
unfinished-all_terminal statuses n status found h = elim (Bool-cases (all_terminal statuses)) [
  | inl all_done ↦
      absurd (ground (arith, h, all-elim is_terminal all_done (get-values n statuses found)))
  | inr some_left ↦ some_left
]

module _ {J : Type 0} where
  -- `has_failed` tells whether a node has failed.
  pub record IsFlagged (s : WorkflowState J) : Type 0 where
    pub unique : IsUnique s.node_status
    pub failure : s.has_failed ≡ true → (n : ℕ) × (get n s.node_status ≡ some NodeStatus.failed)
    pub flag : (n : ℕ) → get n s.node_status ≡ some NodeStatus.failed → s.has_failed ≡ true

  pub record IsOutcome (s : WorkflowState J) : Type 0 where
    pub flagged : IsFlagged s
    pub completion : s.is_completed ≡ (not s.has_failed && all_terminal s.node_status)

  -- A node that was not in a terminal state gets another status.
  pub tag-IsFlagged :
      (s t : WorkflowState J) (n : ℕ) (old status : NodeStatus)
      → get n s.node_status ≡ some old
      → is_terminal old ≡ false
      → t.node_status ≡ HashMap.insert n status s.node_status
      → t.has_failed ≡ (is_failed_status status || s.has_failed)
      → IsFlagged s
      → IsFlagged t
  tag-IsFlagged s t n old status found open_before same flag f = record {
    unique = rw same (insert-IsUnique n status s.node_status f.unique);
    failure = λ h. elim (Bool-cases (is_failed_status status)) [
      | inl failing ↦ (
        n,
        ground (
          arith,
          same,
          get-insert n n status s.node_status,
          is_failed_status_elim status failing,
        ),
      )
      | inr other ↦ kept h other
    ];
    flag = λ k h. ground (arith, same, flag, get-insert k n status s.node_status, f.flag k);
  }
    where
      kept :
          t.has_failed ≡ true
          → is_failed_status status ≡ false
          → (k : ℕ) × (get k t.node_status ≡ some NodeStatus.failed)
      kept h other =
          let (k, e) = f.failure (ground (arith, flag)) in
          (k, ground (arith, e, same, found, get-insert k n status s.node_status))

  pub check-IsOutcome :
      (s : WorkflowState J)
      → s.is_completed ≡ false
      → IsFlagged s
      → IsOutcome (check_workflow_completion s)
  unfolding check_workflow_completion
  check-IsOutcome s h f = record {
    flagged = record {
      unique = ground (arith, f.unique);
      failure = λ k. ground (arith, f.failure);
      flag = λ n e. ground (arith, f.flag n);
    };
    completion = ground arith;
  }

  pub enter_all-IsUnique :
      (nodes : HashMap ℕ (Node J)) (s : WorkflowState J)
      → IsUnique s.node_status
      → IsUnique (enter_all nodes s).node_status
  unfolding enter_all enter
  enter_all-IsUnique [] s u = u
  enter_all-IsUnique ((id, node) ∷ nodes) s u =
      enter_all-IsUnique nodes (enter s id node)
        (insert-IsUnique id NodeStatus.pending s.node_status u)
