-- ===== src/Workflow/Definition/Exactness.antt =====
-- `has_cycle` is exact: it finds no cycle in a graph that can be numbered along its edges.
use liongate.Base.{
  ℕ, zero, suc, ◌+◌, ◌<◌, ◌≤◌, Bool, true, false, ◌≡◌, ◌≢◌, ◌↔◌, refl, ap, ◌∙◌, Option, none, some,
  List, [], ◌∷◌, ◌∈◌, Memᴰ, arith, is_some, length, count, count-none, count-some, Bool-cases,
  Option-cases, inl, inr,
}
use liongate.Base.Eq.{nat_Eq}
use liongate.Base.HashMap.{get, values, keys}
use liongate.Base.HashSet.{contains, contains-insert, contains-remove}
use liongate.Base.HashSet
use liongate.Workflow.Definition.{WorkflowDefinition}
use liongate.Workflow.Definition.Graph.{IsGraph, links, reaches}
use liongate.Workflow.Definition.Search.{
  Search, has_cycle_dfs, visit_all, unless_cycle, leave, search_all, cycle_search, has_cycle,
  found_cycle, outgoing_of,
}
use liongate.Workflow.Definition.Acyclicity.{nothing, Ranks, has_cycle-Ranks, cycle_search_ends}
use liongate.Workflow.Edge.{Edge}
use liongate.Workflow.Node.{Node}

-- A part of the search that finds no cycle and leaves no more nodes on its path.
abbrev Calm : Search → Option (Bool × Search) → Type 0
Calm s none = Unit
Calm s (some (true, t)) = ⊥
Calm s (some (false, t)) = (x : ℕ) → contains x t.in_stack ≡ true → contains x s.in_stack ≡ true

Calm-trans :
    (s t : Search) (r : Option (Bool × Search))
    → ((x : ℕ) → contains x t.in_stack ≡ true → contains x s.in_stack ≡ true)
    → Calm t r
    → Calm s r
Calm-trans s t none h c = tt
Calm-trans s t (some (true, u)) h c = c
Calm-trans s t (some (false, u)) h c = λ x k. h x (c x k)

unless_cycle-Calm :
    (s s' : Search) (next : Search → Option (Bool × Search)) (r : Option (Bool × Search))
    → Calm s r
    → ((t : Search)
        → ((x : ℕ) → contains x t.in_stack ≡ true → contains x s.in_stack ≡ true)
        → Calm s' (next t))
    → Calm s' (unless_cycle next r)
unless_cycle-Calm s s' next none c k = tt
unless_cycle-Calm s s' next (some (true, t)) c k = absurd c
unless_cycle-Calm s s' next (some (false, t)) c k = k t c

module _ {J : Type 0} (d : WorkflowDefinition J) (rank : ℕ → ℕ) where
  -- The edges of these identifiers lead above `n`.
  abbrev Rises : ℕ → List ℕ → Type 0
  Rises n edge_ids =
      (edge_id : ℕ) (e : Edge J)
      → edge_id ∈ edge_ids
      → get edge_id d.edges ≡ some e
      → rank n < rank e.target

  -- No node of the path is above `n`.
  abbrev IsBelow : Search → ℕ → Type 0
  IsBelow s n = (x : ℕ) → contains x s.in_stack ≡ true → rank x ≤ rank n

  abbrev IsCalm : (ℕ → Search → Option (Bool × Search)) → Type 0
  IsCalm explore =
      (n : ℕ) (s : Search)
      → ((x : ℕ) → contains x s.in_stack ≡ true → rank x < rank n)
      → Calm s (explore n s)

  visit_all-Calm :
      (explore : ℕ → Search → Option (Bool × Search))
      → IsCalm explore
      → (n : ℕ) (edge_ids : List ℕ) (s : Search) → Rises n edge_ids
      → IsBelow s n
      → Calm s (visit_all d.edges explore edge_ids s)
  unfolding visit_all
  visit_all-Calm explore calm n [] s rises below = λ x h. h
  visit_all-Calm explore calm n (edge_id ∷ edge_ids) s rises below =
      let rest : Rises n edge_ids = λ i e m. rises i e (Memᴰ.tail m) in
      elim (Option-cases (get edge_id d.edges)) [
        | inl missing ↦
            rw (visit_all, missing) (visit_all-Calm explore calm n edge_ids s rest below)
        | inr (edge, found) ↦
            let above = rises edge_id edge (Memᴰ.head refl) found in
            elim (Bool-cases (contains edge.target s.visited)) [
              | inl old ↦ elim (Bool-cases (contains edge.target s.in_stack)) [
                | inl cyclic ↦ absurd (omega (arith, above, below edge.target cyclic))
                | inr done ↦
                    rw (visit_all, found, old, done)
                      (visit_all-Calm explore calm n edge_ids s rest below)
              ]
              | inr fresh ↦
                  rw (visit_all, found, fresh)
                    (unless_cycle-Calm s s (visit_all d.edges explore edge_ids)
                      (explore edge.target s)
                      (calm edge.target s (λ x h. omega (arith, below x h, above)))
                      (λ t kept. Calm-trans s t _ kept (
                        visit_all-Calm explore calm n edge_ids t rest (λ x h. below x (kept x h)))))
            ]
      ]

  has_cycle_dfs-IsCalm :
      ((n : ℕ) → Rises n (outgoing_of (get n d.nodes)))
      → (depth : ℕ) → IsCalm (has_cycle_dfs d depth)
  unfolding has_cycle_dfs
  has_cycle_dfs-IsCalm rises zero n s below = tt
  has_cycle_dfs-IsCalm rises (suc depth) n s below =
      let entered : Search = record {
        visited = HashSet.insert n s.visited;
        in_stack = HashSet.insert n s.in_stack;
      } in
      unless_cycle-Calm entered s (leave n) _
        (visit_all-Calm (has_cycle_dfs d depth) (has_cycle_dfs-IsCalm rises depth) n
          (outgoing_of (get n d.nodes)) entered (rises n)
          (λ x h.
            ground (arith, h, contains-insert x n s.in_stack, below x, ap rank {x = n} {y = x})))
        (λ t kept x h.
          ground (arith, h, kept x, contains-insert x n s.in_stack, contains-remove x n t.in_stack))

  search_all-Calm :
      ((n : ℕ) → Rises n (outgoing_of (get n d.nodes)))
      → (depth : ℕ) (node_ids : List ℕ) (s : Search) → ((x : ℕ) → contains x s.in_stack ≡ false)
      → Calm s (search_all d depth node_ids s)
  unfolding search_all
  search_all-Calm rises depth [] s idle = λ x h. h
  search_all-Calm rises depth (node_id ∷ node_ids) s idle =
      elim (Bool-cases (contains node_id s.visited)) [
        | inl old ↦ rw (search_all, old) (search_all-Calm rises depth node_ids s idle)
        | inr fresh ↦
            rw (search_all, fresh)
              (unless_cycle-Calm s s (search_all d depth node_ids) (has_cycle_dfs d depth node_id s)
                (has_cycle_dfs-IsCalm rises depth node_id s
                  (λ x h. absurd (ground (arith, h, idle x))))
                (λ t kept.
                  Calm-trans s t _ kept
                    (search_all-Calm rises depth node_ids t (λ x. ground (arith, kept x, idle x)))))
      ]

  outgoing-Rises : IsGraph d → Ranks d rank → (n : ℕ) → Rises n (outgoing_of (get n d.nodes))
  outgoing-Rises g ranks n edge_id e m known = elim (Option-cases (get n d.nodes)) [
    | inl missing ↦ elim (rw missing at m) [ ]
    | inr (node, found) ↦
        let (f, t, link) = count-some (links n e.target) (values d.edges) (λ z.
          unreached node found (rw found at m) (g.outgoing_exact n e.target node found ∙ z)) in
        ground (
          arith,
          ranks f t,
          link,
          ap rank {x = f.source} {y = n},
          ap rank {x = f.target} {y = e.target},
        )
  ]
    where
      unreached :
          (node : Node J)
          → get n d.nodes ≡ some node
          → edge_id ∈ node.outgoing_edges
          → count (reaches d.edges e.target) node.outgoing_edges ≢ 0
      unreached node found k z = ground (arith, known, count-none (reaches d.edges e.target) z k)

  finds_nothing :
      (s : Search) (r : Option (Bool × Search))
      → is_some r ≡ true
      → Calm s r
      → found_cycle r ≡ false
  finds_nothing s none h c = cc
  finds_nothing s (some (true, t)) h c = absurd c
  finds_nothing s (some (false, t)) h c = refl

  Ranks-has_cycle : IsGraph d → Ranks d rank → has_cycle d ≡ false
  unfolding has_cycle cycle_search
  Ranks-has_cycle g ranks = ground (
    arith,
    finds_nothing nothing (cycle_search d) (cycle_search_ends d) (
        search_all-Calm (outgoing-Rises g ranks) (length (values d.edges) + 2) (keys d.nodes)
          nothing (λ x. refl)),
  )

-- In a graph, `has_cycle` is false exactly when the nodes can be numbered so that every edge goes to a
-- greater number.
pub has_cycle_exact :
    {J : Type 0} (d : WorkflowDefinition J)
    → IsGraph d
    → (has_cycle d ≡ false) ↔ ((rank : ℕ → ℕ) × Ranks d rank)
has_cycle_exact d g = (has_cycle-Ranks d g, λ (rank, ranks). Ranks-has_cycle d rank g ranks)
