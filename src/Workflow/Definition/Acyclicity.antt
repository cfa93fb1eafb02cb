-- ===== src/Workflow/Definition/Acyclicity.antt =====
-- A graph in which `has_cycle` finds no cycle can be numbered along its edges.
use liongate.Base.{
  ℕ, suc, ◌+◌, ◌<◌, ◌≤◌, Bool, true, false, ◌≡◌, refl, sym, ap, ◌∙◌, Option, none, some, List, [],
  ◌∷◌, ◌==◌, ◌∈◌, Memᴰ, arith, is_some, if◌then◌else◌, is_empty, length, count, count-none,
  count-some, count_mono, count-length, Bool-cases, Option-cases, inl, inr,
}
use liongate.Base.Eq.{nat_Eq}
use liongate.Base.HashMap.{get, values, keys, get-keys, get-is_empty}
use liongate.Base.HashSet.{contains, contains-insert, contains-of_mem}
use liongate.Base.HashSet
use liongate.Workflow.Definition.{WorkflowDefinition}
use liongate.Workflow.Definition.Graph.{IsGraph, links, reaches}
use liongate.Workflow.Definition.Search.{
  Search, has_cycle_dfs, search_all, cycle_search, has_cycle, found_cycle, outgoing_of,
}
use liongate.Workflow.Definition.Finishing.{
  is_unvisited, unvisited, IsOrdered, IsFinished, Outcome, Extends-refl,
}
use liongate.Workflow.Definition.Finding.{
  Outcome-trans, unless_cycle-Outcome, has_cycle_dfs-Explores,
}
use liongate.Workflow.Edge.{Edge}
use liongate.Workflow.Node.{Node}

abbrev pub nothing : Search
nothing = record { visited = []; in_stack = [] }

module _ {J : Type 0} (d : WorkflowDefinition J) where
  -- All of these nodes are in the list.
  abbrev Lists : List ℕ → List ℕ → Type 0
  Lists node_ids after = (x : ℕ) → x ∈ node_ids → contains x after ≡ true

  Lists-cons :
      (node_id : ℕ) (node_ids after : List ℕ)
      → contains node_id after ≡ true
      → Lists node_ids after
      → Lists (node_id ∷ node_ids) after
  Lists-cons node_id node_ids after h l x (Memᴰ.head q) = rw q h
  Lists-cons node_id node_ids after h l x (Memᴰ.tail m) = l x m

  unvisited_all : (visited : List ℕ) → unvisited d.edges visited ≤ unvisited d.edges []
  unvisited_all visited =
      count_mono (is_unvisited visited) (is_unvisited []) (values d.edges) (λ e _ _. refl)

  search_all-Outcome :
      (depth : ℕ) (node_ids : List ℕ) (s : Search) (order : List ℕ)
      → IsFinished d s order
      → ((x : ℕ) → contains x s.in_stack ≡ false)
      → unvisited d.edges [] < depth
      → Outcome d s order (Lists node_ids) (search_all d depth node_ids s)
  unfolding search_all
  search_all-Outcome depth [] s order f idle enough =
      (order, Extends-refl d s order f, λ x m. elim m [ ])
  search_all-Outcome depth (node_id ∷ node_ids) s order f idle enough =
      elim (Bool-cases (contains node_id s.visited)) [
        | inl old ↦
            rw (search_all, old)
              (Outcome-trans d _ (Extends-refl d s order f)
                (λ last grown.
                  Lists-cons node_id node_ids last
                    (grown node_id (ground (arith, f.visited node_id, old, idle node_id))))
                (search_all-Outcome depth node_ids s order f idle enough))
        | inr fresh ↦
            rw (search_all, fresh)
              (unless_cycle-Outcome d s s order order (λ after. contains node_id after ≡ true)
                (Lists (node_id ∷ node_ids)) (search_all d depth node_ids)
                (has_cycle_dfs d depth node_id s)
                (has_cycle_dfs-Explores d depth node_id s order f fresh
                  (omega (arith, unvisited_all (HashSet.insert node_id s.visited), enough)))
                (λ t after e reached.
                  Outcome-trans d _ e
                    (λ last grown. Lists-cons node_id node_ids last (grown node_id reached))
                    (search_all-Outcome depth node_ids t after e.finished
                      (λ x. ground (arith, e.in_stack x, idle x)) enough)))
      ]

  cycle_search-Outcome : Outcome d nothing [] (Lists (keys d.nodes)) (cycle_search d)
  unfolding cycle_search
  cycle_search-Outcome =
      search_all-Outcome (length (values d.edges) + 2) (keys d.nodes) nothing []
        (record { visited = λ x. refl; apart = λ x. refl; ordered = tt }) (λ x. refl)
        (omega (arith, count-length (is_unvisited []) (values d.edges)))

  -- The depth that `has_cycle` allows is enough: the search of any definition ends.
  pub cycle_search_ends : is_some (cycle_search d) ≡ true
  cycle_search_ends = ends (cycle_search d) cycle_search-Outcome
    where
      ends :
          (r : Option (Bool × Search))
          → Outcome d nothing [] (Lists (keys d.nodes)) r
          → is_some r ≡ true
      ends none o = absurd o
      ends (some _) o = refl

  -- The position of a node.
  index : List ℕ → ℕ → ℕ
  index [] n = 0
  index (x ∷ order) n = if x == n then 0 else suc (index order n)

  index-IsOrdered :
      (order : List ℕ) (m edge_id : ℕ) (e : Edge J)
      → IsOrdered d order
      → edge_id ∈ outgoing_of (get m d.nodes)
      → get edge_id d.edges ≡ some e
      → contains m order ≡ true
      → (contains e.target order ≡ true) × (index order m < index order e.target)
  unfolding index
  index-IsOrdered [] m edge_id e o t found h = absurd (cc h)
  index-IsOrdered (x ∷ order) m edge_id e (reached, apart, o) t found h =
      elim (Bool-cases (x == m)) [
        | inl same ↦
            let q : x ≡ m = ground (arith, same) in
            let listed : contains e.target order ≡ true = reached edge_id e (rw q t) found in
            (
              ground (arith, listed),
              ground
                  (arith, same, listed, apart, ap (λ k. contains k order) {x = x} {y = e.target}),
            )
        | inr other ↦
            let (listed, less) =
              index-IsOrdered order m edge_id e o t found (ground (arith, other, h)) in
            (
              ground (arith, listed),
              ground (
                arith,
                less,
                other,
                listed,
                apart,
                ap (λ k. contains k order) {x = x} {y = e.target},
              ),
            )
      ]

  -- An edge of a graph is named by the outgoing edges of its source.
  named_edge :
      (e : Edge J)
      → IsGraph d
      → e ∈ values d.edges
      → (edge_id : ℕ) × (f : Edge J) × (edge_id ∈ outgoing_of (get e.source d.nodes))
        × (get edge_id d.edges ≡ some f)
        × (f.target ≡ e.target)
  named_edge e g m = elim (Option-cases (get e.source d.nodes)) [
    | inl missing ↦ absurd (ground (arith, missing, g.has_source e m))
    | inr (node, found) ↦
        let (edge_id, t, reached) = count-some (reaches d.edges e.target) node.outgoing_edges (λ z.
          absurd
            (ground (arith, z, count-none (links e.source e.target) (counted node found z) m))) in
        elim (Option-cases (get edge_id d.edges)) [
          | inl unknown ↦ absurd (ground (arith, unknown, reached))
          | inr (f, known) ↦ (edge_id, f, rw found t, known, ground (arith, known, reached))
        ]
  ]
    where
      counted :
          (node : Node J)
          → get e.source d.nodes ≡ some node
          → count (reaches d.edges e.target) node.outgoing_edges ≡ 0
          → count (links e.source e.target) (values d.edges) ≡ 0
      counted node found z = sym (g.outgoing_exact e.source e.target node found) ∙ z

  -- A numbering of the nodes that grows along the edges.
  abbrev pub Ranks : (ℕ → ℕ) → Type 0
  Ranks rank = (e : Edge J) → e ∈ values d.edges → rank e.source < rank e.target

  finished-Ranks :
      (r : Option (Bool × Search))
      → IsGraph d
      → Outcome d nothing [] (Lists (keys d.nodes)) r
      → found_cycle r ≡ false
      → (rank : ℕ → ℕ) × Ranks rank
  finished-Ranks none g o h = absurd o
  finished-Ranks (some (true, t)) g o h = cc
  finished-Ranks (some (false, t)) g (order, extends, listed) h = (
    index order,
    λ e m.
        let (edge_id, f, t, known, q) = named_edge e g m in
        let there = listed e.source (get-keys e.source d.nodes (g.has_source e m)) in
        rw (← q)
          (index-IsOrdered order e.source edge_id f extends.finished.ordered t known there).1,
  )

  -- A graph in which `has_cycle` finds no cycle has no cycle: its nodes can be numbered so that every
  -- edge goes to a greater number.
  pub has_cycle-Ranks : IsGraph d → has_cycle d ≡ false → (rank : ℕ → ℕ) × Ranks rank
  unfolding has_cycle
  has_cycle-Ranks g h = elim (Bool-cases (is_empty d.nodes)) [
    | inl empty ↦ (
      (λ n. n),
      λ e m. absurd (ground (arith, g.has_source e m, get-is_empty e.source d.nodes empty)),
    )
    | inr some_nodes ↦
        finished-Ranks (cycle_search d) g cycle_search-Outcome (ground (arith, some_nodes))
  ]
