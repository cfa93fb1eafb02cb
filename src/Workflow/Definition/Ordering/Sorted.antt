-- ===== src/Workflow/Definition/Ordering/Sorted.antt =====
-- What the topological sort returns: every node after the sources of the edges to it, and each once.
use liongate.Base.{
  ℕ, zero, suc, ◌+◌, true, ◌||◌, some, List, [], ◌∷◌, ◌++◌, ◌∈◌, ◌==◌, ==_iff, is_some_and, count,
  count_cong, count-none, arith, ◌≡◌, refl, sym, ap, ◌⊎◌, inl, inr, subst, Option-cases, Bool-cases,
}
use mathlib.Core.Option
use liongate.Base.Eq.{nat_Eq}
use liongate.Base.HashMap.{HashMap, get, values, IsUnique}
use liongate.Base.HashSet.{contains}
use liongate.Workflow.Edge.{Edge}
use liongate.Workflow.Node.{Node}
use liongate.Workflow.Definition.{WorkflowDefinition}
use liongate.Workflow.Definition.Graph.{IsGraph, leads_to}
use liongate.Workflow.Definition.Ordering.{Sorting, initial, outgoing, take_node, sort_loop}
use liongate.Workflow.Definition.Ordering.Rounds.{
  contains-append, Distinct, Distinct-append, waits, IsSorting, release_all-result,
  take_node-IsSorting,
}

module _ {J : Type 0} where
  get-initial :
      (n : ℕ) (nodes : HashMap ℕ (Node J))
      → get n (initial nodes).in_degree
        ≡ Option.map (λ (node : Node J). node.in_degree) (get n nodes)
  unfolding initial get
  get-initial n [] = refl
  get-initial n ((id, node) ∷ nodes) = ground (arith, get-initial n nodes)

  initial-queue :
      (n : ℕ) (nodes : HashMap ℕ (Node J))
      → IsUnique nodes
      → contains n (initial nodes).queue
        ≡ is_some_and (λ (node : Node J). node.in_degree == 0) (get n nodes)
  unfolding initial get
  initial-queue n [] u = refl
  initial-queue n ((id, node) ∷ nodes) u =
      ground
        (arith, u.0, ==_iff id n, initial-queue n nodes u.1, ap (λ k. get k nodes) {x = id} {y = n})

  initial-Distinct : (nodes : HashMap ℕ (Node J)) → IsUnique nodes → Distinct (initial nodes).queue
  unfolding initial
  initial-Distinct [] u = tt
  initial-Distinct ((id, node) ∷ nodes) u = elim (Bool-cases (node.in_degree == 0)) [
    | inl e ↦ rw e (ground (arith, u.0, initial-queue id nodes u.1), initial-Distinct nodes u.1)
    | inr e ↦ rw e (initial-Distinct nodes u.1)
  ]

  pub initial-result : (nodes : HashMap ℕ (Node J)) → (initial nodes).result ≡ []
  unfolding initial
  initial-result [] = refl
  initial-result ((id, node) ∷ nodes) = refl

pub queue-cases : (q : List ℕ) → (q ≡ []) ⊎ ((id : ℕ) × (rest : List ℕ) × (q ≡ id ∷ rest))
queue-cases [] = inl refl
queue-cases (id ∷ rest) = inr (id, rest, refl)

module _ {J : Type 0} (d : WorkflowDefinition J) where
  initial-counts :
      IsGraph d
      → (n k : ℕ) → get n (initial d.nodes).in_degree ≡ some k
      → k ≡ count (waits d (initial d.nodes).result n) (values d.edges) + 0
  initial-counts g n k h = elim (Option-cases (get n d.nodes)) [
    | inl e ↦ absurd (ground (arith, h, e, get-initial n d.nodes))
    | inr (node, e) ↦
        let none_yet = initial-result d.nodes in
        let all_wait : count (leads_to n) (values d.edges)
            ≡ count (waits d (initial d.nodes).result n) (values d.edges) =
          count_cong (leads_to n) (waits d (initial d.nodes).result n) (values d.edges)
            (λ x m. ground (arith, none_yet)) in
        ground (arith, h, e, get-initial n d.nodes, g.in_degree_exact n node e, all_wait)
  ]

  pub initial-IsSorting : IsGraph d → IsSorting d (initial d.nodes) []
  initial-IsSorting g =
      let none_yet = initial-result d.nodes in
      record {
        counts = initial-counts g;
        zeros = λ n.
            ground (arith, none_yet, get-initial n d.nodes, initial-queue n d.nodes g.nodes_unique);
        disjoint = λ n h. ground (arith, none_yet);
        distinct = initial-Distinct d.nodes g.nodes_unique;
        known = λ n. ground (arith, get-initial n d.nodes);
      }

  -- Each node stands after the sources of the edges to it.
  abbrev pub SourcesFirst : List ℕ → List ℕ → Type 0
  SourcesFirst before [] = Unit
  SourcesFirst before (n ∷ order) =
      ((e : Edge J) → e ∈ values d.edges → e.target ≡ n → contains e.source before ≡ true)
      × SourcesFirst (before ++ (n ∷ [])) order

  SourcesFirst-append :
      (before order : List ℕ) (n : ℕ)
      → SourcesFirst before order
      → ((e : Edge J)
          → e ∈ values d.edges
          → e.target ≡ n
          → (contains e.source before || contains e.source order) ≡ true)
      → SourcesFirst before (order ++ (n ∷ []))
  SourcesFirst-append before [] n s h = (λ e m q. ground (arith, h e m q), tt)
  SourcesFirst-append before (x ∷ order) n s h = (
    s.0,
    SourcesFirst-append (before ++ (x ∷ [])) order n s.1
        (λ e m q. ground (arith, h e m q, contains-append e.source x before)),
  )

  -- A node whose counter is 0 has all its sources in the result.
  sources_done :
      (s : Sorting) (n : ℕ)
      → IsSorting d s []
      → get n s.in_degree ≡ some 0
      → (e : Edge J) → e ∈ values d.edges
      → e.target ≡ n
      → contains e.source s.result ≡ true
  sources_done s n w h e m q =
      let none_waits : count (waits d s.result n) (values d.edges) ≡ 0 =
        omega (arith, w.counts n 0 h) in
      ground (arith, q, ==_iff e.target n, count-none (waits d s.result n) none_waits m)

  -- What the end of the loop has.
  abbrev pub IsSorted : Sorting → Type 0
  IsSorted s = IsSorting d s [] × SourcesFirst [] s.result × Distinct s.result

  pub take_node-result :
      (id : ℕ) (queue : List ℕ) (s : Sorting)
      → (take_node d id queue s).result ≡ s.result ++ (id ∷ [])
  unfolding take_node
  take_node-result id queue s = release_all-result d (outgoing (get id d.nodes)) _

  pub take_node-IsSorted :
      IsGraph d
      → (id : ℕ) (queue : List ℕ) (s : Sorting) → s.queue ≡ id ∷ queue
      → IsSorted s
      → IsSorted (take_node d id queue s)
  take_node-IsSorted g id queue s q (w, first, distinct) =
      let head : contains id s.queue ≡ true = ground (arith, q, ==_iff id id) in
      let zero_left : get id s.in_degree ≡ some 0 = ground (arith, head, w.zeros id) in
      let result = take_node-result id queue s in
      (
        take_node-IsSorting d g id queue s q w,
        subst (SourcesFirst []) (sym result) (
            SourcesFirst-append [] s.result id first
              (λ e m t. sources_done s id w zero_left e m t)),
        subst Distinct (sym result) (Distinct-append id s.result (w.disjoint id head) distinct),
      )

  pub loop-IsSorted :
      IsGraph d
      → (rounds : ℕ) (s : Sorting) (order : List ℕ) → sort_loop rounds d s ≡ some order
      → IsSorted s
      → (u : Sorting) × IsSorted u × (u.queue ≡ []) × (u.result ≡ order)
  unfolding sort_loop
  loop-IsSorted g zero s order h w = cc
  loop-IsSorted g (suc rounds) s order h w = elim (queue-cases s.queue) [
    | inl q ↦ (s, w, q, ground (arith, q, h))
    | inr (id, queue, q) ↦
        loop-IsSorted g rounds (take_node d id queue s) order (rw (sort_loop, q) at h)
          (take_node-IsSorted g id queue s q w)
  ]
