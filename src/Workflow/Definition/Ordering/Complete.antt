-- ===== src/Workflow/Definition/Ordering/Complete.antt =====
-- The topological sort ends within its rounds, and it misses no node of a graph without a cycle.
use liongate.Base.{
  ℕ, zero, suc, ◌+◌, ◌<◌, ◌≤◌, true, false, List, [], ◌∷◌, ok, some, length, length-append, ◌==◌,
  ==_iff, arith, ◌≡◌, refl, sym, ap, inl, inr, subst, Option-cases, count-some,
}
use liongate.Base.Eq.{nat_Eq}
use liongate.Base.HashMap.{HashMap, get, contains_key, values, keys, IsUnique}
use liongate.Base.HashSet.{contains, remove, contains-remove}
use liongate.Workflow.Definition.{WorkflowDefinition}
use liongate.Workflow.Definition.Graph.{IsGraph}
use liongate.Workflow.Definition.Search.{has_cycle}
use liongate.Workflow.Definition.Acyclicity.{Ranks, has_cycle-Ranks}
use liongate.Workflow.Definition.Ordering.{
  Sorting, initial, take_node, sort_loop, sort, get_topological_order,
}
use liongate.Workflow.Definition.Ordering.Rounds.{Distinct, waits, IsSorting}
use liongate.Workflow.Definition.Ordering.Sorted.{
  initial-result, queue-cases, SourcesFirst, IsSorted, initial-IsSorting, take_node-IsSorted,
  take_node-result, loop-IsSorted,
}

length-remove : (n : ℕ) (xs : List ℕ) → length (remove n xs) ≤ length xs
unfolding remove
length-remove n [] = omega arith
length-remove n (x ∷ xs) = ground (arith, length-remove n xs)

remove_shorter : (n : ℕ) (xs : List ℕ) → contains n xs ≡ true → length (remove n xs) < length xs
unfolding remove
remove_shorter n [] h = cc
remove_shorter n (x ∷ xs) h = ground (arith, h, length-remove n xs, remove_shorter n xs)

-- Numbers that are all different and all in a list are no more than the list has.
Distinct-length :
    (xs ys : List ℕ)
    → Distinct xs
    → ((n : ℕ) → contains n xs ≡ true → contains n ys ≡ true)
    → length xs ≤ length ys
Distinct-length [] ys k h = omega arith
Distinct-length (x ∷ xs) ys k h =
    let there : contains x ys ≡ true = h x (ground (arith, ==_iff x x)) in
    let rest = Distinct-length xs (remove x ys) k.1 (λ n m. ground (
      arith,
      m,
      k.0,
      h n,
      contains-remove n x ys,
      ==_iff x n,
      ap (λ y. contains y xs) {x = x} {y = n},
    )) in
    ground (arith, rest, remove_shorter x ys there)

module _ {V : Type 0} where
  length-keys : (m : HashMap ℕ V) → length (keys m) ≡ length m
  length-keys [] = refl
  length-keys ((k, v) ∷ m) = ground (arith, length-keys m)

  contains-keys : (n : ℕ) (m : HashMap ℕ V) → contains n (keys m) ≡ contains_key n m
  unfolding get
  contains-keys n [] = refl
  contains-keys n ((k, v) ∷ m) = ground (arith, contains-keys n m)

  keys-Distinct : (m : HashMap ℕ V) → IsUnique m → Distinct (keys m)
  keys-Distinct [] u = tt
  keys-Distinct ((k, v) ∷ m) u = (ground (arith, u.0, contains-keys k m), keys-Distinct m u.1)

module _ {J : Type 0} (d : WorkflowDefinition J) (g : IsGraph d) where
  result_known :
      (s : Sorting) (n : ℕ)
      → IsSorting d s []
      → contains n s.result ≡ true
      → contains n (keys d.nodes) ≡ true
  result_known s n w h = ground (arith, h, w.zeros n, w.known n, contains-keys n d.nodes)

  loop_ends :
      (rounds : ℕ) (s : Sorting)
      → IsSorted d s
      → rounds + length s.result ≡ suc (length d.nodes)
      → (order : List ℕ) × (sort_loop rounds d s ≡ some order)
  unfolding sort_loop
  loop_ends zero s (w, first, distinct) h = absurd (
      ground (
        arith,
        h,
        length-keys d.nodes,
        Distinct-length s.result (keys d.nodes) distinct (λ n. result_known s n w),
      ))
  loop_ends (suc rounds) s sorted h = elim (queue-cases s.queue) [
    | inl q ↦ (s.result, rw (sort_loop, q) refl)
    | inr (id, queue, q) ↦
        let (order, e) =
          loop_ends rounds (take_node d id queue s) (take_node-IsSorted d g id queue s q sorted) (
            ground (
              arith,
              h,
              ap length (take_node-result d id queue s),
              length-append s.result (id ∷ []),
            )) in
        (order, rw (sort_loop, q) e)
  ]

  initial-IsSorted : IsSorted d (initial d.nodes)
  initial-IsSorted = (
    initial-IsSorting d g,
    subst (SourcesFirst d []) (sym (initial-result d.nodes)) tt,
    subst Distinct (sym (initial-result d.nodes)) tt,
  )

  sort_ends : (order : List ℕ) × (sort d ≡ some order)
  unfolding sort
  sort_ends =
      loop_ends (suc (length d.nodes)) (initial d.nodes) initial-IsSorted
        (ground (arith, ap length (initial-result d.nodes)))

  -- Where the queue is empty, a node of any rank is in the result.
  all_released :
      (rank : ℕ → ℕ)
      → Ranks d rank
      → (s : Sorting) → IsSorting d s []
      → s.queue ≡ []
      → (bound n : ℕ) → rank n < bound
      → contains_key n d.nodes ≡ true
      → contains n s.result ≡ true
  all_released rank ranks s w q zero n h there = absurd (omega arith)
  all_released rank ranks s w q (suc bound) n h there = elim (Option-cases (get n s.in_degree)) [
    | inl e ↦ absurd (ground (arith, e, there, w.known n))
    | inr (zero, e) ↦ ground (arith, q, e, w.zeros n)
    | inr (suc k, e) ↦
        let (edge, m, waiting) =
          count-some (waits d s.result n) (values d.edges)
            (λ z. ground (arith, z, w.counts n (suc k) e)) in
        let onto : edge.target ≡ n = ground (arith, waiting, ==_iff edge.target n) in
        let lower : rank edge.source < bound = ground (arith, ranks edge m, h, ap rank onto) in
        let source_released =
          all_released rank ranks s w q bound edge.source lower (g.has_source edge m) in
        absurd (ground (arith, waiting, source_released))
  ]

  sort_complete :
      (rank : ℕ → ℕ)
      → Ranks d rank
      → (order : List ℕ) × (sort d ≡ some order)
        × SourcesFirst d [] order
        × Distinct order
        × ((n : ℕ) → contains n order ≡ contains_key n d.nodes)
  unfolding sort
  sort_complete rank ranks =
      let (order, e) = sort_ends in
      let (u, (w, first, distinct), q, r) =
        loop-IsSorted d g (suc (length d.nodes)) (initial d.nodes) order e initial-IsSorted in
      (
        order,
        e,
        subst (SourcesFirst d []) r first,
        subst Distinct r distinct,
        λ n. ground (
          arith,
          ap (contains n) r,
          result_known u n w,
          contains-keys n d.nodes,
          all_released rank ranks u w q (suc (rank n)) n (omega arith),
        ),
      )

  sort_complete-length :
      (order : List ℕ)
      → Distinct order
      → ((n : ℕ) → contains n order ≡ contains_key n d.nodes)
      → length order ≡ length d.nodes
  sort_complete-length order distinct all = ground (
    arith,
    length-keys d.nodes,
    Distinct-length order (keys d.nodes) distinct
        (λ n h. ground (arith, h, all n, contains-keys n d.nodes)),
    Distinct-length (keys d.nodes) order (keys-Distinct d.nodes g.nodes_unique)
        (λ n h. ground (arith, h, all n, contains-keys n d.nodes)),
  )

-- Of a graph in which has_cycle finds no cycle, get_topological_order returns an order that has
-- exactly the nodes of the graph, each once and after the sources of all edges to it.
pub topological_order_complete :
    {J : Type 0} (d : WorkflowDefinition J)
    → IsGraph d
    → has_cycle d ≡ false
    → (order : List ℕ) × (get_topological_order d ≡ ok order)
      × SourcesFirst d [] order
      × Distinct order
      × ((n : ℕ) → contains n order ≡ contains_key n d.nodes)
unfolding get_topological_order
topological_order_complete d g h =
    let (rank, ranks) = has_cycle-Ranks d g h in
    let (order, e, first, distinct, all) = sort_complete d g rank ranks in
    let whole : (length order == length d.nodes) ≡ true = ground (
      arith,
      sort_complete-length d g order distinct all,
      ==_iff (length order) (length d.nodes),
    ) in
    (order, rw (h, e, whole) refl, first, distinct, all)
