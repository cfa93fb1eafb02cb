-- ===== src/Workflow/Definition/Ordering/Rounds.antt =====
-- The rounds of the topological sort of a graph: the counters count the edges from nodes that are not
-- in the result yet, and the nodes whose counter is 0 are those of the queue and the result.
use liongate.Base.{
  ℕ, ◌+◌, Bool, true, false, not, ◌&&◌, ◌||◌, some, List, [], ◌∷◌, ◌++◌, if◌then◌else◌, ◌==◌,
  ==_iff, is_some_and, count, count_split, arith, ◌≡◌, refl, ap, ◌∙◌, subst, inl, inr, Option-cases,
  if_both,
}
use liongate.Base.Eq.{nat_Eq}
use liongate.Base.HashMap
use liongate.Base.HashMap.{HashMap, get, get-insert, contains_key, values, IsUnique}
use liongate.Base.HashSet.{contains}
use liongate.Workflow.Edge.{Edge}
use liongate.Workflow.Definition.{WorkflowDefinition}
use liongate.Workflow.Definition.Graph.{IsGraph, leads_to, links, reaches}
use liongate.Workflow.Definition.Ordering.{
  decrement, Sorting, release, release_all, outgoing, take_node,
}

pub contains-append :
    (n m : ℕ) (xs : List ℕ) → contains n (xs ++ (m ∷ [])) ≡ (contains n xs || m == n)
contains-append n m [] = ground arith
contains-append n m (x ∷ xs) = ground (arith, contains-append n m xs)

-- No number twice.
abbrev pub Distinct : List ℕ → Type 0
Distinct [] = Unit
Distinct (x ∷ xs) = (contains x xs ≡ false) × Distinct xs

pub Distinct-append :
    (m : ℕ) (xs : List ℕ) → contains m xs ≡ false → Distinct xs → Distinct (xs ++ (m ∷ []))
Distinct-append m [] h k = (refl, tt)
Distinct-append m (x ∷ xs) h k = (
  ground (arith, h, k.0, contains-append x m xs, ==_iff x m, ==_iff m x),
  Distinct-append m xs (ground (arith, h)) k.1,
)

module _ {J : Type 0} (d : WorkflowDefinition J) where
  -- An edge to the node from one that is not in the list.
  abbrev pub waits : List ℕ → ℕ → Edge J → Bool
  waits result n e = leads_to n e && not (contains e.source result)

  -- With the edges that are still to be released of the node that was taken last.
  pub record IsSorting (s : Sorting) (edge_ids : List ℕ) : Type 0 where
    pub counts :
        (n k : ℕ)
        → get n s.in_degree ≡ some k
        → k ≡ count (waits s.result n) (values d.edges) + count (reaches d.edges n) edge_ids
    pub zeros :
        (n : ℕ)
        → (contains n s.queue || contains n s.result)
          ≡ is_some_and (λ k. k == 0) (get n s.in_degree)
    pub disjoint : (n : ℕ) → contains n s.queue ≡ true → contains n s.result ≡ false
    pub distinct : Distinct s.queue
    pub known : (n : ℕ) → contains_key n s.in_degree ≡ contains_key n d.nodes

  release-known :
      (s : Sorting) (edge_id degree : ℕ) (edge_ids : List ℕ) (edge : Edge J)
      → IsSorting s (edge_id ∷ edge_ids)
      → get edge_id d.edges ≡ some edge
      → get edge.target s.in_degree ≡ some degree
      → IsSorting
          (record {
            in_degree = HashMap.insert edge.target (decrement degree) s.in_degree;
            queue = if decrement degree == 0 then s.queue ++ (edge.target ∷ []) else s.queue;
            result = s.result;
          })
          edge_ids
  release-known s edge_id degree edge_ids edge w e f =
      let t = edge.target in
      let before = w.counts t degree f in
      record {
        counts = λ n k h. ground (
          arith,
          e,
          f,
          before,
          w.counts n k,
          ==_iff t n,
          get-insert n t (decrement degree) s.in_degree,
          ap (λ x. count (waits s.result x) (values d.edges)) {x = t} {y = n},
          ap (λ x. count (reaches d.edges x) edge_ids) {x = t} {y = n},
        );
        zeros = λ n. ground (
          arith,
          e,
          f,
          before,
          w.zeros n,
          w.zeros t,
          ==_iff t n,
          get-insert n t (decrement degree) s.in_degree,
          contains-append n t s.queue,
          ap (λ x. contains x s.queue) {x = t} {y = n},
          ap (λ x. contains x s.result) {x = t} {y = n},
        );
        disjoint = λ n h. ground (
          arith,
          e,
          f,
          before,
          w.disjoint n,
          w.zeros t,
          ==_iff t n,
          contains-append n t s.queue,
          ap (λ x. contains x s.result) {x = t} {y = n},
        );
        distinct =
            if_both Distinct (decrement degree == 0)
              (Distinct-append t s.queue (ground (arith, e, f, before, w.zeros t)) w.distinct)
              w.distinct;
        known = λ n. ground (
          arith,
          f,
          w.known n,
          w.known t,
          ==_iff t n,
          get-insert n t (decrement degree) s.in_degree,
          ap (λ x. contains_key x d.nodes) {x = t} {y = n},
        );
      }

  release-IsSorting :
      (s : Sorting) (edge_id : ℕ) (edge_ids : List ℕ)
      → IsSorting s (edge_id ∷ edge_ids)
      → IsSorting (release d.edges edge_id s) edge_ids
  unfolding release
  release-IsSorting s edge_id edge_ids w = elim (Option-cases (get edge_id d.edges)) [
    | inl e ↦
        rw (release, e)
          (record {
            counts = λ n k h. ground (arith, e, w.counts n k);
            zeros = w.zeros;
            disjoint = w.disjoint;
            distinct = w.distinct;
            known = w.known;
          })
    | inr (edge, e) ↦ elim (Option-cases (get edge.target s.in_degree)) [
      | inl f ↦
          rw (release, e, f)
            (record {
              counts = λ n k h. ground (
                arith,
                e,
                f,
                w.counts n k,
                ==_iff edge.target n,
                ap (λ x. get x s.in_degree) {x = edge.target} {y = n},
              );
              zeros = w.zeros;
              disjoint = w.disjoint;
              distinct = w.distinct;
              known = w.known;
            })
      | inr (degree, f) ↦ rw (release, e, f) (release-known s edge_id degree edge_ids edge w e f)
    ]
  ]

  release_all-IsSorting :
      (edge_ids : List ℕ) (s : Sorting)
      → IsSorting s edge_ids
      → IsSorting (release_all d.edges edge_ids s) []
  unfolding release_all
  release_all-IsSorting [] s w = w
  release_all-IsSorting (edge_id ∷ edge_ids) s w =
      release_all-IsSorting edge_ids (release d.edges edge_id s)
        (release-IsSorting s edge_id edge_ids w)

  pub release_all-result :
      (edge_ids : List ℕ) (s : Sorting) → (release_all d.edges edge_ids s).result ≡ s.result
  unfolding release_all release
  release_all-result [] s = refl
  release_all-result (edge_id ∷ edge_ids) s =
      release_all-result edge_ids (release d.edges edge_id s)
      ∙ (elim (Option-cases (get edge_id d.edges)) [
        | inl e ↦ rw (release, e) refl
        | inr (edge, e) ↦ elim (Option-cases (get edge.target s.in_degree)) [
          | inl f ↦ rw (release, e, f) refl
          | inr (degree, f) ↦ rw (release, e, f) refl
        ]
      ])

  -- Taking a node splits the edges that wait.
  waits-split :
      (result : List ℕ) (id n : ℕ)
      → contains id result ≡ false
      → count (waits result n) (values d.edges)
        ≡ count (waits (result ++ (id ∷ [])) n) (values d.edges)
          + count (links id n) (values d.edges)
  waits-split result id n h =
      count_split (waits result n) (waits (result ++ (id ∷ [])) n) (links id n) (values d.edges)
        (λ e m. ground (
          arith,
          h,
          contains-append e.source id result,
          ==_iff e.source id,
          ==_iff id e.source,
          ap (λ x. contains x result) {x = id} {y = e.source},
        ))
        (λ e m.
          ground
            (arith, contains-append e.source id result, ==_iff e.source id, ==_iff id e.source))

  outgoing-count :
      IsGraph d
      → (id n : ℕ) → contains_key id d.nodes ≡ true
      → count (reaches d.edges n) (outgoing (get id d.nodes)) ≡ count (links id n) (values d.edges)
  unfolding outgoing
  outgoing-count g id n h = elim (Option-cases (get id d.nodes)) [
    | inl e ↦ absurd (ground (arith, e, h))
    | inr (node, e) ↦ rw (outgoing, e) (g.outgoing_exact id n node e)
  ]

  pub take_node-IsSorting :
      IsGraph d
      → (id : ℕ) (queue : List ℕ) (s : Sorting) → s.queue ≡ id ∷ queue
      → IsSorting s []
      → IsSorting (take_node d id queue s) []
  unfolding take_node
  take_node-IsSorting g id queue s q w =
      let head : contains id s.queue ≡ true = ground (arith, q, ==_iff id id) in
      let fresh = w.disjoint id head in
      let apart = subst Distinct q w.distinct in
      let there : contains_key id d.nodes ≡ true =
        ground (arith, q, w.zeros id, w.known id, ==_iff id id) in
      release_all-IsSorting (outgoing (get id d.nodes)) _ (record {
        counts = λ n k h.
            ground
              (arith, w.counts n k h, waits-split s.result id n fresh, outgoing-count g id n there);
        zeros = λ n. ground (arith, q, w.zeros n, contains-append n id s.result);
        disjoint = λ n h. ground (
          arith,
          q,
          h,
          apart.0,
          w.disjoint n,
          contains-append n id s.result,
          ==_iff id n,
          ap (λ x. contains x queue) {x = id} {y = n},
        );
        distinct = apart.1;
        known = w.known;
      })
