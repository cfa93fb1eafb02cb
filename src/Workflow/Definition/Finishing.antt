-- ===== src/Workflow/Definition/Finishing.antt =====
-- The order in which the search for a cycle finishes nodes, and its depth.
use liongate.Base.{
  ℕ, ◌<◌, ◌≤◌, Bool, true, false, not, ◌&&◌, ◌||◌, ◌≡◌, refl, ◌∙◌, Option, none, some, List, [],
  ◌∷◌, ◌==◌, ◌∈◌, arith, count, count_split, count-none, count_mono,
}
use liongate.Base.Eq.{nat_Eq}
use liongate.Base.HashMap.{HashMap, get, values}
use liongate.Base.HashSet.{contains, contains-insert, contains-remove}
use liongate.Base.HashSet
use liongate.Workflow.Definition.{WorkflowDefinition}
use liongate.Workflow.Definition.Search.{Search, outgoing_of}
use liongate.Workflow.Edge.{Edge}

module _ {J : Type 0} where
  abbrev pub is_unvisited : List ℕ → Edge J → Bool
  is_unvisited visited e = not (contains e.target visited)

  -- The edges whose targets are still to be visited.
  abbrev pub unvisited : HashMap ℕ (Edge J) → List ℕ → ℕ
  unvisited edges visited = count (is_unvisited visited) (values edges)

  pub unvisited-insert :
      (edges : HashMap ℕ (Edge J)) (e : Edge J) (visited : List ℕ)
      → e ∈ values edges
      → contains e.target visited ≡ false
      → unvisited edges (HashSet.insert e.target visited) < unvisited edges visited
  unvisited-insert edges e visited m fresh =
      let this : Edge J → Bool = λ a. (a.target == e.target) && is_unvisited visited a in
      ground (
        arith,
        count_split (is_unvisited visited) (is_unvisited (HashSet.insert e.target visited)) this
            (values edges) (λ a _. ground (arith, contains-insert a.target e.target visited))
            (λ a _. ground (arith, contains-insert a.target e.target visited)),
        λ (z : count this (values edges) ≡ 0). count-none this z m,
      )

  -- The targets of these edges are in the list.
  abbrev pub Reaches : WorkflowDefinition J → List ℕ → List ℕ → Type 0
  Reaches d edge_ids order =
      (edge_id : ℕ) (e : Edge J)
      → edge_id ∈ edge_ids
      → get edge_id d.edges ≡ some e
      → contains e.target order ≡ true

  -- Each node comes before the targets of its edges.
  abbrev pub IsOrdered : WorkflowDefinition J → List ℕ → Type 0
  IsOrdered d [] = Unit
  IsOrdered d (x ∷ order) =
      Reaches d (outgoing_of (get x d.nodes)) order × (contains x order ≡ false) × IsOrdered d order

  -- `order` has the nodes that the search has finished, the last one first.
  pub record IsFinished (d : WorkflowDefinition J) (s : Search) (order : List ℕ) : Type 0 where
    pub visited : (x : ℕ) → contains x s.visited ≡ (contains x order || contains x s.in_stack)
    pub apart : (x : ℕ) → (contains x order && contains x s.in_stack) ≡ false
    pub ordered : IsOrdered d order

  -- What a part of the search adds, where it finds no cycle.
  pub record Extends (d : WorkflowDefinition J) (s t : Search) (before after : List ℕ)
      : Type 0 where
    pub finished : IsFinished d t after
    pub in_stack : (x : ℕ) → contains x t.in_stack ≡ contains x s.in_stack
    pub visited : (x : ℕ) → contains x s.visited ≡ true → contains x t.visited ≡ true
    pub order : (x : ℕ) → contains x before ≡ true → contains x after ≡ true

  -- The outcome of a part of the search: it does not run out of depth, and where it finds no cycle, it
  -- has finished the nodes of `P`.
  abbrev pub Outcome :
      WorkflowDefinition J → Search → List ℕ → (List ℕ → Type 0) → Option (Bool × Search) → Type 0
  Outcome d s order P none = ⊥
  Outcome d s order P (some (true, t)) = Unit
  Outcome d s order P (some (false, t)) = (after : List ℕ) × Extends d s t order after × P after

  pub Extends-refl :
      (d : WorkflowDefinition J) (s : Search) (order : List ℕ)
      → IsFinished d s order
      → Extends d s s order order
  Extends-refl d s order f = record {
    finished = f;
    in_stack = λ x. refl;
    visited = λ x h. h;
    order = λ x h. h;
  }

  pub Extends-trans :
      {d : WorkflowDefinition J} {s t u : Search} {a b c : List ℕ}
      → Extends d s t a b
      → Extends d t u b c
      → Extends d s u a c
  Extends-trans p q = record {
    finished = q.finished;
    in_stack = λ x. q.in_stack x ∙ p.in_stack x;
    visited = λ x h. q.visited x (p.visited x h);
    order = λ x h. q.order x (p.order x h);
  }

  pub unvisited-Extends :
      {d : WorkflowDefinition J} {s t : Search} {a b : List ℕ}
      → Extends d s t a b
      → unvisited d.edges t.visited ≤ unvisited d.edges s.visited
  unvisited-Extends {d} {s} {t} p =
      count_mono (is_unvisited t.visited) (is_unvisited s.visited) (values d.edges)
        (λ e _ h. ground (arith, p.visited e.target))
