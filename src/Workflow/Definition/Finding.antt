-- ===== src/Workflow/Definition/Finding.antt =====
-- The search for a cycle ends within its depth, and what it finished where it found none.
use liongate.Base.{
  ℕ, zero, suc, ◌<◌, ◌≤◌, Bool, true, false, ◌≡◌, ap, Option, none, some, List, [], ◌∷◌, Memᴰ,
  arith, Bool-cases, Option-cases, inl, inr,
}
use liongate.Base.Eq.{nat_Eq}
use liongate.Base.HashMap.{get, get-values}
use liongate.Base.HashSet.{contains, contains-insert, contains-remove}
use liongate.Base.HashSet
use liongate.Workflow.Definition.{WorkflowDefinition}
use liongate.Workflow.Definition.Search.{
  Search, has_cycle_dfs, visit_all, outgoing_of, leave, unless_cycle,
}
use liongate.Workflow.Definition.Finishing.{
  unvisited, unvisited-insert, Reaches, IsFinished, Extends, Outcome, Extends-refl, Extends-trans,
  unvisited-Extends,
}
use liongate.Workflow.Edge.{Edge}

module _ {J : Type 0} (d : WorkflowDefinition J) where
  -- A call of `has_cycle_dfs` for an unvisited node, with enough depth, finishes the node.
  abbrev pub Explores : ℕ → (ℕ → Search → Option (Bool × Search)) → Type 0
  Explores depth explore =
      (node_id : ℕ) (s : Search) (order : List ℕ)
      → IsFinished d s order
      → contains node_id s.visited ≡ false
      → unvisited d.edges (HashSet.insert node_id s.visited) < depth
      → Outcome d s order (λ after. contains node_id after ≡ true) (explore node_id s)

  -- After a step, the rest of a part.
  pub Outcome-trans :
      {s t : Search} {before after : List ℕ} {P Q : List ℕ → Type 0} (r : Option (Bool × Search))
      → Extends d s t before after
      → ((last : List ℕ)
          → ((x : ℕ) → contains x after ≡ true → contains x last ≡ true)
          → P last
          → Q last)
      → Outcome d t after P r
      → Outcome d s before Q r
  Outcome-trans none p q o = o
  Outcome-trans (some (true, u)) p q o = tt
  Outcome-trans (some (false, u)) p q (last, e, holds) =
      (last, Extends-trans p e, q last e.order holds)

  -- The targets of one edge more.
  Reaches-cons :
      (edge_id : ℕ) (edge_ids order : List ℕ)
      → ((e : Edge J) → get edge_id d.edges ≡ some e → contains e.target order ≡ true)
      → Reaches d edge_ids order
      → Reaches d (edge_id ∷ edge_ids) order
  Reaches-cons edge_id edge_ids order h r k e (Memᴰ.head q) found = h e (rw q at found)
  Reaches-cons edge_id edge_ids order h r k e (Memᴰ.tail m) found = r k e m found

  Reaches-found :
      (edge_id : ℕ) (edge_ids order : List ℕ) (edge : Edge J)
      → get edge_id d.edges ≡ some edge
      → contains edge.target order ≡ true
      → Reaches d edge_ids order
      → Reaches d (edge_id ∷ edge_ids) order
  Reaches-found edge_id edge_ids order edge found h =
      Reaches-cons edge_id edge_ids order (λ e also. ground (arith, found, also, h))

  -- What follows a part that found no cycle.
  pub unless_cycle-Outcome :
      (s s' : Search) (before before' : List ℕ) (P Q : List ℕ → Type 0)
      (next : Search → Option (Bool × Search)) (r : Option (Bool × Search))
      → Outcome d s before P r
      → ((t : Search) (after : List ℕ)
          → Extends d s t before after
          → P after
          → Outcome d s' before' Q (next t))
      → Outcome d s' before' Q (unless_cycle next r)
  unless_cycle-Outcome s s' before before' P Q next none o k = o
  unless_cycle-Outcome s s' before before' P Q next (some (true, t)) o k = tt
  unless_cycle-Outcome s s' before before' P Q next (some (false, t)) (after, e, holds) k =
      k t after e holds

  visit_all-Outcome :
      (depth : ℕ) (explore : ℕ → Search → Option (Bool × Search))
      → Explores depth explore
      → (edge_ids : List ℕ) (s : Search) (order : List ℕ) → IsFinished d s order
      → unvisited d.edges s.visited ≤ depth
      → Outcome d s order (Reaches d edge_ids) (visit_all d.edges explore edge_ids s)
  unfolding visit_all
  visit_all-Outcome depth explore h [] s order f enough =
      (order, Extends-refl d s order f, λ k e m. elim m [ ])
  visit_all-Outcome depth explore h (edge_id ∷ edge_ids) s order f enough =
      elim (Option-cases (get edge_id d.edges)) [
        | inl missing ↦
            rw (visit_all, missing)
              (Outcome-trans _ (Extends-refl d s order f)
                (λ last _ r.
                  Reaches-cons edge_id edge_ids last
                    (λ e found. absurd (ground (arith, missing, found))) r)
                (visit_all-Outcome depth explore h edge_ids s order f enough))
        | inr (edge, found) ↦ elim (Bool-cases (contains edge.target s.visited)) [
          | inl old ↦ elim (Bool-cases (contains edge.target s.in_stack)) [
            | inl cyclic ↦ rw (visit_all, found, old, cyclic) tt
            | inr done ↦
                rw (visit_all, found, old, done)
                  (Outcome-trans _ (Extends-refl d s order f)
                    (λ last grown.
                      Reaches-found edge_id edge_ids last edge found
                        (grown edge.target (ground (arith, f.visited edge.target, old, done))))
                    (visit_all-Outcome depth explore h edge_ids s order f enough))
          ]
          | inr fresh ↦
              rw (visit_all, found, fresh)
                (unless_cycle-Outcome s s order order (λ after. contains edge.target after ≡ true)
                  (Reaches d (edge_id ∷ edge_ids)) (visit_all d.edges explore edge_ids)
                  (explore edge.target s)
                  (h edge.target s order f fresh (
                    omega (
                      arith,
                      unvisited-insert d.edges edge s.visited (get-values edge_id d.edges found)
                          fresh,
                      enough,
                    )))
                  (λ t after e reached.
                    Outcome-trans _ e
                      (λ last grown.
                        Reaches-found edge_id edge_ids last edge found (grown edge.target reached))
                      (visit_all-Outcome depth explore h edge_ids t after e.finished
                        (omega (arith, unvisited-Extends e, enough)))))
        ]
      ]

  abbrev entered : ℕ → Search → Search
  entered node_id s = record {
    visited = HashSet.insert node_id s.visited;
    in_stack = HashSet.insert node_id s.in_stack;
  }

  entered-IsFinished :
      (node_id : ℕ) (s : Search) (order : List ℕ)
      → IsFinished d s order
      → contains node_id s.visited ≡ false
      → IsFinished d (entered node_id s) order
  entered-IsFinished node_id s order f fresh = record {
    visited = λ x. ground (
      arith,
      f.visited x,
      contains-insert x node_id s.visited,
      contains-insert x node_id s.in_stack,
    );
    apart = λ x. ground (
      arith,
      f.apart x,
      f.visited x,
      fresh,
      contains-insert x node_id s.in_stack,
      ap (λ k. contains k s.visited) {x = node_id} {y = x},
    );
    ordered = f.ordered;
  }

  abbrev left : ℕ → Search → Search
  left node_id t = record t { in_stack = HashSet.remove node_id t.in_stack }

  -- A node is left once the targets of its edges are finished.
  left-Extends :
      (node_id : ℕ) (s t : Search) (before after : List ℕ)
      → IsFinished d s before
      → contains node_id s.visited ≡ false
      → Extends d (entered node_id s) t before after
      → Reaches d (outgoing_of (get node_id d.nodes)) after
      → Extends d s (left node_id t) before (node_id ∷ after)
  left-Extends node_id s t before after f fresh e reached = record {
    finished = record {
      visited = λ x. ground (
        arith,
        e.finished.visited x,
        e.in_stack x,
        contains-insert x node_id s.in_stack,
        contains-remove x node_id t.in_stack,
      );
      apart = λ x. ground (arith, e.finished.apart x, contains-remove x node_id t.in_stack);
      ordered = (
        reached,
        ground (
          arith,
          e.finished.apart node_id,
          e.in_stack node_id,
          contains-insert node_id node_id s.in_stack,
        ),
        e.finished.ordered,
      );
    };
    in_stack = λ x. ground (
      arith,
      e.in_stack x,
      contains-insert x node_id s.in_stack,
      contains-remove x node_id t.in_stack,
      f.visited x,
      fresh,
      ap (λ k. contains k s.visited) {x = node_id} {y = x},
    );
    visited = λ x h. e.visited x (ground (arith, h, contains-insert x node_id s.visited));
    order = λ x h. ground (arith, e.order x, h);
  }

  pub has_cycle_dfs-Explores : (depth : ℕ) → Explores depth (has_cycle_dfs d depth)
  unfolding has_cycle_dfs
  has_cycle_dfs-Explores zero node_id s order f fresh enough = absurd (omega (arith, enough))
  has_cycle_dfs-Explores (suc depth) node_id s order f fresh enough =
      unless_cycle-Outcome (entered node_id s) s order order
        (Reaches d (outgoing_of (get node_id d.nodes))) (λ after. contains node_id after ≡ true)
        (leave node_id) _
        (visit_all-Outcome depth (has_cycle_dfs d depth) (has_cycle_dfs-Explores depth)
          (outgoing_of (get node_id d.nodes)) (entered node_id s) order
          (entered-IsFinished node_id s order f fresh) (omega (arith, enough)))
        (λ t after e reached.
          (node_id ∷ after, left-Extends node_id s t order after f fresh e reached, ground arith))
