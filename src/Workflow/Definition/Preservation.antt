-- ===== src/Workflow/Definition/Preservation.antt =====
-- The empty definition is a graph, and another edge leaves a graph a graph.
use liongate.Base.{
  ℕ, ◌+◌, true, false, ◌≡◌, refl, sym, ap, ◌∙◌, Option, none, some, ◌==◌, arith, is_some, count,
  count_cong, if◌then◌else◌, Option-cases, inl, inr,
}
use mathlib.Core.Option
use liongate.Base.Eq.{nat_Eq}
use liongate.Base.HashMap
use liongate.Base.HashMap.{
  HashMap, get, values, IsUnique, get-insert, get-modify, insert-IsUnique, modify-IsUnique,
}
use liongate.Base.HashSet
use liongate.Base.HashSet.{contains-insert, contains-of_mem}
use liongate.Base.Text.{Text}
use liongate.Workflow.Definition.{WorkflowDefinition, new}
use liongate.Workflow.Definition.Building.{attach}
use liongate.Workflow.Definition.Graph.{IsGraph, reaches, leads_to, links}
use liongate.Workflow.Edge.{Edge}
use liongate.Workflow.Node.{Node, add_outgoing_edge, add_incoming_edge, increment_in_degree}

map_elim :
    {A B : Type 0} (f : A → B) (o : Option A) (b : B)
    → Option.map f o ≡ some b
    → (a : A) × (o ≡ some a) × (b ≡ f a)
map_elim f none b h = absurd (cc h)
map_elim f (some a) b h = (a, refl, ground (arith, h))

module _ {J : Type 0} where
  pub new-IsGraph : (now id : ℕ) (name : Text) → IsGraph {J = J} (new now id name)
  unfolding new get
  new-IsGraph now id name = record {
    nodes_unique = tt;
    in_degree_exact = λ n node h. cc;
    outgoing_exact = λ m n node h. cc;
    outgoing_known = λ m edge_id node h. cc;
    has_source = λ e m. elim m [ ];
    has_target = λ e m. elim m [ ];
  }

  -- What `attach` makes of the node `n`.
  abbrev pub with_edge : ℕ → Edge J → Node J → Node J
  with_edge n edge node =
      let node' = if edge.source == n then add_outgoing_edge node edge.id else node in
      if edge.target == n then add_incoming_edge node' edge.id else node'

  pub get-attach :
      (now n : ℕ) (d : WorkflowDefinition J) (edge : Edge J)
      → get n (attach now d edge).nodes ≡ Option.map (with_edge n edge) (get n d.nodes)
  unfolding attach
  get-attach now n d edge = elim (Option-cases (get n d.nodes)) [
    | inl missing ↦ ground (arith, missing, by_target, by_source)
    | inr (node, found) ↦ ground (arith, found, by_target, by_source)
  ]
    where
      by_source : get n (HashMap.modify edge.source (λ k. add_outgoing_edge k edge.id) d.nodes) ≡ (
          if edge.source == n
          then Option.map (λ k. add_outgoing_edge k edge.id) (get n d.nodes)
          else get n d.nodes)
      by_source = get-modify n edge.source (λ k. add_outgoing_edge k edge.id) d.nodes

      by_target : get n (attach now d edge).nodes ≡ (
          if edge.target == n
          then Option.map
              (λ k. add_incoming_edge k edge.id)
              (get n (HashMap.modify edge.source (λ k. add_outgoing_edge k edge.id) d.nodes))
          else get n (HashMap.modify edge.source (λ k. add_outgoing_edge k edge.id) d.nodes))
      by_target =
          get-modify n edge.target (λ k. add_incoming_edge k edge.id)
            (HashMap.modify edge.source (λ k. add_outgoing_edge k edge.id) d.nodes)

  pub with_edge_in_degree :
      (n : ℕ) (edge : Edge J) (node : Node J)
      → (with_edge n edge node).in_degree
        ≡ (if edge.target == n then node.in_degree + 1 else node.in_degree)
  unfolding add_incoming_edge add_outgoing_edge increment_in_degree
  with_edge_in_degree n edge node = ground arith

  with_edge_outgoing :
      (n : ℕ) (edge : Edge J) (node : Node J)
      → (with_edge n edge node).outgoing_edges ≡ (
          if edge.source == n
          then HashSet.insert edge.id node.outgoing_edges
          else node.outgoing_edges)
  unfolding add_incoming_edge add_outgoing_edge increment_in_degree
  with_edge_outgoing n edge node = ground arith

  -- The node `n` of a definition with another edge, and the node before.
  attached_node :
      (now n : ℕ) (d : WorkflowDefinition J) (edge : Edge J) (node : Node J)
      → get n (attach now d edge).nodes ≡ some node
      → (old : Node J) × (get n d.nodes ≡ some old) × (node ≡ with_edge n edge old)
  attached_node now n d edge node h =
      map_elim (with_edge n edge) (get n d.nodes) node (sym (get-attach now n d edge) ∙ h)

  known_kept :
      (now n : ℕ) (d : WorkflowDefinition J) (edge : Edge J)
      → is_some (get n (attach now d edge).nodes) ≡ is_some (get n d.nodes)
  known_kept now n d edge = ground (arith, get-attach now n d edge)

  -- Where the identifier is new, it is in no set of outgoing edges.
  fresh_outgoing :
      (d : WorkflowDefinition J) (m edge_id : ℕ) (node : Node J)
      → IsGraph d
      → get edge_id d.edges ≡ none
      → get m d.nodes ≡ some node
      → HashSet.contains edge_id node.outgoing_edges ≡ false
  fresh_outgoing d m edge_id node g fresh found =
      ground (arith, fresh, g.outgoing_known m edge_id node found)

  reaches_kept :
      (d : WorkflowDefinition J) (edge : Edge J) (m n : ℕ) (node : Node J)
      → IsGraph d
      → get edge.id d.edges ≡ none
      → get m d.nodes ≡ some node
      → count (reaches (HashMap.insert edge.id edge d.edges) n) node.outgoing_edges
        ≡ count (reaches d.edges n) node.outgoing_edges
  reaches_kept d edge m n node g fresh found =
      count_cong (reaches (HashMap.insert edge.id edge d.edges) n) (reaches d.edges n)
        node.outgoing_edges
        (λ a t. ground (
          arith,
          fresh,
          get-insert a edge.id edge d.edges,
          fresh_outgoing d m edge.id node g fresh found,
          contains-of_mem t,
          ap (λ k. HashSet.contains k node.outgoing_edges) {x = edge.id} {y = a},
        ))

  attached_outgoing :
      (now : ℕ) (d : WorkflowDefinition J) (edge : Edge J) (m n : ℕ) (old : Node J)
      → IsGraph d
      → get edge.id d.edges ≡ none
      → get m d.nodes ≡ some old
      → count
          (reaches (HashMap.insert edge.id edge d.edges) n)
          (with_edge m edge old).outgoing_edges
        ≡ count (links m n) (values (HashMap.insert edge.id edge d.edges))
  attached_outgoing now d edge m n old g fresh found = ground (
    arith,
    with_edge_outgoing m edge old,
    HashMap.count-insert (links m n) edge.id edge d.edges fresh,
    HashSet.count-insert (reaches (HashMap.insert edge.id edge d.edges) n) edge.id
        old.outgoing_edges (fresh_outgoing d m edge.id old g fresh found),
    HashMap.get-insert_self edge.id edge d.edges,
    reaches_kept d edge m n old g fresh found,
    g.outgoing_exact m n old found,
  )

  pub attach-IsGraph :
      (now : ℕ) (d : WorkflowDefinition J) (edge : Edge J)
      → get edge.id d.edges ≡ none
      → is_some (get edge.source d.nodes) ≡ true
      → is_some (get edge.target d.nodes) ≡ true
      → IsGraph d
      → IsGraph (attach now d edge)
  unfolding attach
  attach-IsGraph now d edge fresh from_there to_there g = record {
    nodes_unique =
        modify-IsUnique edge.target _ _ (modify-IsUnique edge.source _ d.nodes g.nodes_unique);
    in_degree_exact = λ n node h.
        let (old, found, q) = attached_node now n d edge node h in
        ground (
          arith,
          q,
          with_edge_in_degree n edge old,
          g.in_degree_exact n old found,
          HashMap.count-insert (leads_to n) edge.id edge d.edges fresh,
        );
    outgoing_exact = λ m n node h.
        let (old, found, q) = attached_node now m d edge node h in
        rw q (attached_outgoing now d edge m n old g fresh found);
    outgoing_known = λ m edge_id node h k.
        let (old, found, q) = attached_node now m d edge node h in
        ground (
          arith,
          q,
          k,
          with_edge_outgoing m edge old,
          contains-insert edge_id edge.id old.outgoing_edges,
          g.outgoing_known m edge_id old found,
          get-insert edge_id edge.id edge d.edges,
        );
    has_source = λ e m.
        known_kept now e.source d edge ∙ (elim (HashMap.values-insert_elim edge.id edge d.edges m) [
          | inl q ↦ ground (arith, q, from_there)
          | inr k ↦ g.has_source e k
        ]);
    has_target = λ e m.
        known_kept now e.target d edge ∙ (elim (HashMap.values-insert_elim edge.id edge d.edges m) [
          | inl q ↦ ground (arith, q, to_there)
          | inr k ↦ g.has_target e k
        ]);
  }
