-- ===== src/Workflow/Saga/Validation.antt =====
-- What `validate` answers on the sagas that `add_step` builds.
use liongate.Base.{
  ℕ, zero, suc, ◌<◌, ◌≤◌, Bool, true, false, Option, none, some, List, [], ◌∷◌, ◌∈◌, Memᴰ, ok, err,
  if◌then◌else◌, is_empty, length, arith, ◌≡◌, refl, ap, inl, inr, Bool-cases,
}
use liongate.Base.Eq.{text_Eq}
use liongate.Base.HashMap
use liongate.Base.HashMap.{HashMap, get, get-insert}
use liongate.Base.HashSet
use liongate.Base.HashSet.{contains, contains-insert, contains-remove}
use liongate.Base.Text.{Text, text_eq_iff, text_eq}
use liongate.Workflow.Saga.{SagaStepDefinition, definition_error}
use liongate.Workflow.Saga.Definition.{
  SagaDefinition, Walk, then_walk, visit_deps, deps_of, leave_step, has_cycle_dfs, dependency_graph,
  search_steps, dependency_search, verdict, validate,
}
use liongate.Workflow.Saga.Built.{IsBuilt, IsRanked, has_step-mem, IsBuilt-IsRanked}

-- A part of the search that ends, finds no cycle and leaves nothing more on the path.
abbrev Passes : Walk → Option (Bool × Walk) → Type 0
Passes w none = ⊥
Passes w (some (true, u)) = ⊥
Passes w (some (false, u)) = (x : Text) → contains x u.path ≡ true → contains x w.path ≡ true

then_walk-Passes :
    (w w' : Walk) (r : Option (Bool × Walk)) (next : Walk → Option (Bool × Walk))
    → Passes w r
    → ((u : Walk)
        → ((x : Text) → contains x u.path ≡ true → contains x w.path ≡ true)
        → Passes w' (next u))
    → Passes w' (then_walk r next)
then_walk-Passes w w' none next p k = absurd p
then_walk-Passes w w' (some (true, u)) next p k = absurd p
then_walk-Passes w w' (some (false, u)) next p k = k u p

Passes-trans :
    (w u : Walk) (r : Option (Bool × Walk))
    → ((x : Text) → contains x u.path ≡ true → contains x w.path ≡ true)
    → Passes u r
    → Passes w r
Passes-trans w u none h p = p
Passes-trans w u (some (true, v)) h p = p
Passes-trans w u (some (false, v)) h p = λ x k. h x (p x k)

module _ (rank : Text → ℕ) where
  -- The names of a list have a lower rank.
  abbrev IsLower : ℕ → List Text → Type 0
  IsLower n deps = (x : Text) → contains x deps ≡ true → rank x < n

  abbrev PathAbove : ℕ → Walk → Type 0
  PathAbove n w = (x : Text) → contains x w.path ≡ true → n ≤ rank x

  visit_deps-Passes :
      (explore : Text → Walk → Option (Bool × Walk)) (n : ℕ)
      → ((dep : Text) (w : Walk)
          → rank dep < n
          → PathAbove (suc (rank dep)) w
          → Passes w (explore dep w))
      → (deps : List Text) (w : Walk) → IsLower n deps
      → PathAbove n w
      → Passes w (visit_deps explore deps w)
  unfolding visit_deps
  visit_deps-Passes explore n calls [] w lower above = λ x h. h
  visit_deps-Passes explore n calls (dep ∷ deps) w lower above =
      let first : rank dep < n = lower dep (ground (arith, text_eq_iff dep dep)) in
      let rest : IsLower n deps = λ x h. lower x (ground (arith, h)) in
      elim (Bool-cases (contains dep w.visited)) [
        | inl old ↦ elim (Bool-cases (contains dep w.path)) [
          | inl cyclic ↦ absurd (omega (arith, first, above dep cyclic))
          | inr done ↦
              rw (visit_deps, old, done) (visit_deps-Passes explore n calls deps w rest above)
        ]
        | inr fresh ↦
            rw (visit_deps, fresh)
              (then_walk-Passes w w (explore dep w) (visit_deps explore deps)
                (calls dep w first (λ x h. omega (arith, first, above x h)))
                (λ u kept.
                  Passes-trans w u _ kept
                    (visit_deps-Passes explore n calls deps u rest (λ x h. above x (kept x h)))))
      ]

  dfs-Passes :
      (graph : HashMap Text (List Text))
      → ((n : Text) → IsLower (rank n) (deps_of (get n graph)))
      → (depth : ℕ) (n : Text) (w : Walk) → rank n < depth
      → PathAbove (suc (rank n)) w
      → Passes w (has_cycle_dfs graph depth n w)
  unfolding has_cycle_dfs
  dfs-Passes graph falls zero n w enough above = absurd (omega (arith, enough))
  dfs-Passes graph falls (suc depth) n w enough above =
      let entered : Walk = record {
        visited = HashSet.insert n w.visited;
        path = HashSet.insert n w.path;
      } in
      then_walk-Passes entered w _ (leave_step n)
        (visit_deps-Passes (has_cycle_dfs graph depth) (rank n)
          (λ dep u below path.
            dfs-Passes graph falls depth dep u (omega (arith, enough, below)) path)
          (deps_of (get n graph)) entered (falls n)
          (λ x h. ground (
            arith,
            h,
            above x,
            contains-insert x n w.path,
            text_eq_iff n x,
            ap rank {x = n} {y = x},
          )))
        (λ u kept x h.
          ground (arith, h, kept x, contains-insert x n w.path, contains-remove x n u.path))

  search_steps-Passes :
      {J : Type 0} (graph : HashMap Text (List Text))
      → ((n : Text) → IsLower (rank n) (deps_of (get n graph)))
      → (depth : ℕ) (steps : List (SagaStepDefinition J)) (w : Walk)
      → ((s : SagaStepDefinition J) → s ∈ steps → rank s.id < depth)
      → ((x : Text) → contains x w.path ≡ false)
      → Passes w (search_steps graph depth steps w)
  unfolding search_steps
  search_steps-Passes graph falls depth [] w enough idle = λ x h. h
  search_steps-Passes graph falls depth (s ∷ steps) w enough idle =
      elim (Bool-cases (contains s.id w.visited)) [
        | inl old ↦
            rw (search_steps, old)
              (search_steps-Passes graph falls depth steps w (λ t m. enough t (Memᴰ.tail m)) idle)
        | inr fresh ↦
            rw (search_steps, fresh)
              (then_walk-Passes w w (has_cycle_dfs graph depth s.id w)
                (search_steps graph depth steps)
                (dfs-Passes graph falls depth s.id w (enough s (Memᴰ.head refl))
                  (λ x h. absurd (ground (arith, h, idle x))))
                (λ u kept. Passes-trans w u _ kept (
                  search_steps-Passes graph falls depth steps u (λ t m. enough t (Memᴰ.tail m))
                    (λ x. ground (arith, kept x, idle x)))))
      ]

module _ {J : Type 0} (rank : Text → ℕ) where
  dependency_graph-IsLower :
      (steps : List (SagaStepDefinition J)) (graph : HashMap Text (List Text))
      → ((s : SagaStepDefinition J) → s ∈ steps → IsLower rank (rank s.id) s.dependencies)
      → ((n : Text) → IsLower rank (rank n) (deps_of (get n graph)))
      → (n : Text) → IsLower rank (rank n) (deps_of (get n (dependency_graph steps graph)))
  unfolding dependency_graph
  dependency_graph-IsLower [] graph steps_fall falls = falls
  dependency_graph-IsLower (s ∷ steps) graph steps_fall falls =
      dependency_graph-IsLower steps (HashMap.insert s.id s.dependencies graph)
        (λ t m. steps_fall t (Memᴰ.tail m))
        (λ n. elim (Bool-cases (text_eq s.id n)) [
          | inl same ↦
              rw (get-insert n s.id s.dependencies graph, same)
                (λ x h. ground (
                  arith,
                  steps_fall s (Memᴰ.head refl) x h,
                  same,
                  text_eq_iff s.id n,
                  ap rank {x = s.id} {y = n},
                ))
          | inr other ↦ rw (get-insert n s.id s.dependencies graph, other) (falls n)
        ])

  dependency_search-Passes :
      (steps : List (SagaStepDefinition J))
      → IsRanked steps rank
      → Passes (record { visited = []; path = [] }) (dependency_search steps)
  unfolding dependency_search get
  dependency_search-Passes steps r =
      search_steps-Passes rank (dependency_graph steps [])
        (dependency_graph-IsLower steps [] (λ s m x h. r.lower s x m h)
          (λ n x h. absurd (ground (arith, h))))
        (suc (length steps)) steps (record { visited = []; path = [] })
        (λ s m. omega (arith, r.bound s.id (has_step-mem s steps m))) (λ x. refl)

verdict-Passes : (w : Walk) (r : Option (Bool × Walk)) → Passes w r → verdict r ≡ ok tt
verdict-Passes w none p = absurd p
verdict-Passes w (some (true, u)) p = absurd p
verdict-Passes w (some (false, u)) p = refl

-- On a saga that calls of new and add_step build, validate fails exactly if the saga has no steps.
pub validate-IsBuilt :
    {J : Type 0} (saga : SagaDefinition J)
    → IsBuilt saga
    → validate saga ≡ (if is_empty saga.steps then err definition_error else ok tt)
unfolding validate
validate-IsBuilt saga b =
    let (rank, r) = IsBuilt-IsRanked saga b in
    let passed : verdict (dependency_search saga.steps) ≡ ok tt =
      verdict-Passes (record { visited = []; path = [] }) (dependency_search saga.steps)
        (dependency_search-Passes rank saga.steps r) in
    ground (arith, passed)
