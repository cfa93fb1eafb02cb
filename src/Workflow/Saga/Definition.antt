-- ===== src/Workflow/Saga/Definition.antt =====
-- lion/lion_workflow/src/patterns/saga/definition.rs: adding steps and the search of `validate` for a
-- cycle of dependencies.
use liongate.Base.{
  ℕ, zero, suc, Bool, true, false, ◌||◌, Option, none, some, List, [], ◌∷◌, ◌++◌, Result, ok, err,
  if◌then◌else◌, is_empty, all, length,
}
use liongate.Base.Eq.{text_Eq}
use liongate.Base.HashMap
use liongate.Base.HashMap.{HashMap, get}
use liongate.Base.HashSet
use liongate.Base.Text.{Text, text_eq}
use liongate.Workflow.Saga.{
  SagaError, definition_error, SagaStrategy, orchestration, SagaStepDefinition,
}

pub record SagaDefinition (J : Type 0) : Type 0 where
  pub id : Text
  pub name : Text
  pub steps : List (SagaStepDefinition J)
  pub strategy : SagaStrategy
  pub timeout_ms : ℕ
  pub max_retries : ℕ
  pub retry_delay_ms : ℕ
  pub use_idempotent_operations : Bool
  pub metadata : J

-- What the search has visited, and what is on its path.
pub record Walk : Type 0 where
  pub visited : List Text
  pub path : List Text

-- What follows a part of the search that found no cycle.
abbrev pub then_walk : Option (Bool × Walk) → (Walk → Option (Bool × Walk)) → Option (Bool × Walk)
then_walk none next = none
then_walk (some (true, w)) next = some (true, w)
then_walk (some (false, w)) next = next w

-- The loop over the dependencies of a step; `explore` is the recursive call.
unfoldable pub visit_deps :
    (Text → Walk → Option (Bool × Walk)) → List Text → Walk → Option (Bool × Walk)
visit_deps explore [] w = some (false, w)
visit_deps explore (dep ∷ deps) w = elim (HashSet.contains dep w.visited) [
  | false ↦ then_walk (explore dep w) (visit_deps explore deps)
  | true ↦ elim (HashSet.contains dep w.path) [
    | true ↦ some (true, w)
    | false ↦ visit_deps explore deps w
  ]
]

abbrev pub deps_of : Option (List Text) → List Text
deps_of none = []
deps_of (some deps) = deps

abbrev pub leave_step : Text → Walk → Option (Bool × Walk)
leave_step step_id w = some (false, record w { path = HashSet.remove step_id w.path })

-- Its first argument bounds the depth of the recursion; `none` is that it was not enough.
unfoldable pub has_cycle_dfs : HashMap Text (List Text) → ℕ → Text → Walk → Option (Bool × Walk)
has_cycle_dfs graph zero step_id w = none
has_cycle_dfs graph (suc depth) step_id w =
    then_walk
      (visit_deps (has_cycle_dfs graph depth) (deps_of (get step_id graph)) (record {
        visited = HashSet.insert step_id w.visited;
        path = HashSet.insert step_id w.path;
      }))
      (leave_step step_id)

abbrev pub verdict : Option (Bool × Walk) → Result SagaError (Unit {0})
verdict (some (false, w)) = ok tt
verdict _ = err definition_error

module _ {J : Type 0} where
  unfoldable pub new : J → Text → Text → SagaDefinition J
  new null id name = record {
    id = id;
    name = name;
    steps = [];
    strategy = orchestration;
    timeout_ms = 300000;
    max_retries = 3;
    retry_delay_ms = 1000;
    use_idempotent_operations = true;
    metadata = null;
  }

  -- `steps.iter().any(|s| s.id == id)`.
  abbrev pub has_step : Text → List (SagaStepDefinition J) → Bool
  has_step id [] = false
  has_step id (s ∷ steps) = text_eq s.id id || has_step id steps

  unfoldable pub add_step :
      SagaDefinition J → SagaStepDefinition J → Result SagaError (Unit {0}) × SagaDefinition J
  add_step saga step =
      if has_step step.id saga.steps
      then (err definition_error, saga)
      else if all (λ dep. has_step dep saga.steps) step.dependencies
      then (ok tt, record saga { steps = saga.steps ++ (step ∷ []) })
      else (err definition_error, saga)

  abbrev with_strategy : SagaDefinition J → SagaStrategy → SagaDefinition J
  with_strategy saga strategy = record saga { strategy = strategy }

  abbrev with_timeout : SagaDefinition J → ℕ → SagaDefinition J
  with_timeout saga timeout_ms = record saga { timeout_ms = timeout_ms }

  abbrev with_max_retries : SagaDefinition J → ℕ → ℕ → SagaDefinition J
  with_max_retries saga max_retries retry_delay_ms = record saga {
    max_retries = max_retries;
    retry_delay_ms = retry_delay_ms;
  }

  abbrev with_idempotence : SagaDefinition J → Bool → SagaDefinition J
  with_idempotence saga use_idempotent = record saga { use_idempotent_operations = use_idempotent }

  abbrev with_metadata : SagaDefinition J → J → SagaDefinition J
  with_metadata saga metadata = record saga { metadata = metadata }

  -- The adjacency list.
  unfoldable pub dependency_graph :
      List (SagaStepDefinition J) → HashMap Text (List Text) → HashMap Text (List Text)
  dependency_graph [] graph = graph
  dependency_graph (s ∷ steps) graph =
      dependency_graph steps (HashMap.insert s.id s.dependencies graph)

  unfoldable pub search_steps :
      HashMap Text (List Text) → ℕ → List (SagaStepDefinition J) → Walk → Option (Bool × Walk)
  unfolding has_cycle_dfs
  search_steps graph depth [] w = some (false, w)
  search_steps graph depth (s ∷ steps) w = elim (HashSet.contains s.id w.visited) [
    | true ↦ search_steps graph depth steps w
    | false ↦ then_walk (has_cycle_dfs graph depth s.id w) (search_steps graph depth steps)
  ]

  -- A call on an identifier that no step has goes no deeper, and each other call of a path is on
  -- another step, so the depth is at most one more than the number of steps.
  unfoldable pub dependency_search : List (SagaStepDefinition J) → Option (Bool × Walk)
  dependency_search steps =
      search_steps (dependency_graph steps []) (suc (length steps)) steps
        (record { visited = []; path = [] })

  unfoldable pub validate : SagaDefinition J → Result SagaError (Unit {0})
  validate saga =
      if is_empty saga.steps then err definition_error else verdict (dependency_search saga.steps)
