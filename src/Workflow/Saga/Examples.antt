-- ===== src/Workflow/Saga/Examples.antt =====
-- A saga of two steps, the second of which depends on the first.
use liongate.Base.{ℕ, ok, err, ◌≡◌, refl, [], ◌∷◌}
use liongate.Base.Eq.{text_Eq}
use liongate.Base.HashMap
use liongate.Base.HashMap.{get}
use liongate.Base.HashSet
use liongate.Base.Text.{codes, text_eq}
use liongate.Workflow.Saga.{SagaStepDefinition, new_step, with_dependency, definition_error}
use liongate.Workflow.Saga.Definition.{
  SagaDefinition, new, add_step, validate, visit_deps, has_cycle_dfs, dependency_graph,
  search_steps, dependency_search,
}
use liongate.Workflow.Saga.Built.{created, added}
use liongate.Workflow.Saga.Validation.{validate-IsBuilt}

abbrev reserve : SagaStepDefinition ℕ
reserve = new_step 0 (codes "a") (codes "reserve") (codes "stock") (codes "reserve") 0

abbrev pay : SagaStepDefinition ℕ
pay =
    with_dependency (new_step 0 (codes "b") (codes "pay") (codes "bank") (codes "pay") 0)
      (codes "a")

abbrev one_step : SagaDefinition ℕ
one_step = (add_step (new 0 (codes "o") (codes "order")) reserve).1

abbrev order : SagaDefinition ℕ
order = (add_step one_step pay).1

validate-IsBuilt_example : validate order ≡ ok tt
unfolding new add_step text_eq
validate-IsBuilt_example = validate-IsBuilt order (
    added one_step pay
      (added (new 0 (codes "o") (codes "order")) reserve (created 0 (codes "o") (codes "order"))))

unknown_dependency : (add_step (new 0 (codes "o") (codes "order")) pay).0 ≡ err definition_error
unfolding new add_step text_eq
unknown_dependency = refl

step_twice : (add_step one_step reserve).0 ≡ err definition_error
unfolding new add_step text_eq
step_twice = refl

-- A saga that was not built by add_step.
self_dependency :
    validate (record order { steps = with_dependency reserve (codes "a") ∷ [] })
    ≡ err definition_error
unfolding new add_step text_eq validate dependency_search search_steps dependency_graph
    has_cycle_dfs visit_deps get HashMap.insert HashSet.insert
self_dependency = refl
