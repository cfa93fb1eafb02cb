-- ===== src/Workflow/Saga.antt =====
-- lion/lion_workflow/src/patterns/saga: types.rs (the errors and statuses) and step.rs (the steps).
-- `J` is the type of JSON values of a library, with its `null`; a time is read by the caller.
pub mod Definition
pub mod Built
pub mod Validation
mod Examples
use liongate.Base.{
  ℕ, ◌+◌, ◌%◌, ◌^◌, ◌+◌, Bool, true, false, Option, none, some, List, [], ◌∷◌, ◌++◌, is_some,
}
use liongate.Base.Text.{Text}
use liongate.Workflow.Node.{Priority, normal}

pub data SagaError : Type 0 where
  step_failed compensation_failed timeout definition_error : SagaError
  already_exists not_found event_error step_not_found aborted other : SagaError

pub data StepStatus : Type 0 where
  pending running completed failed compensating compensated compensation_failure skipped :
      StepStatus

pub data SagaStrategy : Type 0 where
  orchestration choreography : SagaStrategy

pub record SagaStepDefinition (J : Type 0) : Type 0 where
  pub id : Text
  pub name : Text
  pub service : Text
  pub action : Text
  pub command : J
  pub compensation : Option Text
  pub compensation_command : Option J
  pub timeout_ms : ℕ
  pub priority : Priority
  pub dependencies : List Text
  pub is_optional : Bool
  pub continue_on_failure : Bool
  pub triggers_compensation : Bool
  pub metadata : J

pub record SagaStep (J : Type 0) : Type 0 where
  pub definition : SagaStepDefinition J
  pub status : StepStatus
  pub result : Option J
  pub error : Option Text
  pub retry_count : ℕ
  pub start_time : Option ℕ
  pub end_time : Option ℕ
  pub compensation_start_time : Option ℕ
  pub compensation_end_time : Option ℕ

module _ {J : Type 0} where
  abbrev pub new_step : J → Text → Text → Text → Text → J → SagaStepDefinition J
  new_step null id name service action command = record {
    id = id;
    name = name;
    service = service;
    action = action;
    command = command;
    compensation = none;
    compensation_command = none;
    timeout_ms = 30000;
    priority = normal;
    dependencies = [];
    is_optional = false;
    continue_on_failure = false;
    triggers_compensation = true;
    metadata = null;
  }

  abbrev with_compensation : SagaStepDefinition J → Text → J → SagaStepDefinition J
  with_compensation d action command = record d {
    compensation = some action;
    compensation_command = some command;
  }

  abbrev pub with_dependency : SagaStepDefinition J → Text → SagaStepDefinition J
  with_dependency d step_id = record d { dependencies = d.dependencies ++ (step_id ∷ []) }

  abbrev with_timeout : SagaStepDefinition J → ℕ → SagaStepDefinition J
  with_timeout d timeout_ms = record d { timeout_ms = timeout_ms }

  abbrev with_priority : SagaStepDefinition J → Priority → SagaStepDefinition J
  with_priority d priority = record d { priority = priority }

  abbrev as_optional : SagaStepDefinition J → SagaStepDefinition J
  as_optional d = record d { is_optional = true }

  abbrev set_continue_on_failure : SagaStepDefinition J → SagaStepDefinition J
  set_continue_on_failure d = record d { continue_on_failure = true }

  abbrev set_triggers_compensation : SagaStepDefinition J → Bool → SagaStepDefinition J
  set_triggers_compensation d value = record d { triggers_compensation = value }

  abbrev with_metadata : SagaStepDefinition J → J → SagaStepDefinition J
  with_metadata d metadata = record d { metadata = metadata }

  abbrev begin : SagaStepDefinition J → SagaStep J
  begin d = record {
    definition = d;
    status = pending;
    result = none;
    error = none;
    retry_count = 0;
    start_time = none;
    end_time = none;
    compensation_start_time = none;
    compensation_end_time = none;
  }

  abbrev mark_running : ℕ → SagaStep J → SagaStep J
  mark_running now s = record s { status = running; start_time = some now }

  abbrev mark_completed : ℕ → SagaStep J → J → SagaStep J
  mark_completed now s result = record s {
    status = completed;
    result = some result;
    end_time = some now;
  }

  abbrev mark_failed : ℕ → SagaStep J → Text → SagaStep J
  mark_failed now s error = record s { status = failed; error = some error; end_time = some now }

  abbrev mark_compensating : ℕ → SagaStep J → SagaStep J
  mark_compensating now s = record s { status = compensating; compensation_start_time = some now }

  abbrev mark_compensated : ℕ → SagaStep J → SagaStep J
  mark_compensated now s = record s { status = compensated; compensation_end_time = some now }

  abbrev mark_compensation_failed : ℕ → SagaStep J → Text → SagaStep J
  mark_compensation_failed now s error = record s {
    status = compensation_failure;
    error = some error;
    compensation_end_time = some now;
  }

  abbrev mark_skipped : ℕ → SagaStep J → SagaStep J
  mark_skipped now s = record s { status = skipped; end_time = some now }

  -- The counter is a `u32`, which wraps.
  abbrev increment_retry : SagaStep J → SagaStep J
  increment_retry s = record s { retry_count = (s.retry_count + 1) % 2 ^ 32 }

  abbrev has_compensation : SagaStep J → Bool
  has_compensation s = is_some s.definition.compensation

abbrev is_terminal_status : StepStatus → Bool
is_terminal_status completed = true
is_terminal_status compensated = true
is_terminal_status compensation_failure = true
is_terminal_status skipped = true
is_terminal_status _ = false

abbrev is_terminal : {J : Type 0} → SagaStep J → Bool
is_terminal s = is_terminal_status s.status
