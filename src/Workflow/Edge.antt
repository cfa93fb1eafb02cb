-- ===== src/Workflow/Edge.antt =====
-- lion/lion_workflow/src/model/edge.rs: the edges of a workflow.
use liongate.Base.{ℕ, Option, some}
use liongate.Base.Text.{Text}

pub data ConditionType (J : Type 0) : Type 0 where
  none : ConditionType J
  json_path expression : Text → ConditionType J
  custom : (plugin_id : Text) (config : J) → ConditionType J

pub record Edge (J : Type 0) : Type 0 where
  pub id : ℕ
  pub source : ℕ
  pub target : ℕ
  pub condition : ConditionType J
  pub required_capability : Option ℕ
  pub metadata : J

module _ {J : Type 0} where
  abbrev pub new : J → ℕ → ℕ → ℕ → Edge J
  new null id source target = record {
    id = id;
    source = source;
    target = target;
    condition = ConditionType.none;
    required_capability = Option.none;
    metadata = null;
  }

  pub with_condition : Edge J → ConditionType J → Edge J
  with_condition e condition = record e { condition = condition }

  pub with_capability : Edge J → ℕ → Edge J
  with_capability e capability_id = record e { required_capability = some capability_id }
