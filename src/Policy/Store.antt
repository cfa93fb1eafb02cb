-- ===== src/Policy/Store.antt =====
-- lion/lion_policy/src/store: the interface of policy stores and the store in memory.
-- `DashMap` is a map of a library; its order of iteration is the order of the list.
pub mod Memory
use liongate.Base.{Bool, List, ◌≡◌, Result, ok, filter}
use liongate.Policy.Rule.{PolicyRule}

pub data PolicyError : Type 0 where
  rule_not_found violation evaluation_failed network_access_violation : PolicyError
  file_access_violation resource_limit_exceeded application_failed conflict : PolicyError

-- What the evaluator uses of a `PolicyStore`: the rules that it holds now, in the order of its
-- iteration, of which `list_rules_matching` returns those that the matcher accepts.
pub record PolicyStore (P : Type 0) : Type 0 where
  pub rules : P → List PolicyRule
  pub list_rules_matching : P → (PolicyRule → Bool) → Result PolicyError (List PolicyRule)
  pub list_rules_matching-eq :
      (p : P) (matcher : PolicyRule → Bool)
      → list_rules_matching p matcher ≡ ok (filter matcher (rules p))
