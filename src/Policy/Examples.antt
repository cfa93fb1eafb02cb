-- ===== src/Policy/Examples.antt =====
-- The properties of the policy engine at concrete rules, with numbers for JSON values.
use liongate.Base.{ℕ, true, false, ◌≡◌, refl, none, some, [], ◌∷◌, ok, err, if◌then◌else◌}
use liongate.Base.Eq.{text_Eq}
use liongate.Base.EquivMap
use liongate.Base.EquivMap.{nat_Equiv}
use liongate.Base.HashMap.{get, insert, remove}
use liongate.Base.Int.{pos, negsuc}
use liongate.Base.Text.{codes, text_eq, has_prefix}
use liongate.Policy.Request
use liongate.Policy.Request.{AccessRequest, key_Equiv, path_starts_with, path_eq, request_eq}
use liongate.Policy.Rule.{
  PolicySubject, PolicyObject, PolicyAction, PolicyRule, PolicyCondition, is_expired, Evaluation,
  EvaluationResult, result_of,
}
use liongate.Policy.Store.{rule_not_found}
use liongate.Policy.Store.Memory.{
  InMemoryPolicyStore, add_rule, get_rule, remove_rule, update_rule, in_memory, list_rules_matching,
  get_rule-add_rule,
}
use liongate.Policy.Evaluator.{
  PolicyEvaluator, evaluate, is_allowed, applies, subject_match, request_match, sort_by_priority,
  insert_sorted, first_decisive,
}
use liongate.Policy.Evaluator.Verdicts.{
  Answers, applicable, evaluate-Answers, Grants, is_allowed-Grants,
}
use liongate.Policy.Evaluator.Caching.{step, run, evaluates, store_becomes, evaluate_sticks}
use liongate.Policy.Evaluator.Conditions.{without_condition}

abbrev allow_docs : PolicyRule
allow_docs = record {
  id = codes "docs";
  name = codes "Docs";
  description = [];
  subject = PolicySubject.plugin 7;
  object = PolicyObject.file (record { path = codes "/docs"; is_directory = true });
  action = PolicyAction.allow;
  condition = some (
      PolicyCondition.time
        (record { start = some 9; end = some 17; days_of_week = none; hours = none }));
  priority = pos 10;
  created_at = 0;
  updated_at = 0;
  expires_at = some 100;
}

abbrev deny_all : PolicyRule
deny_all = record {
  id = codes "all";
  name = codes "All";
  description = [];
  subject = PolicySubject.any;
  object = PolicyObject.any;
  action = PolicyAction.deny;
  condition = none;
  priority = negsuc 4;
  created_at = 0;
  updated_at = 0;
  expires_at = none;
}

abbrev two_rules : InMemoryPolicyStore
two_rules = record { rules = (codes "all", deny_all) ∷ (codes "docs", allow_docs) ∷ [] }

abbrev one_rule : InMemoryPolicyStore
one_rule = record { rules = (codes "all", deny_all) ∷ [] }

added : add_rule one_rule allow_docs ≡ ok two_rules
unfolding add_rule get insert text_eq
added = refl

get_rule-add_rule_example :
    (get (codes "docs") one_rule.rules ≡ none)
    × (get_rule 5 two_rules (codes "docs") ≡ (
        if text_eq (codes "docs") (codes "docs")
        then (if is_expired 5 allow_docs then err rule_not_found else ok allow_docs)
        else get_rule 5 one_rule (codes "docs")))
get_rule-add_rule_example = get_rule-add_rule one_rule two_rules allow_docs 5 (codes "docs") added

removed : remove_rule two_rules (codes "docs") ≡ ok one_rule
unfolding remove_rule get remove text_eq
removed = refl

abbrev stamped : InMemoryPolicyStore
stamped = record { rules = (codes "all", record deny_all { updated_at = 3 }) ∷ [] }

updated : update_rule 3 one_rule deny_all ≡ ok stamped
unfolding update_rule get insert text_eq
updated = refl

abbrev start : PolicyEvaluator ℕ InMemoryPolicyStore
start = record { policy_store = two_rules; evaluation_cache = [] }

abbrev read_doc : AccessRequest ℕ
read_doc = Request.file (codes "/docs/a") true false false

nothing_cached : EquivMap.get (7, read_doc) start.evaluation_cache ≡ none
unfolding EquivMap.get
nothing_cached = refl

evaluate-Answers_example :
    Answers in_memory 5 start 7 read_doc
      (applicable in_memory 5 start 7 read_doc)
      (evaluate in_memory 5 start 7 read_doc).0
evaluate-Answers_example = evaluate-Answers in_memory 5 start 7 read_doc nothing_cached

abbrev granted : Evaluation ℕ
granted = record {
  plugin_id = 7;
  request = read_doc;
  result = EvaluationResult.allow;
  matched_rule = some allow_docs;
  timestamp = 5;
}

doc_granted : (evaluate in_memory 5 start 7 read_doc).0 ≡ ok granted
unfolding evaluate EquivMap.get in_memory list_rules_matching applies is_expired subject_match
    request_match path_starts_with has_prefix text_eq sort_by_priority insert_sorted first_decisive
    result_of
doc_granted = refl

doc_allowed : (is_allowed in_memory 5 start 7 read_doc).0 ≡ ok true
unfolding is_allowed
doc_allowed = rw doc_granted

is_allowed-Grants_example : (r : PolicyRule) × Grants in_memory 5 start 7 read_doc r
is_allowed-Grants_example =
    is_allowed-Grants in_memory 5 start 7 read_doc nothing_cached doc_allowed

abbrev spelt : AccessRequest ℕ
spelt = Request.file (codes "/docs//./a") true false false

spelt_equal : request_eq read_doc spelt ≡ true
unfolding request_eq path_eq has_prefix text_eq
spelt_equal = refl

-- The answer survives the removal of the rule and its expiry, for another spelling of the path too.
evaluate_sticks_example :
    let t =
      run in_memory (step in_memory start (evaluates 5 7 read_doc)) (store_becomes one_rule ∷ []) in
    (w : Evaluation ℕ) × (evaluate in_memory 200 t 7 spelt ≡ (ok w, t))
    × (w.result ≡ EvaluationResult.allow)
    × (w.matched_rule ≡ none)
evaluate_sticks_example =
    evaluate_sticks in_memory 5 200 start 7 read_doc spelt granted (store_becomes one_rule ∷ [])
      doc_granted (tt, tt) spelt_equal

abbrev without : PolicyEvaluator ℕ InMemoryPolicyStore
without = record start {
  policy_store = record {
    rules = (codes "all", deny_all) ∷ (codes "docs", without_condition allow_docs) ∷ [];
  };
}
