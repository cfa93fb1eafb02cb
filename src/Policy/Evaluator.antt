-- ===== src/Policy/Evaluator.antt =====
-- lion/lion_policy/src/engine/evaluator.rs: which rules apply to a request, and what they decide.
-- The evaluator is generic in its store and in the JSON values of custom requests. `Utc::now()` is
-- read once for a call, as `now`.
pub mod Sorting
pub mod Verdicts
pub mod Caching
pub mod Conditions
use liongate.Base.{
  ℕ, Bool, true, false, ◌&&◌, ◌||◌, Option, none, some, List, [], ◌∷◌, Result, ok, err, ◌==◌, any,
  is_empty, if◌then◌else◌, not,
}
use liongate.Base.EquivMap.{Equiv, get, insert}
use liongate.Base.HashMap.{HashMap}
use liongate.Base.Int.{leb_ℤ}
use liongate.Base.Text.{Text, text_eq, codes}
use liongate.Policy.Request
use liongate.Policy.Request.{AccessRequest, CacheKey, key_Equiv, path_starts_with}
use liongate.Policy.Rule.{
  PolicySubject, plugin, plugins, PolicyObject, PolicyRule, is_expired, EvaluationResult, allow,
  deny, no_policy, audit, allow_with_constraints, result_of, Evaluation,
}
use liongate.Policy.Store.{PolicyError, PolicyStore}

unfoldable pub subject_match : PolicySubject → ℕ → Bool
subject_match PolicySubject.any plugin_id = true
subject_match (plugin id) plugin_id = id == plugin_id
subject_match (plugins ids) plugin_id = any (λ id. id == plugin_id) ids
subject_match _ plugin_id = false

-- `pattern.is_none() || pattern == Some(value)`.
abbrev none_or_text : Option Text → Text → Bool
none_or_text none value = true
none_or_text (some t) value = text_eq t value

abbrev none_or_number : Option ℕ → ℕ → Bool
none_or_number none value = true
none_or_number (some n) value = n == value

unfoldable pub request_match : {J : Type 0} → AccessRequest J → PolicyObject → Bool
request_match (Request.file path _ _ _) PolicyObject.any = true
request_match (Request.file path _ _ _) (PolicyObject.file f) = path_starts_with f.path path
request_match (Request.network host port _ _) PolicyObject.any = true
request_match (Request.network host port _ _) (PolicyObject.network n) =
    (text_eq n.host (codes "*") || text_eq n.host host) && none_or_number n.port port
request_match (Request.plugin_call plugin_id function) PolicyObject.any = true
request_match (Request.plugin_call plugin_id function) (PolicyObject.plugin_call c) =
    text_eq c.plugin_id plugin_id && none_or_text c.function function
request_match (Request.memory region_id _ _) PolicyObject.any = true
request_match (Request.memory region_id _ _) (PolicyObject.memory m) = text_eq m.region_id region_id
request_match (Request.message recipient topic) PolicyObject.any = true
request_match (Request.message recipient topic) (PolicyObject.message m) =
    text_eq m.recipient recipient && none_or_text m.topic topic
request_match (Request.custom resource_type operation _) PolicyObject.any = true
request_match (Request.custom resource_type operation _) (PolicyObject.custom object_type value) =
    text_eq object_type resource_type && text_eq value operation
request_match _ _ = false

-- The matcher of `get_relevant_policies`.
unfoldable pub applies : {J : Type 0} → ℕ → ℕ → AccessRequest J → PolicyRule → Bool
applies now plugin_id request rule =
    if is_expired now rule
    then false
    else subject_match rule.subject plugin_id && request_match request rule.object

-- `sort_by(|a, b| b.priority.cmp(&a.priority))`, a stable sort: equal priorities keep their order.
unfoldable pub insert_sorted : PolicyRule → List PolicyRule → List PolicyRule
insert_sorted r [] = r ∷ []
insert_sorted r (x ∷ xs) =
    if leb_ℤ x.priority r.priority then r ∷ x ∷ xs else x ∷ insert_sorted r xs

unfoldable pub sort_by_priority : List PolicyRule → List PolicyRule
sort_by_priority [] = []
sort_by_priority (x ∷ xs) = insert_sorted x (sort_by_priority xs)

abbrev pub is_decisive : EvaluationResult → Bool
is_decisive allow = true
is_decisive deny = true
is_decisive (allow_with_constraints _) = true
is_decisive _ = false

-- The answer of `is_allowed` to a result.
abbrev pub allows : EvaluationResult → Bool
allows allow = true
allows (allow_with_constraints _) = true
allows _ = false

abbrev pub decides : PolicyRule → Bool
decides r = is_decisive (result_of r.action)

-- The loop of `evaluate`: the first rule that decides.
unfoldable pub first_decisive : List PolicyRule → Option PolicyRule
first_decisive [] = none
first_decisive (r ∷ rs) = if decides r then some r else first_decisive rs

pub record PolicyEvaluator (J P : Type 0) : Type 0 where
  pub policy_store : P
  pub evaluation_cache : HashMap (CacheKey J) EvaluationResult

module _ {J P : Type 0} where
  pub new : P → PolicyEvaluator J P
  new p = record { policy_store = p; evaluation_cache = [] }

  pub clear_cache : PolicyEvaluator J P → PolicyEvaluator J P
  clear_cache s = record s { evaluation_cache = [] }

module _ {J P : Type 0} ⦃e : Equiv J⦄ (store : PolicyStore P) where
  pub get_relevant_policies :
      ℕ → PolicyEvaluator J P → ℕ → AccessRequest J → Result PolicyError (List PolicyRule)
  get_relevant_policies now s plugin_id request =
      store.list_rules_matching s.policy_store (applies now plugin_id request)

  abbrev evaluation : ℕ → ℕ → AccessRequest J → EvaluationResult → Option PolicyRule → Evaluation J
  evaluation now plugin_id request result rule = record {
    plugin_id = plugin_id;
    request = request;
    result = result;
    matched_rule = rule;
    timestamp = now;
  }

  -- Caches a result and returns it.
  remember :
      ℕ
      → PolicyEvaluator J P
      → ℕ
      → AccessRequest J
      → EvaluationResult
      → Option PolicyRule
      → Result PolicyError (Evaluation J) × PolicyEvaluator J P
  remember now s plugin_id request result rule = (
    ok (evaluation now plugin_id request result rule),
    record s { evaluation_cache = insert (plugin_id, request) result s.evaluation_cache },
  )

  conclude :
      ℕ
      → PolicyEvaluator J P
      → ℕ
      → AccessRequest J
      → List PolicyRule
      → Result PolicyError (Evaluation J) × PolicyEvaluator J P
  unfolding remember
  conclude now s plugin_id request policies =
      if is_empty policies
      then remember now s plugin_id request no_policy none
      else elim (first_decisive (sort_by_priority policies)) [
        | some policy ↦ remember now s plugin_id request (result_of policy.action) (some policy)
        | none ↦ remember now s plugin_id request deny none
      ]

  fresh :
      ℕ
      → PolicyEvaluator J P
      → ℕ
      → AccessRequest J
      → Result PolicyError (List PolicyRule)
      → Result PolicyError (Evaluation J) × PolicyEvaluator J P
  unfolding conclude
  fresh now s plugin_id request (err reason) = (err reason, s)
  fresh now s plugin_id request (ok policies) = conclude now s plugin_id request policies

  unfoldable pub evaluate :
      ℕ
      → PolicyEvaluator J P
      → ℕ
      → AccessRequest J
      → Result PolicyError (Evaluation J) × PolicyEvaluator J P
  unfolding fresh get_relevant_policies
  evaluate now s plugin_id request = elim (get (plugin_id, request) s.evaluation_cache) [
    | some result ↦ (ok (evaluation now plugin_id request result none), s)
    | none ↦ fresh now s plugin_id request (get_relevant_policies now s plugin_id request)
  ]

  abbrev allows_result : Result PolicyError (Evaluation J) → Result PolicyError Bool
  allows_result (err reason) = err reason
  allows_result (ok v) = ok (allows v.result)

  unfoldable pub is_allowed :
      ℕ → PolicyEvaluator J P → ℕ → AccessRequest J → Result PolicyError Bool × PolicyEvaluator J P
  is_allowed now s plugin_id request =
      let (result, s') = evaluate now s plugin_id request in (allows_result result, s')
