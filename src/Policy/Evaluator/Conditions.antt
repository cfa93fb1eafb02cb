-- ===== src/Policy/Evaluator/Conditions.antt =====
-- The conditions of rules have no part in an evaluation.
use liongate.Base.{
  ℕ, ◌≡◌, refl, ap, ◌∙◌, inl, inr, none, List, [], ◌∷◌, map, Result, ok, err, arith, Option-cases,
  filter,
}
use mathlib.Core.Option
use liongate.Base.EquivMap.{Equiv, get}
use liongate.Policy.Request.{AccessRequest, key_Equiv}
use liongate.Policy.Rule.{PolicyRule, is_expired, EvaluationResult, Evaluation}
use liongate.Policy.Store.{PolicyError, PolicyStore}
use liongate.Policy.Evaluator.{
  applies, insert_sorted, sort_by_priority, first_decisive, PolicyEvaluator, conclude, evaluate,
}

abbrev pub without_condition : PolicyRule → PolicyRule
without_condition r = record r { condition = none }

filter-erase :
    {J : Type 0} (now plugin_id : ℕ) (request : AccessRequest J) (rs : List PolicyRule)
    → filter (applies now plugin_id request) (map without_condition rs)
      ≡ map without_condition (filter (applies now plugin_id request) rs)
unfolding applies is_expired
filter-erase now plugin_id request [] = refl
filter-erase now plugin_id request (r ∷ rs) = ground (arith, filter-erase now plugin_id request rs)

insert-erase :
    (r : PolicyRule) (rs : List PolicyRule)
    → insert_sorted (without_condition r) (map without_condition rs)
      ≡ map without_condition (insert_sorted r rs)
unfolding insert_sorted
insert-erase r [] = refl
insert-erase r (x ∷ xs) = ground (arith, insert-erase r xs)

sort-erase :
    (rs : List PolicyRule)
    → sort_by_priority (map without_condition rs) ≡ map without_condition (sort_by_priority rs)
unfolding sort_by_priority
sort-erase [] = refl
sort-erase (r ∷ rs) =
    ap (insert_sorted (without_condition r)) (sort-erase rs) ∙ insert-erase r (sort_by_priority rs)

first-erase :
    (rs : List PolicyRule)
    → first_decisive (map without_condition rs) ≡ Option.map without_condition (first_decisive rs)
unfolding first_decisive
first-erase [] = refl
first-erase (r ∷ rs) = ground (arith, first-erase rs)

-- The result of an answer, the rest of it left out.
abbrev pub result_only :
    {J P : Type 0} → Result PolicyError (Evaluation J) × P → Result PolicyError EvaluationResult
result_only (err reason, s) = err reason
result_only (ok v, s) = ok v.result

module _ {J P : Type 0} ⦃e : Equiv J⦄ (store : PolicyStore P) (now : ℕ) (s t : PolicyEvaluator J P)
    (plugin_id : ℕ) (request : AccessRequest J) where
  conclude-erase :
      (rs : List PolicyRule)
      → result_only (conclude store now t plugin_id request (map without_condition rs))
        ≡ result_only (conclude store now s plugin_id request rs)
  unfolding conclude
  conclude-erase [] = refl
  conclude-erase (r ∷ rs) = elim (Option-cases (first_decisive (sort_by_priority (r ∷ rs)))) [
    | inl f ↦ rw (f, erased ∙ ap (Option.map without_condition) f) refl
    | inr (q, f) ↦ rw (f, erased ∙ ap (Option.map without_condition) f) refl
  ]
    where
      erased :
          first_decisive (sort_by_priority (map without_condition (r ∷ rs)))
          ≡ Option.map without_condition (first_decisive (sort_by_priority (r ∷ rs)))
      erased = ap first_decisive (sort-erase (r ∷ rs)) ∙ first-erase (sort_by_priority (r ∷ rs))

  -- Where nothing is cached, a store whose rules have lost their conditions gets the same result:
  -- no condition keeps a rule from applying.
  pub conditions_ignored :
      get (plugin_id, request) s.evaluation_cache ≡ none
      → get (plugin_id, request) t.evaluation_cache ≡ none
      → store.rules t.policy_store ≡ map without_condition (store.rules s.policy_store)
      → result_only (evaluate store now t plugin_id request)
        ≡ result_only (evaluate store now s plugin_id request)
  unfolding evaluate
  conditions_ignored missing missing' erased =
      rw
        (
          missing,
          missing',
          evaluate,
          store.list_rules_matching-eq t.policy_store (applies now plugin_id request),
          store.list_rules_matching-eq s.policy_store (applies now plugin_id request),
          erased,
          filter-erase now plugin_id request (store.rules s.policy_store),
        )
        (conclude-erase (filter (applies now plugin_id request) (store.rules s.policy_store)))
