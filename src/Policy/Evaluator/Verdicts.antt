-- ===== src/Policy/Evaluator/Verdicts.antt =====
-- What `evaluate` and `is_allowed` answer where nothing is cached.
use liongate.Base.{
  ℕ, Bool, true, false, ◌≡◌, refl, ap, sym, ◌∙◌, Option, none, some, List, [], ◌∷◌, Result, ok,
  ok_injective, arith, ◌∈◌, filter, mem-filter_elim, is_empty,
}
use liongate.Base.EquivMap.{Equiv, get}
use liongate.Base.Int.{◌≤ℤ◌}
use liongate.Policy.Request.{AccessRequest, key_Equiv}
use liongate.Policy.Rule.{
  PolicyRule, is_expired, PolicyAction, EvaluationResult, deny, no_policy, result_of, Evaluation,
}
use liongate.Policy.Store.{PolicyError, PolicyStore}
use liongate.Policy.Evaluator.{
  subject_match, request_match, applies, sort_by_priority, decides, first_decisive, PolicyEvaluator,
  conclude, evaluate, is_allowed, allows,
}
use liongate.Policy.Evaluator.Sorting.{
  First, nobody, winner, sort_elim, sort_intro, sort-IsFalling, first_decisive-First,
}

-- The answer that a list of applicable rules calls for.
pub data Verdict (rs : List PolicyRule) (result : EvaluationResult) (matched : Option PolicyRule)
    : Type 0 where
  no_rule : rs ≡ [] → result ≡ no_policy → matched ≡ none → Verdict rs result matched
  no_decision :
      is_empty rs ≡ false
      → ((q : PolicyRule) → q ∈ rs → decides q ≡ false)
      → result ≡ deny
      → matched ≡ none
      → Verdict rs result matched
  decision :
      (r : PolicyRule)
      → r ∈ rs
      → decides r ≡ true
      → ((q : PolicyRule) → q ∈ rs → decides q ≡ true → q.priority ≤ℤ r.priority)
      → result ≡ result_of r.action
      → matched ≡ some r
      → Verdict rs result matched

abbrev pub allows_action : PolicyAction → Bool
allows_action PolicyAction.allow = true
allows_action (PolicyAction.allow_with_constraints _) = true
allows_action (PolicyAction.transform_to_constraints _) = true
allows_action _ = false

allows-result_of : (a : PolicyAction) → allows (result_of a) ≡ true → allows_action a ≡ true
unfolding result_of
allows-result_of PolicyAction.deny h = cc
allows-result_of PolicyAction.audit h = cc
allows-result_of _ h = refl

applies_parts :
    {J : Type 0} (now plugin_id : ℕ) (request : AccessRequest J) (r : PolicyRule)
    → applies now plugin_id request r ≡ true
    → (is_expired now r ≡ false)
      × (subject_match r.subject plugin_id ≡ true)
      × (request_match request r.object ≡ true)
unfolding applies
applies_parts now plugin_id request r h = (ground arith, ground arith, ground arith)

module _ {J P : Type 0} ⦃e : Equiv J⦄ (store : PolicyStore P) (now : ℕ) (s : PolicyEvaluator J P)
    (plugin_id : ℕ) (request : AccessRequest J) where
  -- The answer to this request, with its verdict over the rules.
  abbrev pub Answers : List PolicyRule → Result PolicyError (Evaluation J) → Type 0
  Answers rs r =
      (v : Evaluation J) × (r ≡ ok v)
      × (v.plugin_id ≡ plugin_id)
      × (v.request ≡ request)
      × Verdict rs v.result v.matched_rule

  decided :
      (rs : List PolicyRule)
      → is_empty rs ≡ false
      → {o : Option PolicyRule} → first_decisive (sort_by_priority rs) ≡ o
      → First (sort_by_priority rs) o
      → Answers rs (conclude store now s plugin_id request rs).0
  unfolding conclude
  decided rs some_rule f (nobody idle) =
      rw (some_rule, f, conclude)
        (_, refl, refl, refl, no_decision some_rule (λ q m. idle q (sort_intro m)) refl refl)
  decided rs some_rule f (winner r m d best) =
      rw (some_rule, f, conclude)
        (
          _,
          refl,
          refl,
          refl,
          decision r (sort_elim rs m) d (λ q k. best q (sort_intro k)) refl refl,
        )

  conclude-Answers :
      (rs : List PolicyRule) → Answers rs (conclude store now s plugin_id request rs).0
  unfolding conclude
  conclude-Answers [] = (_, refl, refl, refl, no_rule refl refl refl)
  conclude-Answers (r ∷ rs) =
      decided (r ∷ rs) refl refl
        (first_decisive-First (sort_by_priority (r ∷ rs)) (sort-IsFalling (r ∷ rs)))

  -- The rules of the store that apply to the request now.
  abbrev pub applicable : List PolicyRule
  applicable = filter (applies now plugin_id request) (store.rules s.policy_store)

  -- Where no answer to an equal request of the plugin is cached, `evaluate` answers for the plugin and
  -- the request: no policy if no rule of the store applies, what a rule of the greatest priority
  -- among the applicable rules that decide says, together with that rule, and a denial if rules apply
  -- and none decides.
  pub evaluate-Answers :
      get (plugin_id, request) s.evaluation_cache ≡ none
      → Answers applicable (evaluate store now s plugin_id request).0
  unfolding evaluate
  evaluate-Answers missing =
      rw
        (
          missing,
          evaluate,
          store.list_rules_matching-eq s.policy_store (applies now plugin_id request),
        )
        (conclude-Answers applicable)

  -- A rule that lets the request pass: it is in the store, has not expired, names the plugin and the
  -- object, its action is to allow, and no applicable rule that decides has a greater priority.
  pub record Grants (r : PolicyRule) : Type 0 where
    pub stored : r ∈ store.rules s.policy_store
    pub current : is_expired now r ≡ false
    pub subject : subject_match r.subject plugin_id ≡ true
    pub object : request_match request r.object ≡ true
    pub action : allows_action r.action ≡ true
    pub greatest : (q : PolicyRule) → q ∈ applicable → decides q ≡ true → q.priority ≤ℤ r.priority

  granting :
      (v : Evaluation J)
      → Verdict applicable v.result v.matched_rule
      → allows v.result ≡ true
      → (r : PolicyRule) × Grants r
  granting v (no_rule _ result _) h = absurd (cc (result, h))
  granting v (no_decision _ _ result _) h = absurd (cc (result, h))
  granting v (decision r m d best result _) h =
      let (stored, ok_now) =
        mem-filter_elim (applies now plugin_id request) (store.rules s.policy_store) m in
      (
        r,
        record {
          stored = stored;
          current = (applies_parts now plugin_id request r ok_now).0;
          subject = (applies_parts now plugin_id request r ok_now).1;
          object = (applies_parts now plugin_id request r ok_now).2;
          action = allows-result_of r.action (ap allows (sym result) ∙ h);
          greatest = best;
        },
      )

  -- Nothing is allowed by default: where no answer to an equal request of the plugin is cached, a
  -- request passes only if a rule grants it.
  pub is_allowed-Grants :
      get (plugin_id, request) s.evaluation_cache ≡ none
      → (is_allowed store now s plugin_id request).0 ≡ ok true
      → (r : PolicyRule) × Grants r
  unfolding is_allowed
  is_allowed-Grants missing h =
      let (v, answered, _, _, verdict) = evaluate-Answers missing in
      granting v verdict (allowed_value v answered h)
    where
      allowed_value :
          (v : Evaluation J)
          → (evaluate store now s plugin_id request).0 ≡ ok v
          → (is_allowed store now s plugin_id request).0 ≡ ok true
          → allows v.result ≡ true
      allowed_value v answered h = ok_injective (rw answered at h)
