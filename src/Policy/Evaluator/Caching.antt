-- ===== src/Policy/Evaluator/Caching.antt =====
-- The evaluation cache over a run of calls, between which the store may change.
use liongate.Base.{
  ℕ, true, arith, ==_iff, ◌≡◌, refl, sym, ap, ◌∙◌, inl, inr, none, some, List, [], ◌∷◌, Result, ok,
  err, ok_injective, Bool-cases, Option-cases, All,
}
use liongate.Base.EquivMap.{Equiv, get, insert, get-insert, get-insert_self, get_congr}
use liongate.Policy.Request.{AccessRequest, CacheKey, key_Equiv, key_eq, request_eq}
use liongate.Policy.Rule.{PolicyRule, EvaluationResult, Evaluation}
use liongate.Policy.Store.{PolicyError, PolicyStore}
use liongate.Policy.Evaluator.{
  first_decisive, sort_by_priority, PolicyEvaluator, clear_cache, get_relevant_policies, conclude,
  fresh, evaluate, is_allowed,
}

-- What may happen to an evaluator: calls of its methods, and changes of the store that it shares.
pub data Event (J P : Type 0) : Type 0 where
  evaluates asks : (now plugin_id : ℕ) → AccessRequest J → Event J P
  clears : Event J P
  store_becomes : P → Event J P

abbrev pub IsNotClear : {J P : Type 0} → Event J P → Type 0
IsNotClear clears = ⊥
IsNotClear _ = Unit

module _ {J P : Type 0} ⦃e : Equiv J⦄ (store : PolicyStore P) where
  pub step : PolicyEvaluator J P → Event J P → PolicyEvaluator J P
  step s (evaluates now plugin_id request) = (evaluate store now s plugin_id request).1
  step s (asks now plugin_id request) = (is_allowed store now s plugin_id request).1
  step s clears = clear_cache s
  step s (store_becomes p) = record s { policy_store = p }

  pub run : PolicyEvaluator J P → List (Event J P) → PolicyEvaluator J P
  run s [] = s
  run s (x ∷ xs) = run (step s x) xs

  -- What a call answers is cached, and nothing else is.
  abbrev Caches :
      PolicyEvaluator J P
      → CacheKey J
      → Result PolicyError (Evaluation J) × PolicyEvaluator J P
      → Type 0
  Caches s key (err _, s') = s' ≡ s
  Caches s key (ok v, s') = s'.evaluation_cache ≡ insert key v.result s.evaluation_cache

  conclude-Caches :
      (now : ℕ) (s : PolicyEvaluator J P) (plugin_id : ℕ) (request : AccessRequest J)
      (rs : List PolicyRule)
      → Caches s (plugin_id, request) (conclude store now s plugin_id request rs)
  unfolding conclude
  conclude-Caches now s plugin_id request [] = refl
  conclude-Caches now s plugin_id request (r ∷ rs) =
      elim (Option-cases (first_decisive (sort_by_priority (r ∷ rs)))) [
        | inl none_decides ↦ rw (none_decides, conclude) refl
        | inr (q, found) ↦ rw (found, conclude) refl
      ]

  fresh-Caches :
      (now : ℕ) (s : PolicyEvaluator J P) (plugin_id : ℕ) (request : AccessRequest J)
      (found : Result PolicyError (List PolicyRule))
      → Caches s (plugin_id, request) (fresh store now s plugin_id request found)
  unfolding fresh
  fresh-Caches now s plugin_id request (err _) = refl
  fresh-Caches now s plugin_id request (ok rs) = conclude-Caches now s plugin_id request rs

  kept :
      (s : PolicyEvaluator J P) (key k : CacheKey J) (v : EvaluationResult)
      (out : Result PolicyError (Evaluation J) × PolicyEvaluator J P)
      → Caches s key out
      → get key s.evaluation_cache ≡ none
      → get k s.evaluation_cache ≡ some v
      → get k out.1.evaluation_cache ≡ some v
  kept s key k v (err _, s') c missing h = rw c h
  kept s key k v (ok w, s') c missing h = elim (Bool-cases (key_eq key k)) [
    | inl same ↦ absurd (cc (missing, h, get_congr key k s.evaluation_cache same))
    | inr other ↦ rw (c, get-insert k key w.result s.evaluation_cache, other) h
  ]

  evaluate-Caches :
      (now : ℕ) (s : PolicyEvaluator J P) (plugin_id : ℕ) (request : AccessRequest J)
      → get (plugin_id, request) s.evaluation_cache ≡ none
      → Caches s (plugin_id, request) (evaluate store now s plugin_id request)
  unfolding evaluate
  evaluate-Caches now s plugin_id request missing =
      rw (missing, evaluate)
        (fresh-Caches now s plugin_id request (get_relevant_policies store now s plugin_id request))

  evaluate_keeps :
      (now : ℕ) (s : PolicyEvaluator J P) (plugin_id : ℕ) (request : AccessRequest J)
      (k : CacheKey J) (v : EvaluationResult)
      → get k s.evaluation_cache ≡ some v
      → get k (evaluate store now s plugin_id request).1.evaluation_cache ≡ some v
  evaluate_keeps now s plugin_id request k v h =
      elim (Option-cases (get (plugin_id, request) s.evaluation_cache)) [
        | inl missing ↦
            kept s (plugin_id, request) k v (evaluate store now s plugin_id request)
              (evaluate-Caches now s plugin_id request missing) missing h
        | inr (w, hit) ↦ unfold evaluate in rw (hit, evaluate) h
      ]

  cached_value :
      (s : PolicyEvaluator J P) (key : CacheKey J) (v : Evaluation J)
      (out : Result PolicyError (Evaluation J) × PolicyEvaluator J P)
      → Caches s key out
      → out.0 ≡ ok v
      → get key out.1.evaluation_cache ≡ some v.result
  cached_value s key v (err _, s') c h = cc
  cached_value s key v (ok w, s') c h =
      rw (c, get-insert_self key w.result s.evaluation_cache)
        (ap (λ (x : Evaluation J). some x.result) (ok_injective h))

  -- What the answer to a cached request is.
  evaluate_hit :
      (now : ℕ) (s : PolicyEvaluator J P) (plugin_id : ℕ) (request : AccessRequest J)
      (w : EvaluationResult)
      → get (plugin_id, request) s.evaluation_cache ≡ some w
      → (v : Evaluation J) × (evaluate store now s plugin_id request ≡ (ok v, s))
        × (v.result ≡ w)
        × (v.matched_rule ≡ none)
  unfolding evaluate
  evaluate_hit now s plugin_id request w hit = rw (hit, evaluate) (_, refl, refl, refl)

  evaluate_caches :
      (now : ℕ) (s : PolicyEvaluator J P) (plugin_id : ℕ) (request : AccessRequest J)
      (v : Evaluation J)
      → (evaluate store now s plugin_id request).0 ≡ ok v
      → get (plugin_id, request) (evaluate store now s plugin_id request).1.evaluation_cache
        ≡ some v.result
  evaluate_caches now s plugin_id request v h =
      elim (Option-cases (get (plugin_id, request) s.evaluation_cache)) [
        | inl missing ↦
            cached_value s (plugin_id, request) v (evaluate store now s plugin_id request)
              (evaluate-Caches now s plugin_id request missing) h
        | inr (w, hit) ↦
            let (u, e, result, _) = evaluate_hit now s plugin_id request w hit in
            rw e (
              hit
              ∙ ap some
                  (sym result ∙ ap (λ (x : Evaluation J). x.result) (ok_injective (rw e at h))))
      ]

  step_keeps :
      (s : PolicyEvaluator J P) (x : Event J P) (k : CacheKey J) (v : EvaluationResult)
      → IsNotClear x
      → get k s.evaluation_cache ≡ some v
      → get k (step s x).evaluation_cache ≡ some v
  unfolding step is_allowed
  step_keeps s (evaluates now plugin_id request) k v c h =
      evaluate_keeps now s plugin_id request k v h
  step_keeps s (asks now plugin_id request) k v c h = evaluate_keeps now s plugin_id request k v h
  step_keeps s clears k v c h = absurd c
  step_keeps s (store_becomes p) k v c h = h

  run_keeps :
      (s : PolicyEvaluator J P) (xs : List (Event J P)) (k : CacheKey J) (v : EvaluationResult)
      → All IsNotClear xs
      → get k s.evaluation_cache ≡ some v
      → get k (run s xs).evaluation_cache ≡ some v
  unfolding run
  run_keeps s [] k v c h = h
  run_keeps s (x ∷ xs) k v c h = run_keeps (step s x) xs k v c.1 (step_keeps s x k v c.0 h)

  -- An answer sticks: until the cache is cleared, every request of the plugin that is equal to an
  -- answered one, be its path spelt in another way, gets the result of the first evaluation, with no
  -- matched rule, whatever the time, and however the store changes in between.
  pub evaluate_sticks :
      (now later : ℕ) (s : PolicyEvaluator J P) (plugin_id : ℕ) (request again : AccessRequest J)
      (v : Evaluation J) (xs : List (Event J P))
      → (evaluate store now s plugin_id request).0 ≡ ok v
      → All IsNotClear xs
      → request_eq request again ≡ true
      → let t = run (step s (evaluates now plugin_id request)) xs in
        (w : Evaluation J) × (evaluate store later t plugin_id again ≡ (ok w, t))
        × (w.result ≡ v.result)
        × (w.matched_rule ≡ none)
  evaluate_sticks now later s plugin_id request again v xs h calm same =
      let t = run (step s (evaluates now plugin_id request)) xs in
      let kept_answer =
        run_keeps (step s (evaluates now plugin_id request)) xs (plugin_id, request) v.result calm
          (unfold step in evaluate_caches now s plugin_id request v h) in
      let equal : key_eq (plugin_id, request) (plugin_id, again) ≡ true =
        ground (arith, same, ==_iff plugin_id plugin_id) in
      evaluate_hit later t plugin_id again v.result (
        sym (get_congr (plugin_id, request) (plugin_id, again) t.evaluation_cache equal)
        ∙ kept_answer)
