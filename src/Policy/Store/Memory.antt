-- ===== src/Policy/Store/Memory.antt =====
-- lion/lion_policy/src/store/in_memory.rs.
use liongate.Base.{
  ℕ, Bool, true, not, ◌≡◌, refl, none, some, List, [], Result, ok, err, arith, is_some,
  if◌then◌else◌, filter, is_none,
}
use liongate.Base.Eq.{text_Eq}
use liongate.Base.HashMap
use liongate.Base.HashMap.{HashMap, get, insert, remove, get-insert, get-remove}
use liongate.Base.Text.{Text, text_eq}
use liongate.Policy.Rule.{PolicyRule, is_expired}
use liongate.Policy.Store.{PolicyError, PolicyStore, rule_not_found, conflict}

pub record InMemoryPolicyStore : Type 0 where
  pub rules : HashMap Text PolicyRule

abbrev pub empty : InMemoryPolicyStore
empty = record { rules = [] }

-- A method that fails leaves the store as it was.
unfoldable pub add_rule : InMemoryPolicyStore → PolicyRule → Result PolicyError InMemoryPolicyStore
add_rule s rule =
    if is_some (get rule.id s.rules)
    then err conflict
    else ok (record { rules = insert rule.id rule s.rules })

abbrev unless_expired : ℕ → PolicyRule → Result PolicyError PolicyRule
unless_expired now rule = if is_expired now rule then err rule_not_found else ok rule

pub get_rule : ℕ → InMemoryPolicyStore → Text → Result PolicyError PolicyRule
get_rule now s rule_id = elim (get rule_id s.rules) [
  | none ↦ err rule_not_found
  | some rule ↦ unless_expired now rule
]

unfoldable pub update_rule :
    ℕ → InMemoryPolicyStore → PolicyRule → Result PolicyError InMemoryPolicyStore
update_rule now s rule =
    if not (is_some (get rule.id s.rules))
    then err rule_not_found
    else ok (record { rules = insert rule.id (record rule { updated_at = now }) s.rules })

unfoldable pub remove_rule : InMemoryPolicyStore → Text → Result PolicyError InMemoryPolicyStore
remove_rule s rule_id =
    if is_none (get rule_id s.rules)
    then err rule_not_found
    else ok (record { rules = remove rule_id s.rules })

unfoldable pub list_rules : InMemoryPolicyStore → List PolicyRule
list_rules s = HashMap.values s.rules

unfoldable pub list_rules_matching :
    InMemoryPolicyStore → (PolicyRule → Bool) → Result PolicyError (List PolicyRule)
list_rules_matching s matcher = ok (filter matcher (HashMap.values s.rules))

pub clear_rules : InMemoryPolicyStore → InMemoryPolicyStore
clear_rules s = record { rules = [] }

pub list_rules_matching_lem :
    (s : InMemoryPolicyStore) (matcher : PolicyRule → Bool)
    → list_rules_matching s matcher ≡ ok (filter matcher (list_rules s))
unfolding list_rules_matching list_rules
list_rules_matching_lem s matcher = refl

-- The store in memory is a policy store.
unfoldable pub in_memory : PolicyStore InMemoryPolicyStore
unfolding list_rules
in_memory = record {
  rules = list_rules;
  list_rules_matching = list_rules_matching;
  list_rules_matching-eq = list_rules_matching_lem;
}

-- A rule is added only where its id is free. Afterwards a look-up of the id finds the rule,
-- unless it has expired, and every other look-up is as before.
pub get_rule-add_rule :
    (s t : InMemoryPolicyStore) (rule : PolicyRule) (now : ℕ) (rule_id : Text)
    → add_rule s rule ≡ ok t
    → (get rule.id s.rules ≡ none)
      × (get_rule now t rule_id ≡ (
          if text_eq rule.id rule_id
          then (if is_expired now rule then err rule_not_found else ok rule)
          else get_rule now s rule_id))
unfolding add_rule get_rule
get_rule-add_rule s t rule now rule_id h =
    (ground arith, ground (arith, get-insert rule_id rule.id rule s.rules))

-- Removing a rule that is there makes look-ups of its id fail and leaves every other look-up.
pub get_rule-remove_rule :
    (s t : InMemoryPolicyStore) (now : ℕ) (rule_id other : Text)
    → remove_rule s rule_id ≡ ok t
    → get_rule now t other
      ≡ (if text_eq rule_id other then err rule_not_found else get_rule now s other)
unfolding remove_rule get_rule
get_rule-remove_rule s t now rule_id other h = ground (arith, get-remove other rule_id s.rules)

-- An update succeeds only where the id is there. Afterwards a look-up of the id finds the new rule,
-- stamped with the time of the update, unless it has expired, and every other look-up is as before.
pub get_rule-update_rule :
    (s t : InMemoryPolicyStore) (rule : PolicyRule) (now later : ℕ) (rule_id : Text)
    → update_rule now s rule ≡ ok t
    → (is_some (get rule.id s.rules) ≡ true)
      × (get_rule later t rule_id ≡ (
          if text_eq rule.id rule_id
          then (if is_expired later rule
              then err rule_not_found
              else ok (record rule { updated_at = now }))
          else get_rule later s rule_id))
unfolding update_rule get_rule is_expired
get_rule-update_rule s t rule now later rule_id h = (
  ground arith,
  ground (arith, get-insert rule_id rule.id (record rule { updated_at = now }) s.rules),
)
