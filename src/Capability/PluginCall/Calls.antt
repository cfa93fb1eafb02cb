-- ===== src/Capability/PluginCall/Calls.antt =====
-- The calls that a plugin-call capability allows after a function or a flag is added.
use liongate.Base.{ℕ, true, ◌≡◌, arith, ◌&&◌, ◌||◌, ◌==◌, ==_iff}
use liongate.Base.Eq.{nat_Eq, text_Eq}
use liongate.Base.HashMap
use liongate.Base.HashMap.{get-insert}
use liongate.Base.HashSet
use liongate.Base.HashSet.{contains-insert}
use liongate.Base.Text.{Text}
use liongate.Capability.PluginCall.{
  PluginCallCapability, functions_of, allows_all, add_function, set_allow_all_functions,
  is_call_allowed,
}

-- Every plugin with a flag that is set has an entry of functions.
abbrev pub IsClosed : PluginCallCapability → Type 0
IsClosed c =
    (p : ℕ)
    → allows_all p c.allow_all_functions ≡ true
    → HashMap.contains_key p c.plugin_functions ≡ true

pub allowed-add_function :
    (c : PluginCallCapability) (p q : ℕ) (f g : Text)
    → IsClosed c
    → is_call_allowed (add_function p f c) q g
      ≡ (is_call_allowed c q g || (p == q && text_Eq.beq f g))
unfolding is_call_allowed add_function allows_all functions_of
allowed-add_function c p q f g closed = ground (
  arith,
  ==_iff p q,
  closed p,
  get-insert q p (HashSet.insert f (functions_of p c.plugin_functions)) c.plugin_functions,
  get-insert q p (allows_all p c.allow_all_functions) c.allow_all_functions,
  contains-insert g f (functions_of p c.plugin_functions),
)

pub add_function-IsClosed :
    (c : PluginCallCapability) (p : ℕ) (f : Text) → IsClosed c → IsClosed (add_function p f c)
unfolding add_function allows_all
add_function-IsClosed c p f closed q h = ground (
  arith,
  ==_iff p q,
  closed p,
  closed q,
  get-insert q p (HashSet.insert f (functions_of p c.plugin_functions)) c.plugin_functions,
  get-insert q p (allows_all p c.allow_all_functions) c.allow_all_functions,
)

pub allowed-set_all :
    (c : PluginCallCapability) (p q : ℕ) (g : Text)
    → is_call_allowed (set_allow_all_functions p true c) q g ≡ (is_call_allowed c q g || (p == q))
unfolding is_call_allowed set_allow_all_functions allows_all
allowed-set_all c p q g = ground (
  arith,
  ==_iff p q,
  get-insert q p (functions_of p c.plugin_functions) c.plugin_functions,
  get-insert q p true c.allow_all_functions,
)

pub set_all-IsClosed :
    (c : PluginCallCapability) (p : ℕ) → IsClosed c → IsClosed (set_allow_all_functions p true c)
unfolding set_allow_all_functions allows_all
set_all-IsClosed c p closed q h = ground (
  arith,
  ==_iff p q,
  closed q,
  get-insert q p (functions_of p c.plugin_functions) c.plugin_functions,
  get-insert q p true c.allow_all_functions,
)
