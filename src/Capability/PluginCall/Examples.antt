-- ===== src/Capability/PluginCall/Examples.antt =====
-- Plugin-call capabilities at concrete inputs.
use liongate.Base.{
  ℕ, true, false, Option, none, some, [], ◌∷◌, ◌≡◌, arith, is_ok_and, ◌&&◌, ◌||◌, refl,
  if◌then◌else◌,
}
use liongate.Base.Eq.{nat_Eq, text_Eq}
use liongate.Base.HashMap
use liongate.Base.Text.{Text, codes, text_eq}
use liongate.Capability.PluginCall.{PluginCallCapability, is_call_allowed, allows_all, join, meet}
use liongate.Capability.PluginCall.Calls.{IsClosed}
use liongate.Capability.PluginCall.Join.{plugin_join_exact}
use liongate.Capability.PluginCall.Meet.{plugin_meet_exact}

abbrev one_call : PluginCallCapability
one_call = record {
  plugin_functions = (7, codes "run" ∷ []) ∷ [];
  allow_all_functions = (7, false) ∷ [];
}

abbrev every_call : PluginCallCapability
every_call = record { plugin_functions = (7, []) ∷ []; allow_all_functions = (7, true) ∷ [] }

abbrev parse_id : Text → Option ℕ
parse_id text = if text_eq text (codes "seven") then some 7 else none

one_call-IsClosed : IsClosed one_call
unfolding allows_all HashMap.get
one_call-IsClosed p h = ground (arith, h)

every_call-IsClosed : IsClosed every_call
unfolding allows_all HashMap.get
every_call-IsClosed p h = ground (arith, h)

plugin_join_exact_example :
    is_ok_and (λ j. is_call_allowed j 7 (codes "stop")) (join one_call (some every_call))
    ≡ (is_call_allowed one_call 7 (codes "stop") || is_call_allowed every_call 7 (codes "stop"))
unfolding HashMap.get
plugin_join_exact_example =
    plugin_join_exact one_call every_call one_call-IsClosed every_call-IsClosed (refl, tt)
      (refl, tt) 7 (codes "stop")

plugin_meet_exact_example :
    is_ok_and (λ m. is_call_allowed m 7 (codes "run")) (meet one_call (some every_call))
    ≡ (is_call_allowed one_call 7 (codes "run") && is_call_allowed every_call 7 (codes "run"))
plugin_meet_exact_example = plugin_meet_exact one_call every_call 7 (codes "run")
