-- ===== src/Capability/PluginCall/Meet.antt =====
-- The meet of two plugin-call capabilities allows the calls that both allow, and `leq` is sound.
use liongate.Base.{
  ℕ, Bool, true, false, some, List, [], ◌∷◌, ◌≡◌, refl, ap, inl, inr, arith, ◌∈◌, Memᴰ, any,
  any-intro, all, all-elim, ==_refl, is_ok_and, Bool-cases, is_empty, ◌&&◌, ◌||◌, ◌==◌, ==_iff,
  if_both, not,
}
use liongate.Base.Eq.{nat_Eq, text_Eq}
use liongate.Base.HashMap
use liongate.Base.HashMap.{get-keys, keys-get, get-is_empty}
use liongate.Base.HashSet
use liongate.Base.HashSet.{contains-mem}
use liongate.Base.Text.{Text}
use liongate.Capability.PluginCall.{
  PluginCallCapability, new, functions_of, allows_all, add_function, is_call_allowed, plugin_leq,
  leq, add_functions, meet_plugin, meet_plugins, meet,
}
use liongate.Capability.PluginCall.Calls.{
  IsClosed, allowed-add_function, add_function-IsClosed, allowed-set_all, set_all-IsClosed,
}

add_functions-IsClosed :
    (p : ℕ) (keep : Text → Bool) (fs : List Text) (c : PluginCallCapability)
    → IsClosed c
    → IsClosed (add_functions p keep fs c)
unfolding add_functions
add_functions-IsClosed p keep [] c closed = closed
add_functions-IsClosed p keep (f ∷ fs) c closed =
    add_functions-IsClosed p keep fs _
      (if_both IsClosed (keep f) (add_function-IsClosed c p f closed) closed)

allowed-add_functions :
    (p : ℕ) (keep : Text → Bool) (fs : List Text) (c : PluginCallCapability) (q : ℕ) (g : Text)
    → IsClosed c
    → is_call_allowed (add_functions p keep fs c) q g
      ≡ (is_call_allowed c q g || (p == q && keep g && HashSet.contains g fs))
unfolding add_functions
allowed-add_functions p keep [] c q g closed = ground arith
allowed-add_functions p keep (f ∷ fs) c q g closed = elim (Bool-cases (keep f)) [
  | inl e ↦ ground (
    arith,
    e,
    text_Eq.beq_iff f g,
    ap keep {x = f} {y = g},
    allowed-add_function c p q f g closed,
    allowed-add_functions p keep fs (add_function p f c) q g (add_function-IsClosed c p f closed),
  )
  | inr e ↦ ground (
    arith,
    e,
    text_Eq.beq_iff f g,
    ap keep {x = f} {y = g},
    allowed-add_functions p keep fs c q g closed,
  )
]

meet_plugin-IsClosed :
    (c d : PluginCallCapability) (p : ℕ) (r : PluginCallCapability)
    → IsClosed r
    → IsClosed (meet_plugin c d p r)
unfolding meet_plugin
meet_plugin-IsClosed c d p r closed =
    if_both IsClosed (not (HashMap.contains_key p d.plugin_functions)) closed (
      if_both IsClosed (allows_all p c.allow_all_functions && allows_all p d.allow_all_functions)
        (set_all-IsClosed r p closed)
        (if_both IsClosed (allows_all p c.allow_all_functions)
          (add_functions-IsClosed p _ _ r closed)
          (if_both IsClosed (allows_all p d.allow_all_functions)
            (add_functions-IsClosed p _ _ r closed) (add_functions-IsClosed p _ _ r closed))))

allowed-meet_plugin :
    (c d : PluginCallCapability) (p : ℕ) (r : PluginCallCapability) (q : ℕ) (g : Text)
    → IsClosed r
    → HashMap.contains_key p c.plugin_functions ≡ true
    → is_call_allowed (meet_plugin c d p r) q g
      ≡ (is_call_allowed r q g || (p == q && is_call_allowed c q g && is_call_allowed d q g))
unfolding meet_plugin is_call_allowed functions_of
allowed-meet_plugin c d p r q g closed listed = ground (
  arith,
  ==_iff p q,
  listed,
  allowed-set_all r p q g,
  allowed-add_functions p (λ _. true) (functions_of p d.plugin_functions) r q g closed,
  allowed-add_functions p (λ _. true) (functions_of p c.plugin_functions) r q g closed,
  allowed-add_functions p (λ f. HashSet.contains f (functions_of p d.plugin_functions))
      (functions_of p c.plugin_functions) r q g closed,
)

allowed-meet_plugins :
    (c d : PluginCallCapability) (ids : List ℕ) (r : PluginCallCapability) (q : ℕ) (g : Text)
    → IsClosed r
    → ((p : ℕ) → p ∈ ids → HashMap.contains_key p c.plugin_functions ≡ true)
    → is_call_allowed (meet_plugins c d ids r) q g ≡ (
        is_call_allowed r q g
        || (any (λ p. p == q) ids && is_call_allowed c q g && is_call_allowed d q g))
unfolding meet_plugins
allowed-meet_plugins c d [] r q g closed listed = ground arith
allowed-meet_plugins c d (p ∷ ids) r q g closed listed = ground (
  arith,
  allowed-meet_plugin c d p r q g closed (listed p (Memᴰ.head refl)),
  allowed-meet_plugins c d ids (meet_plugin c d p r) q g (meet_plugin-IsClosed c d p r closed)
      (λ x m. listed x (Memᴰ.tail m)),
)

new-IsClosed : IsClosed new
unfolding allows_all HashMap.get
new-IsClosed p h = cc

allowed-keys :
    (c : PluginCallCapability) (q : ℕ) (g : Text)
    → is_call_allowed c q g ≡ true
    → any (λ p. p == q) (HashMap.keys c.plugin_functions) ≡ true
unfolding is_call_allowed
allowed-keys c q g h =
    any-intro (λ p. p == q) (get-keys q c.plugin_functions (ground (arith, h))) (==_refl q)

allowed-empty :
    (c : PluginCallCapability) (q : ℕ) (g : Text)
    → is_empty c.plugin_functions ≡ true
    → is_call_allowed c q g ≡ false
unfolding is_call_allowed
allowed-empty c q g h = rw (is_call_allowed, get-is_empty q c.plugin_functions h)

-- The meet of two plugin-call capabilities, if there is one, allows exactly the calls that both
-- allow; there is none only if no call is allowed by both.
pub plugin_meet_exact :
    (c d : PluginCallCapability) (q : ℕ) (g : Text)
    → is_ok_and (λ m. is_call_allowed m q g) (meet c (some d))
      ≡ (is_call_allowed c q g && is_call_allowed d q g)
unfolding meet
plugin_meet_exact c d q g =
    let ids = HashMap.keys c.plugin_functions in
    ground (
      arith,
      allowed-meet_plugins c d ids new q g new-IsClosed (λ p m. keys-get p c.plugin_functions m),
      allowed-empty (meet_plugins c d ids new) q g,
      allowed-empty new q g refl,
      allowed-keys c q g,
    )

functions_below :
    (fs gs : List Text) (g : Text)
    → all (λ f. HashSet.contains f gs) fs ≡ true
    → HashSet.contains g fs ≡ true
    → HashSet.contains g gs ≡ true
functions_below fs gs g h k = all-elim (λ f. HashSet.contains f gs) h (contains-mem g fs k)

leq_step :
    (c d : PluginCallCapability) (q : ℕ) (g : Text)
    → plugin_leq c d q ≡ true
    → is_call_allowed c q g ≡ true
    → is_call_allowed d q g ≡ true
unfolding plugin_leq is_call_allowed functions_of
leq_step c d q g h k = ground (
  arith,
  functions_below (functions_of q c.plugin_functions) (functions_of q d.plugin_functions) g,
)

-- If one plugin-call capability is leq another, the other allows every call that it allows.
pub plugin_leq_sound :
    (c d : PluginCallCapability)
    → leq c (some d) ≡ true
    → (q : ℕ) (g : Text) → is_call_allowed c q g ≡ true
    → is_call_allowed d q g ≡ true
unfolding leq is_call_allowed
plugin_leq_sound c d h q g k =
    leq_step c d q g
      (all-elim (plugin_leq c d) h (get-keys q c.plugin_functions (ground (arith, k)))) k
