-- ===== src/Capability/PluginCall/Join.antt =====
-- The join of two plugin-call capabilities allows the calls that one of them allows, and a
-- constraint leaves the one call that it names.
use liongate.Base.{
  ℕ, Bool, true, Option, some, List, [], ◌∷◌, ◌≡◌, refl, ap, arith, inl, inr, Option-cases, ◌&&◌,
  ◌||◌, ◌==◌, ==_iff, is_ok_and, is_some_and,
}
use liongate.Base.Eq.{nat_Eq, text_Eq}
use liongate.Base.HashMap
use liongate.Base.HashMap.{HashMap, get-insert, IsUnique}
use liongate.Base.HashSet
use liongate.Base.HashSet.{contains-insert}
use liongate.Base.Text.{Text}
use liongate.Capability.PluginCall.{
  PluginCallCapability, with_plugin, functions_of, allows_all, is_call_allowed, extend,
  merge_functions, merge_flags, join, apply_plugin_call_constraint,
}
use liongate.Capability.PluginCall.Calls.{IsClosed}

contains-extend :
    (g : Text) (s fs : List Text)
    → HashSet.contains g (extend s fs) ≡ (HashSet.contains g s || HashSet.contains g fs)
unfolding extend
contains-extend g s [] = ground arith
contains-extend g s (f ∷ fs) =
    ground (arith, contains-extend g (HashSet.insert f s) fs, contains-insert g f s)

contains_key-merge :
    (q : ℕ) (m others : HashMap ℕ (List Text))
    → HashMap.contains_key q (merge_functions m others)
      ≡ (HashMap.contains_key q m || HashMap.contains_key q others)
unfolding merge_functions HashMap.get
contains_key-merge q m [] = ground arith
contains_key-merge q m ((p, fs) ∷ others) = ground (
  arith,
  ==_iff p q,
  get-insert q p (extend (functions_of p m) fs) m,
  contains_key-merge q (HashMap.insert p (extend (functions_of p m) fs) m) others,
)

functions-merge :
    (q : ℕ) (g : Text) (m others : HashMap ℕ (List Text))
    → IsUnique others
    → HashSet.contains g (functions_of q (merge_functions m others))
      ≡ (HashSet.contains g (functions_of q m) || HashSet.contains g (functions_of q others))
unfolding merge_functions functions_of HashMap.get
functions-merge q g m [] u = ground arith
functions-merge q g m ((p, fs) ∷ others) u = ground (
  arith,
  ==_iff p q,
  u.0,
  ap (λ k. HashMap.get k others) {x = p} {y = q},
  get-insert q p (extend (functions_of p m) fs) m,
  contains-extend g (functions_of p m) fs,
  functions-merge q g (HashMap.insert p (extend (functions_of p m) fs) m) others u.1,
)

flags-merge :
    (q : ℕ) (m others : HashMap ℕ Bool)
    → IsUnique others
    → allows_all q (merge_flags m others) ≡ (allows_all q m || allows_all q others)
unfolding merge_flags allows_all HashMap.get
flags-merge q m [] u = ground arith
flags-merge q m ((p, allow) ∷ others) u = ground (
  arith,
  ==_iff p q,
  u.0,
  ap (λ k. HashMap.get k others) {x = p} {y = q},
  get-insert q p (allows_all p m || allow) m,
  flags-merge q (HashMap.insert p (allows_all p m || allow) m) others u.1,
)

functions_listed :
    (q : ℕ) (g : Text) (m : HashMap ℕ (List Text))
    → HashSet.contains g (functions_of q m) ≡ true
    → HashMap.contains_key q m ≡ true
unfolding functions_of
functions_listed q g m h = ground arith

-- A call is allowed where its plugin is listed, with all functions or with this one.
allowed_by_parts :
    (c : PluginCallCapability) (q : ℕ) (g : Text)
    → is_call_allowed c q g ≡ (
        HashMap.contains_key q c.plugin_functions
        && (allows_all q c.allow_all_functions
            || HashSet.contains g (functions_of q c.plugin_functions)))
unfolding is_call_allowed functions_of
allowed_by_parts c q g = ground arith

-- Where flags are only set for listed plugins, and the second capability lists a plugin once in
-- each map, the join of two plugin-call capabilities allows exactly the calls that one of them
-- allows.
pub plugin_join_exact :
    (c d : PluginCallCapability)
    → IsClosed c
    → IsClosed d
    → IsUnique d.plugin_functions
    → IsUnique d.allow_all_functions
    → (q : ℕ) (g : Text)
    → is_ok_and (λ j. is_call_allowed j q g) (join c (some d))
      ≡ (is_call_allowed c q g || is_call_allowed d q g)
unfolding join
plugin_join_exact c d closed closed' u v q g =
    let functions = merge_functions c.plugin_functions d.plugin_functions in
    let flags = merge_flags c.allow_all_functions d.allow_all_functions in
    ground (
      arith,
      allowed_by_parts (record { plugin_functions = functions; allow_all_functions = flags }) q g,
      allowed_by_parts c q g,
      allowed_by_parts d q g,
      functions_listed q g c.plugin_functions,
      functions_listed q g d.plugin_functions,
      closed q,
      closed' q,
      contains_key-merge q c.plugin_functions d.plugin_functions,
      functions-merge q g c.plugin_functions d.plugin_functions u,
      flags-merge q c.allow_all_functions d.allow_all_functions v,
    )

-- After a constraint exactly the call that it names is allowed, if it was allowed before; otherwise
-- there is no capability.
pub plugin_constraint_exact :
    (parse_id : Text → Option ℕ) (c : PluginCallCapability) (id f : Text) (q : ℕ) (g : Text)
    → is_ok_and (λ d. is_call_allowed d q g) (apply_plugin_call_constraint parse_id c id f)
      ≡ (is_some_and (λ i. i == q) (parse_id id) && text_Eq.beq f g && is_call_allowed c q g)
unfolding apply_plugin_call_constraint is_call_allowed with_plugin allows_all HashMap.get
plugin_constraint_exact parse_id c id f q g = elim (Option-cases (parse_id id)) [
  | inl e ↦ rw (apply_plugin_call_constraint, e) refl
  | inr (i, e) ↦
      rw (apply_plugin_call_constraint, e)
        (ground (
          arith,
          ==_iff i q,
          ap (λ p. is_call_allowed c p g) {x = i} {y = q},
          text_Eq.beq_iff f g,
          ap (λ t. is_call_allowed c i t) {x = f} {y = g},
        ))
]
