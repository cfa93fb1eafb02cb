-- ===== src/Policy/Request.antt =====
-- lion/lion_core/src/types/access.rs: the access requests that policies judge, and the matching of
-- file paths by `Path::starts_with`, which compares whole components.
-- The `params` of a custom request are a JSON value of a library: its type is a parameter, with its
-- equality test. Two paths are equal if their components are, as `PathBuf` compares them.
use liongate.Base.{
  ℕ, Bool, true, false, ◌&&◌, ◌≡◌, refl, ap, ◌↔◌, List, [], ◌∷◌, arith, ◌==◌, ==_iff, if◌then◌else◌,
  filter, not,
}
use liongate.Base.EquivMap.{Equiv, beq_congr}
use liongate.Base.Eq.{text_Eq}
use liongate.Base.Text.{Text, text_eq, text_eq_iff, text_eq_refl, has_prefix, codes}

pub data AccessRequest (J : Type 0) : Type 0 where
  file : (path : Text) (read write execute : Bool) → AccessRequest J
  network : (host : Text) (port : ℕ) (connect listen : Bool) → AccessRequest J
  plugin_call : (plugin_id function : Text) → AccessRequest J
  memory : (region_id : Text) (read write : Bool) → AccessRequest J
  message : (recipient topic : Text) → AccessRequest J
  custom : (resource_type operation : Text) (params : J) → AccessRequest J

abbrev bool_eq : Bool → Bool → Bool
bool_eq true b = b
bool_eq false b = not b

-- The pieces between the slashes of a path.
abbrev push_front : ℕ → List Text → List Text
push_front c [] = (c ∷ []) ∷ []
push_front c (s ∷ ss) = (c ∷ s) ∷ ss

segments : Text → List Text
segments [] = [] ∷ []
segments (c ∷ cs) = let rest = segments cs in if c == b'/' then [] ∷ rest else push_front c rest

-- Empty pieces and "." are skipped.
abbrev is_named : Text → Bool
is_named s = not (text_eq s []) && not (text_eq s (codes "."))

abbrev relative_components : List Text → List Text
relative_components [] = []
relative_components (s ∷ ss) =
    if text_eq s (codes ".") then s ∷ filter is_named ss else filter is_named (s ∷ ss)

-- `Path::components`: the root is "/", and "." counts only at the start of a relative path.
pub components : Text → List Text
unfolding segments
components path =
    if has_prefix (codes "/") path
    then codes "/" ∷ filter is_named (segments path)
    else relative_components (segments path)

texts_eq : List Text → List Text → Bool
texts_eq [] [] = true
texts_eq (x ∷ xs) (y ∷ ys) = text_eq x y && texts_eq xs ys
texts_eq _ _ = false

texts_eq_iff : (xs ys : List Text) → (texts_eq xs ys ≡ true) ↔ (xs ≡ ys)
unfolding texts_eq
texts_eq_iff [] [] = (λ h. refl, λ h. refl)
texts_eq_iff [] (y ∷ ys) = (λ h. cc, λ h. cc)
texts_eq_iff (x ∷ xs) [] = (λ h. cc, λ h. cc)
texts_eq_iff (x ∷ xs) (y ∷ ys) = ground (arith, text_eq_iff x y, texts_eq_iff xs ys)

-- The `PartialEq` of `PathBuf`.
unfoldable pub path_eq : Text → Text → Bool
unfolding components texts_eq
path_eq p q = texts_eq (components p) (components q)

path_eq_iff : (p q : Text) → (path_eq p q ≡ true) ↔ (components p ≡ components q)
unfolding path_eq
path_eq_iff p q = texts_eq_iff (components p) (components q)

path_eq_refl : (p : Text) → path_eq p p ≡ true
path_eq_refl p = (path_eq_iff p p).1 refl

path_eq_congr : (p q r : Text) → path_eq p q ≡ true → path_eq p r ≡ path_eq q r
unfolding path_eq
path_eq_congr p q r h = ap (λ xs. texts_eq xs (components r)) ((path_eq_iff p q).0 h)

path_eq_sym : (p q : Text) → path_eq p q ≡ path_eq q p
path_eq_sym p q =
    ground (arith, path_eq_congr p q p, path_eq_congr q p q, path_eq_refl p, path_eq_refl q)

-- The derived `PartialEq`.
unfoldable pub request_eq : {J : Type 0} ⦃e : Equiv J⦄ → AccessRequest J → AccessRequest J → Bool
request_eq (file p r w x) (file p' r' w' x') =
    path_eq p p' && bool_eq r r' && bool_eq w w' && bool_eq x x'
request_eq (network h p c l) (network h' p' c' l') =
    text_eq h h' && p == p' && bool_eq c c' && bool_eq l l'
request_eq (plugin_call p f) (plugin_call p' f') = text_eq p p' && text_eq f f'
request_eq (memory r a b) (memory r' a' b') = text_eq r r' && bool_eq a a' && bool_eq b b'
request_eq (message r t) (message r' t') = text_eq r r' && text_eq t t'
request_eq ⦃e⦄ (custom t o p) (custom t' o' p') = text_eq t t' && text_eq o o' && e.same p p'
request_eq _ _ = false

module _ {J : Type 0} ⦃e : Equiv J⦄ where
  request_eq_refl : (a : AccessRequest J) → request_eq a a ≡ true
  unfolding request_eq
  request_eq_refl (file p r w x) = ground (arith, path_eq_refl p)
  request_eq_refl (network h p c l) = ground (arith, text_eq_refl h, ==_iff p p)
  request_eq_refl (plugin_call p f) = ground (arith, text_eq_refl p, text_eq_refl f)
  request_eq_refl (memory r a b) = ground (arith, text_eq_refl r)
  request_eq_refl (message r t) = ground (arith, text_eq_refl r, text_eq_refl t)
  request_eq_refl (custom t o p) = ground (arith, text_eq_refl t, text_eq_refl o, e.same_refl p)

  -- What is equal to one of two equal requests is equal to the other.
  request_eq_congr :
      (a b c : AccessRequest J) → request_eq a b ≡ true → request_eq a c ≡ request_eq b c
  unfolding request_eq
  request_eq_congr (file p r w x) (file p' r' w' x') (file p'' r'' w'' x'') h =
      ground (arith, path_eq_congr p p' p'')
  request_eq_congr (network h p c l) (network h' p' c' l') (network h'' p'' c'' l'') k =
      ground (arith, beq_congr text_Eq h h' h'', ==_iff p p')
  request_eq_congr (plugin_call p f) (plugin_call p' f') (plugin_call p'' f'') h =
      ground (arith, beq_congr text_Eq p p' p'', beq_congr text_Eq f f' f'')
  request_eq_congr (memory r a b) (memory r' a' b') (memory r'' a'' b'') h =
      ground (arith, beq_congr text_Eq r r' r'')
  request_eq_congr (message r t) (message r' t') (message r'' t'') h =
      ground (arith, beq_congr text_Eq r r' r'', beq_congr text_Eq t t' t'')
  request_eq_congr (custom t o p) (custom t' o' p') (custom t'' o'' p'') h =
      ground (arith, beq_congr text_Eq t t' t'', beq_congr text_Eq o o' o'', e.same_congr p p' p'')
  request_eq_congr _ _ _ h = cc

  request_eq_sym : (a b : AccessRequest J) → request_eq a b ≡ request_eq b a
  request_eq_sym a b =
      ground (
        arith,
        request_eq_congr a b a,
        request_eq_congr b a b,
        request_eq_refl a,
        request_eq_refl b,
      )

-- The key of the evaluation cache.
abbrev pub CacheKey : Type 0 → Type 0
CacheKey J = ℕ × AccessRequest J

module _ {J : Type 0} ⦃e : Equiv J⦄ where
  abbrev pub key_eq : CacheKey J → CacheKey J → Bool
  key_eq (p, r) (q, s) = p == q && request_eq r s

  pub key_eq_refl : (a : CacheKey J) → key_eq a a ≡ true
  key_eq_refl (p, r) = ground (arith, ==_iff p p, request_eq_refl r)

  pub key_eq_sym : (a b : CacheKey J) → key_eq a b ≡ key_eq b a
  key_eq_sym (p, r) (q, s) = ground (arith, ==_iff p q, ==_iff q p, request_eq_sym r s)

  pub key_eq_congr : (a b c : CacheKey J) → key_eq a b ≡ true → key_eq a c ≡ key_eq b c
  key_eq_congr (p, r) (q, s) (o, t) h =
      ground (arith, h, ==_iff p q, ap (λ n. n == o) {x = p} {y = q}, request_eq_congr r s t)

  instance abbrev pub key_Equiv : Equiv (CacheKey J)
  key_Equiv = record {
    same = key_eq;
    same_refl = key_eq_refl;
    same_sym = key_eq_sym;
    same_congr = key_eq_congr;
  }

pub is_prefix : List Text → List Text → Bool
is_prefix [] ys = true
is_prefix (x ∷ xs) [] = false
is_prefix (x ∷ xs) (y ∷ ys) = text_eq x y && is_prefix xs ys

-- `path.starts_with(base)` on paths; the base comes first.
unfoldable pub path_starts_with : Text → Text → Bool
unfolding components is_prefix
path_starts_with base path = is_prefix (components base) (components path)

components_test :
    components (codes "/a//b/./c/") ≡ codes "/" ∷ codes "a" ∷ codes "b" ∷ codes "c" ∷ []
unfolding components has_prefix text_eq
components_test = refl

siblings_test : path_starts_with (codes "/tmp") (codes "/tmp_other/x") ≡ false
unfolding path_starts_with has_prefix text_eq
siblings_test = refl

spelling_test : path_eq (codes "/docs//./a") (codes "/docs/a") ≡ true
unfolding path_eq components texts_eq has_prefix text_eq
spelling_test = refl
