-- ===== src/Capability/File/Attenuation.antt =====
-- What `permits` decides, and that `constrain` and `split` never add a permission.
use liongate.Base.{
  Bool, true, ◌≡◌, ◌↔◌, sym, none, List, [], ◌∷◌, ok, bind-eq-ok, ok_injective, arith, any-intro,
  any-elim, ◌∈◌, mem-map, mem-map_elim, implies, All,
}
use liongate.Base.Text.{Text, strip_suffix, text_eq_sound, text_eq_refl}
use liongate.Capability.{
  Constraint, file_path, file_operation, AccessRequest, file, path_matches, wildcard,
}
use liongate.Capability.File.{
  FileCapability, contains, path_allowed, permits, apply_path_constraint,
  apply_operation_constraint, apply_constraint, constrain, split,
}

abbrev pub Permits : FileCapability → AccessRequest → Type 0
Permits c r = permits c r ≡ ok tt

-- A file request is granted exactly when a pattern of the capability matches the path and each
-- operation asked for is one of the capability's.
pub Permits-iff :
    (c : FileCapability) (path : Text) (read write execute : Bool)
    → Permits c (file path read write execute) ↔ (
        (path_allowed c path ≡ true)
        × (implies read c.operations.read ≡ true)
        × (implies write c.operations.write ≡ true)
        × (implies execute c.operations.execute ≡ true))
unfolding permits
Permits-iff c path read write execute = (λ h. ground arith, λ h. ground arith)

-- `c` allows the paths and has the operations that `d` does.
pub record IsBelow (d c : FileCapability) : Type 0 where
  pub paths : (path : Text) → path_allowed d path ≡ true → path_allowed c path ≡ true
  pub operations : contains c.operations d.operations ≡ true

pub IsBelow-Permits :
    {d c : FileCapability} → IsBelow d c → (r : AccessRequest) → Permits d r → Permits c r
unfolding permits
IsBelow-Permits b (file path read write execute) h = ground (arith, b.operations, b.paths path)
IsBelow-Permits b _ h = cc

IsBelow-refl : (c : FileCapability) → IsBelow c c
IsBelow-refl c = record { paths = λ path h. h; operations = ground arith }

IsBelow-trans : {a b c : FileCapability} → IsBelow a b → IsBelow b c → IsBelow a c
IsBelow-trans p q = record {
  paths = λ path h. q.paths path (p.paths path h);
  operations = ground (arith, p.operations, q.operations);
}

-- A pattern that is no wildcard: it matches itself alone.
abbrev pub IsPlain : Text → Type 0
IsPlain path = strip_suffix wildcard path ≡ none

path_matches_plain : (p q : Text) → IsPlain p → path_matches p q ≡ true → q ≡ p
unfolding path_matches
path_matches_plain p q plain h = sym (text_eq_sound p q (ground arith))

abbrev pub IsPlainConstraint : Constraint → Type 0
IsPlainConstraint (file_path path) = IsPlain path
IsPlainConstraint _ = Unit

path_matches_self : (p : Text) → IsPlain p → path_matches p p ≡ true
unfolding path_matches
path_matches_self p plain = rw (path_matches, plain) (text_eq_refl p)

pub path_allowed-mem :
    (c : FileCapability) (path : Text) → path ∈ c.paths → IsPlain path → path_allowed c path ≡ true
unfolding path_allowed
path_allowed-mem c path m plain =
    any-intro (λ pattern. path_matches pattern path) m (path_matches_self path plain)

path_constraint-eq_ok :
    (c d : FileCapability) (path : Text)
    → apply_path_constraint c path ≡ ok d
    → (path_allowed c path ≡ true) × (d.paths ≡ path ∷ []) × (d.operations ≡ c.operations)
unfolding apply_path_constraint
path_constraint-eq_ok c d path h = (ground arith, ground arith, ground arith)

path_allowed_one :
    (d : FileCapability) (path q : Text)
    → IsPlain path
    → d.paths ≡ path ∷ []
    → path_allowed d q ≡ true
    → q ≡ path
unfolding path_allowed
path_allowed_one d path q plain e h = path_matches_plain path q plain (ground arith)

path_constraint-IsBelow :
    (c d : FileCapability) (path : Text)
    → IsPlain path
    → apply_path_constraint c path ≡ ok d
    → IsBelow d c
path_constraint-IsBelow c d path plain h =
    let (allowed, paths, operations) = path_constraint-eq_ok c d path h in
    record {
      paths = λ q k. rw (path_allowed_one d path q plain paths k) allowed;
      operations = ground arith;
    }

operation_constraint-IsBelow :
    (c d : FileCapability) (read write execute : Bool)
    → apply_operation_constraint c read write execute ≡ ok d
    → IsBelow d c
unfolding apply_operation_constraint path_allowed
operation_constraint-IsBelow c d read write execute h = record {
  paths = λ path k. ground arith;
  operations = ground arith;
}

apply_constraint-IsBelow :
    (c d : FileCapability) (k : Constraint)
    → IsPlainConstraint k
    → apply_constraint c k ≡ ok d
    → IsBelow d c
unfolding apply_constraint
apply_constraint-IsBelow c d (file_path path) plain h = path_constraint-IsBelow c d path plain h
apply_constraint-IsBelow c d (file_operation read write execute) plain h =
    operation_constraint-IsBelow c d read write execute h
apply_constraint-IsBelow c d _ plain h = cc

constrain-IsBelow :
    (c d : FileCapability) (ks : List Constraint)
    → All IsPlainConstraint ks
    → constrain c ks ≡ ok d
    → IsBelow d c
unfolding constrain
constrain-IsBelow c d [] plain h = rw (ok_injective h) (IsBelow-refl d)
constrain-IsBelow c d (k ∷ ks) plain h =
    let (e, first, rest) = bind-eq-ok (apply_constraint c k) (λ x. constrain x ks) h in
    IsBelow-trans (constrain-IsBelow e d ks plain.1 rest)
      (apply_constraint-IsBelow c e k plain.0 first)

-- Constraining by plain paths and by operations never adds a permission: whatever the constrained
-- capability grants, the one that it was made from grants too.
pub constrain-Permits :
    (c d : FileCapability) (ks : List Constraint)
    → All IsPlainConstraint ks
    → constrain c ks ≡ ok d
    → (r : AccessRequest) → Permits d r
    → Permits c r
constrain-Permits c d ks plain h = IsBelow-Permits (constrain-IsBelow c d ks plain h)

part-IsBelow :
    (c : FileCapability) (path : Text)
    → path ∈ c.paths
    → IsBelow (record { paths = path ∷ []; operations = c.operations }) c
unfolding path_allowed
part-IsBelow c path m = record {
  paths = λ q h. any-intro (λ pattern. path_matches pattern q) m (ground arith);
  operations = ground arith;
}

granted :
    (c : FileCapability) (r : AccessRequest)
    → Permits c r
    → (d : FileCapability) × (d ∈ split c) × Permits d r
unfolding permits path_allowed split
granted c (file path read write execute) h =
    let (p, m, k) = any-elim (λ pattern. path_matches pattern path) c.paths (ground arith) in
    (record { paths = p ∷ []; operations = c.operations }, mem-map _ m, ground arith)
granted c _ h = cc

part_granted : (c d : FileCapability) (r : AccessRequest) → d ∈ split c → Permits d r → Permits c r
unfolding split
part_granted c d r m h =
    let (path, k, e) = mem-map_elim _ c.paths m in
    IsBelow-Permits (rw e (part-IsBelow c path k)) r h

-- A request is granted by a capability exactly when one of the parts that `split` makes grants it.
pub split_exact :
    (c : FileCapability) (r : AccessRequest)
    → Permits c r ↔ ((d : FileCapability) × (d ∈ split c) × Permits d r)
split_exact c r = (granted c r, λ (d, m, h). part_granted c d r m h)
