-- ===== src/Capability/File/Patterns.antt =====
-- What the wildcard patterns of `path_matches` let through.
use liongate.Base.{true, false, ◌≡◌, ◌∙◌, [], ◌∷◌, ◌++◌, ok, arith}
use liongate.Base.Text.{Text, has_prefix, has_prefix-append, has_prefix-cancel, strip_suffix-append}
use liongate.Capability.{file_path, AccessRequest, file, path_matches, wildcard}
use liongate.Capability.File.{
  FileOperations, FileCapability, path_allowed, apply_path_constraint, apply_constraint, constrain,
}
use liongate.Capability.File.Attenuation.{Permits, Permits-iff}

pub path_matches-wildcard : (q path : Text) → path_matches (q ++ wildcard) path ≡ has_prefix q path
unfolding path_matches
path_matches-wildcard q path = rw (strip_suffix-append q wildcard, path_matches)

-- A pattern "q/*" matches every path that begins with the characters of q, whether or not a "/"
-- follows them: siblings of the directory q are matched as well as what it holds.
pub wildcard_matches_siblings : (q s : Text) → path_matches (q ++ wildcard) (q ++ s) ≡ true
wildcard_matches_siblings q s = rw (path_matches-wildcard q (q ++ s)) (has_prefix-append q s)

abbrev pub one_path : Text → FileOperations → FileCapability
one_path path o = record { paths = path ∷ []; operations = o }

abbrev pub whole_request : Text → FileOperations → AccessRequest
whole_request path o = file path o.read o.write o.execute

-- The pattern "q//*".
abbrev pub below_slash : Text → Text
below_slash q = (q ++ b'/' ∷ []) ++ wildcard

allowed_one :
    (p path : Text) (o : FileOperations) → path_allowed (one_path p o) path ≡ path_matches p path
unfolding path_allowed
allowed_one p path o = ground arith

allowed_below :
    (q s : Text) (o : FileOperations)
    → path_allowed (one_path (below_slash q) o) (q ++ s) ≡ has_prefix (b'/' ∷ []) s
allowed_below q s o =
    allowed_one (below_slash q) (q ++ s) o
    ∙ path_matches-wildcard (q ++ b'/' ∷ []) (q ++ s)
    ∙ has_prefix-cancel q (b'/' ∷ []) s

allowed_slash :
    (q : Text) (o : FileOperations)
    → path_allowed (one_path (below_slash q) o) (q ++ wildcard) ≡ true
unfolding has_prefix
allowed_slash q o = allowed_below q wildcard o

-- Constraining by a path that is itself a wildcard can add permissions: from a capability for
-- "q//*" the constraint to "q/*" makes one that grants every path that begins with q, as q ++ u, and
-- of these the first capability refuses each q ++ s where s does not begin with "/".
pub constrain_escalates :
    (q s u : Text) (o : FileOperations)
    → has_prefix (b'/' ∷ []) s ≡ false
    → (constrain (one_path (below_slash q) o) (file_path (q ++ wildcard) ∷ [])
        ≡ ok (one_path (q ++ wildcard) o))
      × Permits (one_path (q ++ wildcard) o) (whole_request (q ++ u) o)
      × ¬ Permits (one_path (below_slash q) o) (whole_request (q ++ s) o)
unfolding constrain apply_constraint apply_path_constraint
constrain_escalates q s u o h = (
  ground (arith, allowed_slash q o),
  (Permits-iff _ (q ++ u) o.read o.write o.execute).1 (
    allowed_one (q ++ wildcard) (q ++ u) o ∙ wildcard_matches_siblings q u,
    ground arith,
    ground arith,
    ground arith,
  ),
  λ k. cc (((Permits-iff _ (q ++ s) o.read o.write o.execute).0 k).0, allowed_below q s o),
)
