-- ===== src/Capability/File/Examples.antt =====
-- The properties of file capabilities at concrete capabilities, and tests.
use liongate.Base.{true, false, ◌≡◌, refl, ◌↔◌, ◌||◌, ◌++◌, some, List, [], ◌∷◌, ok, err, implies}
use liongate.Base.Text.{codes, text_eq, has_prefix, strip_suffix}
use liongate.Base.TextSet.{extend, intersection}
use liongate.Capability.{
  file_path, file_operation, Constraint, file, path_matches, wildcard, access_denied,
}
use liongate.Capability.File.{
  FileOperations, FileCapability, path_allowed, permits, constrain, join, meet, leq, bits,
  apply_constraint, apply_path_constraint, apply_operation_constraint,
}
use liongate.Capability.File.Attenuation.{Permits, constrain-Permits}
use liongate.Capability.File.Order.{join_exact, meet-Permits}
use liongate.Capability.File.Patterns.{constrain_escalates, one_path, whole_request, below_slash}

abbrev read_only : FileOperations
read_only = record { read = true; write = false; execute = false }

abbrev read_write : FileOperations
read_write = record { read = true; write = true; execute = false }

abbrev write_only : FileOperations
write_only = record { read = false; write = true; execute = false }

abbrev docs : FileCapability
docs = record { paths = codes "/docs/*" ∷ codes "/a" ∷ []; operations = read_write }

abbrev one_doc : FileCapability
one_doc = record { paths = codes "/docs/x" ∷ []; operations = read_only }

abbrev logs : FileCapability
logs = record { paths = codes "/log" ∷ codes "/a" ∷ []; operations = write_only }

abbrev to_one_doc : List Constraint
to_one_doc = file_path (codes "/docs/x") ∷ file_operation true false false ∷ []

reads_one_doc : Permits one_doc (file (codes "/docs/x") true false false)
unfolding permits path_allowed path_matches strip_suffix text_eq
reads_one_doc = refl

constrained : constrain docs to_one_doc ≡ ok one_doc
unfolding constrain apply_constraint apply_path_constraint apply_operation_constraint path_allowed
    path_matches strip_suffix text_eq has_prefix
constrained = refl

constrain-Permits_example : Permits docs (file (codes "/docs/x") true false false)
unfolding strip_suffix text_eq
constrain-Permits_example =
    constrain-Permits docs one_doc to_one_doc (refl, (tt, tt)) constrained
      (file (codes "/docs/x") true false false) reads_one_doc

abbrev everything : FileCapability
everything = record {
  paths = codes "/docs/*" ∷ codes "/a" ∷ codes "/log" ∷ [];
  operations = read_write;
}

joined : join docs (some logs) ≡ ok everything
unfolding join extend text_eq
joined = refl

join_exact_example : Permits everything (file (codes "/log") true false false) ↔ (
    ((path_allowed docs (codes "/log") || path_allowed logs (codes "/log")) ≡ true)
    × (implies true true ≡ true)
    × (implies false true ≡ true)
    × (implies false false ≡ true))
join_exact_example = join_exact docs logs everything (codes "/log") true false false joined

-- Neither of the two capabilities grants it.
join_grants_more :
    Permits everything (file (codes "/log") true false false)
    × (permits docs (file (codes "/log") true false false) ≡ err access_denied)
    × (permits logs (file (codes "/log") true false false) ≡ err access_denied)
unfolding permits path_allowed path_matches strip_suffix text_eq has_prefix
join_grants_more = (refl, refl, refl)

abbrev shared : FileCapability
shared = record { paths = codes "/a" ∷ []; operations = write_only }

met : meet docs (some logs) ≡ ok shared
unfolding meet intersection text_eq
met = refl

shared_writes : Permits shared (file (codes "/a") false true false)
unfolding permits path_allowed path_matches strip_suffix text_eq
shared_writes = refl

meet-Permits_example :
    Permits docs (file (codes "/a") false true false)
    × Permits logs (file (codes "/a") false true false)
meet-Permits_example =
    meet-Permits docs logs shared (file (codes "/a") false true false) met shared_writes

-- A capability that may write is `leq` one that may only read.
leq_of_more_operations : leq shared (some (record shared { operations = read_only })) ≡ true
unfolding leq bits path_allowed path_matches strip_suffix text_eq
leq_of_more_operations = refl

constrain_escalates_example :
    (constrain
        (one_path (below_slash (codes "/tmp")) read_only)
        (file_path (codes "/tmp" ++ wildcard) ∷ [])
      ≡ ok (one_path (codes "/tmp" ++ wildcard) read_only))
    × Permits
        (one_path (codes "/tmp" ++ wildcard) read_only)
        (whole_request (codes "/tmp" ++ codes "/a/b") read_only)
    × ¬ Permits
        (one_path (below_slash (codes "/tmp")) read_only)
        (whole_request (codes "/tmp" ++ codes "_other") read_only)
unfolding has_prefix
constrain_escalates_example =
    constrain_escalates (codes "/tmp") (codes "_other") (codes "/a/b") read_only refl
