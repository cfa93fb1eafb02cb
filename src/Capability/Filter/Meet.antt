-- ===== src/Capability/Filter/Meet.antt =====
-- What the meet of a filtered file capability grants that neither side need grant.
use liongate.Base.{Bool, true, some, ◌≡◌, refl, arith, ok}
use liongate.Base.TextSet
use liongate.Base.TextSet.{mem-insert_new}
use liongate.Base.Text.{strip_suffix, text_eq}
use liongate.Capability.{file}
use liongate.Capability.File
use liongate.Capability.File.{FileCapability, FileOperations, contains, path_allowed}
use liongate.Capability.File.Attenuation.{Permits-iff, path_allowed-mem}
use liongate.Capability.Trait.{Trait, FileLaws, Operand}
use liongate.Capability.Filter.{
  FilterCapability, around, tmp_file, file_meet, permits, file_pair, meet,
}

tmp_allowed : (a b : FileCapability) → path_allowed (file_meet a b) tmp_file ≡ true
unfolding file_meet strip_suffix text_eq
tmp_allowed a b =
    path_allowed-mem (file_meet a b) tmp_file
      (mem-insert_new (TextSet.intersection a.paths b.paths) tmp_file) refl

granted_operations :
    (a b : FileCapability) (read write execute : Bool)
    → contains a.operations (record { read = read; write = write; execute = execute }) ≡ true
    → contains b.operations (record { read = read; write = write; execute = execute }) ≡ true
    → File.permits (file_meet a b) (file tmp_file read write execute) ≡ ok tt
unfolding file_meet
granted_operations a b read write execute h k =
    (Permits-iff (file_meet a b) tmp_file read write execute).1
      (tmp_allowed a b, ground (arith, h, k), ground (arith, h, k), ground (arith, h, k))

-- Where a filter is around a file capability and the other side is one, alone or in a filter, their
-- meet grants the operations that both have on "/tmp/file.txt", whatever paths they list, if the
-- first filter passes the request.
pub filter_meet_grants_tmp :
    {C : Type 0} (t : Trait C) (laws : FileLaws t) (f : FilterCapability C)
    (other : Operand (FilterCapability C) C) (a b : FileCapability)
    → file_pair t f other ≡ some (a, b)
    → (read write execute : Bool) → f.filter (file tmp_file read write execute) ≡ true
    → contains a.operations (record { read = read; write = write; execute = execute }) ≡ true
    → contains b.operations (record { read = read; write = write; execute = execute }) ≡ true
    → (m : FilterCapability C) × (meet t f other ≡ ok m)
      × (permits t m (file tmp_file read write execute) ≡ ok tt)
unfolding meet permits
filter_meet_grants_tmp t laws f other a b pair read write execute passed h k = (
  around f (t.of_file (file_meet a b)),
  rw (meet, pair) refl,
  ground (
    arith,
    passed,
    laws.permits-of_file (file_meet a b) (file tmp_file read write execute),
    granted_operations a b read write execute h k,
  ),
)
