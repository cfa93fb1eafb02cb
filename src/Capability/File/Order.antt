-- ===== src/Capability/File/Order.antt =====
-- `join`, `meet` and `leq` of file capabilities, against what is granted.
use liongate.Base.{
  Bool, Bool-ext, ◌||◌, true, ◌≡◌, inl, inr, ◌↔◌, some, ok, arith, any, all, any-intro, any-elim,
  ◌∈◌, implies, Bool-cases, List,
}
use liongate.Base.Text.{Text}
use liongate.Base.TextSet.{
  mem-extend_elim, mem-extend_left, mem-extend_right, mem-intersection, extend, intersection,
}
use liongate.Capability.{AccessRequest, file, path_matches}
use liongate.Capability.File.{FileCapability, contains, path_allowed, join, meet, leq, bits}
use liongate.Capability.File.Attenuation.{Permits, Permits-iff, IsBelow, IsBelow-Permits}

any-extend : (p : Text → Bool) (xs ys : List Text) → any p (extend xs ys) ≡ (any p xs || any p ys)
any-extend p xs ys = Bool-ext _ _ forth back
  where
    forth : any p (extend xs ys) ≡ true → (any p xs || any p ys) ≡ true
    forth h =
        let (a, m, k) = any-elim p (extend xs ys) h in
        elim (mem-extend_elim xs ys a m) [
          | inl l ↦ ground (arith, any-intro p l k)
          | inr r ↦ ground (arith, any-intro p r k)
        ]

    back : (any p xs || any p ys) ≡ true → any p (extend xs ys) ≡ true
    back h = elim (Bool-cases (any p xs)) [
      | inl e ↦ let (a, m, k) = any-elim p xs e in any-intro p (mem-extend_left xs ys a m) k
      | inr e ↦
          let (a, m, k) = any-elim p ys (ground arith) in any-intro p (mem-extend_right xs ys a m) k
    ]

join-path_allowed :
    (c d e : FileCapability)
    → join c (some d) ≡ ok e
    → (path : Text) → path_allowed e path ≡ (path_allowed c path || path_allowed d path)
unfolding join path_allowed
join-path_allowed c d e h path =
    ground (arith, any-extend (λ pattern. path_matches pattern path) c.paths d.paths)

-- The join of two file capabilities grants a request exactly when one of them allows the path and
-- each operation asked for is one of either's.
pub join_exact :
    (c d e : FileCapability) (path : Text) (read write execute : Bool)
    → join c (some d) ≡ ok e
    → Permits e (file path read write execute) ↔ (
        ((path_allowed c path || path_allowed d path) ≡ true)
        × (implies read (c.operations.read || d.operations.read) ≡ true)
        × (implies write (c.operations.write || d.operations.write) ≡ true)
        × (implies execute (c.operations.execute || d.operations.execute) ≡ true))
unfolding join
join_exact c d e path read write execute h =
    let (forth, back) = Permits-iff e path read write execute in
    (
      λ k. ground (arith, forth k, join-path_allowed c d e h path),
      λ k. back (ground (arith, join-path_allowed c d e h path)),
    )

any_mono :
    (p : Text → Bool) (xs ys : List Text)
    → ((a : Text) → a ∈ xs → a ∈ ys)
    → any p xs ≡ true
    → any p ys ≡ true
any_mono p xs ys sub h = let (a, m, k) = any-elim p xs h in any-intro p (sub a m) k

meet-eq_ok :
    (c d e : FileCapability)
    → meet c (some d) ≡ ok e
    → (e.paths ≡ intersection c.paths d.paths)
      × (contains c.operations e.operations ≡ true)
      × (contains d.operations e.operations ≡ true)
unfolding meet
meet-eq_ok c d e h = (ground arith, ground arith, ground arith)

meet-IsBelow : (c d e : FileCapability) → meet c (some d) ≡ ok e → IsBelow e c × IsBelow e d
unfolding path_allowed
meet-IsBelow c d e h =
    let (paths, left, right) = meet-eq_ok c d e h in
    let common =
      λ (a : Text) (m : a ∈ e.paths). mem-intersection c.paths d.paths a (rw paths at m) in
    (
      record { paths = λ q. any_mono _ e.paths c.paths (λ a m. (common a m).0); operations = left },
      record {
        paths = λ q. any_mono _ e.paths d.paths (λ a m. (common a m).1);
        operations = right;
      },
    )

-- The meet of two file capabilities grants only what both grant.
pub meet-Permits :
    (c d e : FileCapability) (r : AccessRequest)
    → meet c (some d) ≡ ok e
    → Permits e r
    → Permits c r × Permits d r
meet-Permits c d e r h k =
    let (left, right) = meet-IsBelow c d e h in
    (IsBelow-Permits left r k, IsBelow-Permits right r k)

-- `leq` does not compare operations: on two file capabilities it says exactly whether each pattern
-- of the first, read as a path, is allowed by the second.
pub leq_ignores_operations : (c d : FileCapability) → leq c (some d) ≡ all (path_allowed d) c.paths
unfolding leq bits
leq_ignores_operations c d = ground arith
