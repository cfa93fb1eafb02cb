-- ===== src/Capability/Audit.antt =====
-- lion/lion_capability/src/check/audit.rs and check/engine.rs: the log of the checks of each plugin,
-- of bounded length, and the checker that writes to it. The time of an entry is an argument.
use liongate.Base.{
  ℕ, zero, suc, ◌+◌, ◌-◌, ◌≤◌, Bool, Option, none, some, List, [], ◌∷◌, ◌++◌, Result, is_ok, length,
  length-append, ltb, if◌then◌else◌, ◌≡◌, refl, ◌==◌, arith, inl, inr, Bool-cases,
}
use liongate.Base.Eq.{nat_Eq}
use liongate.Base.HashMap
use liongate.Base.HashMap.{HashMap, get-insert, get-remove}
use liongate.Capability.{CapabilityError, AccessRequest}
use liongate.Capability.Revocation.{Filterable}
use liongate.Capability.Store.{InMemoryCapabilityStore, check_permission}

pub record AuditEntry : Type 0 where
  pub timestamp : ℕ
  pub plugin_id : ℕ
  pub request : AccessRequest
  pub permitted : Bool

pub record AuditLog : Type 0 where
  pub entries : HashMap ℕ (List AuditEntry)
  pub max_entries_per_plugin : ℕ

pub new : ℕ → AuditLog
new max_entries = record { entries = []; max_entries_per_plugin = max_entries }

-- `drain(0..n)`, as what stays.
pub drain : {A : Type 0} → ℕ → List A → List A
drain zero xs = xs
drain (suc n) [] = []
drain (suc n) (x ∷ xs) = drain n xs

unfoldable pub get_entries : ℕ → AuditLog → List AuditEntry
get_entries plugin_id log = elim (HashMap.get plugin_id log.entries) [
  | some entries ↦ entries
  | none ↦ []
]

-- An entry pushed to a list that is then trimmed to the maximal length.
pub push_trimmed : ℕ → AuditEntry → List AuditEntry → List AuditEntry
push_trimmed max_entries entry entries =
    let pushed = entries ++ (entry ∷ []) in
    if ltb max_entries (length pushed) then drain (length pushed - max_entries) pushed else pushed

pub log_access : ℕ → ℕ → AccessRequest → Bool → AuditLog → AuditLog
log_access now plugin_id request permitted log =
    let entry : AuditEntry = record {
      timestamp = now;
      plugin_id = plugin_id;
      request = request;
      permitted = permitted;
    } in
    record {
      entries =
          HashMap.insert plugin_id
            (push_trimmed log.max_entries_per_plugin entry (get_entries plugin_id log)) log.entries;
      max_entries_per_plugin = log.max_entries_per_plugin;
    }

pub clear_entries : ℕ → AuditLog → AuditLog
clear_entries plugin_id log = record {
  entries = HashMap.remove plugin_id log.entries;
  max_entries_per_plugin = log.max_entries_per_plugin;
}

pub clear_all_entries : AuditLog → AuditLog
clear_all_entries log = new log.max_entries_per_plugin

-- `CapabilityChecker::check`, with the log if there is one.
pub check :
    {C : Type 0} ⦃t : Filterable C⦄
    → ℕ
    → ℕ
    → AccessRequest
    → InMemoryCapabilityStore C
    → Option AuditLog
    → Result CapabilityError (Unit {0}) × Option AuditLog
check now plugin_id request store audit_log =
    let result = check_permission plugin_id request store in
    (
      result,
      elim audit_log [
        | some log ↦ some (log_access now plugin_id request (is_ok result) log)
        | none ↦ none
      ],
    )

length-drain : {A : Type 0} (n : ℕ) (xs : List A) → length (drain n xs) ≡ length xs - n
unfolding drain
length-drain zero xs = omega arith
length-drain (suc n) [] = omega arith
length-drain (suc n) (x ∷ xs) = omega (arith, length-drain n xs)

length-push_trimmed :
    (m : ℕ) (e : AuditEntry) (es : List AuditEntry) → length (push_trimmed m e es) ≤ m
unfolding push_trimmed drain
length-push_trimmed m e es =
    let pushed = es ++ (e ∷ []) in ground (arith, length-drain (length pushed - m) pushed)

-- No plugin has more entries than the maximum.
abbrev pub IsWithinBound : AuditLog → Type 0
IsWithinBound log = (p : ℕ) → length (get_entries p log) ≤ log.max_entries_per_plugin

-- A new log is within its bound, and logging and clearing keep a log within it.
pub audit_operations-IsWithinBound :
    (max_entries : ℕ) (log : AuditLog)
    → IsWithinBound log
    → IsWithinBound (new max_entries)
      × ((now p : ℕ) (r : AccessRequest) (permitted : Bool)
          → IsWithinBound (log_access now p r permitted log))
      × ((p : ℕ) → IsWithinBound (clear_entries p log))
      × IsWithinBound (clear_all_entries log)
unfolding new log_access clear_entries clear_all_entries get_entries HashMap.get
audit_operations-IsWithinBound max_entries log w = (
  λ p. omega arith,
  λ now p r permitted q.
      let e : AuditEntry = record {
        timestamp = now;
        plugin_id = p;
        request = r;
        permitted = permitted;
      } in
      let es = push_trimmed log.max_entries_per_plugin e (get_entries p log) in
      ground (
        arith,
        w q,
        get-insert q p es log.entries,
        length-push_trimmed log.max_entries_per_plugin e (get_entries p log),
      ),
  λ p q. ground (arith, w q, get-remove q p log.entries),
  λ p. omega arith,
)

drain-append :
    {A : Type 0} (n : ℕ) (xs ys : List A) → n ≤ length xs → drain n (xs ++ ys) ≡ drain n xs ++ ys
unfolding drain
drain-append zero xs ys h = refl
drain-append (suc n) [] ys h = absurd (omega (arith, h))
drain-append (suc n) (x ∷ xs) ys h = drain-append n xs ys (omega (arith, h))

push_trimmed-eq :
    (m : ℕ) (e : AuditEntry) (es : List AuditEntry)
    → 1 ≤ m
    → length es ≤ m
    → push_trimmed m e es ≡ drain (length es + 1 - m) es ++ (e ∷ [])
unfolding push_trimmed drain
push_trimmed-eq m e es h k =
    let n : length (es ++ (e ∷ [])) ≡ length es + 1 = omega (arith, length-append es (e ∷ [])) in
    elim (Bool-cases (ltb m (length es + 1))) [
      | inl over ↦
          rw (push_trimmed, n, over)
            (drain-append (length es + 1 - m) es (e ∷ []) (omega (arith, h, k)))
      | inr within ↦
          let none_over : length es + 1 - m ≡ 0 = ground (arith, within) in
          rw (push_trimmed, n, within, none_over) refl
    ]

-- Where a plugin's entries are within a bound that is not zero, a check returns what the store
-- decides and appends one entry with that decision to what is left of the plugin's entries, of which
-- the oldest goes if the bound is reached; the entries of the other plugins stay.
pub check_logs :
    {C : Type 0} ⦃t : Filterable C⦄ (now p : ℕ) (r : AccessRequest)
    (store : InMemoryCapabilityStore C) (log : AuditLog)
    → 1 ≤ log.max_entries_per_plugin
    → IsWithinBound log
    → (u : AuditLog) × (check now p r store (some log) ≡ (check_permission p r store, some u))
      × ((q : ℕ)
          → get_entries q u ≡ (
              if p == q
              then drain
                  (length (get_entries p log) + 1 - log.max_entries_per_plugin)
                  (get_entries p log)
                ++ (record {
                  timestamp = now;
                  plugin_id = p;
                  request = r;
                  permitted = is_ok (check_permission p r store);
                }
                    ∷ [])
              else get_entries q log))
unfolding check log_access get_entries
check_logs now p r store log h w =
    let e : AuditEntry = record {
      timestamp = now;
      plugin_id = p;
      request = r;
      permitted = is_ok (check_permission p r store);
    } in
    let m = log.max_entries_per_plugin in
    (
      log_access now p r (is_ok (check_permission p r store)) log,
      refl,
      λ q. ground (
        arith,
        get-insert q p (push_trimmed m e (get_entries p log)) log.entries,
        push_trimmed-eq m e (get_entries p log) h (w p),
      ),
    )
