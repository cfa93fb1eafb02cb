-- ===== src/Workflow/Event/Retry.antt =====
-- lion/lion_workflow/src/patterns/event/retry.rs: the queue of events that are tried again. A method
-- that changes the queue returns its result and the manager afterwards.
use liongate.Base.{
  ℕ, zero, suc, ◌+◌, ◌-◌, ◌<◌, ◌≤◌, ◌^◌, Bool, true, false, Option, none, some, List, [], ◌∷◌, ◌++◌,
  Result, ok, err, if◌then◌else◌, ltb, leb, is_some, is_empty, Bool-cases, inl, inr, ◌%◌, length,
  arith, ◌≡◌, refl, ap, ◌∙◌,
}
use liongate.Workflow.Event.{Event, EventError, other, increment_retry}

pub record RetryManager (J : Type 0) : Type 0 where
  pub retry_queue : List (Event J)
  pub max_retries : ℕ
  pub retry_delay : ℕ

module _ {J : Type 0} where
  abbrev pub new : ℕ → ℕ → RetryManager J
  new max_retries retry_delay = record {
    retry_queue = [];
    max_retries = max_retries;
    retry_delay = retry_delay;
  }

  unfoldable pub enqueue : Event J → RetryManager J → Result EventError (Unit {0}) × RetryManager J
  enqueue event m =
      let event' = increment_retry event in
      if ltb m.max_retries event'.retry_count
      then (err other, m)
      else (ok tt, record m { retry_queue = m.retry_queue ++ (event' ∷ []) })

  unfoldable pub dequeue : RetryManager J → Option (Event J) × RetryManager J
  dequeue m = elim m.retry_queue [
    | [] ↦ (none, m)
    | event ∷ queue ↦ (some event, record m { retry_queue = queue })
  ]

  abbrev empty : RetryManager J → Bool
  empty m = is_empty m.retry_queue

  abbrev size : RetryManager J → ℕ
  size m = length m.retry_queue

  abbrev get_all_events : RetryManager J → List (Event J)
  get_all_events m = m.retry_queue

  abbrev clear : RetryManager J → RetryManager J
  clear m = record m { retry_queue = [] }

  -- An event that failed is put into the queue, and the next one is taken.
  unfoldable pub try_again : Event J → RetryManager J → Option (Event J) × RetryManager J
  unfolding enqueue dequeue
  try_again event m = dequeue ((enqueue event m).1)

  abbrev follow :
      (Event J → RetryManager J → Option (Event J) × RetryManager J)
      → Option (Event J) × RetryManager J
      → Option (Event J) × RetryManager J
  follow next (none, m) = (none, m)
  follow next (some event, m) = next event m

  -- An event that fails again each time it is taken.
  unfoldable pub tries : ℕ → Event J → RetryManager J → Option (Event J) × RetryManager J
  tries zero event m = (some event, m)
  tries (suc n) event m = follow (tries n) (try_again event m)

  enqueue_over :
      (event : Event J) (m : RetryManager J)
      → ltb m.max_retries ((event.retry_count + 1) % 2 ^ 32) ≡ true
      → enqueue event m ≡ (err other, m)
  unfolding enqueue increment_retry
  enqueue_over event m h = rw (enqueue, h) refl

  enqueue_within :
      (event : Event J) (m : RetryManager J)
      → ltb m.max_retries ((event.retry_count + 1) % 2 ^ 32) ≡ false
      → enqueue event m
        ≡ (ok tt, record m { retry_queue = m.retry_queue ++ (increment_retry event ∷ []) })
  unfolding enqueue increment_retry
  enqueue_within event m h = rw (enqueue, h) refl

  try_again_over :
      (max delay : ℕ) (event : Event J)
      → ltb max ((event.retry_count + 1) % 2 ^ 32) ≡ true
      → try_again event (new max delay) ≡ (none, new max delay)
  unfolding try_again dequeue
  try_again_over max delay event h = ap (λ r. dequeue (r.1)) (enqueue_over event (new max delay) h)

  try_again_within :
      (max delay : ℕ) (event : Event J)
      → ltb max ((event.retry_count + 1) % 2 ^ 32) ≡ false
      → try_again event (new max delay) ≡ (some (increment_retry event), new max delay)
  unfolding try_again dequeue
  try_again_within max delay event h =
      ap (λ r. dequeue (r.1)) (enqueue_within event (new max delay) h)

  -- An event whose counter is at most max_retries, which is below the greatest u32, is taken from an
  -- empty queue again after n failures exactly if its counter plus n is at most max_retries.
  pub tries_exact :
      (n max delay : ℕ) (event : Event J)
      → max < 2 ^ 32 - 1
      → event.retry_count ≤ max
      → is_some (tries n event (new max delay)).0 ≡ leb (event.retry_count + n) max
  unfolding tries increment_retry
  tries_exact zero max delay event h k = ground arith
  tries_exact (suc n) max delay event h k =
      elim (Bool-cases (ltb max ((event.retry_count + 1) % 2 ^ 32))) [
        | inl over ↦ rw (tries, try_again_over max delay event over) (ground (arith, over))
        | inr within ↦
            rw (tries, try_again_within max delay event within)
              (tries_exact n max delay (increment_retry event) h (ground (arith, within))
                ∙ ground (arith, within))
      ]
