-- ===== src/Workflow/Event/Examples.antt =====
-- An event that is tried again twice, and not a third time.
use liongate.Base.{ℕ, ◌≡◌, refl, arith, is_some, true, false}
use liongate.Base.Text.{codes}
use liongate.Workflow.Event.{Event, new, increment_retry}
use liongate.Workflow.Event.Retry
use liongate.Workflow.Event.Retry.{tries, tries_exact, try_again, enqueue, dequeue}

abbrev ping : Event ℕ
ping = new 0 0 (codes "evt-1") (codes "ping") 0

tries_exact_example : is_some (tries 2 ping (Retry.new 2 100)).0 ≡ true
tries_exact_example = tries_exact 2 2 100 ping (omega arith) (omega arith)

third_try : is_some (tries 3 ping (Retry.new 2 100)).0 ≡ false
unfolding tries try_again enqueue dequeue increment_retry
third_try = refl
