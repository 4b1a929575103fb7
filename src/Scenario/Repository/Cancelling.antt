-- ===== src/Scenario/Repository/Cancelling.antt =====
-- When a run can be cancelled.
use testy_mc_testface.Prelude.{◌≡◌, ◌⊎◌, ◌↔◌, true, arith}
use testy_mc_testface.Scenario.Status.{RunStatus, created, cancelling, can_transition}
use testy_mc_testface.Scenario.Repository.{cancellable}

-- The repository accepts a request for cancellation exactly in the statuses from which the state
-- machine can enter CANCELLING, and in CANCELLING itself.
pub cancellable_iff :
    (s : RunStatus)
    → (cancellable s ≡ true) ↔ ((can_transition s cancelling ≡ true) ⊎ (s ≡ cancelling))
unfolding cancellable can_transition
cancellable_iff created = ground arith
cancellable_iff _ = ground arith
