-- ===== src/Scenario/Executor/Rejection.antt =====
-- An observer that rejects the last status of a successful run: packages/scenario-engine/src/
-- executor.ts then rejects and cleans nothing up.
use testy_mc_testface.Prelude.{ℕ, ◌≡◌, refl, ap, Bool, true, false, List, [], ◌∷◌, if◌then◌else◌}
use testy_mc_testface.Process.{settle, beside, ◌>>=◌, ◌>>◌, read}
use testy_mc_testface.Process.Runs.{Event, answer, run, after, thrown}
use testy_mc_testface.Scenario.Errors.{Thrown}
use testy_mc_testface.Scenario.Status.{
  RunStatus, asserting, passed, failed, cancelling, transition, same_status,
}
use testy_mc_testface.Scenario.World.{World, root, is_cancellation, detach}
use testy_mc_testface.Scenario.World.Await.{
  Code, Reply, Returned, rejects, on_status, await, advance, answered, done,
}
use testy_mc_testface.Scenario.Executor.Actions.{Setup}
use testy_mc_testface.Scenario.Executor.Lifecycle.{
  move_to, bad_transition, announce, moved, enter, enter_unless_there, conclude, finish,
}

-- From PASSED the `catch` cannot enter FAILED or CANCELLING.
abbrev refusal : Bool → Thrown
refusal cancels = bad_transition passed (if cancels then cancelling else failed)

abbrev pub at_status : RunStatus → World → World
at_status s w = record w { status = s }

-- The `catch` in a state with status PASSED throws, and neither calls nor changes anything.
settle-conclude :
    (setup : Setup) (e : Thrown) (w : World) (next : Returned → Code) (handle : Thrown → Code)
    (es : List (Event Reply)) (cancels : Bool)
    → is_cancellation e root (at_status passed w) ≡ cancels
    → run (settle (conclude setup e) next handle) (at_status passed w) es
      ≡ run (handle (refusal cancels)) (at_status passed w) es
unfolding conclude read settle run enter_unless_there same_status enter move_to moved ◌>>◌ ◌>>=◌
    beside transition done bad_transition
settle-conclude setup e w next handle es true h = rw (h, run) refl
settle-conclude setup e w next handle es false h = rw (h, run) refl

-- The state when the observer has rejected: the clock has gone on, and the status is PASSED.
abbrev pub rejected_state : Reply → World → World
rejected_state r w = detach (advance r (at_status passed w))

-- When all phases of an execution are done and the observer rejects the status PASSED, the whole
-- execution is rejected after that one call. What it throws is not the observer's error but the refused
-- transition from PASSED: into CANCELLING where that error counts as a cancellation, and into FAILED
-- otherwise. No compensation, cleanup callback or release of a lease is called, and there is no
-- report; the registered cleanups stand in the state as they did.
pub finish_rejected_passed :
    (setup : Setup) (started : ℕ) (w : World) (r : Reply) (e : Thrown) (es : List (Event Reply))
    → r.answer ≡ rejects e
    → run (finish setup started (enter setup passed)) (at_status asserting w) (answer r ∷ es)
      ≡ record {
        status = thrown (
            bad_transition passed (
              if is_cancellation e root (advance r (at_status passed w))
              then cancelling
              else failed));
        world = rejected_state r w;
        calls = on_status passed ∷ [];
      }
unfolding finish settle run enter move_to moved announce await answered ◌>>◌ ◌>>=◌ beside transition
finish_rejected_passed setup started w r e es h =
    let cancels = is_cancellation e root (advance r (at_status passed w)) in
    rw h (ap (after (on_status passed)) (settle-conclude setup e (advance r w) _ _ es cancels refl))
