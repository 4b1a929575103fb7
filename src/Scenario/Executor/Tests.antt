-- ===== src/Scenario/Executor/Tests.antt =====
-- Concrete executions, and the theorems of this folder at them.
use testy_mc_testface.Prelude.{
  ℕ, zero, suc, ◌≡◌, refl, Bool, true, false, List, [], ◌∷◌, ◌++◌, Option, none, some, lookup,
  insert, pos, if◌then◌else◌,
}
use testy_mc_testface.Process.{
  settle, beside, both, mute, par, race, fail_if, ◌>>=◌, ◌>>◌, read, write,
}
use testy_mc_testface.Process.Runs.{
  Event, answer, run, Status, returned, thrown, states, last_from, Chain,
}
use testy_mc_testface.Scenario.Value.{num, str, null}
use testy_mc_testface.Scenario.Status.{
  created, asserting, passed, cancelling, same_status, transition,
}
use testy_mc_testface.Scenario.Status.{failed as failed_status}
use testy_mc_testface.Scenario.Errors.{Thrown, failed, sanitize_scenario_error}
use testy_mc_testface.Scenario.Types.{
  TaskStep, task, nil, cons, ResolvedScenario, Outcome, passed_outcome, failed_outcome,
}
use testy_mc_testface.Scenario.World.{
  World, CleanupEntry, abort_of, reason_thrown, checked_reason, is_cancellation, abort_group,
  detach, start_world, root,
}
use testy_mc_testface.Scenario.World.Await.{
  undefined, Reply, resolves, rejects, register_cleanup, Request, run_cleanup, Returned, report,
  await, advance, answered, done, push_cleanup, set_output, on_status,
}
use testy_mc_testface.Scenario.Executor.Actions.{
  Setup, check_abort, abortable_delay, count_attempt, register, register_all, run_handler,
  run_with_timeout, invoke_action, try_action, attempts_from, execute_attempted_action,
  max_attempts, backoff, started_record, passed_record, failed_record,
}
use testy_mc_testface.Scenario.Executor.Steps.{
  repeated, with_group, group_child, execute_task, limited, execute_step,
}
use testy_mc_testface.Scenario.Executor.Steps.{met, broken as broken_condition, condition_matches}
use testy_mc_testface.Scenario.Executor.Lifecycle.{
  move_to, bad_transition, phase_order, settled_outcome, timeline, announce, moved, enter,
  run_phases, run_body, enter_unless_there, conclude, collecting, compensate, release_lease, clean,
  compensate_all, clean_all, clean_up, make_report, report_of, clean_up_and_report, finish,
  execute_scenario, initial,
}
use testy_mc_testface.Scenario.Executor.Growth.{Grows, execute_scenario-Grows}
use testy_mc_testface.Process.Ends.{picked, Reached}
use testy_mc_testface.Scenario.Executor.Cleanups.{callback, clean_all_calls}
use testy_mc_testface.Scenario.Executor.StatusPath.{Moves, execute_scenario-Moves}
use testy_mc_testface.Scenario.Executor.Rejection.{
  at_status, rejected_state, finish_rejected_passed,
}

engine : Unit {0}
unfolding settle beside both mute par race fail_if ◌>>=◌ ◌>>◌ read write run same_status transition
    sanitize_scenario_error abort_of reason_thrown checked_reason is_cancellation abort_group detach
    start_world await advance answered done push_cleanup set_output check_abort abortable_delay
    count_attempt register register_all run_handler run_with_timeout invoke_action try_action
    attempts_from execute_attempted_action max_attempts backoff started_record passed_record
    failed_record repeated with_group group_child execute_task limited execute_step move_to
    bad_transition phase_order settled_outcome timeline announce moved enter run_phases run_body
    enter_unless_there conclude collecting compensate release_lease clean compensate_all clean_all
    clean_up make_report report_of clean_up_and_report finish execute_scenario initial lookup insert
engine = tt

abbrev work : TaskStep
work = record {
  id = "work";
  timeout_ms = none;
  action = "work";
  input = none;
  retry = some (record { attempts = 2; delay_ms = none; backoff_factor = none });
  compensate = some (record { action = "undo"; input = none });
}

abbrev small : ResolvedScenario
small = record {
  scenario_id = "small";
  display_name = "Small";
  target = "fake";
  timeout_ms = 600000;
  variables = [];
  phases = record {
    allocate = nil;
    compile = nil;
    configure = nil;
    run = cons (task work) nil;
    observe = nil;
    assert = nil;
  };
  content_hash = "0";
}

abbrev small_setup : Setup
small_setup = record {
  scenario = small;
  run_id = "run-1";
  registered = λ name. true;
  redact = λ s. s;
  hash_canonical = λ v. "";
  decimal = λ n. "";
  poll_rounds = 10;
}

abbrev fine : Event Reply
fine = answer (record { elapsed = 1; aborted = none; registrations = []; answer = resolves none })

abbrev broken : Event Reply
broken = answer (record {
  elapsed = 1;
  aborted = none;
  registrations = [];
  answer = rejects (failed "Error" "down");
})

abbrev registering : Event Reply
registering = answer (record {
  elapsed = 5;
  aborted = none;
  registrations = register_cleanup "undo work" 7 ∷ [];
  answer = resolves (some (num (pos 3)));
})

abbrev times : ℕ → Event Reply → List (Event Reply)
times zero e = []
times (suc n) e = e ∷ times n e

abbrev is_cleanup : Request → Bool
is_cleanup (run_cleanup c) = true
is_cleanup _ = false

abbrev count_calls : (Request → Bool) → List Request → ℕ
count_calls p [] = 0
count_calls p (q ∷ qs) = elim (p q) [ true ↦ suc (count_calls p qs) | false ↦ count_calls p qs ]

abbrev outcome_of : Status Returned Thrown → Option Outcome
outcome_of (returned (report r)) = some r.status
outcome_of _ = none

abbrev small_start : World
small_start = initial small_setup 0 none

-- Ten answers up to the record that the step is running; then the handler.
abbrev success : List (Event Reply)
success = times 11 fine ++ registering ∷ times 30 fine

passes :
    outcome_of (run (execute_scenario small_setup 0) small_start success).status
    ≡ some passed_outcome
unfolding engine
passes = refl

cleans_once :
    count_calls is_cleanup (run (execute_scenario small_setup 0) small_start success).calls ≡ 1
unfolding engine
cleans_once = refl

-- The same, but the observer rejects the status PASSED: the registered cleanup is never called.
abbrev lost : List (Event Reply)
lost = times 11 fine ++ registering ∷ (times 5 fine ++ broken ∷ times 30 fine)

abbrev is_thrown : Status Returned Thrown → Bool
is_thrown (thrown e) = true
is_thrown _ = false

loses_cleanup :
    (is_thrown (run (execute_scenario small_setup 0) small_start lost).status ≡ true)
    × (count_calls is_cleanup (run (execute_scenario small_setup 0) small_start lost).calls ≡ 0)
    × ((run (execute_scenario small_setup 0) small_start lost).world.cleanups
        ≡ record { name = "undo work"; cleanup = 7; lease_id = none } ∷ [])
unfolding engine
loses_cleanup = (refl, refl, refl)

-- The handler rejects twice, which is as often as its policy allows.
abbrev failure : List (Event Reply)
failure = times 11 fine ++ broken ∷ (times 2 fine ++ broken ∷ times 30 fine)

fails :
    outcome_of (run (execute_scenario small_setup 0) small_start failure).status
    ≡ some failed_outcome
unfolding engine
fails = refl

execute_scenario-Grows_example :
    Grows
      (run (execute_scenario small_setup 0) small_start (times 11 fine ++ registering ∷ [])).world
      (run
        (execute_scenario small_setup 0)
        small_start
        ((times 11 fine ++ registering ∷ []) ++ times 30 fine)).world
execute_scenario-Grows_example =
    execute_scenario-Grows small_setup 0 small_start (times 11 fine ++ registering ∷ [])
      (times 30 fine)

-- At the first of these points a cleanup is registered already.
has_registered :
    (run
      (execute_scenario small_setup 0)
      small_start
      (times 11 fine ++ registering ∷ [])).world.cleanups
    ≡ record { name = "undo work"; cleanup = 7; lease_id = none } ∷ []
unfolding engine
has_registered = refl

execute_scenario-Moves_example :
    (small_start.status ≡ created)
    × Chain Moves small_start (states (execute_scenario small_setup 0) small_start success)
    × (last_from small_start (states (execute_scenario small_setup 0) small_start success)
        ≡ (run (execute_scenario small_setup 0) small_start success).world)
execute_scenario-Moves_example = execute_scenario-Moves small_setup 0 none success

abbrev down : Reply
down = record {
  elapsed = 1;
  aborted = none;
  registrations = [];
  answer = rejects (failed "Error" "down");
}

finish_rejected_passed_example :
    run
      (finish small_setup 0 (enter small_setup passed))
      (at_status asserting small_start)
      (answer down ∷ [])
    ≡ record {
      status = thrown (
          bad_transition passed (
            if is_cancellation
              (failed "Error" "down")
              root
              (advance down (at_status passed small_start))
            then cancelling
            else failed_status));
      world = rejected_state down small_start;
      calls = on_status passed ∷ [];
    }
finish_rejected_passed_example =
    finish_rejected_passed small_setup 0 small_start down (failed "Error" "down") [] refl

abbrev two_entries : List CleanupEntry
two_entries =
    record { name = "second"; cleanup = 2; lease_id = none }
    ∷ record { name = "first"; cleanup = 1; lease_id = some "lease-1" }
    ∷ []

abbrev one_fails : List (Event Reply)
one_fails = broken ∷ times 3 fine

clean_all_calls_example :
    Reached
      (λ l. l ≡ two_entries)
      (λ _. ⊥)
      (picked callback (run (clean_all small_setup two_entries) small_start one_fails).calls)
      (run (clean_all small_setup two_entries) small_start one_fails).status
clean_all_calls_example = clean_all_calls small_setup two_entries small_start one_fails

-- The first callback fails, and the second is called and its lease released.
both_cleaned :
    ((run (clean_all small_setup two_entries) small_start one_fails).status ≡ returned undefined)
    × (picked callback (run (clean_all small_setup two_entries) small_start one_fails).calls
        ≡ two_entries)
unfolding engine
both_cleaned = (refl, refl)

-- A condition whose path is no text throws, and one whose text is at the path holds.
conditions :
    (condition_matches (record { path = num (pos 1); equals = null }) [] [] none
      ≡ broken_condition (failed "TypeError" "path.replace is not a function"))
    × (condition_matches
          (record { path = str "$.outputs.work"; equals = num (pos 3) })
          []
          (("work", num (pos 3)) ∷ [])
          none
        ≡ met)
unfolding condition_matches
conditions = (refl, refl)
