-- ===== src/Scenario/Executor/Lifecycle.antt =====
-- `executeScenario` of packages/scenario-engine/src/executor.ts: the phases, the outcome, the
-- compensations and cleanups, and the report.
use testy_mc_testface.Prelude.{
  ℕ, ◌+◌, String, Bool, true, false, List, [], ◌∷◌, ◌++◌, map, reverse, Option, none, some, Table,
  if◌then◌else◌, sort_texts, ◌+++◌,
}
use testy_mc_testface.Process.{idle, ret, throw, sync, settle, ◌>>◌, read, write}
use testy_mc_testface.Scenario.Value.{Value, str}
use testy_mc_testface.Scenario.Status.{
  RunStatus, validating, allocating, compiling, configuring, running, observing, asserting, passed,
  failed, cancelling, cancelled, cleanup, same_status, status_text, transition,
}
use testy_mc_testface.Scenario.Errors.{Thrown, timed_out, SanitizedError, sanitize_scenario_error}
use testy_mc_testface.Scenario.Errors
use testy_mc_testface.Scenario.Status
use testy_mc_testface.Scenario.Types.{
  Steps, Phases, Outcome, passed_outcome, failed_outcome, cancelled_outcome, ExecutionReport,
  TimelineRecord, Category, lifecycle_category, cleanup_category,
}
use testy_mc_testface.Scenario.World.{
  World, CleanupEntry, CompensationEntry, root, never, is_cancellation, detach, start_world,
}
use testy_mc_testface.Scenario.World.Await.{
  Code, Returned, undefined, ended, report, on_status, on_timeline, on_resource_released,
  run_cleanup, await, done,
}
use testy_mc_testface.Scenario.Executor.Actions.{Setup, check_abort, invoke_action}
use testy_mc_testface.Scenario.Executor.Steps.{execute_steps}

-- The state machine's part of a transition; one that it forbids changes nothing.
unfoldable pub move_to : RunStatus → World → World
unfolding transition
move_to status w = elim (transition w.status status) [ none ↦ w | some s ↦ record w { status = s } ]

unfoldable pub bad_transition : RunStatus → RunStatus → Thrown
bad_transition from to = Errors.failed "Error" (
    "Invalid run status transition '" +++ status_text from +++ "' -> '" +++ status_text to +++ "'.")

abbrev pub push_error : SanitizedError → World → World
push_error e w = record w { cleanup_errors = w.cleanup_errors ++ e ∷ [] }

abbrev pub status_of : Outcome → RunStatus
status_of passed_outcome = passed
status_of failed_outcome = failed
status_of cancelled_outcome = cancelled

abbrev pub is_passed : Outcome → Bool
is_passed passed_outcome = true
is_passed _ = false

-- `status.toLowerCase()`.
abbrev pub status_name : RunStatus → String
status_name Status.created = "created"
status_name validating = "validating"
status_name allocating = "allocating"
status_name compiling = "compiling"
status_name configuring = "configuring"
status_name running = "running"
status_name observing = "observing"
status_name asserting = "asserting"
status_name passed = "passed"
status_name failed = "failed"
status_name cancelling = "cancelling"
status_name cancelled = "cancelled"
status_name cleanup = "cleanup"

-- The order of the phases, and their steps.
unfoldable pub phase_order : Phases → List (RunStatus × Steps)
phase_order p =
    (allocating, p.allocate)
    ∷ (compiling, p.compile)
    ∷ (configuring, p.configure)
    ∷ (running, p.run)
    ∷ (observing, p.observe)
    ∷ (asserting, p.assert)
    ∷ []

-- The outcome when the cleanups are done: errors in them fail a run that had passed.
unfoldable pub settled_outcome : Outcome → List SanitizedError → Outcome
settled_outcome passed_outcome (e ∷ es) = failed_outcome
settled_outcome outcome errors = outcome

-- The outcome when the cleanup phase itself is rejected.
unfoldable pub broken_outcome : Outcome → Outcome
broken_outcome cancelled_outcome = cancelled_outcome
broken_outcome _ = failed_outcome

module _ (setup : Setup) where
  open setup use {scenario, run_id, redact, hash_canonical}

  unfoldable pub timeline : ℕ → Category → String → Table Value → TimelineRecord
  timeline now category name metadata = record {
    occurred_at = now;
    run_id = run_id;
    category = category;
    name = name;
    metadata = metadata;
  }

  -- The observer's part of a transition.
  unfoldable pub announce : RunStatus → Code
  announce status =
      await (on_status status)
      >> read (λ v. await (on_timeline (timeline v.now lifecycle_category (status_name status) [])))

  unfoldable pub moved : RunStatus → RunStatus → Option RunStatus → Code
  moved from to none = throw (bad_transition from to) idle
  moved from to (some _) = announce to

  -- The state machine, then the observer.
  unfoldable pub enter : RunStatus → Code
  enter status = sync (move_to status) (λ w. moved w.status status (transition w.status status))

  unfoldable pub run_phases : List (RunStatus × Steps) → Code
  run_phases [] = done
  run_phases ((status, steps) ∷ rest) =
      check_abort root >> enter status >> execute_steps setup status steps root >> run_phases rest

  unfoldable pub run_body : Code
  unfolding phase_order
  run_body = enter validating >> run_phases (phase_order scenario.phases) >> enter passed

  unfoldable pub enter_unless_there : RunStatus → Code
  unfolding same_status
  enter_unless_there status = read (λ w. if same_status w.status status then done else enter status)

  -- The `catch` of the execution.
  unfoldable pub conclude : Thrown → Code
  conclude error = read (λ w.
      if is_cancellation error root w
      then (enter_unless_there cancelling
          >> enter cancelled
          >> ret (ended cancelled_outcome (some error)) idle)
      else (enter_unless_there failed >> ret (ended failed_outcome (some error)) idle))

  -- A step of the cleanup phase, whose error is kept and not thrown on.
  unfoldable pub collecting : Code → Code
  unfolding sanitize_scenario_error
  collecting p =
      settle p (λ v. ret v idle)
        (λ e. write (push_error (sanitize_scenario_error redact e)) undefined)

  unfoldable pub compensate : CompensationEntry → Code
  unfolding timeline
  compensate c = collecting (
      invoke_action setup c.call.action c.call.input never none
      >> read (λ w. await (
          on_timeline (
            timeline w.now cleanup_category "compensation-passed"
              (("stepId", str c.step_id) ∷ ("action", str c.call.action) ∷ [])))))

  unfoldable pub release_lease : Option String → Code
  release_lease none = done
  release_lease (some id) = read (λ w. await (on_resource_released id w.now))

  unfoldable pub clean : CleanupEntry → Code
  unfolding timeline
  clean entry = collecting (
      await (run_cleanup entry)
      >> release_lease entry.lease_id
      >> read (λ w. await (
          on_timeline
            (timeline w.now cleanup_category "cleanup-passed" (("name", str entry.name) ∷ [])))))

  unfoldable pub compensate_all : List CompensationEntry → Code
  compensate_all [] = done
  compensate_all (c ∷ rest) = compensate c >> compensate_all rest

  unfoldable pub clean_all : List CleanupEntry → Code
  clean_all [] = done
  clean_all (c ∷ rest) = clean c >> clean_all rest

  -- The second `try`: compensations unless the run has passed, cleanups, and the last transition.
  -- Both lists are taken when their turn comes, the newest entry first.
  unfoldable pub clean_up : Outcome → Option Thrown → Code
  unfolding settled_outcome
  clean_up outcome error =
      enter cleanup
      >> (if is_passed outcome then done else read (λ w. compensate_all (reverse w.compensations)))
      >> read (λ w. clean_all (reverse w.cleanups))
      >> read (λ w.
        let final = settled_outcome outcome w.cleanup_errors in
        enter (status_of final) >> ret (ended final error) idle)

  unfoldable pub make_report : ℕ → Outcome → Option Thrown → World → ExecutionReport
  unfolding sanitize_scenario_error
  make_report started outcome error w = record {
    run_id = run_id;
    scenario_id = scenario.scenario_id;
    content_hash = scenario.content_hash;
    status = outcome;
    started_at = started;
    completed_at = w.now;
    output_keys = sort_texts (map (λ (kv : String × Value). kv.0) w.outputs);
    output_fingerprints = map (λ (kv : String × Value). (kv.0, hash_canonical kv.1)) w.outputs;
    cleanup_errors = w.cleanup_errors;
    error = elim error [ none ↦ none | some e ↦ some (sanitize_scenario_error redact e) ];
  }

  unfoldable pub report_of : ℕ → Returned → Code
  unfolding make_report
  report_of started (ended outcome error) =
      read (λ w. ret (report (make_report started outcome error w)) idle)
  report_of started other = ret other idle

  unfoldable pub clean_up_and_report : ℕ → Returned → Code
  unfolding broken_outcome sanitize_scenario_error
  clean_up_and_report started (ended outcome error) =
      settle (clean_up outcome error) (report_of started) (λ e.
        sync (push_error (sanitize_scenario_error redact e))
          (λ _. report_of started (ended (broken_outcome outcome) error)))
  clean_up_and_report started other = ret other idle

  -- A first `try` with its `catch` and `finally`, then the cleanup phase and the report. What is
  -- thrown in the `catch` rejects the whole, and no cleanup phase follows.
  unfoldable pub finish : ℕ → Code → Code
  unfolding detach
  finish started body =
      settle (settle body (λ _. ret (ended passed_outcome none) idle) conclude)
        (λ v. sync detach (λ _. clean_up_and_report started v))
        (λ e. sync detach (λ _. throw e idle))

  unfoldable pub execute_scenario : ℕ → Code
  execute_scenario started = finish started run_body

  -- The state in which an execution begins; the caller's signal may be aborted already.
  unfoldable pub initial : ℕ → Option Thrown → World
  unfolding start_world
  initial started aborted =
      start_world started
        (record {
          at = started + scenario.timeout_ms;
          reason = timed_out ("Scenario exceeded " +++ setup.decimal scenario.timeout_ms +++ "ms.");
        })
        aborted
