-- ===== src/Scenario/Executor/Actions.antt =====
-- Invoking actions: handlers, time limits, retries and polls, of
-- packages/scenario-engine/src/executor.ts.
use testy_mc_testface.Prelude.{
  ℕ, zero, suc, ◌+◌, ◌-◌, ◌*◌, ◌^◌, String, Bool, ◌||◌, List, [], ◌∷◌, Option, none, some, lookup,
  insert, leb, ◌==◌, if◌then◌else◌, or_else, ◌+++◌,
}
use testy_mc_testface.Process.{
  idle, ret, throw, sync, call, settle, ◌>>=◌, ◌>>◌, race, fail_if, read, write,
}
use testy_mc_testface.Scenario.Value.{Value}
use testy_mc_testface.Scenario.Status.{RunStatus}
use testy_mc_testface.Scenario.Errors.{Thrown, timed_out, failed, sanitize_scenario_error}
use testy_mc_testface.Scenario.Types.{
  RetryPolicy, StepKind, ResolvedScenario, StepRecord, step_running, step_passed, step_failed,
  step_cancelled,
}
use testy_mc_testface.Scenario.World.{
  World, Signal, timed, abort_reason, thrown_if_aborted, is_cancellation,
}
use testy_mc_testface.Scenario.World.Await.{
  Code, Returned, undefined, on_step, on_resource_lease, invoke, sleep, Registration,
  register_cleanup, register_lease, await, advance, answered, done, push_cleanup, output_of,
}

-- One call of `executeScenario`. `registered` tells which actions have a handler. The regular
-- expressions of `redact`, SHA-256 and the decimal form of a number are not of this program.
-- `poll_rounds` bounds the rounds of a poll that are followed.
pub record Setup : Type 0 where
  pub scenario : ResolvedScenario
  pub run_id : String
  pub registered : String → Bool
  pub redact : String → String
  pub hash_canonical : Value → String
  pub decimal : ℕ → String
  pub poll_rounds : ℕ

abbrev pub next_attempt : String → World → ℕ
next_attempt id w = or_else (lookup id w.attempts) 0 + 1

-- `attemptCounters[stepId] = (attemptCounters[stepId] ?? 0) + 1`.
unfoldable pub count_attempt : String → World → World
count_attempt id w = record w { attempts = insert id (next_attempt id w) w.attempts }

-- `throwIfAborted(signal)`.
unfoldable pub check_abort : Signal → Code
check_abort s = read (λ w. fail_if (thrown_if_aborted s w) idle done)

-- A promise that an aborted signal rejects: `raceWithAbort`.
abbrev pub race_with_abort : Signal → Code → Code
race_with_abort s p = race (thrown_if_aborted s) (abort_reason s) p

abbrev pub waits_for : Signal → Code → Code
waits_for s p = race (λ _. none) (abort_reason s) p

unfoldable pub abortable_delay : ℕ → Signal → Code
abortable_delay milliseconds s =
    check_abort s
    >> (if milliseconds == 0 then check_abort s else waits_for s (await (sleep milliseconds)))

module _ (setup : Setup) where
  open setup use {scenario, run_id, registered, redact, hash_canonical, decimal, poll_rounds}

  -- The context's `registerCleanup` and `registerResourceLease`.
  unfoldable pub register : Registration → Code
  unfolding push_cleanup
  register (register_cleanup name cleanup) =
      write (push_cleanup (record { name = name; cleanup = cleanup; lease_id = none })) undefined
  register (register_lease id type key expires cleanup) =
      await (
        on_resource_lease (record {
          lease_id = id;
          run_id = run_id;
          resource_type = type;
          resource_key = key;
          expires_at = expires;
        }))
      >> write
          (push_cleanup (record {
            name = "lease:" +++ type +++ ":" +++ key;
            cleanup = cleanup;
            lease_id = some id;
          }))
          undefined

  unfoldable pub register_all : List Registration → Code
  register_all [] = done
  register_all (r ∷ rest) = register r >> register_all rest

  -- A handler: what it registers, then how it settles.
  unfoldable pub run_handler : String → Option Value → Code
  unfolding advance answered
  run_handler name input = read (λ w.
      call (invoke name input w.outputs)
        (λ r. sync (advance r) (λ _. register_all r.registrations >> answered r.answer)))

  -- `runWithTimeout`: the operation under a signal that also follows a timer.
  unfoldable pub run_with_timeout : (Signal → Code) → ℕ → Signal → String → Code
  run_with_timeout operation timeout_ms parent label = read (λ w.
      let s = timed parent (record {
        at = w.now + timeout_ms;
        reason = timed_out (label +++ " exceeded " +++ decimal timeout_ms +++ "ms.");
      }) in
      race_with_abort s (operation s))

  unfoldable pub invoke_action : String → Option Value → Signal → Option ℕ → Code
  invoke_action name input s timeout =
      if registered name
      then elim timeout [
        | none ↦ race_with_abort s (run_handler name input)
        | some ms ↦
            run_with_timeout (λ _. run_handler name input) ms s ("Action '" +++ name +++ "'")
      ]
      else throw (failed "Error" ("Scenario action '" +++ name +++ "' is not registered.")) idle

  -- The action of a step, tried `attempts` times at most.
  module _ (step_id : String) (kind : StepKind) (action : String) (input : Option Value)
      (retry : Option RetryPolicy) (timeout_ms : Option ℕ) (phase : RunStatus) (s : Signal) where
    unfoldable pub started_record : ℕ → ℕ → StepRecord
    started_record attempt started = record {
      run_id = run_id;
      step_id = step_id;
      kind = kind;
      phase = phase;
      status = step_running;
      attempt = attempt;
      started_at = started;
      completed_at = none;
      duration_ms = none;
      output_fingerprint = none;
      error = none;
    }

    unfoldable pub passed_record : ℕ → ℕ → ℕ → Returned → StepRecord
    unfolding started_record
    passed_record attempt started completed output = record (started_record attempt started) {
      status = step_passed;
      completed_at = some completed;
      duration_ms = some (completed - started);
      output_fingerprint = elim (output_of output) [
        | none ↦ none
        | some v ↦ some (hash_canonical v)
      ];
    }

    unfoldable pub failed_record : ℕ → ℕ → ℕ → Bool → Thrown → StepRecord
    unfolding started_record sanitize_scenario_error
    failed_record attempt started completed cancelled error =
        record (started_record attempt started) {
          status = if cancelled then step_cancelled else step_failed;
          completed_at = some completed;
          duration_ms = some (completed - started);
          error = some (sanitize_scenario_error redact error);
        }

    unfoldable pub max_attempts : ℕ
    max_attempts = elim retry [ none ↦ 1 | some r ↦ r.attempts ]

    -- `delayMs * factor ** (attempt - 1)`.
    unfoldable pub backoff : ℕ → ℕ
    backoff attempt = elim retry [
      | none ↦ 0
      | some r ↦ or_else r.delay_ms 0 * or_else r.backoff_factor 1 ^ (attempt - 1)
    ]

    -- The body of the `try`: the action, and the record that it has passed.
    unfoldable pub try_action : ℕ → ℕ → Code
    unfolding passed_record
    try_action attempt started = invoke_action action input s timeout_ms >>= λ output.
        read (λ w. await (on_step (passed_record attempt started w.now output))) >> ret output idle

    -- `left` attempts may follow the one that is the `attempt`-th of this call.
    unfoldable pub attempts_from : (left attempt : ℕ) → Code
    unfolding started_record failed_record max_attempts backoff count_attempt
    attempts_from zero attempt =
        throw (failed "Error" ("Scenario action '" +++ action +++ "' failed.")) idle
    attempts_from (suc left) attempt =
        check_abort s
        >> sync (count_attempt step_id) (λ w.
          let actual = next_attempt step_id w in
          let started = w.now in
          await (on_step (started_record actual started))
          >> settle (try_action actual started) (λ output. ret output idle)
              (λ error. read (λ v.
                let cancelled = is_cancellation error s v in
                await (on_step (failed_record actual started v.now cancelled error))
                >> (if cancelled || leb max_attempts attempt
                    then throw error idle
                    else (abortable_delay (backoff attempt) s
                        >> attempts_from left (attempt + 1))))))

    unfoldable pub execute_attempted_action : Code
    unfolding max_attempts
    execute_attempted_action = attempts_from max_attempts 1
