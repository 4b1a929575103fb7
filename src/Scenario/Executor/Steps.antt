-- ===== src/Scenario/Executor/Steps.antt =====
-- Executing steps, of packages/scenario-engine/src/executor.ts: tasks, polls, parallel groups,
-- repetitions and conditions.
use testy_mc_testface.Prelude.{
  ℕ, zero, suc, ◌+◌, String, [], ◌∷◌, ◌++◌, Option, none, some, Table, leb, if◌then◌else◌, or_else,
  str_eq, ◌+++◌,
}
use testy_mc_testface.Process.{idle, ret, throw, sync, settle, ◌>>=◌, ◌>>◌, par, read, write}
use testy_mc_testface.Scenario.Value.{
  Value, null, str, obj, member, end, to_members, same_value, read_path,
}
use testy_mc_testface.Scenario.Status.{RunStatus}
use testy_mc_testface.Scenario.Errors.{Thrown, timed_out, failed}
use testy_mc_testface.Scenario.Types.{
  Condition, TaskStep, PollStep, ActionCall, Step, Steps, task, poll, parallel, repeat, condition,
  condition_else, nil, cons, task_kind, poll_kind,
}
use testy_mc_testface.Scenario.World.{World, Signal, grouped, abort_group}
use testy_mc_testface.Scenario.World.Await.{Code, undefined, done, output_of, set_output}
use testy_mc_testface.Scenario.Executor.Actions.{
  Setup, check_abort, abortable_delay, run_with_timeout, execute_attempted_action,
}

-- What a condition comes to: a path that is no text has no `replace` that could be called.
pub data Tested : Type 0 where
  met unmet : Tested
  broken : Thrown → Tested

abbrev compared : (equals : Value) → (actual : Option Value) → Tested
compared equals none = unmet
compared equals (some v) = if same_value v equals then met else unmet

abbrev test_path : (path equals root : Value) → (current : Option Value) → Tested
test_path (str path) equals root current =
    compared equals (if str_eq path "$" then current else read_path root path)
test_path null equals root current =
    broken (failed "TypeError" "Cannot read properties of null (reading 'replace')")
test_path _ equals root current = broken (failed "TypeError" "path.replace is not a function")

-- `conditionMatches`: the value at the path has the JSON text that is expected.
unfoldable pub condition_matches : Condition → Table Value → Table Value → Option Value → Tested
unfolding same_value read_path
condition_matches c variables outputs current =
    test_path c.path c.equals
      (obj (
        member "variables" (obj (to_members variables))
          (member "outputs" (obj (to_members outputs)) end)))
      current

-- An `if` on a condition.
unfoldable pub branch : Tested → (fine otherwise : Code) → Code
branch met fine otherwise = fine
branch unmet fine otherwise = otherwise
branch (broken e) fine otherwise = throw e idle

abbrev pub add_compensation : String → Option ActionCall → World → World
add_compensation id none w = w
add_compensation id (some c) w = record w {
  compensations = w.compensations ++ record { step_id = id; call = c } ∷ [];
}

unfoldable pub repeated : ℕ → Code → Code
repeated zero p = done
repeated (suc n) p = p >> repeated n p

abbrev pub start_group : World → World
start_group w = record w { next_group = w.next_group + 1 }

-- `new AbortController()` behind the signal of the step.
unfoldable pub with_group : Signal → (ℕ → Signal → Code) → Code
with_group s body = sync start_group (λ w. body w.next_group (grouped s w.next_group))

-- A child that rejects aborts its group.
unfoldable pub group_child : ℕ → Code → Code
unfolding abort_group
group_child i p =
    settle p (λ v. ret v idle) (λ error. sync (abort_group i error) (λ _. throw error idle))

module _ (setup : Setup) (phase : RunStatus) where
  open setup use {scenario, decimal, poll_rounds}

  unfoldable pub execute_task : TaskStep → Signal → Code
  unfolding set_output
  execute_task t s =
      execute_attempted_action setup t.id task_kind t.action t.input t.retry t.timeout_ms phase s
      >>= λ output.
          write (set_output t.id output) undefined
          >> write (add_compensation t.id t.compensate) undefined

  -- `while (Date.now() <= deadline)`. A poll that goes on longer than `rounds` is followed no more.
  unfoldable pub poll_until : PollStep → (deadline rounds : ℕ) → Signal → Code
  unfolding condition_matches branch set_output
  poll_until p deadline zero s = idle
  poll_until p deadline (suc rounds) s = read (λ w.
      if leb w.now deadline
      then (execute_attempted_action setup p.id poll_kind p.action p.input p.retry none phase s
          >>= λ output. sync (set_output p.id output) (λ _. read (λ v.
            branch (condition_matches p.until scenario.variables v.outputs (output_of output)) done
              (abortable_delay p.interval_ms s >> poll_until p deadline rounds s))))
      else throw (timed_out ("Poll step '" +++ p.id +++ "' exceeded its timeout.")) idle)

  unfoldable pub execute_poll : PollStep → Signal → Code
  execute_poll p s =
      read (λ w. poll_until p (w.now + or_else p.timeout_ms scenario.timeout_ms) poll_rounds s)

  -- The time limit of a step that is no task.
  unfoldable pub limited : String → Option ℕ → (Signal → Code) → Signal → Code
  limited id none execute s = execute s
  limited id (some ms) execute s = run_with_timeout setup execute ms s ("Step '" +++ id +++ "'")

  unfoldable mutual
    unfolding condition_matches branch

    pub execute_step : Step → Signal → Code
    execute_step (task t) s = execute_task t s
    execute_step (poll p) s = limited p.id p.timeout_ms (execute_poll p) s
    execute_step (parallel id timeout steps) s =
        limited id timeout (λ t. with_group t (λ i g. execute_children steps i g)) s
    execute_step (repeat id timeout times steps) s =
        limited id timeout (λ t. repeated times (execute_steps steps t)) s
    execute_step (condition id timeout c then_steps) s =
        limited id timeout
          (λ t. read (λ w.
            branch (condition_matches c scenario.variables w.outputs none)
              (execute_steps then_steps t) done))
          s
    execute_step (condition_else id timeout c then_steps else_steps) s =
        limited id timeout
          (λ t. read (λ w.
            branch (condition_matches c scenario.variables w.outputs none)
              (execute_steps then_steps t) (execute_steps else_steps t)))
          s

    pub execute_steps : Steps → Signal → Code
    execute_steps nil s = done
    execute_steps (cons x rest) s = check_abort s >> execute_step x s >> execute_steps rest s

    -- The children of a parallel group under the group's signal.
    pub execute_children : Steps → ℕ → Signal → Code
    execute_children nil i g = done
    execute_children (cons x rest) i g =
        par (group_child i (execute_step x g)) (execute_children rest i g)
