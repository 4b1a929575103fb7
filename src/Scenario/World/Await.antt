-- ===== src/Scenario/World/Await.antt =====
-- Calls and answers. An `await` of the engine is a `call`; the answer says how much time has passed
-- since anything last happened, and whether the caller's signal was aborted in that time.
use testy_mc_testface.Prelude.{
  ℕ, ◌+◌, String, Bool, true, List, [], ◌∷◌, ◌++◌, Option, none, some, Table, insert,
}
use testy_mc_testface.Process.{Process, idle, ret, throw, sync, call}
use testy_mc_testface.Scenario.Value.{Value}
use testy_mc_testface.Scenario.Status.{RunStatus}
use testy_mc_testface.Scenario.Errors.{Thrown}
use testy_mc_testface.Scenario.Types.{
  ResourceLease, StepRecord, TimelineRecord, Outcome, ExecutionReport,
}
use testy_mc_testface.Scenario.World.{World, CleanupEntry, Abort}

pub data Request : Type 0 where
  on_status : RunStatus → Request
  on_step : StepRecord → Request
  on_timeline : TimelineRecord → Request
  on_resource_lease : ResourceLease → Request
  on_resource_released : (lease_id : String) (released_at : ℕ) → Request
  invoke : (action : String) (input : Option Value) (outputs : Table Value) → Request
  run_cleanup : CleanupEntry → Request
  sleep : ℕ → Request

-- What an action handler asks of its context. The identity of a lease is drawn at random.
pub data Registration : Type 0 where
  register_cleanup : (name : String) (cleanup : ℕ) → Registration
  register_lease :
      (lease_id resource_type resource_key expires_at : String) (cleanup : ℕ) → Registration

-- `pends`: the promise has not settled when its signal is aborted, or never settles.
pub data Answer : Type 0 where
  resolves : Option Value → Answer
  rejects : Thrown → Answer
  pends : Answer

pub record Reply : Type 0 where
  pub elapsed : ℕ
  pub aborted : Option Thrown
  pub registrations : List Registration
  pub answer : Answer

-- What the engine's functions return.
pub data Returned : Type 0 where
  undefined : Returned
  value : Value → Returned
  ended : Outcome → Option Thrown → Returned
  report : ExecutionReport → Returned

abbrev pub Code : Type 0
Code = Process World Request Reply Returned Thrown

forward : Bool → Option Abort → ℕ → Option Thrown → Option Abort
forward true none now (some reason) = some (record { at = now; reason = reason })
forward attached forwarded now aborted = forwarded

unfoldable pub advance : Reply → World → World
unfolding forward
advance r w = record w {
  now = w.now + r.elapsed;
  forwarded = forward w.attached w.forwarded (w.now + r.elapsed) r.aborted;
}

abbrev pub returned_value : Option Value → Returned
returned_value none = undefined
returned_value (some v) = value v

unfoldable pub answered : Answer → Code
answered (resolves v) = ret (returned_value v) idle
answered (rejects e) = throw e idle
answered pends = idle

unfoldable pub await : Request → Code
unfolding advance answered
await q = call q (λ r. sync (advance r) (λ _. answered r.answer))

unfoldable pub done : Code
done = ret undefined idle

unfoldable pub push_cleanup : CleanupEntry → World → World
push_cleanup entry w = record w { cleanups = w.cleanups ++ entry ∷ [] }

abbrev pub output_of : Returned → Option Value
output_of (value v) = some v
output_of _ = none

-- `if (output !== undefined) outputs[id] = output`.
unfoldable pub set_output : String → Returned → World → World
set_output id (value v) w = record w { outputs = insert id v w.outputs }
set_output id _ w = w
