-- ===== src/Scenario/World.antt =====
-- The state that one execution of packages/scenario-engine/src/executor.ts shares, its abort signals,
-- and its calls to the outside world: the observer, the action handlers and the timers.
pub mod Await
use testy_mc_testface.Prelude.{
  ℕ, ◌+◌, ◌≤◌, String, Bool, true, false, ◌&&◌, not, List, [], ◌∷◌, ◌++◌, Option, none, some, Table,
  leb, ◌==◌, if◌then◌else◌, is_some,
}
use testy_mc_testface.Scenario.Value.{Value}
use testy_mc_testface.Scenario.Status.{RunStatus, created}
use testy_mc_testface.Scenario.Errors.{
  Thrown, cancelled, timed_out, failed, not_error, cancelled_by_default, SanitizedError,
}
use testy_mc_testface.Scenario.Types.{ActionCall}

-- `cleanup` names the callback, which stays with the action that registered it.
pub record CleanupEntry : Type 0 where
  pub name : String
  pub cleanup : ℕ
  pub lease_id : Option String

pub record CompensationEntry : Type 0 where
  pub step_id : String
  pub call : ActionCall

-- When a signal was aborted, and the reason.
pub record Abort : Type 0 where
  pub at : ℕ
  pub reason : Thrown

pub record World : Type 0 where
  pub now : ℕ
  -- The timer of the whole scenario, until it is cleared.
  pub deadline : Option Abort
  -- What the caller's signal has forwarded, and whether it still does.
  pub forwarded : Option Abort
  pub attached : Bool
  -- The controllers of the parallel groups.
  pub groups : List (ℕ × Abort)
  pub next_group : ℕ
  pub status : RunStatus
  pub outputs : Table Value
  pub attempts : Table ℕ
  pub cleanups : List CleanupEntry
  pub compensations : List CompensationEntry
  pub cleanup_errors : List SanitizedError

-- A signal: that of the execution, one that nobody aborts, one with a timer of its own behind a
-- parent, and that of a parallel group behind a parent.
pub data Signal : Type 0 where
  root never : Signal
  timed : Signal → Abort → Signal
  grouped : Signal → ℕ → Signal

-- The abort that comes first; the parent's if both come at once.
abbrev earliest : Option Abort → Option Abort → Option Abort
earliest none b = b
earliest (some a) none = some a
earliest (some a) (some b) = if leb a.at b.at then some a else some b

abbrev due : ℕ → Option Abort → Option Abort
due now none = none
due now (some a) = if leb a.at now then some a else none

abbrev group_abort : ℕ → List (ℕ × Abort) → Option Abort
group_abort i [] = none
group_abort i ((j, a) ∷ rest) = let later = group_abort i rest in if i == j then some a else later

-- A controller keeps its first reason, so a signal shows the earliest abort that reaches it.
unfoldable pub abort_of : World → Signal → Option Abort
abort_of w root = earliest w.forwarded (due w.now w.deadline)
abort_of w never = none
abort_of w (timed parent a) = earliest (abort_of w parent) (due w.now (some a))
abort_of w (grouped parent i) = earliest (abort_of w parent) (group_abort i w.groups)

message_of : Thrown → String
message_of (cancelled message) = message
message_of (timed_out message) = message
message_of (failed name message) = message
message_of not_error = ""

-- What the listener on an aborted signal rejects with.
unfoldable pub reason_thrown : Thrown → Thrown
reason_thrown not_error = cancelled_by_default
reason_thrown reason = reason

abbrev pub abort_reason : Signal → World → Option Thrown
abort_reason s w = elim (abort_of w s) [ none ↦ none | some a ↦ some (reason_thrown a.reason) ]

-- `throwIfAborted`: only a timeout keeps its reason.
unfoldable pub checked_reason : Thrown → Thrown
unfolding message_of
checked_reason (timed_out message) = timed_out message
checked_reason not_error = cancelled_by_default
checked_reason reason = cancelled (message_of reason)

abbrev pub thrown_if_aborted : Signal → World → Option Thrown
thrown_if_aborted s w = elim (abort_of w s) [
  | none ↦ none
  | some a ↦ some (checked_reason a.reason)
]

abbrev is_cancelled_error : Thrown → Bool
is_cancelled_error (cancelled _) = true
is_cancelled_error _ = false

abbrev is_timeout : Thrown → Bool
is_timeout (timed_out _) = true
is_timeout _ = false

unfoldable pub is_cancellation : Thrown → Signal → World → Bool
unfolding abort_of
is_cancellation (cancelled _) s w = true
is_cancellation error s w = elim (abort_of w s) [
  | none ↦ false
  | some a ↦ not (is_timeout a.reason)
]

-- `group.abort(error)`.
unfoldable pub abort_group : ℕ → Thrown → World → World
abort_group i error w = record w {
  groups = w.groups ++ (i, record { at = w.now; reason = error }) ∷ [];
}

-- `clearTimeout(timer); detachParent()`: an abort that has come stays, and no other comes.
unfoldable pub detach : World → World
unfolding abort_of
detach w = record w { deadline = none; forwarded = abort_of w root; attached = false }

-- The start of an execution: the caller's signal may be aborted already.
unfoldable pub start_world : ℕ → Abort → Option Thrown → World
start_world now timer aborted = record {
  now = now;
  deadline = some timer;
  forwarded = elim aborted [
    | none ↦ none
    | some reason ↦ some (record { at = now; reason = reason })
  ];
  attached = true;
  groups = [];
  next_group = 0;
  status = created;
  outputs = [];
  attempts = [];
  cleanups = [];
  compensations = [];
  cleanup_errors = [];
}
