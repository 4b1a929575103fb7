-- ===== src/Scenario/Types.antt =====
-- The resolved scenarios of packages/scenario-engine/src/types.ts.
use testy_mc_testface.Prelude.{ℕ, String, Option, List, Table}
use testy_mc_testface.Scenario.Value.{Value}
use testy_mc_testface.Scenario.Status.{RunStatus}
use testy_mc_testface.Scenario.Errors.{SanitizedError}

-- Delays and factors are whole numbers.
pub record RetryPolicy : Type 0 where
  pub attempts : ℕ
  pub delay_ms : Option ℕ
  pub backoff_factor : Option ℕ

-- A path is a text in the file; a variable can make any value of it.
pub record Condition : Type 0 where
  pub path : Value
  pub equals : Value

pub record ActionCall : Type 0 where
  pub action : String
  pub input : Option Value

pub record TaskStep : Type 0 where
  pub id : String
  pub timeout_ms : Option ℕ
  pub action : String
  pub input : Option Value
  pub retry : Option RetryPolicy
  pub compensate : Option ActionCall

pub record PollStep : Type 0 where
  pub id : String
  pub timeout_ms : Option ℕ
  pub action : String
  pub input : Option Value
  pub until : Condition
  pub interval_ms : ℕ
  pub retry : Option RetryPolicy

-- A condition with an `else` is a constructor of its own.
mutual
  pub data Step : Type 0 where
    task : TaskStep → Step
    poll : PollStep → Step
    parallel : (id : String) (timeout_ms : Option ℕ) → Steps → Step
    repeat : (id : String) (timeout_ms : Option ℕ) (times : ℕ) → Steps → Step
    condition : (id : String) (timeout_ms : Option ℕ) → Condition → Steps → Step
    condition_else : (id : String) (timeout_ms : Option ℕ) → Condition → Steps → Steps → Step

  pub data Steps : Type 0 where
    nil : Steps
    cons : Step → Steps → Steps

pub data StepKind : Type 0 where
  task_kind poll_kind parallel_kind repeat_kind condition_kind : StepKind

pub record Phases : Type 0 where
  pub allocate : Steps
  pub compile : Steps
  pub configure : Steps
  pub run : Steps
  pub observe : Steps
  pub assert : Steps

pub record ResolvedScenario : Type 0 where
  pub scenario_id : String
  pub display_name : String
  pub target : String
  pub timeout_ms : ℕ
  pub variables : Table Value
  pub phases : Phases
  pub content_hash : String

pub record ResourceLease : Type 0 where
  pub lease_id : String
  pub run_id : String
  pub resource_type : String
  pub resource_key : String
  pub expires_at : String

pub data StepStatus : Type 0 where
  step_running step_passed step_failed step_cancelled step_skipped : StepStatus

pub record StepRecord : Type 0 where
  pub run_id : String
  pub step_id : String
  pub kind : StepKind
  pub phase : RunStatus
  pub status : StepStatus
  pub attempt : ℕ
  pub started_at : ℕ
  pub completed_at : Option ℕ
  pub duration_ms : Option ℕ
  pub output_fingerprint : Option String
  pub error : Option SanitizedError

pub data Category : Type 0 where
  lifecycle_category step_category cleanup_category engine_category assertion_category : Category

pub record TimelineRecord : Type 0 where
  pub occurred_at : ℕ
  pub run_id : String
  pub category : Category
  pub name : String
  pub metadata : Table Value

pub data Outcome : Type 0 where
  passed_outcome failed_outcome cancelled_outcome : Outcome

pub record ExecutionReport : Type 0 where
  pub run_id : String
  pub scenario_id : String
  pub content_hash : String
  pub status : Outcome
  pub started_at : ℕ
  pub completed_at : ℕ
  pub output_keys : List String
  pub output_fingerprints : Table String
  pub cleanup_errors : List SanitizedError
  pub error : Option SanitizedError
