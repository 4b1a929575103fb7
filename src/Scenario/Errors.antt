-- ===== src/Scenario/Errors.antt =====
-- packages/scenario-engine/src/errors.ts: what the engine throws, and what it tells of it.
use testy_mc_testface.Prelude.{String, Option, none, some, is_empty, if◌then◌else◌}

-- An `Error` of one of the engine's classes, any other `Error`, or a thrown value that is none.
pub data Thrown : Type 0 where
  cancelled : (message : String) → Thrown
  timed_out : (message : String) → Thrown
  failed : (name message : String) → Thrown
  not_error : Thrown

abbrev pub cancelled_by_default : Thrown
cancelled_by_default = cancelled "Scenario execution cancelled."

pub record SanitizedError : Type 0 where
  pub name : String
  pub message : String
  pub code : Option String

-- `redact` stands for the regular expressions that blank out secrets and mail addresses.
unfoldable pub sanitize_scenario_error : (redact : String → String) → Thrown → SanitizedError
sanitize_scenario_error redact (cancelled message) = record {
  name = "ScenarioCancelledError";
  message = "Scenario execution cancelled.";
  code = some "cancelled";
}
sanitize_scenario_error redact (timed_out message) = record {
  name = "ScenarioTimeoutError";
  message = message;
  code = some "timeout";
}
sanitize_scenario_error redact (failed name message) = record {
  name = if is_empty name then "Error" else name;
  message = redact message;
  code = none;
}
sanitize_scenario_error redact not_error = record {
  name = "Error";
  message = "Unknown scenario execution error.";
  code = none;
}
