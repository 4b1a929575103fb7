-- ===== src/Scenario/Repository/Records.antt =====
-- The persisted records of packages/scenario-engine/src/types.ts, and the assertion results of
-- packages/assertion-engine/src/types.ts.
use testy_mc_testface.Prelude.{ℕ, String, Bool, Option, Table}
use testy_mc_testface.Scenario.Value.{Value}
use testy_mc_testface.Scenario.Status.{RunStatus}
use testy_mc_testface.Scenario.Types.{Outcome, ResolvedScenario, ResourceLease}

pub record PersistedRun : Type 0 where
  pub id : String
  pub scenario_id : String
  pub target : String
  pub status : RunStatus
  pub outcome_status : Option Outcome
  pub resolved_scenario_hash : String
  pub resolved_scenario : ResolvedScenario
  pub metadata : Table Value
  pub cancel_requested_at : Option String
  pub created_at : String
  pub updated_at : String
  pub started_at : Option String
  pub finished_at : Option String

pub record PersistedProviderCall : Type 0 where
  pub run_id : String
  pub vendor_id : String
  pub operation_id : Option String
  pub case_id : Option String
  pub correlation_id : Option String
  pub sequence_index : Option ℕ
  pub status_code : Option ℕ
  pub duration_ms : Option ℕ
  pub metadata : Table Value
  pub occurred_at : String

pub record PersistedBrowserAction : Type 0 where
  pub run_id : String
  pub journey_id : String
  pub step_id : String
  pub action : String
  pub status : Outcome
  pub duration_ms : Option ℕ
  pub page_fingerprint : Option String
  pub metadata : Table Value
  pub started_at : String
  pub completed_at : Option String

pub record PersistedObservation : Type 0 where
  pub observation_id : String
  pub run_id : String
  pub observation_type : String
  pub status : String
  pub value : Option Value
  pub metadata : Table Value
  pub observed_at : String

pub record PersistedArtifact : Type 0 where
  pub artifact_id : String
  pub run_id : String
  pub kind : String
  pub media_type : String
  pub location : String
  pub sha256 : String
  pub metadata : Table Value
  pub created_at : String

pub data Severity : Type 0 where
  error_severity warning_severity : Severity

pub record AssertionResult : Type 0 where
  pub run_id : String
  pub assertion_id : String
  pub assertion_type : String
  pub severity : Severity
  pub passed : Bool
  pub message : String
  pub expected : Option Value
  pub actual : Option Value
  pub metadata : Table Value
  pub asserted_at : String

pub data LeaseStatus : Type 0 where
  active released : LeaseStatus

pub record PersistedLease : Type 0 where
  pub lease : ResourceLease
  pub status : LeaseStatus
  pub released_at : Option String
