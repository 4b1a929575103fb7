-- ===== src/Assertion.antt =====
-- packages/assertion-engine: the verdicts on a run. The definitions are those of types.ts; the
-- snapshot is the one that the scenario engine's repository builds. Bounds are whole numbers.
pub mod Values
pub mod Matching
pub mod Verdicts
pub mod Evaluate
pub mod Order
pub mod Counts
pub mod Canonical
pub mod Latest
pub mod Tests
use testy_mc_testface.Prelude.{ℕ, ℤ, String, Bool, List, Option}
use testy_mc_testface.Scenario.Value.{Value}
use testy_mc_testface.Scenario.Types.{Outcome}
use testy_mc_testface.Scenario.Repository.Records.{Severity}

pub record ProviderCallSelector : Type 0 where
  pub vendor_id : String
  pub operation_id : Option String
  pub case_id : Option String
  pub status_code : Option ℕ

pub record Bounds : Type 0 where
  pub equals : Option ℕ
  pub minimum : Option ℕ
  pub maximum : Option ℕ

pub data Operator : Type 0 where
  equals not_equals contains present absent at_least at_most : Operator

pub record ObservationAssertion : Type 0 where
  pub observation_type : String
  pub path : Option String
  pub operator : Operator
  pub expected : Option Value
  pub status : Option String
  pub latest : Option Bool

pub record BrowserActionAssertion : Type 0 where
  pub journey_id : String
  pub step_id : Option String
  pub action : Option String
  pub expected_status : Option Outcome
  pub minimum : Option ℕ

-- What an assertion asks for.
pub data Kind : Type 0 where
  provider_call_count : ProviderCallSelector → Bounds → Kind
  provider_call_order : (sequence : List ProviderCallSelector) → (exact : Option Bool) → Kind
  browser_journey_passed : (journey_id : String) → Kind
  browser_action : BrowserActionAssertion → Kind
  observation : ObservationAssertion → Kind
  observation_count : (observation_type : String) → (status : Option String) → Bounds → Kind
  step_passed : (step_id : String) → Kind
  artifact_present : (kind : String) → (minimum : Option ℕ) → Kind
  no_unexpected_external_calls : (observation_type : Option String) → Kind

pub record AssertionDefinition : Type 0 where
  pub id : String
  pub severity : Option Severity
  pub description : Option String
  pub kind : Kind

-- What the platform gives: the order of `localeCompare`, the decimal form of a number,
-- `Number.parseInt`, and the regular expressions that blank out what is sensitive.
pub record Platform : Type 0 where
  pub collates : String → String → Bool
  pub decimal : ℕ → String
  pub parse_int : String → Option ℤ
  pub sanitize_string : String → String
  pub sensitive_key : String → Bool
