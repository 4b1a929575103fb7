-- ===== src/Assertion/Evaluate.antt =====
-- `evaluateDefinition` and `evaluateAssertions`: evaluator.ts.
use testy_mc_testface.Prelude.{
  String, List, [], ◌∷◌, map, Option, none, some, is_empty, or_else, Table, if◌then◌else◌,
}
use testy_mc_testface.Scenario.Value.{Value, str}
use testy_mc_testface.Scenario.Repository.Records.{AssertionResult, error_severity}
use testy_mc_testface.Scenario.Repository.Reports.{AssertionSnapshot}
use testy_mc_testface.Assertion.{
  Kind, provider_call_count, provider_call_order, browser_journey_passed, browser_action,
  observation, observation_count, step_passed as step_kind, artifact_present,
  no_unexpected_external_calls, AssertionDefinition, Platform,
}
use testy_mc_testface.Assertion.Values.{sanitize_value}
use testy_mc_testface.Assertion.Verdicts.{
  Evaluation, evaluate_provider_call_count, evaluate_provider_call_order, evaluate_browser_journey,
  evaluate_browser_action, evaluate_observation, evaluate_observation_count, evaluate_step,
  evaluate_artifact, evaluate_no_unexpected_calls,
}

module _ (p : Platform) where
  unfoldable pub evaluate_kind : (id : String) → Kind → AssertionSnapshot → Evaluation
  unfolding evaluate_provider_call_count evaluate_provider_call_order evaluate_browser_journey
      evaluate_browser_action evaluate_observation evaluate_observation_count evaluate_step
      evaluate_artifact evaluate_no_unexpected_calls
  evaluate_kind id (provider_call_count s b) = evaluate_provider_call_count p id s b
  evaluate_kind id (provider_call_order s e) = evaluate_provider_call_order p id s e
  evaluate_kind id (browser_journey_passed j) = evaluate_browser_journey p j
  evaluate_kind id (browser_action a) = evaluate_browser_action p id a
  evaluate_kind id (observation a) = evaluate_observation p id a
  evaluate_kind id (observation_count t s b) = evaluate_observation_count p id t s b
  evaluate_kind id (step_kind s) = evaluate_step p s
  evaluate_kind id (artifact_present k n) = evaluate_artifact p id k n
  evaluate_kind id (no_unexpected_external_calls t) = evaluate_no_unexpected_calls p id t

  abbrev type_name : Kind → String
  type_name (provider_call_count _ _) = "provider-call-count"
  type_name (provider_call_order _ _) = "provider-call-order"
  type_name (browser_journey_passed _) = "browser-journey-passed"
  type_name (browser_action _) = "browser-action"
  type_name (observation _) = "observation"
  type_name (observation_count _ _ _) = "observation-count"
  type_name (step_kind _) = "step-passed"
  type_name (artifact_present _ _) = "artifact-present"
  type_name (no_unexpected_external_calls _) = "no-unexpected-external-calls"

  abbrev sanitized : Option Value → Option Value
  sanitized none = none
  sanitized (some v) = some (sanitize_value p v)

  abbrev description_of : Option String → Table Value
  description_of none = []
  description_of (some d) =
      if is_empty d then [] else ("description", str (p.sanitize_string d)) ∷ []

  unfoldable pub evaluate_definition :
      (now : String) → AssertionDefinition → AssertionSnapshot → (run_id : String) → AssertionResult
  unfolding evaluate_kind sanitize_value
  evaluate_definition now d snapshot run_id =
      let evaluated = evaluate_kind d.id d.kind snapshot in
      record {
        run_id = run_id;
        assertion_id = d.id;
        assertion_type = type_name d.kind;
        severity = or_else d.severity error_severity;
        passed = evaluated.passed;
        message = p.sanitize_string evaluated.message;
        expected = sanitized evaluated.expected;
        actual = sanitized evaluated.actual;
        metadata = description_of d.description;
        asserted_at = now;
      }

  unfoldable pub evaluate_assertions :
      (now : String) → List AssertionDefinition → AssertionSnapshot → List AssertionResult
  unfolding evaluate_definition
  evaluate_assertions now definitions snapshot =
      map (λ d. evaluate_definition now d snapshot snapshot.run_id) definitions
