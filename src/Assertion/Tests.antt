-- ===== src/Assertion/Tests.antt =====
-- A run with two calls and three attempts at a step.
use testy_mc_testface.Prelude.{
  ◌≡◌, ◌↔◌, ◌⊎◌, refl, ℕ, ◌≤◌, pos, String, true, false, List, [], ◌∷◌, map, some, none, length,
  inr, select, All,
}
use testy_mc_testface.Prelude.TextOrder.{text_le, text_le_total, text_le_trans}
use testy_mc_testface.Scenario.Value.{Value, num, obj, member, end, get_member}
use testy_mc_testface.Scenario.Status.{running}
use testy_mc_testface.Scenario.Types.{StepRecord, StepStatus, task_kind, step_passed, step_failed}
use testy_mc_testface.Scenario.Repository.Records.{PersistedProviderCall, AssertionResult}
use testy_mc_testface.Scenario.Repository.Reports.{AssertionSnapshot}
use testy_mc_testface.Assertion.{
  ProviderCallSelector, Bounds, equals, not_equals, Platform, AssertionDefinition,
  provider_call_order,
}
use testy_mc_testface.Assertion.Values.{compare_observation}
use testy_mc_testface.Assertion.Matching.{
  matches_provider, sort_by, insert_sorted, find_index, follows_order,
}
use testy_mc_testface.Assertion.Verdicts.{
  evaluate_provider_call_order, evaluate_provider_call_count, evaluate_observation_count,
  evaluate_step, latest_step, is_exact, observed_records,
}
use testy_mc_testface.Assertion.Evaluate.{evaluate_assertions}
use testy_mc_testface.Assertion.Order.{Embeds, evaluate_provider_call_order_iff}
use testy_mc_testface.Assertion.Counts.{IsWithin, evaluate_count_iff}
use testy_mc_testface.Assertion.Latest.{Occurs, is_step, evaluate_step_passed}
use testy_mc_testface.Assertion.Canonical.{IsPreorder, swap, compare_observation-Reorders}

abbrev platform : Platform
platform = record {
  collates = text_le;
  decimal = λ _. "200";
  parse_int = λ _. none;
  sanitize_string = λ s. s;
  sensitive_key = λ _. false;
}

abbrev call : String → String → PersistedProviderCall
call vendor at = record {
  run_id = "run";
  vendor_id = vendor;
  operation_id = none;
  case_id = none;
  correlation_id = none;
  sequence_index = none;
  status_code = some 200;
  duration_ms = none;
  metadata = [];
  occurred_at = at;
}

abbrev attempt : ℕ → StepStatus → StepRecord
attempt n status = record {
  run_id = "run";
  step_id = "work";
  kind = task_kind;
  phase = running;
  status = status;
  attempt = n;
  started_at = 0;
  completed_at = none;
  duration_ms = none;
  output_fingerprint = none;
  error = none;
}

abbrev snapshot : AssertionSnapshot
snapshot = record {
  run_id = "run";
  provider_calls = call "mail" "2" ∷ call "crm" "1" ∷ [];
  browser_actions = [];
  observations = [];
  steps = attempt 2 step_passed ∷ attempt 1 step_failed ∷ [];
  artifacts = [];
}

abbrev selector : String → ProviderCallSelector
selector vendor = record {
  vendor_id = vendor;
  operation_id = none;
  case_id = none;
  status_code = none;
}

abbrev sequence : List ProviderCallSelector
sequence = selector "crm" ∷ selector "mail" ∷ []

evaluator : Unit {0}
unfolding evaluate_assertions evaluate_provider_call_order evaluate_step latest_step sort_by
    insert_sorted find_index follows_order matches_provider get_member text_le
evaluator = tt

abbrev definition : AssertionDefinition
definition = record {
  id = "order";
  severity = none;
  description = none;
  kind = provider_call_order sequence (some true);
}

passes_in_order :
    map
      (λ (r : AssertionResult). r.passed)
      (evaluate_assertions platform "now"
        (definition
          ∷ record definition { kind = provider_call_order (selector "mail" ∷ sequence) none }
          ∷ [])
        snapshot)
    ≡ true ∷ false ∷ []
unfolding evaluator
passes_in_order = refl

evaluate_provider_call_order_iff_example :
    ((evaluate_provider_call_order platform "order" sequence (some true) snapshot).passed ≡ true)
    ↔ (Embeds sequence (
          sort_by
            (λ (l r : PersistedProviderCall). platform.collates l.occurred_at r.occurred_at)
            snapshot.provider_calls)
        × ((is_exact (some true) ≡ false)
            ⊎ (length (
                  sort_by
                    (λ (l r : PersistedProviderCall). platform.collates l.occurred_at r.occurred_at)
                    snapshot.provider_calls)
                ≡ length sequence)))
evaluate_provider_call_order_iff_example =
    evaluate_provider_call_order_iff platform "order" sequence (some true) snapshot

abbrev one_or_more : Bounds
one_or_more = record { equals = none; minimum = some 1; maximum = none }

evaluate_count_iff_example :
    (((evaluate_provider_call_count platform "c" (selector "crm") one_or_more snapshot).passed
        ≡ true)
      ↔ IsWithin one_or_more
          (length (select (λ r. matches_provider r (selector "crm")) snapshot.provider_calls)))
    × (((evaluate_observation_count platform "c" "o" none one_or_more snapshot).passed ≡ true)
        ↔ IsWithin one_or_more (length (observed_records platform "o" none snapshot)))
evaluate_count_iff_example =
    evaluate_count_iff platform "c" "o" none (selector "crm") one_or_more snapshot

has_passed : (evaluate_step platform "work" snapshot).passed ≡ true
unfolding evaluator
has_passed = refl

evaluate_step_passed_example :
    (r : StepRecord) × Occurs r snapshot.steps
    × (r.step_id ≡ "work")
    × (r.status ≡ step_passed)
    × All (λ (s : StepRecord). (is_step "work" s ≡ false) ⊎ (s.attempt ≤ r.attempt)) snapshot.steps
evaluate_step_passed_example = evaluate_step_passed platform "work" snapshot has_passed

abbrev order : IsPreorder platform.collates
order = record { total = text_le_total; trans = text_le_trans }

abbrev ab : Value
ab = obj (member "a" (num (pos 1)) (member "b" (num (pos 2)) end))

abbrev ba : Value
ba = obj (member "b" (num (pos 2)) (member "a" (num (pos 1)) end))

compare_observation-Reorders_example :
    (compare_observation platform equals (some ab) (some ab)
      ≡ compare_observation platform equals (some ba) (some ab))
    × (compare_observation platform equals (some ab) (some ab)
        ≡ compare_observation platform equals (some ab) (some ba))
    × (compare_observation platform not_equals (some ab) (some ab)
        ≡ compare_observation platform not_equals (some ba) (some ab))
    × (compare_observation platform not_equals (some ab) (some ab)
        ≡ compare_observation platform not_equals (some ab) (some ba))
unfolding text_le
compare_observation-Reorders_example =
    compare_observation-Reorders platform order (some ab) (swap (inr refl))
