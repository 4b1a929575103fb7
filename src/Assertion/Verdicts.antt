-- ===== src/Assertion/Verdicts.antt =====
-- The nine verdicts: evaluator.ts.
use testy_mc_testface.Prelude.{
  ℕ, pos, eq_ℤ, String, Bool, true, false, not, ◌&&◌, ◌||◌, List, [], ◌∷◌, map, Option, none, some,
  is_some, or_else, str_eq, leb, ltb, ◌==◌, length, select, last?, if◌then◌else◌, ◌+++◌, join,
}
use testy_mc_testface.Scenario.Value.{
  Value, null, bool, num, str, arr, obj, Items, nil, cons, Members, end, member,
}
use testy_mc_testface.Scenario.Types.{
  Outcome, passed_outcome, failed_outcome, cancelled_outcome, StepRecord, StepStatus, step_running,
  step_passed, step_failed, step_cancelled, step_skipped,
}
use testy_mc_testface.Scenario.Repository.Records.{
  PersistedProviderCall, PersistedBrowserAction, PersistedObservation, PersistedArtifact,
}
use testy_mc_testface.Scenario.Repository.Reports.{AssertionSnapshot}
use testy_mc_testface.Assertion.{
  ProviderCallSelector, Bounds, Operator, present, absent, ObservationAssertion,
  BrowserActionAssertion, Platform,
}
use testy_mc_testface.Assertion.Values.{read_path, number_at, compare_observation}
use testy_mc_testface.Assertion.Matching.{
  admits_text, matches_provider, matches_bounds, sort_by, follows_order,
}

pub record Evaluation : Type 0 where
  pub passed : Bool
  pub message : String
  pub expected : Option Value
  pub actual : Option Value

abbrev number : ℕ → Value
number n = num (pos n)

abbrev optional_member : String → Option ℕ → Members → Members
optional_member key none rest = rest
optional_member key (some n) rest = member key (number n) rest

abbrev pub bounds_value : Bounds → Value
bounds_value b = elim b.equals [
  | some n ↦ obj (member "equals" (number n) end)
  | none ↦ obj (optional_member "minimum" b.minimum (optional_member "maximum" b.maximum end))
]

abbrev pub outcome_text : Outcome → String
outcome_text passed_outcome = "PASSED"
outcome_text failed_outcome = "FAILED"
outcome_text cancelled_outcome = "CANCELLED"

abbrev pub step_status_text : StepStatus → String
step_status_text step_running = "RUNNING"
step_status_text step_passed = "PASSED"
step_status_text step_failed = "FAILED"
step_status_text step_cancelled = "CANCELLED"
step_status_text step_skipped = "SKIPPED"

abbrev to_items : List String → Items
to_items [] = nil
to_items (s ∷ rest) = cons (str s) (to_items rest)

abbrev verdict : Bool → String → String → Value → Value → Evaluation
verdict passed subject otherwise expected actual = record {
  passed = passed;
  message = subject +++ (if passed then " passed." else otherwise);
  expected = some expected;
  actual = some actual;
}

abbrev pub is_exact : Option Bool → Bool
is_exact (some true) = true
is_exact _ = false

module _ (p : Platform) where
  abbrev label : (vendor : String) → (operation case : Option String) → (status : Option ℕ) → String
  label vendor operation case status = join ":" (
      vendor
      ∷ or_else operation "*"
      ∷ or_else case "*"
      ∷ elim status [ none ↦ "*" | some n ↦ p.decimal n ]
      ∷ [])

  abbrev provider_label : PersistedProviderCall → String
  provider_label r = label r.vendor_id r.operation_id r.case_id r.status_code

  abbrev selector_label : ProviderCallSelector → String
  selector_label s = label s.vendor_id s.operation_id s.case_id s.status_code

  unfoldable pub evaluate_provider_call_count :
      (id : String) → ProviderCallSelector → Bounds → AssertionSnapshot → Evaluation
  unfolding matches_provider matches_bounds
  evaluate_provider_call_count id selector bounds snapshot =
      let actual = length (select (λ r. matches_provider r selector) snapshot.provider_calls) in
      verdict (matches_bounds actual bounds) ("Provider call count assertion '" +++ id +++ "'")
        " failed." (bounds_value bounds) (number actual)

  unfoldable pub evaluate_provider_call_order :
      (id : String)
      → List ProviderCallSelector
      → (exact : Option Bool) → AssertionSnapshot
      → Evaluation
  unfolding sort_by follows_order
  evaluate_provider_call_order id sequence exact snapshot =
      let records =
        sort_by (λ (l r : PersistedProviderCall). p.collates l.occurred_at r.occurred_at)
          snapshot.provider_calls in
      verdict
        (follows_order 0 sequence records
          && (not (is_exact exact) || length records == length sequence))
        ("Provider call order assertion '" +++ id +++ "'") " failed."
        (arr (to_items (map selector_label sequence))) (arr (to_items (map provider_label records)))

  unfoldable pub evaluate_browser_journey : (journey : String) → AssertionSnapshot → Evaluation
  evaluate_browser_journey journey snapshot =
      let records =
        select (λ (r : PersistedBrowserAction). str_eq r.journey_id journey)
          snapshot.browser_actions in
      let failures =
        select (λ (r : PersistedBrowserAction). not (str_eq (outcome_text r.status) "PASSED"))
          records in
      verdict (ltb 0 (length records) && length failures == 0)
        ("Browser journey '" +++ journey +++ "'") " did not pass."
        (obj (member "minimumActions" (number 1) (member "failedActions" (number 0) end)))
        (obj (
          member "actions" (number (length records))
            (member "failedActions" (number (length failures)) end)))

  unfoldable pub evaluate_browser_action :
      (id : String) → BrowserActionAssertion → AssertionSnapshot → Evaluation
  evaluate_browser_action id a snapshot =
      let status = outcome_text (or_else a.expected_status passed_outcome) in
      let records =
        select
          (λ (r : PersistedBrowserAction).
            str_eq r.journey_id a.journey_id
            && (admits_text a.step_id (some r.step_id)
                && (admits_text a.action (some r.action) && str_eq (outcome_text r.status) status)))
          snapshot.browser_actions in
      let minimum = or_else a.minimum 1 in
      verdict (leb minimum (length records)) ("Browser action assertion '" +++ id +++ "'")
        " failed." (obj (member "status" (str status) (member "minimum" (number minimum) end)))
        (number (length records))

  abbrev pub observed_records :
      (observation_type : String)
      → (status : Option String) → AssertionSnapshot
      → List PersistedObservation
  observed_records observation_type status snapshot =
      select
        (λ (r : PersistedObservation).
          str_eq r.observation_type observation_type && admits_text status (some r.status))
        snapshot.observations

  abbrev first? : List PersistedObservation → Option PersistedObservation
  first? [] = none
  first? (x ∷ _) = some x

  abbrev value_of : Option PersistedObservation → Option Value
  value_of none = none
  value_of (some o) = o.value

  abbrev is_first : Option Bool → Bool
  is_first (some false) = true
  is_first _ = false

  abbrev expectation : Operator → Option Value → Value
  expectation present expected = str "present"
  expectation absent expected = str "absent"
  expectation _ expected = or_else expected null

  unfoldable pub evaluate_observation :
      (id : String) → ObservationAssertion → AssertionSnapshot → Evaluation
  unfolding read_path compare_observation
  evaluate_observation id a snapshot =
      let records = observed_records a.observation_type a.status snapshot in
      let selected = if is_first a.latest then first? records else last? records in
      let actual : Option Value = elim selected [
        | none ↦ none
        | some o ↦ read_path p o.value a.path
      ] in
      verdict (compare_observation p a.operator actual a.expected)
        ("Observation assertion '" +++ id +++ "'") " failed." (expectation a.operator a.expected)
        (or_else actual null)

  unfoldable pub evaluate_observation_count :
      (id observation_type : String)
      → (status : Option String) → Bounds
      → AssertionSnapshot
      → Evaluation
  unfolding matches_bounds
  evaluate_observation_count id observation_type status bounds snapshot =
      let actual = length (observed_records observation_type status snapshot) in
      verdict (matches_bounds actual bounds) ("Observation count assertion '" +++ id +++ "'")
        " failed." (bounds_value bounds) (number actual)

  -- The last of the records with the highest attempt.
  unfoldable pub latest_step : (step_id : String) → AssertionSnapshot → Option StepRecord
  unfolding sort_by
  latest_step step_id snapshot = last? (
      sort_by (λ (l r : StepRecord). leb l.attempt r.attempt)
        (select (λ (r : StepRecord). str_eq r.step_id step_id) snapshot.steps))

  abbrev status_or_missing : Option StepRecord → String
  status_or_missing none = "MISSING"
  status_or_missing (some r) = step_status_text r.status

  unfoldable pub evaluate_step : (step_id : String) → AssertionSnapshot → Evaluation
  unfolding latest_step
  evaluate_step step_id snapshot =
      let status = status_or_missing (latest_step step_id snapshot) in
      verdict (str_eq status "PASSED") ("Step '" +++ step_id +++ "'") " did not pass."
        (str "PASSED") (str status)

  unfoldable pub evaluate_artifact :
      (id kind : String) → (minimum : Option ℕ) → AssertionSnapshot → Evaluation
  evaluate_artifact id kind minimum snapshot =
      let actual =
        length (select (λ (a : PersistedArtifact). str_eq a.kind kind) snapshot.artifacts) in
      verdict (leb (or_else minimum 1) actual) ("Artifact assertion '" +++ id +++ "'") " failed."
        (obj (member "kind" (str kind) (member "minimum" (number (or_else minimum 1)) end)))
        (number actual)

  unfoldable pub evaluate_no_unexpected_calls :
      (id : String) → (observation_type : Option String) → AssertionSnapshot → Evaluation
  unfolding number_at
  evaluate_no_unexpected_calls id observation_type snapshot =
      let latest =
        last?
          (observed_records (or_else observation_type "gateway-ledger-summary") none snapshot) in
      let rejected = number_at p (value_of latest) "rejectedCount" in
      let failed = number_at p (value_of latest) "failedCount" in
      verdict (is_some latest && (eq_ℤ rejected (pos 0) && eq_ℤ failed (pos 0)))
        ("Unexpected external call assertion '" +++ id +++ "'") " failed."
        (obj (member "rejectedCount" (number 0) (member "failedCount" (number 0) end)))
        (obj (
          member "observationPresent" (bool (is_some latest))
            (member "rejectedCount" (num rejected) (member "failedCount" (num failed) end))))
