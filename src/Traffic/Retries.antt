-- ===== src/Traffic/Retries.antt =====
-- The retry policy of util.ts, and `executeRequest` and `evaluateExpectation` of runner.ts.
use testy_mc_testface.Prelude.{
  ℕ, suc, zero, ◌-◌, ℤ, sub_ℕ, le_ℤ, pos, Bool, true, false, not, ◌&&◌, String, List, [], ◌∷◌, ◌++◌,
  Option, none, some, or_else, leb, ltb, ◌==◌, any, length, last?, if◌then◌else◌,
}
use testy_mc_testface.Traffic.{
  AttemptOutcome, response, response_too_large, AttemptResult, RequestResult, RouteBinding,
  Platform,
}
use testy_mc_testface.Traffic.Results.{Result, ok, ◌>>=◌, ◌>>◌, invalid}
use testy_mc_testface.Traffic.Limits.{number, Limits}
use testy_mc_testface.Traffic.Request.{Retry, NormalizedRequest, is_true}
use testy_mc_testface.Traffic.Attempts.{Moment, Course, throw_if_aborted, execute_attempt}

abbrev min : ℕ → ℕ → ℕ
min a b = if leb a b then a else b

unfoldable pub retry_delay_ms : Platform → Retry → (completed_attempt maximum : ℕ) → ℕ
retry_delay_ms p retry attempt maximum =
    let base = or_else retry.delay_ms 0 in
    let factor = or_else retry.backoff_factor (number 1) in
    min maximum (p.grown base factor (attempt - 1))

unfoldable pub should_retry_status : Retry → (status_code : ℕ) → Bool
should_retry_status retry status = elim retry.retry_on_statuses [
  | none ↦ false
  | some values ↦ any (λ v. v == status) values
]

unfoldable pub is_retriable_network_outcome : Retry → Bool
is_retriable_network_outcome retry = is_true retry.retry_on_network_error

abbrev pub is_response : AttemptOutcome → Bool
is_response response = true
is_response _ = false

abbrev is_oversized : AttemptOutcome → Bool
is_oversized response_too_large = true
is_oversized _ = false

-- What the outcome of an attempt says about another one.
unfoldable pub is_retriable : Retry → AttemptResult → Bool
unfolding should_retry_status is_retriable_network_outcome
is_retriable retry result =
    if is_response result.outcome
    then elim result.status_code [ none ↦ false | some status ↦ should_retry_status retry status ]
    else not (is_oversized result.outcome) && is_retriable_network_outcome retry

unfoldable pub should_retry : Retry → (attempt : ℕ) → AttemptResult → Bool
unfolding is_retriable
should_retry retry attempt result = ltb attempt retry.attempts && is_retriable retry result

abbrev pub reason : Bool → String → List String
reason true text = text ∷ []
reason false text = []

abbrev pub is_accepted : Option (List ℕ) → (status : ℕ) → Bool
is_accepted none status = leb 200 status && ltb status 400
is_accepted (some values) status = any (λ v. v == status) values

abbrev pub status_reason : Option (List ℕ) → (is_reply : Bool) → Option ℕ → List String
status_reason codes is_reply none = []
status_reason codes is_reply (some status) =
    reason (is_reply && not (is_accepted codes status)) "unexpected-status"

abbrev pub is_below : Option ℕ → ℤ → Bool
is_below none total = false
is_below (some least) total = not (le_ℤ (pos least) total)

abbrev pub is_above : Option ℕ → ℤ → Bool
is_above none total = false
is_above (some most) total = not (le_ℤ total (pos most))

abbrev pub differs : Option ℕ → ℕ → Bool
differs none count = false
differs (some expected) count = not (expected == count)

abbrev pub network_reason : (expected received : Bool) → List String
network_reason true false = "network-failure-not-observed" ∷ []
network_reason false true = "unexpected-network-failure" ∷ []
network_reason _ _ = []

unfoldable pub evaluate_expectation :
    NormalizedRequest → AttemptResult → (attempt_count : ℕ) → (total_duration_ms : ℤ) → List String
evaluate_expectation request final count total =
    let e = request.expect in
    network_reason (is_true e.network_failure) (not (is_response final.outcome))
    ++ (status_reason e.status_codes (is_response final.outcome) final.status_code
        ++ (reason (is_below e.min_duration_ms total) "duration-below-minimum"
            ++ (reason (is_above e.max_duration_ms total) "duration-above-maximum"
                ++ reason (differs e.attempt_count count) "unexpected-attempt-count")))

abbrev pub is_nil {ℓ} : {A : Type ℓ} → List A → Bool
is_nil [] = true
is_nil (_ ∷ _) = false

unfoldable pub concluded_request :
    NormalizedRequest → Course → (final : AttemptResult) → List AttemptResult → RequestResult
unfolding evaluate_expectation
concluded_request request course final attempts =
    let total = sub_ℕ course.completed course.started in
    let reasons = evaluate_expectation request final (length attempts) total in
    record {
      request_id = request.id;
      passed = is_nil reasons;
      method = request.method;
      path_fingerprint = request.path_fingerprint;
      attempt_count = length attempts;
      total_duration_ms = total;
      started_at = course.started;
      completed_at = course.completed;
      attempts = attempts;
      final_status_code = final.status_code;
      failure_reasons = reasons;
    }

module _ (p : Platform) (limits : Limits) (route : RouteBinding) (request : NormalizedRequest) where
  -- The loop of `executeRequest`, with the rounds that its test allows.
  unfoldable pub attempts_from :
      (rounds attempt : ℕ) → (moment : (attempt : ℕ) → Moment) → Result (List AttemptResult)
  unfolding throw_if_aborted execute_attempt should_retry retry_delay_ms
  attempts_from zero attempt moment = ok []
  attempts_from (suc rounds) attempt moment =
      let later = attempts_from rounds (suc attempt) moment in
      let now = moment attempt in
      throw_if_aborted now.aborted_before
      >> (execute_attempt p limits route request attempt now >>= λ result.
          if should_retry request.retry attempt result
          then (let delay = retry_delay_ms p request.retry attempt limits.max_retry_delay_ms in
              let kept = record result { scheduled_retry_delay_ms = some delay } in
              now.slept >> (later >>= λ rest. ok (kept ∷ rest)))
          else ok (result ∷ []))

  abbrev pub with_final : Course → List AttemptResult → Option AttemptResult → Result RequestResult
  with_final course attempts none = invalid
  with_final course attempts (some final) = ok (concluded_request request course final attempts)

  unfoldable pub result_of : Course → List AttemptResult → Result RequestResult
  unfolding concluded_request
  result_of course attempts = with_final course attempts (last? attempts)

  abbrev pub pause : Course → Result (Unit {0})
  pause course = if ltb 0 request.delay_before_ms then course.slept else ok tt

  unfoldable pub execute_request : Course → Result RequestResult
  unfolding attempts_from result_of
  execute_request course = do
    pause course
    attempts ← attempts_from request.retry.attempts 1 course.moment
    result_of course attempts
