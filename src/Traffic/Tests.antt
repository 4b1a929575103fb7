-- ===== src/Traffic/Tests.antt =====
-- A batch of two requests, of which the first is tried twice, and two workers.
use Prim.Native.String.{String}
use testy_mc_testface.Prelude.{
  ℕ, ◌+◌, ◌*◌, ◌≤◌, ◌<◌, ◌≡◌, refl, ◌⊎◌, ◌↔◌, ◌++◌, pos, Bool, true, false, List, [], ◌∷◌, none,
  some, length, leb, arith, if◌then◌else◌,
}
use testy_mc_testface.Traffic.{
  get, AttemptResult, RequestResult, BatchReport, traffic_error, too_large, response,
}
use testy_mc_testface.Traffic.Results.{ok, err}
use testy_mc_testface.Traffic.Limits.{GeneratorOptions, number, limits_of}
use testy_mc_testface.Traffic.Normalize.{is_sensitive, is_protected}
use testy_mc_testface.Traffic.Request.{NormalizedRequest, normalize_request}
use testy_mc_testface.Traffic.Attempts.{
  Stream, end, chunk, Sent, answered, Moment, Course, read_bounded_response_body, sent_of,
}
use testy_mc_testface.Traffic.Retries.{evaluate_expectation, is_nil, execute_request}
use testy_mc_testface.Traffic.Batch.{
  Weather, report_of, turn, start, execute_batch, cancelled_request_result,
}
use testy_mc_testface.Traffic.Workers.{is_effective, serve_all}
use testy_mc_testface.Traffic.Progress.{execute_batch_lem}
use testy_mc_testface.Traffic.Retrying.{IsCalm, Tried, execute_request_lem}
use testy_mc_testface.Traffic.Reports.{IsFaithful, execute_batch-IsFaithful}
use testy_mc_testface.Traffic.Bounds.{IsBounded, normalize_request-IsBounded}
use testy_mc_testface.Traffic.FreeNames.{HasFreeNames}
use testy_mc_testface.Traffic.Sending.{IsAttributed, sent_of-IsAttributed}
use testy_mc_testface.Traffic.Bodies.{bytes_of, read_bounded_response_body_lem}
use testy_mc_testface.Traffic.Verdict.{Meets, evaluate_expectation_iff}
use testy_mc_testface.Traffic.Sample.{
  url, platform, limits, route, definition, or_else_ok, expected, request,
}

-- The defaults of the generator, but for the bytes of a response.
abbrev defaults : GeneratorOptions
defaults = record {
  max_requests = none;
  max_concurrency = none;
  max_body_bytes = none;
  max_response_bytes = some (number 4);
  max_request_timeout_ms = none;
  max_total_duration_ms = none;
  max_retry_attempts = none;
  max_retry_delay_ms = none;
}

limits_of-defaults : limits_of defaults ≡ ok limits
unfolding limits_of
limits_of-defaults = refl

normalizing : Unit {0}
unfolding normalize_request
normalizing = tt

request_a : normalize_request platform (definition "a") limits ≡ ok (request "a")
unfolding normalizing
request_a = refl

normalize_request-IsBounded_example : (◌≡◌ {A = String} "a" "a") × IsBounded limits (request "a")
normalize_request-IsBounded_example =
    normalize_request-IsBounded platform (definition "a") limits (request "a") request_a

-- The first attempt is answered with 503, and any other with 200.
abbrev moment : (attempt : ℕ) → Moment
moment attempt = record {
  aborted_before = false;
  started = attempt * 10;
  reply = λ _. answered (if leb attempt 1 then 503 else 200) (some (chunk (1 ∷ 2 ∷ []) end));
  aborted = false;
  timed_out = false;
  client_aborted = false;
  completed = attempt * 10 + 3;
  slept = ok tt;
}

abbrev course : Course
course = record { started = 0; slept = ok tt; moment = moment; completed = 30 }

course-IsCalm : IsCalm course
course-IsCalm = record {
  slept_first = refl;
  not_aborted = λ n. refl;
  not_failing = λ n. refl;
  slept = λ n. refl;
}

execute_request_lem_example :
    (r : RequestResult) × (execute_request platform limits route (request "a") course ≡ ok r)
    × (r.request_id ≡ "a")
    × Tried 60000 (request "a").retry 1 r.attempts
    × (r.attempt_count ≡ length r.attempts)
    × (1 ≤ r.attempt_count)
    × (r.attempt_count ≤ 3)
    × (r.passed ≡ is_nil r.failure_reasons)
execute_request_lem_example =
    execute_request_lem platform limits route (request "a") course course-IsCalm (omega arith)

executing : Unit {0}
unfolding execute_request
executing = tt

abbrev nothing : RequestResult
nothing = cancelled_request_result (request "a") 0 "nothing"

abbrev result : (id : String) → RequestResult
result id = or_else_ok nothing (execute_request platform limits route (request id) course)

-- The retry after 503 takes its delay, and the second attempt is the last.
two_attempts : ◌≡◌ {A = ℕ × Bool} ((result "a").attempt_count, (result "a").passed) (2, true)
unfolding executing
two_attempts = refl

abbrev weather : Weather
weather = record {
  started = 0;
  aborted_before = false;
  course = λ _. course;
  aborted_at = λ _. false;
  timed_out_at = λ _. false;
  now_at = λ _. 0;
  aborted = false;
  timed_out = false;
  completed = 40;
}

abbrev requests : List NormalizedRequest
requests = request "a" ∷ request "b" ∷ []

abbrev schedule : List ℕ
schedule = 0 ∷ 1 ∷ 1 ∷ 0 ∷ 1 ∷ 0 ∷ []

abbrev served : List RequestResult
served = result "a" ∷ result "b" ∷ []

serving : serve_all platform limits route weather requests 0 ≡ ok served
unfolding serve_all executing
serving = refl

effective :
    is_effective platform limits route weather requests schedule
      (start platform limits route weather requests 2)
    ≡ true
unfolding is_effective turn start executing
effective = refl

execute_batch_lem_example :
    ((length schedule ≡ 2 * length requests + 2)
      × (execute_batch platform limits route weather "batch" requests 2 schedule
          ≡ some (ok (report_of weather "batch" 2 served))))
    ⊎ ((length schedule < 2 * length requests + 2)
        × (w : ℕ) × (is_effective platform limits route weather requests
              (schedule ++ (w ∷ []))
              (start platform limits route weather requests 2)
            ≡ true))
execute_batch_lem_example =
    execute_batch_lem platform limits route weather "batch" requests served 2 schedule serving
      (omega arith) refl refl effective

abbrev report : BatchReport
report = report_of weather "batch" 2 served

reporting :
    execute_batch platform limits route weather "batch" requests 2 schedule ≡ some (ok report)
unfolding execute_batch executing
reporting = refl

execute_batch-IsFaithful_example : IsFaithful weather requests report
execute_batch-IsFaithful_example =
    execute_batch-IsFaithful platform limits route weather "batch" requests 2 schedule report
      reporting

abbrev sent : Sent
sent = record {
  target = url "http://gateway/v1/proxy/r1" "/v1/proxy/r1/orders";
  method = get;
  headers =
      ("x-shop", "one")
      ∷ ("x-testy-route-token", "0123456789abcdef")
      ∷ ("x-testy-run-id", "run-1")
      ∷ [];
  body = none;
}

sending : sent_of platform limits route (request "a") ≡ ok sent
unfolding sent_of
sending = refl

content_type : (is_sensitive "content-type" ≡ false) × (is_protected "content-type" ≡ false)
unfolding is_sensitive is_protected
content_type = (refl, refl)

idempotency_key :
    (is_sensitive "idempotency-key" ≡ false) × (is_protected "idempotency-key" ≡ false)
unfolding is_sensitive is_protected
idempotency_key = (refl, refl)

sent_of-IsAttributed_example :
    HasFreeNames (request "a").headers × IsAttributed platform route (request "a") sent
sent_of-IsAttributed_example =
    sent_of-IsAttributed platform limits route (definition "a") (request "a") sent content_type
      idempotency_key refl refl request_a sending

abbrev body : Stream
body = chunk (1 ∷ 2 ∷ 3 ∷ []) (chunk (4 ∷ 5 ∷ []) end)

read_bounded_response_body_lem_example :
    read_bounded_response_body (some body) 4
    ≡ (if leb (length (bytes_of body)) 4 then ok (bytes_of body) else err (traffic_error too_large))
read_bounded_response_body_lem_example = read_bounded_response_body_lem body 4 tt

abbrev final : AttemptResult
final = record {
  request_id = "a";
  attempt = 1;
  method = get;
  path_fingerprint = "hash";
  started_at = 0;
  completed_at = 3;
  duration_ms = pos 3;
  outcome = response;
  status_code = some 404;
  request_payload_fingerprint = none;
  response_payload_fingerprint = none;
  response_bytes = none;
  error_code = none;
  scheduled_retry_delay_ms = none;
}

evaluate_expectation_iff_example :
    (is_nil (evaluate_expectation (request "a") final 1 (pos 3)) ≡ true)
    ↔ Meets expected final 1 (pos 3)
evaluate_expectation_iff_example = evaluate_expectation_iff (request "a") final 1 (pos 3)
