-- ===== src/Traffic/Attempts.antt =====
-- One request of runner.ts: its attempts, retries and the verdict on it.
use testy_mc_testface.Prelude.{
  ℕ, ◌+◌, sub_ℕ, Bool, true, false, not, ◌&&◌, ◌||◌, String, List, [], ◌∷◌, ◌++◌, Option, none,
  some, is_empty, leb, ◌==◌, length, Table, text_length, if◌then◌else◌,
}
use Prim.Native.Char.{code}
use testy_mc_testface.Gateway.Address.{Url}
use testy_mc_testface.Traffic.{
  Method, AttemptOutcome, response, network_error, timeout, client_abort, response_too_large,
  AttemptResult, RouteBinding, ErrorCode, invalid_config, cancelled, batch_timeout, too_large,
  Thrown, traffic_error, foreign, Platform,
}
use testy_mc_testface.Traffic.Results.{Result, ok, err, ◌>>=◌}
use testy_mc_testface.Traffic.Limits.{Limits}
use testy_mc_testface.Traffic.Normalize.{set_header}
use testy_mc_testface.Traffic.Request.{NormalizedRequest, fingerprint}
use testy_mc_testface.Traffic.Route.{build_gateway_request_url}

-- The chunks of a response, which end or break off.
pub data Stream : Type 0 where
  end : Stream
  chunk : (bytes : List ℕ) → Stream → Stream
  broken : Thrown → Stream

pub record Sent : Type 0 where
  pub target : Url
  pub method : Method
  pub headers : Table String
  pub body : Option (List ℕ)

pub data Reply : Type 0 where
  failed : Thrown → Reply
  answered : (status : ℕ) (body : Option Stream) → Reply

-- What one attempt meets: the signal before it, the clock, the reply to what is sent, the signal and the
-- two timers if the attempt fails, and the sleep after it.
pub record Moment : Type 0 where
  pub aborted_before : Bool
  pub started : ℕ
  pub reply : Sent → Reply
  pub aborted : Bool
  pub timed_out : Bool
  pub client_aborted : Bool
  pub completed : ℕ
  pub slept : Result (Unit {0})

-- What one request meets: the clock, the sleep before it, and its attempts by their numbers.
pub record Course : Type 0 where
  pub started : ℕ
  pub slept : Result (Unit {0})
  pub moment : (attempt : ℕ) → Moment
  pub completed : ℕ

unfoldable pub throw_if_aborted : Bool → Result (Unit {0})
throw_if_aborted true = err (traffic_error cancelled)
throw_if_aborted false = ok tt

-- The loop of `readBoundedResponseBody`, and the bytes that it puts together.
unfoldable pub read_chunks : Stream → (total maximum_bytes : ℕ) → Result (List ℕ)
read_chunks end total maximum = ok []
read_chunks (broken e) total maximum = err e
read_chunks (chunk bytes rest) total maximum =
    let total' = total + length bytes in
    let later = read_chunks rest total' maximum in
    if leb total' maximum
    then (later >>= λ behind. ok (bytes ++ behind))
    else err (traffic_error too_large)

unfoldable pub read_bounded_response_body : Option Stream → (maximum_bytes : ℕ) → Result (List ℕ)
unfolding read_chunks
read_bounded_response_body none maximum = ok []
read_bounded_response_body (some body) maximum = read_chunks body 0 maximum

abbrev is_safe_char : ℕ → Bool
is_safe_char c = leb b'a' c && leb c b'z' || leb b'0' c && leb c b'9' || c == b'-'

unfoldable pub all_safe : String → Bool
all_safe String.[] = true
all_safe (String.◌∷◌ c s) = is_safe_char (code c) && all_safe s

abbrev code_text : ErrorCode → String
code_text invalid_config = "invalid-config"
code_text cancelled = "cancelled"
code_text batch_timeout = "batch-timeout"
code_text too_large = "response-too-large"

unfoldable pub safe_error_code : Thrown → String
unfolding all_safe text_length
safe_error_code (traffic_error c) = code_text c
safe_error_code (foreign none) = "network-error"
safe_error_code (foreign (some text)) =
    if not (is_empty text) && leb (text_length text) 64 && all_safe text
    then text
    else "network-error"

abbrev is_too_large : Thrown → Bool
is_too_large (traffic_error too_large) = true
is_too_large _ = false

abbrev outcome_of : Thrown → (timed_out client_aborted : Bool) → AttemptOutcome
outcome_of e timed_out client_aborted =
    if is_too_large e
    then response_too_large
    else if timed_out
    then timeout
    else if client_aborted
    then client_abort
    else network_error

abbrev error_code_of : AttemptOutcome → Thrown → String
error_code_of response_too_large e = "response-too-large"
error_code_of timeout e = "timeout"
error_code_of client_abort e = "client-abort"
error_code_of _ e = safe_error_code e

module _ (p : Platform) (limits : Limits) (route : RouteBinding) (request : NormalizedRequest) where
  -- What is handed to `fetch`.
  unfoldable pub sent_of : Result Sent
  unfolding build_gateway_request_url set_header
  sent_of = do
    target ← build_gateway_request_url p route request.path
    headers ← set_header p "x-testy-route-token" route.route_token request.headers
    headers' ← set_header p "x-testy-run-id" route.run_id headers
    ok (record {
      target = target;
      method = request.method;
      headers = headers';
      body = request.body;
    })

  abbrev body_of : Reply → Result (ℕ × List ℕ)
  body_of (failed e) = err e
  body_of (answered status body) =
      read_bounded_response_body body limits.max_response_bytes >>= λ bytes. ok (status, bytes)

  -- The `try` of `executeAttempt`: a status and the bytes of the body.
  unfoldable pub try_attempt : (Sent → Reply) → Result (ℕ × List ℕ)
  unfolding sent_of read_bounded_response_body
  try_attempt reply = sent_of >>= λ sent. body_of (reply sent)

  abbrev fingerprint_unless_empty : List ℕ → Option String
  fingerprint_unless_empty [] = none
  fingerprint_unless_empty (b ∷ bytes) = some (fingerprint p (b ∷ bytes))

  -- The result of an attempt that failed.
  unfoldable pub failed_attempt : (attempt : ℕ) → Moment → Thrown → AttemptResult
  unfolding safe_error_code
  failed_attempt attempt moment e =
      let outcome = outcome_of e moment.timed_out moment.client_aborted in
      record {
        request_id = request.id;
        attempt = attempt;
        method = request.method;
        path_fingerprint = request.path_fingerprint;
        started_at = moment.started;
        completed_at = moment.completed;
        duration_ms = sub_ℕ moment.completed moment.started;
        outcome = outcome;
        status_code = none;
        request_payload_fingerprint = request.request_payload_fingerprint;
        response_payload_fingerprint = none;
        response_bytes = none;
        error_code = some (error_code_of outcome e);
        scheduled_retry_delay_ms = none;
      }

  unfoldable pub conclude_attempt :
      (attempt : ℕ) → Moment → Result (ℕ × List ℕ) → Result AttemptResult
  unfolding failed_attempt fingerprint
  conclude_attempt attempt moment (ok (status, bytes)) = ok (record {
    request_id = request.id;
    attempt = attempt;
    method = request.method;
    path_fingerprint = request.path_fingerprint;
    started_at = moment.started;
    completed_at = moment.completed;
    duration_ms = sub_ℕ moment.completed moment.started;
    outcome = response;
    status_code = some status;
    request_payload_fingerprint = request.request_payload_fingerprint;
    response_payload_fingerprint = fingerprint_unless_empty bytes;
    response_bytes = some (length bytes);
    error_code = none;
    scheduled_retry_delay_ms = none;
  })
  conclude_attempt attempt moment (err e) =
      if moment.aborted then err (traffic_error cancelled) else ok (failed_attempt attempt moment e)

  unfoldable pub execute_attempt : (attempt : ℕ) → Moment → Result AttemptResult
  unfolding try_attempt conclude_attempt
  execute_attempt attempt moment = conclude_attempt attempt moment (try_attempt moment.reply)
