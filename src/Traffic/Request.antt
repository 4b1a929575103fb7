-- ===== src/Traffic/Request.antt =====
-- `normalizeRequest` of util.ts, with the retry policy and the expectation that it checks.
use testy_mc_testface.Prelude.{
  ℕ, pos, negsuc, Bool, true, false, not, ◌&&◌, String, List, [], ◌∷◌, Option, none, some, ◌+++◌,
  or_else, is_some, leb, ◌==◌, select, Table, if◌then◌else◌,
}
use testy_mc_testface.Traffic.{
  Number, whole, other, Method, get, post, head, RetryPolicy, Expectation, RequestDefinition,
  Platform,
}
use testy_mc_testface.Traffic.Results.{Result, ok, ◌>>=◌, ◌>>◌, require, optional, each}
use testy_mc_testface.Traffic.Limits.{bounded_integer, number, Limits}
use testy_mc_testface.Traffic.Normalize.{
  assert_identifier, normalize_path, assert_bounded_header_value, set_header, normalize_headers,
  encode_body,
}

-- A checked retry policy and a checked expectation: the numbers are known to be whole.
pub record Retry : Type 0 where
  pub attempts : ℕ
  pub delay_ms : Option ℕ
  pub backoff_factor : Option Number
  pub retry_on_statuses : Option (List ℕ)
  pub retry_on_network_error : Option Bool

pub record Expected : Type 0 where
  pub status_codes : Option (List ℕ)
  pub network_failure : Option Bool
  pub min_duration_ms : Option ℕ
  pub max_duration_ms : Option ℕ
  pub attempt_count : Option ℕ

pub record NormalizedRequest : Type 0 where
  pub id : String
  pub method : Method
  pub path : String
  pub headers : Table String
  pub body : Option (List ℕ)
  pub path_fingerprint : String
  pub request_payload_fingerprint : Option String
  pub timeout_ms : ℕ
  pub abort_after_ms : Option ℕ
  pub delay_before_ms : ℕ
  pub retry : Retry
  pub expect : Expected

-- `value?.member`.
abbrev pub member {ℓ} : {A : Type 0} {B : Type ℓ} → Option A → (A → Option B) → Option B
member none f = none
member (some a) f = f a

-- `[...new Set(values)]`.
unfoldable pub distinct : List ℕ → List ℕ
distinct [] = []
distinct (x ∷ xs) = x ∷ select (λ y. not (y == x)) (distinct xs)

abbrev pub distinct_of : Option (List ℕ) → Option (List ℕ)
distinct_of none = none
distinct_of (some values) = some (distinct values)

abbrev pub is_one : Number → Bool
is_one (whole (pos n)) = n == 1
is_one _ = false

module _ (p : Platform) where
  -- `Number.isFinite(factor) && factor >= 1 && factor <= 10`.
  abbrev pub is_factor : Number → Bool
  is_factor (whole (pos n)) = leb 1 n && leb n 10
  is_factor (whole (negsuc n)) = false
  is_factor (other text) = p.between_1_and_10 text

  unfoldable pub normalize_retry : Option RetryPolicy → Limits → Result Retry
  unfolding bounded_integer distinct each
  normalize_retry value limits = do
    let given = member value (λ (v : RetryPolicy). some v.attempts)
    attempts ← bounded_integer (or_else given (number 1)) 1 limits.max_retry_attempts
    delay ←
        optional (λ n. bounded_integer n 0 limits.max_retry_delay_ms)
          (member value (λ (v : RetryPolicy). v.delay_ms))
    let factor = or_else (member value (λ (v : RetryPolicy). v.backoff_factor)) (number 1)
    require (is_factor factor)
    statuses ←
        optional (each (λ n. bounded_integer n 100 599))
          (member value (λ (v : RetryPolicy). v.retry_on_statuses))
    ok (record {
      attempts = attempts;
      delay_ms = delay;
      backoff_factor = if is_one factor then none else some factor;
      retry_on_statuses = distinct_of statuses;
      retry_on_network_error = member value (λ (v : RetryPolicy). v.retry_on_network_error);
    })

abbrev pub is_empty_list {ℓ} : {A : Type ℓ} → Option (List A) → Bool
is_empty_list (some []) = true
is_empty_list _ = false

abbrev pub is_true : Option Bool → Bool
is_true (some true) = true
is_true _ = false

-- Whether both are there and the first is the smaller one, or equal.
abbrev pub in_order : Option ℕ → Option ℕ → Bool
in_order (some low) (some high) = leb low high
in_order _ _ = true

abbrev pub no_expectation : Expectation
no_expectation = record {
  status_codes = none;
  network_failure = none;
  min_duration_ms = none;
  max_duration_ms = none;
  attempt_count = none;
}

-- `normalizeExpectation`; it returns the numbers of `value.expect ?? {}` that it has checked.
unfoldable pub normalize_expectation :
    Option Expectation → (max_retry_attempts : ℕ) → Result Expected
unfolding bounded_integer each
normalize_expectation value maximum = do
  let e = or_else value no_expectation
  require (not (is_empty_list e.status_codes))
  require (not (is_true e.network_failure && is_some e.status_codes))
  statuses ← optional (each (λ n. bounded_integer n 100 599)) e.status_codes
  least ← optional (λ n. bounded_integer n 0 3600000) e.min_duration_ms
  most ← optional (λ n. bounded_integer n 0 3600000) e.max_duration_ms
  require (in_order least most)
  count ← optional (λ n. bounded_integer n 1 maximum) e.attempt_count
  ok (record {
    status_codes = statuses;
    network_failure = e.network_failure;
    min_duration_ms = least;
    max_duration_ms = most;
    attempt_count = count;
  })

abbrev pub is_get_or_head : Method → Bool
is_get_or_head get = true
is_get_or_head head = true
is_get_or_head _ = false

module _ (p : Platform) where
  unfoldable pub assert_synthetic_request : RequestDefinition → Result (Unit {0})
  assert_synthetic_request value = require (p.is_synthetic value)

  unfoldable pub with_idempotency_key : Option String → Table String → Result (Table String)
  unfolding assert_bounded_header_value set_header
  with_idempotency_key none headers = ok headers
  with_idempotency_key (some key) headers =
      assert_bounded_header_value key 256 >> set_header p "idempotency-key" key headers

  -- The bytes of the body and all headers of a request.
  unfoldable pub content_of :
      RequestDefinition → Method → (max_body_bytes : ℕ) → Result (Option (List ℕ) × Table String)
  unfolding normalize_headers encode_body with_idempotency_key
  content_of value method maximum = do
    given ← normalize_headers p (or_else value.headers [])
    encoded ← encode_body p value.body given maximum
    require (not (is_get_or_head method && is_some encoded.0))
    headers ← with_idempotency_key value.idempotency_key encoded.1
    ok (encoded.0, headers)

  unfoldable pub fingerprint : List ℕ → String
  fingerprint bytes = p.sha256 bytes

  abbrev fingerprint_of : Option (List ℕ) → Option String
  fingerprint_of none = none
  fingerprint_of (some bytes) = some (fingerprint bytes)

  unfoldable pub normalize_request : RequestDefinition → Limits → Result NormalizedRequest
  unfolding assert_identifier assert_synthetic_request normalize_path content_of bounded_integer
      normalize_retry normalize_expectation fingerprint
  normalize_request value limits = do
    id ← assert_identifier value.id
    assert_synthetic_request value
    let method = or_else value.method post
    path ← normalize_path p value.path
    content ← content_of value method limits.max_body_bytes
    timeout ←
        bounded_integer (or_else value.timeout_ms (number 10000)) 1 limits.max_request_timeout_ms
    abort ← optional (λ n. bounded_integer n 1 limits.max_request_timeout_ms) value.abort_after_ms
    delay ← bounded_integer (or_else value.delay_before_ms (number 0)) 0 limits.max_retry_delay_ms
    retry ← normalize_retry p value.retry limits
    expect ← normalize_expectation value.expect limits.max_retry_attempts
    require (in_order expect.attempt_count (some retry.attempts))
    let target = path.pathname +++ path.search
    ok (record {
      id = id;
      method = method;
      path = target;
      headers = content.1;
      body = content.0;
      path_fingerprint = fingerprint (p.encode target);
      request_payload_fingerprint = fingerprint_of content.0;
      timeout_ms = timeout;
      abort_after_ms = abort;
      delay_before_ms = delay;
      retry = retry;
      expect = expect;
    })
