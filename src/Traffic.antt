-- ===== src/Traffic.antt =====
-- packages/traffic-generator: requests sent to a target through the gateway. This file has the types
-- of types.ts and errors.ts, and what the platform gives.
pub mod Results
pub mod Limits
pub mod Normalize
pub mod Request
pub mod Route
pub mod Attempts
pub mod Retries
pub mod Batch
pub mod Bursts
pub mod Slots
pub mod Workers
pub mod Tables
pub mod Progress
pub mod Retrying
pub mod Policies
pub mod Bounds
pub mod Identities
pub mod Reports
pub mod FreeNames
pub mod Sending
pub mod Bodies
pub mod Verdict
pub mod Repeating
pub mod Sample
pub mod Tests
use testy_mc_testface.Prelude.{ℕ, ℤ, String, Bool, List, Option, Table}
use testy_mc_testface.Scenario.Value.{Value}
use testy_mc_testface.Gateway.Address.{Url}

-- A number of JavaScript: an integer, or another (fractional, infinite or NaN) by its text.
pub data Number : Type 0 where
  whole : ℤ → Number
  other : String → Number

pub data Method : Type 0 where
  get post put patch delete head options : Method

pub data RequestBody : Type 0 where
  json : (value : Value) → RequestBody
  malformed_json : (value : String) → RequestBody
  form : (fields : Table String) → RequestBody
  raw : (value : String) (content_type : Option String) → RequestBody

pub record RetryPolicy : Type 0 where
  pub attempts : Number
  pub delay_ms : Option Number
  pub backoff_factor : Option Number
  pub retry_on_statuses : Option (List Number)
  pub retry_on_network_error : Option Bool

pub record Expectation : Type 0 where
  pub status_codes : Option (List Number)
  pub network_failure : Option Bool
  pub min_duration_ms : Option Number
  pub max_duration_ms : Option Number
  pub attempt_count : Option Number

pub record RequestDefinition : Type 0 where
  pub id : String
  pub path : String
  pub method : Option Method
  pub headers : Option (Table String)
  pub body : Option RequestBody
  pub idempotency_key : Option String
  pub timeout_ms : Option Number
  pub abort_after_ms : Option Number
  pub delay_before_ms : Option Number
  pub retry : Option RetryPolicy
  pub expect : Option Expectation

pub record BatchDefinition : Type 0 where
  pub batch_id : String
  pub requests : List RequestDefinition
  pub concurrency : Option Number
  pub max_total_duration_ms : Option Number

pub record RepeatDefinition : Type 0 where
  pub batch_id : String
  pub request : RequestDefinition
  pub count : Number
  pub concurrency : Option Number
  pub max_total_duration_ms : Option Number

pub record RouteBinding : Type 0 where
  pub route_id : String
  pub run_id : String
  pub proxy_base_url : String
  pub route_token : String

pub data AttemptOutcome : Type 0 where
  response network_error timeout client_abort response_too_large : AttemptOutcome

pub record AttemptResult : Type 0 where
  pub request_id : String
  pub attempt : ℕ
  pub method : Method
  pub path_fingerprint : String
  pub started_at : ℕ
  pub completed_at : ℕ
  pub duration_ms : ℤ
  pub outcome : AttemptOutcome
  pub status_code : Option ℕ
  pub request_payload_fingerprint : Option String
  pub response_payload_fingerprint : Option String
  pub response_bytes : Option ℕ
  pub error_code : Option String
  pub scheduled_retry_delay_ms : Option ℕ

pub record RequestResult : Type 0 where
  pub request_id : String
  pub passed : Bool
  pub method : Method
  pub path_fingerprint : String
  pub attempt_count : ℕ
  pub total_duration_ms : ℤ
  pub started_at : ℕ
  pub completed_at : ℕ
  pub attempts : List AttemptResult
  pub final_status_code : Option ℕ
  pub failure_reasons : List String

pub record BatchReport : Type 0 where
  pub batch_id : String
  pub passed : Bool
  pub started_at : ℕ
  pub completed_at : ℕ
  pub duration_ms : ℤ
  pub request_count : ℕ
  pub passed_count : ℕ
  pub failed_count : ℕ
  pub timed_out : Bool
  pub concurrency : ℕ
  pub results : List RequestResult

pub data ErrorCode : Type 0 where
  invalid_config cancelled batch_timeout too_large : ErrorCode

-- An error of the package (without its message), or another with its member `code` where that is a
-- text.
pub data Thrown : Type 0 where
  traffic_error : ErrorCode → Thrown
  foreign : (code : Option String) → Thrown

-- What is not the package's own code: `new URL`, `toLowerCase`, whether `Headers.set` takes a name
-- and a value, and the value it keeps, SHA-256, UTF-8, `JSON.stringify`, `URLSearchParams`,
-- `encodeURIComponent`, the decimal form of a number, the scan for data that is not synthetic, whether a number
-- that is no integer lies between 1 and 10, and `Math.round(base * factor ** exponent)`.
pub record Platform : Type 0 where
  pub parse_url : String → Option Url
  pub parse_path : (base : String) → String → Option Url
  pub lower : String → String
  pub is_header : (name value : String) → Bool
  pub header_value : String → String
  pub sha256 : List ℕ → String
  pub encode : String → List ℕ
  pub json_text : Value → String
  pub form_text : Table String → String
  pub encode_component : String → String
  pub decimal : ℕ → String
  pub is_synthetic : RequestDefinition → Bool
  pub between_1_and_10 : (text : String) → Bool
  pub grown : (base : ℕ) (factor : Number) (exponent : ℕ) → ℕ
