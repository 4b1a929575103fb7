-- ===== src/Traffic/Limits.antt =====
-- The checked numbers of util.ts, and the limits of a generator.
use testy_mc_testface.Prelude.{ℕ, ◌≤◌, pos, negsuc, ◌&&◌, Option, or_else, leb, arith}
use testy_mc_testface.Traffic.{Number, whole, other}
use testy_mc_testface.Traffic.Results.{
  Result, ok, ◌>>=◌, ◌>>◌, invalid, require, Returns, returns, fails, >>=-Returns, require-Returns,
}

unfoldable pub bounded_integer : Number → (minimum maximum : ℕ) → Result ℕ
bounded_integer (whole (pos n)) low high = do require (leb low n && leb n high); ok n
bounded_integer (whole (negsuc n)) low high = invalid
bounded_integer (other text) low high = invalid

abbrev pub number : ℕ → Number
number n = whole (pos n)

unfoldable pub normalize_positive_integer : Option Number → (fallback maximum : ℕ) → Result ℕ
unfolding bounded_integer
normalize_positive_integer value fallback maximum =
    bounded_integer (or_else value (number fallback)) 1 maximum

unfoldable pub normalize_non_negative_integer : Option Number → (fallback maximum : ℕ) → Result ℕ
unfolding bounded_integer
normalize_non_negative_integer value fallback maximum =
    bounded_integer (or_else value (number fallback)) 0 maximum

pub record GeneratorOptions : Type 0 where
  pub max_requests : Option Number
  pub max_concurrency : Option Number
  pub max_body_bytes : Option Number
  pub max_response_bytes : Option Number
  pub max_request_timeout_ms : Option Number
  pub max_total_duration_ms : Option Number
  pub max_retry_attempts : Option Number
  pub max_retry_delay_ms : Option Number

pub record Limits : Type 0 where
  pub max_requests : ℕ
  pub max_concurrency : ℕ
  pub max_body_bytes : ℕ
  pub max_response_bytes : ℕ
  pub max_request_timeout_ms : ℕ
  pub max_total_duration_ms : ℕ
  pub max_retry_attempts : ℕ
  pub max_retry_delay_ms : ℕ

abbrev default_max_requests : ℕ
default_max_requests = 100

abbrev hard_max_requests : ℕ
hard_max_requests = 1000

abbrev default_max_concurrency : ℕ
default_max_concurrency = 10

abbrev hard_max_concurrency : ℕ
hard_max_concurrency = 50

abbrev default_max_bytes : ℕ
default_max_bytes = 65536

abbrev hard_max_bytes : ℕ
hard_max_bytes = 1048576

-- The constructor of `HttpTrafficGenerator`.
unfoldable pub limits_of : GeneratorOptions → Result Limits
unfolding normalize_positive_integer normalize_non_negative_integer
limits_of o = do
  requests ← normalize_positive_integer o.max_requests default_max_requests hard_max_requests
  concurrency ←
      normalize_positive_integer o.max_concurrency default_max_concurrency hard_max_concurrency
  body ← normalize_positive_integer o.max_body_bytes default_max_bytes hard_max_bytes
  response ← normalize_positive_integer o.max_response_bytes default_max_bytes hard_max_bytes
  timeout ← normalize_positive_integer o.max_request_timeout_ms 120000 3600000
  total ← normalize_positive_integer o.max_total_duration_ms 300000 3600000
  attempts ← normalize_positive_integer o.max_retry_attempts 10 100
  delay ← normalize_non_negative_integer o.max_retry_delay_ms 60000 300000
  ok (record {
    max_requests = requests;
    max_concurrency = concurrency;
    max_body_bytes = body;
    max_response_bytes = response;
    max_request_timeout_ms = timeout;
    max_total_duration_ms = total;
    max_retry_attempts = attempts;
    max_retry_delay_ms = delay;
  })

abbrev pub Within : (low high n : ℕ) → Type 0
Within low high n = (low ≤ n) × (n ≤ high)

pub bounded_integer-Returns :
    (x : Number) (low high : ℕ) → Returns (Within low high) (bounded_integer x low high)
unfolding bounded_integer
bounded_integer-Returns (whole (pos n)) low high =
    >>=-Returns (λ _. ok n) (require-Returns (leb low n && leb n high))
      λ _ h. returns (ground arith, ground arith)
bounded_integer-Returns (whole (negsuc n)) low high = fails
bounded_integer-Returns (other text) low high = fails
