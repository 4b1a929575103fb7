-- ===== src/Traffic/Sample.antt =====
-- A platform, a route and a request for the tests.
use Prim.Native.Char.{code}
use Prim.Native.String.{String}
use testy_mc_testface.Prelude.{zero, suc, ℕ, ◌+◌, true, false, List, [], ◌∷◌, none, some}
use testy_mc_testface.Gateway.Address.{Url}
use testy_mc_testface.Traffic.{get, RequestDefinition, RouteBinding, Platform}
use testy_mc_testface.Traffic.Results.{Result, ok, err}
use testy_mc_testface.Traffic.Limits.{Limits, number}
use testy_mc_testface.Traffic.Request.{Expected, NormalizedRequest}

abbrev pub codes : String → List ℕ
codes String.[] = []
codes (String.◌∷◌ c s) = code c ∷ codes s

-- As many ones.
abbrev pub unary : ℕ → String
unary zero = ""
unary (suc n) = String.◌∷◌ "1" (unary n)

abbrev pub url : (origin pathname : String) → Url
url origin pathname = record {
  protocol = "http:";
  username = "";
  password = "";
  search = "";
  hash = "";
  pathname = pathname;
  hostname = "";
  origin = origin;
}

abbrev pub platform : Platform
platform = record {
  parse_url = λ text. some (url text "/v1/proxy/r1/");
  parse_path = λ base path. some (url base path);
  lower = λ text. text;
  is_header = λ _ _. true;
  header_value = λ value. value;
  sha256 = λ _. "hash";
  encode = codes;
  json_text = λ _. "{}";
  form_text = λ _. "";
  encode_component = λ text. text;
  decimal = unary;
  is_synthetic = λ _. true;
  between_1_and_10 = λ _. false;
  grown = λ base _ exponent. base + exponent;
}

abbrev pub limits : Limits
limits = record {
  max_requests = 100;
  max_concurrency = 10;
  max_body_bytes = 65536;
  max_response_bytes = 4;
  max_request_timeout_ms = 120000;
  max_total_duration_ms = 300000;
  max_retry_attempts = 10;
  max_retry_delay_ms = 60000;
}

abbrev pub route : RouteBinding
route = record {
  route_id = "r1";
  run_id = "run-1";
  proxy_base_url = "http://gateway/v1/proxy/r1";
  route_token = "0123456789abcdef";
}

abbrev pub definition : (id : String) → RequestDefinition
definition id = record {
  id = id;
  path = "/orders";
  method = some get;
  headers = some (("x-shop", "one") ∷ []);
  body = none;
  idempotency_key = none;
  timeout_ms = none;
  abort_after_ms = none;
  delay_before_ms = none;
  retry = some (record {
    attempts = number 3;
    delay_ms = some (number 5);
    backoff_factor = none;
    retry_on_statuses = some (number 503 ∷ number 503 ∷ []);
    retry_on_network_error = none;
  });
  expect = none;
}

-- What a result holds, or what stands for it.
abbrev pub or_else_ok {ℓ} : {A : Type ℓ} → A → Result A → A
or_else_ok default (ok a) = a
or_else_ok default (err _) = default

abbrev pub expected : Expected
expected = record {
  status_codes = none;
  network_failure = none;
  min_duration_ms = none;
  max_duration_ms = none;
  attempt_count = none;
}

abbrev pub request : (id : String) → NormalizedRequest
request id = record {
  id = id;
  method = get;
  path = "/orders";
  headers = ("x-shop", "one") ∷ [];
  body = none;
  path_fingerprint = "hash";
  request_payload_fingerprint = none;
  timeout_ms = 10000;
  abort_after_ms = none;
  delay_before_ms = 0;
  retry = record {
    attempts = 3;
    delay_ms = some 5;
    backoff_factor = none;
    retry_on_statuses = some (503 ∷ []);
    retry_on_network_error = none;
  };
  expect = expected;
}
