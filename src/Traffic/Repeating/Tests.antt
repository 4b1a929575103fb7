-- ===== src/Traffic/Repeating/Tests.antt =====
-- A request that is sent twice.
use testy_mc_testface.Prelude.{ℕ, zero, suc, ap, ◌≡◌, refl, List, [], ◌∷◌, none}
use testy_mc_testface.Traffic.{RepeatDefinition, BatchDefinition}
use testy_mc_testface.Traffic.Results.{each, ok}
use testy_mc_testface.Traffic.Limits.{number}
use testy_mc_testface.Traffic.Request.{NormalizedRequest, normalize_request}
use testy_mc_testface.Traffic.Bursts.{repeated_batch, assert_unique_request_ids}
use testy_mc_testface.Traffic.Repeating.{repeated_batch_unique}
use testy_mc_testface.Traffic.Sample.{unary, platform, limits, definition, request}

unary-inj : (m n : ℕ) → unary m ≡ unary n → m ≡ n
unary-inj zero zero e = refl
unary-inj zero (suc n) e = cc
unary-inj (suc m) zero e = cc
unary-inj (suc m) (suc n) e = let tails : unary m ≡ unary n = cc in ap suc (unary-inj m n tails)

abbrev repetition : RepeatDefinition
repetition = record {
  batch_id = "batch";
  request = definition "a";
  count = number 2;
  concurrency = none;
  max_total_duration_ms = none;
}

abbrev batch : BatchDefinition
batch = record {
  batch_id = "batch";
  requests = definition "a-1" ∷ definition "a-11" ∷ [];
  concurrency = none;
  max_total_duration_ms = none;
}

repeats : repeated_batch platform limits repetition ≡ ok batch
unfolding repeated_batch
repeats = refl

abbrev accepted_requests : List NormalizedRequest
accepted_requests = request "a-1" ∷ request "a-11" ∷ []

normalizes : each (λ r. normalize_request platform r limits) batch.requests ≡ ok accepted_requests
unfolding each normalize_request
normalizes = refl

repeated_batch_unique_example : assert_unique_request_ids accepted_requests ≡ ok tt
repeated_batch_unique_example =
    repeated_batch_unique platform limits repetition batch accepted_requests unary-inj repeats
      normalizes
