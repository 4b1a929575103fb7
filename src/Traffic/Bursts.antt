-- ===== src/Traffic/Bursts.antt =====
-- `send`, `burst` and `repeat` of runner.ts.
use testy_mc_testface.Prelude.{
  ℕ, suc, zero, ◌-◌, Bool, not, ◌&&◌, String, List, [], ◌∷◌, Option, some, leb, any, length, ◌+++◌,
  text_length, str_eq, if◌then◌else◌,
}
use testy_mc_testface.Traffic.{
  RequestResult, BatchReport, RequestDefinition, BatchDefinition, RepeatDefinition, RouteBinding,
  Platform,
}
use testy_mc_testface.Traffic.Results.{Result, ok, err, ◌>>=◌, ◌>>◌, require, each}
use testy_mc_testface.Traffic.Limits.{Limits, normalize_positive_integer}
use testy_mc_testface.Traffic.Normalize.{assert_identifier}
use testy_mc_testface.Traffic.Batch.{Weather, execute_batch}
use testy_mc_testface.Traffic.Request.{NormalizedRequest, normalize_request}
use testy_mc_testface.Traffic.Attempts.{Course, throw_if_aborted}
use testy_mc_testface.Traffic.Retries.{execute_request}

-- `assertUniqueRequestIds`, with the identities that it has seen.
unfoldable pub assert_unique_from :
    (seen : List String) → List NormalizedRequest → Result (Unit {0})
assert_unique_from seen [] = ok tt
assert_unique_from seen (request ∷ rest) =
    require (not (any (str_eq request.id) seen)) >> assert_unique_from (request.id ∷ seen) rest

unfoldable pub assert_unique_request_ids : List NormalizedRequest → Result (Unit {0})
unfolding assert_unique_from
assert_unique_request_ids requests = assert_unique_from [] requests

-- The batch that `burst` executes.
pub record CheckedBatch : Type 0 where
  pub batch_id : String
  pub requests : List NormalizedRequest
  pub concurrency : ℕ
  pub max_total_duration_ms : ℕ

abbrev min : ℕ → ℕ → ℕ
min a b = if leb a b then a else b

module _ (p : Platform) (limits : Limits) where
  -- `burst` up to the call of `executeBatch`.
  unfoldable pub check_batch : BatchDefinition → Result CheckedBatch
  unfolding assert_identifier normalize_positive_integer normalize_request each
      assert_unique_request_ids
  check_batch batch = do
    batch_id ← assert_identifier batch.batch_id
    let count = length batch.requests
    require (leb 1 count && leb count limits.max_requests)
    concurrency ←
        normalize_positive_integer batch.concurrency (min count limits.max_concurrency)
          limits.max_concurrency
    duration ←
        normalize_positive_integer batch.max_total_duration_ms limits.max_total_duration_ms
          limits.max_total_duration_ms
    requests ← each (λ (r : RequestDefinition). normalize_request p r limits) batch.requests
    assert_unique_request_ids requests
    ok (record {
      batch_id = batch_id;
      requests = requests;
      concurrency = concurrency;
      max_total_duration_ms = duration;
    })

  abbrev executed :
      RouteBinding
      → Weather
      → (schedule : List ℕ) → Result CheckedBatch
      → Option (Result BatchReport)
  executed route weather schedule (err e) = some (err e)
  executed route weather schedule (ok b) =
      execute_batch p limits route weather b.batch_id b.requests b.concurrency schedule

  unfoldable pub burst :
      RouteBinding → Weather → (schedule : List ℕ) → BatchDefinition → Option (Result BatchReport)
  unfolding check_batch execute_batch
  burst route weather schedule batch = executed route weather schedule (check_batch batch)

  unfoldable pub send :
      RouteBinding → (aborted : Bool) → Course → RequestDefinition → Result RequestResult
  unfolding throw_if_aborted normalize_request execute_request
  send route aborted course request = do
    throw_if_aborted aborted
    normalized ← normalize_request p request limits
    execute_request p limits route normalized course

  unfoldable pub repeated_request_id : (base : String) → (ordinal : ℕ) → Result String
  unfolding text_length
  repeated_request_id base ordinal =
      let suffix = "-" +++ p.decimal ordinal in
      let maximum = 64 - text_length suffix in
      require (leb 1 maximum && leb (text_length base) maximum) >> ok (base +++ suffix)

  -- The requests of `repeat` from an ordinal on.
  unfoldable pub instances :
      RequestDefinition → (ordinal count : ℕ) → Result (List RequestDefinition)
  unfolding repeated_request_id
  instances request ordinal zero = ok []
  instances request ordinal (suc count) = do
    id ← repeated_request_id request.id ordinal
    rest ← instances request (suc ordinal) count
    ok (record request { id = id } ∷ rest)

  -- `repeat` up to the call of `burst`.
  unfoldable pub repeated_batch : RepeatDefinition → Result BatchDefinition
  unfolding instances normalize_positive_integer
  repeated_batch definition = do
    count ← normalize_positive_integer (some definition.count) 1 limits.max_requests
    requests ← instances definition.request 1 count
    ok (record {
      batch_id = definition.batch_id;
      requests = requests;
      concurrency = definition.concurrency;
      max_total_duration_ms = definition.max_total_duration_ms;
    })

  abbrev burst_of :
      RouteBinding
      → Weather
      → (schedule : List ℕ) → Result BatchDefinition
      → Option (Result BatchReport)
  burst_of route weather schedule (err e) = some (err e)
  burst_of route weather schedule (ok batch) = burst route weather schedule batch

  unfoldable pub repeat :
      RouteBinding → Weather → (schedule : List ℕ) → RepeatDefinition → Option (Result BatchReport)
  unfolding repeated_batch burst
  repeat route weather schedule definition =
      burst_of route weather schedule (repeated_batch definition)
