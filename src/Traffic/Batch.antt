-- ===== src/Traffic/Batch.antt =====
-- `executeBatch` of runner.ts. The workers of a batch take turns: a schedule says which worker goes on
-- next.
use testy_mc_testface.Prelude.{
  ℕ, suc, zero, ◌+◌, ◌-◌, sub_ℕ, pos, Bool, true, false, not, ◌&&◌, String, List, [], ◌∷◌, Option,
  none, some, ◌==◌, length, select, if◌then◌else◌,
}
use testy_mc_testface.Traffic.{RequestResult, BatchReport, RouteBinding, Platform}
use testy_mc_testface.Traffic.Results.{Result, ok, err, ◌>>=◌, ◌>>◌}
use testy_mc_testface.Traffic.Limits.{Limits}
use testy_mc_testface.Traffic.Request.{NormalizedRequest}
use testy_mc_testface.Traffic.Attempts.{Course, throw_if_aborted}
use testy_mc_testface.Traffic.Retries.{execute_request}

module _ {ℓ} {A : Type ℓ} where
  abbrev pub get_elem? : List A → ℕ → Option A
  get_elem? [] i = none
  get_elem? (x ∷ xs) zero = some x
  get_elem? (x ∷ xs) (suc i) = get_elem? xs i

  abbrev pub set : List A → ℕ → A → List A
  set [] i v = []
  set (x ∷ xs) zero v = v ∷ xs
  set (x ∷ xs) (suc i) v = x ∷ set xs i v

  abbrev pub replicate : ℕ → A → List A
  replicate zero v = []
  replicate (suc n) v = v ∷ replicate n v

-- A worker at the head of its loop, one that waits for the request at an index, and one that has
-- returned.
pub data Worker : Type 0 where
  ready : Worker
  busy : (index : ℕ) → Worker
  stopped : Worker

abbrev pub has_stopped : Worker → Bool
has_stopped stopped = true
has_stopped _ = false

abbrev pub all_stopped : List Worker → Bool
all_stopped [] = true
all_stopped (w ∷ ws) = has_stopped w && all_stopped ws

pub record Running : Type 0 where
  pub next : ℕ
  pub results : List (Option RequestResult)
  pub workers : List Worker

unfoldable pub cancelled_request_result :
    NormalizedRequest → (completed : ℕ) → (reason : String) → RequestResult
cancelled_request_result request completed why = record {
  request_id = request.id;
  passed = false;
  method = request.method;
  path_fingerprint = request.path_fingerprint;
  attempt_count = 0;
  total_duration_ms = pos 0;
  started_at = completed;
  completed_at = completed;
  attempts = [];
  final_status_code = none;
  failure_reasons = why ∷ [];
}

-- The start of a round of a worker's loop: the next index, with its request if there is one.
unfoldable pub take_next : (request : Option NormalizedRequest) → (worker : ℕ) → Running → Running
take_next none w s = record s { next = s.next + 1; workers = set s.workers w stopped }
take_next (some _) w s = record s { next = s.next + 1; workers = set s.workers w (busy s.next) }

-- What a batch meets: the clock, the signal before, when a request fails and after, the timer of the batch, by the
-- index of a request and at the end, and the course of each request.
pub record Weather : Type 0 where
  pub started : ℕ
  pub aborted_before : Bool
  pub course : (index : ℕ) → Course
  pub aborted_at : (index : ℕ) → Bool
  pub timed_out_at : (index : ℕ) → Bool
  pub now_at : (index : ℕ) → ℕ
  pub aborted : Bool
  pub timed_out : Bool
  pub completed : ℕ

module _ (weather : Weather) where
  -- `requests.map((request, index) => results[index] ?? cancelled)`.
  unfoldable pub finalize :
      List NormalizedRequest → List (Option RequestResult) → List RequestResult
  unfolding cancelled_request_result
  finalize [] results = []
  finalize (request ∷ rest) [] =
      cancelled_request_result request weather.completed "batch-timeout" ∷ finalize rest []
  finalize (request ∷ rest) (none ∷ results) =
      cancelled_request_result request weather.completed "batch-timeout" ∷ finalize rest results
  finalize (request ∷ rest) (some result ∷ results) = result ∷ finalize rest results

  abbrev pub failed_of : List RequestResult → List RequestResult
  failed_of results = select (λ (r : RequestResult). not r.passed) results

  unfoldable pub report_of :
      (batch_id : String) (concurrency : ℕ) → List RequestResult → BatchReport
  report_of batch_id concurrency finalized =
      let failed_count = length (failed_of finalized) in
      record {
        batch_id = batch_id;
        passed = not weather.timed_out && failed_count == 0;
        started_at = weather.started;
        completed_at = weather.completed;
        duration_ms = sub_ℕ weather.completed weather.started;
        request_count = length finalized;
        passed_count = length finalized - failed_count;
        failed_count = failed_count;
        timed_out = weather.timed_out;
        concurrency = concurrency;
        results = finalized;
      }

module _ (p : Platform) (limits : Limits) (route : RouteBinding) (weather : Weather) where
  abbrev pub or_timed_out :
      NormalizedRequest → (index : ℕ) → Result RequestResult → Result RequestResult
  or_timed_out request index (ok result) = ok result
  or_timed_out request index (err e) =
      if weather.aborted_at index
      then err e
      else if weather.timed_out_at index
      then ok (cancelled_request_result request (weather.now_at index) "batch-timeout")
      else err e

  -- The `try` of a worker.
  unfoldable pub serve_request : NormalizedRequest → (index : ℕ) → Result RequestResult
  unfolding execute_request cancelled_request_result
  serve_request request index =
      or_timed_out request index (execute_request p limits route request (weather.course index))

  unfoldable pub finish :
      (request : Option NormalizedRequest) → (worker index : ℕ) → Running → Result Running
  unfolding serve_request
  finish none w index s = ok s
  finish (some request) w index s = do
    result ← serve_request request index
    ok (record s { results = set s.results index (some result); workers = set s.workers w ready })

  module _ (requests : List NormalizedRequest) where
    -- A worker goes on to its next wait, or returns.
    unfoldable pub advance : Worker → ℕ → Running → Result Running
    unfolding take_next finish
    advance ready w s = ok (take_next (get_elem? requests s.next) w s)
    advance (busy index) w s = finish (get_elem? requests index) w index s
    advance stopped w s = ok s

    unfoldable pub advance_if : Option Worker → ℕ → Running → Result Running
    unfolding advance
    advance_if none w s = ok s
    advance_if (some worker) w s = advance worker w s

    unfoldable pub turn : ℕ → Running → Result Running
    unfolding advance_if
    turn w s = advance_if (get_elem? s.workers w) w s

    unfoldable pub turns : (schedule : List ℕ) → Running → Result Running
    unfolding turn
    turns [] s = ok s
    turns (w ∷ rest) s = turn w s >>= turns rest

    unfoldable pub start : (concurrency : ℕ) → Running
    start concurrency = record {
      next = 0;
      results = replicate (length requests) none;
      workers = replicate concurrency ready;
    }

  abbrev pub if_finished : Bool → Result BatchReport → Option (Result BatchReport)
  if_finished true result = some result
  if_finished false result = none

  abbrev pub concluded :
      (batch_id : String)
      → List NormalizedRequest
      → (concurrency : ℕ) → Result Running
      → Option (Result BatchReport)
  concluded batch_id requests concurrency (err e) = some (err e)
  concluded batch_id requests concurrency (ok s) = if_finished (all_stopped s.workers) (
      throw_if_aborted weather.aborted
      >> ok (report_of weather batch_id concurrency (finalize weather requests s.results)))

  -- `executeBatch` under a schedule, which may end before the workers do.
  unfoldable pub execute_batch :
      (batch_id : String)
      → List NormalizedRequest
      → (concurrency : ℕ) → (schedule : List ℕ) → Option (Result BatchReport)
  unfolding throw_if_aborted turns start finalize report_of
  execute_batch batch_id requests concurrency schedule = concluded batch_id requests concurrency (
      throw_if_aborted weather.aborted_before
      >> turns requests schedule (start requests concurrency))
