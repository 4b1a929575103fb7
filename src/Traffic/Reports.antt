-- ===== src/Traffic/Reports.antt =====
-- What a report of a batch says of its requests, whatever the schedule.
use testy_mc_testface.Prelude.{
  ℕ, ◌+◌, ◌≤◌, ◌≡◌, refl, sym, subst, ap, ◌∙◌, String, Bool, true, false, List, [], ◌∷◌, some,
  length, ◌==◌, ◌↔◌, All, arith,
}
use testy_mc_testface.Traffic.{RequestResult, BatchReport, RouteBinding, Platform}
use testy_mc_testface.Traffic.Results.{
  Result, ok, err, ◌>>◌, Returns, after-Returns, Returns-any, Returns-ok,
}
use testy_mc_testface.Traffic.Limits.{Limits}
use testy_mc_testface.Traffic.Request.{NormalizedRequest}
use testy_mc_testface.Traffic.Attempts.{throw_if_aborted}
use testy_mc_testface.Traffic.Batch.{
  all_stopped, Running, Weather, turns, start, finalize, failed_of, report_of, if_finished,
  concluded, execute_batch,
}
use testy_mc_testface.Traffic.Tables.{not_there}
use testy_mc_testface.Traffic.Identities.{
  result_ids, request_ids, OwnIds, finalize-ids, turns-Keeps,
}

-- What a report says of its requests.
pub record IsFaithful (weather : Weather) (requests : List NormalizedRequest) (report : BatchReport)
    : Type 0 where
  pub in_order : result_ids report.results ≡ request_ids requests
  pub counted : report.request_count ≡ length requests
  pub split : report.passed_count + report.failed_count ≡ report.request_count
  pub verdict :
      (report.passed ≡ true)
      ↔ ((weather.timed_out ≡ false) × All (λ (r : RequestResult). r.passed ≡ true) report.results)

length-result_ids : (results : List RequestResult) → length (result_ids results) ≡ length results
length-result_ids [] = refl
length-result_ids (r ∷ results) = omega (arith, length-result_ids results)

length-request_ids :
    (requests : List NormalizedRequest) → length (request_ids requests) ≡ length requests
length-request_ids [] = refl
length-request_ids (q ∷ requests) = omega (arith, length-request_ids requests)

length-failed_of :
    (weather : Weather) (results : List RequestResult)
    → length (failed_of weather results) ≤ length results
length-failed_of weather [] = omega arith
length-failed_of weather (r ∷ results) = ground (arith, length-failed_of weather results)

failed_of_iff :
    (weather : Weather) (results : List RequestResult)
    → ((length (failed_of weather results) == 0) ≡ true)
      ↔ All (λ (r : RequestResult). r.passed ≡ true) results
failed_of_iff weather [] = ground arith
failed_of_iff weather (r ∷ results) = ground (arith, failed_of_iff weather results)

report_of-IsFaithful :
    (weather : Weather) (batch_id : String) (c : ℕ) (requests : List NormalizedRequest)
    (results : List RequestResult)
    → result_ids results ≡ request_ids requests
    → IsFaithful weather requests (report_of weather batch_id c results)
unfolding report_of
report_of-IsFaithful weather batch_id c requests results h = record {
  in_order = h;
  counted = sym (length-result_ids results) ∙ ap length h ∙ length-request_ids requests;
  split = omega (arith, length-failed_of weather results);
  verdict = ground (arith, failed_of_iff weather results);
}

module _ (p : Platform) (limits : Limits) (route : RouteBinding) (weather : Weather) where
  reported :
      (batch_id : String) (requests : List NormalizedRequest) (c : ℕ) (s : Running)
      (report : BatchReport) (stop aborted : Bool)
      → OwnIds requests s.results
      → if_finished p limits route weather stop (
          throw_if_aborted aborted
          >> ok (report_of weather batch_id c (finalize weather requests s.results)))
        ≡ some (ok report)
      → IsFaithful weather requests report
  unfolding throw_if_aborted
  reported batch_id requests c s report false aborted own h = cc
  reported batch_id requests c s report true true own h = cc
  reported batch_id requests c s report true false own h =
      let same : report_of weather batch_id c (finalize weather requests s.results) ≡ report = cc in
      subst (IsFaithful weather requests) same (
        report_of-IsFaithful weather batch_id c requests (finalize weather requests s.results)
          (finalize-ids weather requests s.results own))

  concluded-IsFaithful :
      (batch_id : String) (requests : List NormalizedRequest) (c : ℕ) (report : BatchReport)
      (m : Result Running)
      → Returns (λ s. OwnIds requests s.results) m
      → concluded p limits route weather batch_id requests c m ≡ some (ok report)
      → IsFaithful weather requests report
  concluded-IsFaithful batch_id requests c report (err e) own h = cc
  concluded-IsFaithful batch_id requests c report (ok s) own h =
      reported batch_id requests c s report (all_stopped s.workers) weather.aborted
        (Returns-ok own refl) h

  -- Whatever the schedule and however the requests end: a batch that reports has one result for each request, with its
  -- identity and in the order of the requests, counts each as passed or failed, and has passed
  -- exactly if it was in time and every request has passed.
  pub execute_batch-IsFaithful :
      (batch_id : String) (requests : List NormalizedRequest) (concurrency : ℕ) (schedule : List ℕ)
      (report : BatchReport)
      → execute_batch p limits route weather batch_id requests concurrency schedule
        ≡ some (ok report)
      → IsFaithful weather requests report
  unfolding execute_batch start
  execute_batch-IsFaithful batch_id requests c schedule report h =
      let before = throw_if_aborted weather.aborted_before in
      let begun = start p limits route weather requests c in
      let run = turns p limits route weather requests schedule begun in
      let none_yet : OwnIds requests begun.results =
        λ i r e. absurd (not_there (length requests) i r e) in
      concluded-IsFaithful batch_id requests c report (before >> run)
        (after-Returns before (Returns-any before)
          λ _ _. turns-Keeps p limits route weather requests schedule begun none_yet)
        h
