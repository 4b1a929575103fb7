-- ===== src/Scenario/Repository/Tests.antt =====
-- A repository with a step and a lease.
use testy_mc_testface.Prelude.{
  ◌≡◌, ◌≢◌, ◌↔◌, ◌⊎◌, refl, true, String, [], ◌∷◌, none, some, lookup, insert, eq_iff,
}
use testy_mc_testface.Scenario.Status.{running, cancelling, can_transition}
use testy_mc_testface.Scenario.Types.{
  StepRecord, ResourceLease, task_kind, step_running, step_passed,
}
use testy_mc_testface.Scenario.Repository.Records.{released, active}
use testy_mc_testface.Scenario.Repository.{
  Repository, record_step, create_resource_lease, release_resource_lease, list_of, cancellable,
  upsert, replace_first,
}
use testy_mc_testface.Scenario.Repository.Reports.{
  build_report, build_assertion_snapshot, record_event, stepped, build_report-record_event,
}
use testy_mc_testface.Scenario.Repository.Upsert.{IsKeyed, IsRecorded, record_step-IsRecorded}
use testy_mc_testface.Scenario.Repository.Leases.{
  release_resource_lease_twice, create_release_resource_lease,
}
use testy_mc_testface.Scenario.Repository.Cancelling.{cancellable_iff}

abbrev empty : Repository
empty = record {
  runs = [];
  steps = [];
  timeline = [];
  artifacts = [];
  assertions = [];
  provider_calls = [];
  browser_actions = [];
  observations = [];
  leases = [];
}

abbrev begun : StepRecord
begun = record {
  run_id = "run-1";
  step_id = "work";
  kind = task_kind;
  phase = running;
  status = step_running;
  attempt = 1;
  started_at = 5;
  completed_at = none;
  duration_ms = none;
  output_fingerprint = none;
  error = none;
}

abbrev ended : StepRecord
ended = record begun { status = step_passed; completed_at = some 9; duration_ms = some 4 }

replaces : list_of (record_step ended (record_step begun empty)).steps "run-1" ≡ ended ∷ []
unfolding record_step list_of upsert replace_first lookup insert
replaces = refl

empty-IsKeyed : IsKeyed empty
unfolding list_of lookup
empty-IsKeyed run = tt

begun-IsRecorded : IsRecorded begun empty (record_step begun empty)
begun-IsRecorded = record_step-IsRecorded begun empty empty-IsKeyed

-- The outcome is recorded over the record that the step is running.
record_step-IsRecorded_example :
    IsRecorded ended (record_step begun empty) (record_step ended (record_step begun empty))
record_step-IsRecorded_example =
    record_step-IsRecorded ended (record_step begun empty) begun-IsRecorded.keyed

abbrev lease : ResourceLease
lease = record {
  lease_id = "lease-1";
  run_id = "run-1";
  resource_type = "tenant";
  resource_key = "alpha";
  expires_at = "later";
}

abbrev leased : Repository
leased = record empty {
  leases = ("lease-1", record { lease = lease; status = active; released_at = none }) ∷ [];
}

release_resource_lease_twice_example :
    release_resource_lease "lease-1" "t2" (release_resource_lease "lease-1" "t1" leased)
    ≡ release_resource_lease "lease-1" "t1" leased
release_resource_lease_twice_example = release_resource_lease_twice "lease-1" "t1" "t2" leased

leases : create_resource_lease lease empty ≡ some leased
unfolding create_resource_lease lookup insert
leases = refl

create_release_resource_lease_example :
    let t = release_resource_lease "lease-1" "t1" leased in
    (lookup "lease-1" t.leases
      ≡ some (record { lease = lease; status = released; released_at = some "t1" }))
    × (◌≢◌ {A = String} "lease-1" "lease-2" → lookup "lease-2" t.leases ≡ none)
    × (create_resource_lease lease t ≡ none)
unfolding lookup
create_release_resource_lease_example =
    create_release_resource_lease lease "t1" "lease-2" empty leased leases

cancellable_iff_example :
    (cancellable cancelling ≡ true)
    ↔ ((can_transition cancelling cancelling ≡ true) ⊎ (cancelling ≡ cancelling))
cancellable_iff_example = cancellable_iff cancelling

build_report-record_event_example :
    let r = record_step begun empty in
    (build_report "run-2" (record_event (stepped ended) r) ≡ build_report "run-2" r)
    × (build_assertion_snapshot "run-2" (record_event (stepped ended) r)
        ≡ build_assertion_snapshot "run-2" r)
build_report-record_event_example =
    build_report-record_event (stepped ended) "run-2" (record_step begun empty)
      (λ e. cc ((eq_iff "run-1" "run-2").1 e))
