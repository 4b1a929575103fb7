-- ===== src/ControlPlane/RunService/Tests.antt =====
-- A service that finds one run of its own, one of the demo and one that has ended.
use testy_mc_testface.Prelude.{
  ◌≢◌, ◌≡◌, refl, String, true, false, List, [], ◌∷◌, Option, none, some, lookup, map, insert,
}
use testy_mc_testface.Scenario.Status.{RunStatus, running, failed, cancelled, passed}
use testy_mc_testface.Scenario.Types.{ResolvedScenario, Steps, failed_outcome, cancelled_outcome}
use testy_mc_testface.Scenario.Types
use testy_mc_testface.Scenario.Repository.{Repository, cancellable, entries}
use testy_mc_testface.Scenario.Repository.Records.{PersistedRun, PersistedLease, active}
use testy_mc_testface.ControlPlane.RunService.{
  Service, recover_run, recover_interrupted_runs, cancel,
}
use testy_mc_testface.ControlPlane.RunService.Recovery.{
  IsStore, IsAtRest, recover_interrupted_runs-IsAtRest,
}
use testy_mc_testface.ControlPlane.RunService.Cancellation.{recover_run_status, cancel_lem}

abbrev service : Service
service = record { cleaner = λ _. some (λ _. none); time_of = λ _. 7; iso = λ _. "2026-01-01" }

abbrev no_phases : Types.Phases
no_phases = record {
  allocate = Types.Steps.nil;
  compile = Types.Steps.nil;
  configure = Types.Steps.nil;
  run = Types.Steps.nil;
  observe = Types.Steps.nil;
  assert = Types.Steps.nil;
}

abbrev run : (id scenario : String) → RunStatus → PersistedRun
run id scenario status = record {
  id = id;
  scenario_id = scenario;
  target = "alpha";
  status = status;
  outcome_status = none;
  resolved_scenario_hash = "hash";
  resolved_scenario = record {
    scenario_id = scenario;
    display_name = "Demo";
    target = "alpha";
    timeout_ms = 5;
    variables = [];
    phases = no_phases;
    content_hash = "hash";
  };
  metadata = [];
  cancel_requested_at = none;
  created_at = "2025-12-31";
  updated_at = "2025-12-31";
  started_at = none;
  finished_at = none;
}

abbrev lease : PersistedLease
lease = record {
  lease = record {
    lease_id = "lease-1";
    run_id = "a";
    resource_type = "tenant";
    resource_key = "alpha";
    expires_at = "later";
  };
  status = active;
  released_at = none;
}

abbrev store : Repository
store = record {
  runs =
      ("a", run "a" "checkout" running)
      ∷ ("b", run "b" "interactive-demo" running)
      ∷ ("c", run "c" "checkout" passed)
      ∷ [];
  steps = [];
  timeline = [];
  artifacts = [];
  assertions = [];
  provider_calls = [];
  browser_actions = [];
  observations = [];
  leases = ("lease-1", lease) ∷ [];
}

abbrev statuses : Option Repository → List RunStatus
statuses none = []
statuses (some r) = map (λ (r : PersistedRun). r.status) (entries r.runs)

recovers : statuses (recover_interrupted_runs service store) ≡ failed ∷ running ∷ passed ∷ []
unfolding recover_interrupted_runs lookup insert
recovers = refl

runs-IsStore : IsStore store.runs
unfolding lookup
runs-IsStore = record { keyed = (refl, (refl, (refl, tt))); once = (refl, (refl, (refl, tt))) }

there : lookup "a" store.runs ≡ some (run "a" "checkout" running)
unfolding lookup
there = refl

accepted : cancellable running ≡ true
unfolding cancellable
accepted = refl

recover_interrupted_runs-IsAtRest_example :
    (r' : Repository) × (recover_interrupted_runs service store ≡ some r')
    × ((id : String) (run : PersistedRun) → lookup id r'.runs ≡ some run → IsAtRest service run)
recover_interrupted_runs-IsAtRest_example =
    recover_interrupted_runs-IsAtRest service store runs-IsStore

recover_run_status_example :
    (r' : Repository) × (after : PersistedRun) × (recover_run service
        (run "a" "checkout" running)
        store
      ≡ some r')
    × (lookup "a" r'.runs ≡ some after)
    × (after.status ≡ failed)
    × (after.outcome_status ≡ some failed_outcome)
    × (after.id ≡ "a")
    × (after.scenario_id ≡ "checkout")
    × ((other : String) → "a" ≢ other → lookup other r'.runs ≡ lookup other store.runs)
recover_run_status_example = recover_run_status service (run "a" "checkout" running) store there

cancel_lem_example :
    (r' : Repository) × (after : PersistedRun) × (cancel service "a" false store ≡ some (r', true))
    × (lookup "a" r'.runs ≡ some after)
    × (after.status ≡ cancelled)
cancel_lem_example = cancel_lem service "a" store (run "a" "checkout" running) there accepted
