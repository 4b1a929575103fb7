-- ===== src/ControlPlane/RunService.antt =====
-- apps/control-plane/src/run-service.ts: what ScenarioRunService does to the repository when runs were
-- interrupted. `iso` writes a time; the time of a release and of a recovery is a function of the
-- identity of the lease or run.
pub mod Settled
pub mod Recovery
pub mod Cancellation
pub mod Tests
use testy_mc_testface.Prelude.{
  ℕ, ltb, ℤ, pos, String, Bool, true, false, not, ◌&&◌, List, [], ◌∷◌, Option, none, some, ◌>>=◌,
  is_some, length, Table, lookup, str_eq, if◌then◌else◌,
}
use testy_mc_testface.Scenario.Value.{Value, bool, num, str}
use testy_mc_testface.Scenario.Status.{
  RunStatus, passed, failed, cancelled, cleanup, cancelling, status_text,
}
use testy_mc_testface.Scenario.Types.{
  Outcome, passed_outcome, failed_outcome, cancelled_outcome, TimelineRecord, engine_category,
}
use testy_mc_testface.Scenario.Repository.{
  Repository, StatusOptions, update_run_status, request_cancellation, list_active_runs,
  append_timeline, release_resource_lease, list_active_resource_leases,
}
use testy_mc_testface.Scenario.Repository.Records.{PersistedRun, PersistedLease}

-- Why a lease is still held.
pub data CleanupError : Type 0 where
  unregistered : (resource_type : String) → CleanupError
  refused : (message : String) → CleanupError

-- The cleaners by resource type: a cleaner that throws gives the sanitised message of its error.
-- The times, and the texts of times.
pub record Service : Type 0 where
  pub cleaner : (resource_type : String) → Option (PersistedLease → Option String)
  pub time_of : (id : String) → ℕ
  pub iso : ℕ → String

module _ (v : Service) where
  abbrev pub now : String → String
  now id = v.iso (v.time_of id)

  abbrev pub clean_lease :
      Option (PersistedLease → Option String)
      → PersistedLease
      → Repository
      → Option CleanupError × Repository
  clean_lease none l r = (some (unregistered l.lease.resource_type), r)
  clean_lease (some cleaner) l r = elim (cleaner l) [
    | some message ↦ (some (refused message), r)
    | none ↦ (none, release_resource_lease l.lease.lease_id (now l.lease.lease_id) r)
  ]

  abbrev pub push : Option CleanupError → List CleanupError → List CleanupError
  push none errors = errors
  push (some e) errors = e ∷ errors

  -- The loop of `cleanupPersistedLeases`.
  unfoldable pub clean_leases : List PersistedLease → Repository → List CleanupError × Repository
  unfolding release_resource_lease
  clean_leases [] r = ([], r)
  clean_leases (l ∷ rest) r =
      let (error, r') = clean_lease (v.cleaner l.lease.resource_type) l r in
      let (errors, r'') = clean_leases rest r' in (push error errors, r'')

  unfoldable pub cleanup_persisted_leases :
      (run_id : String) → Repository → List CleanupError × Repository
  unfolding clean_leases list_active_resource_leases
  cleanup_persisted_leases id r = clean_leases (list_active_resource_leases id r) r

  abbrev outcome_text : Outcome → String
  outcome_text passed_outcome = "PASSED"
  outcome_text failed_outcome = "FAILED"
  outcome_text cancelled_outcome = "CANCELLED"

  abbrev pub status_of : Outcome → RunStatus
  status_of passed_outcome = passed
  status_of failed_outcome = failed
  status_of cancelled_outcome = cancelled

  abbrev pub recovery_outcome : PersistedRun → (errors : ℕ) → Outcome
  recovery_outcome run errors =
      let first = if is_some run.cancel_requested_at then cancelled_outcome else failed_outcome in
      if ltb 0 errors && not (is_some run.cancel_requested_at) then failed_outcome else first

  abbrev pub cleanup_options : PersistedRun → (errors : ℕ) → StatusOptions
  cleanup_options run errors = record {
    outcome_status = some (recovery_outcome run errors);
    started_at = none;
    finished_at = none;
    metadata = some (
        ("recoveredAfterRestart", bool true)
        ∷ ("interruptionStatus", str (status_text run.status))
        ∷ ("cleanupErrorCount", num (pos errors))
        ∷ []);
  }

  abbrev pub final_options : PersistedRun → (errors : ℕ) → StatusOptions
  final_options run errors = record {
    outcome_status = some (recovery_outcome run errors);
    started_at = none;
    finished_at = some (now run.id);
    metadata = none;
  }

  abbrev pub recovered : PersistedRun → (errors : ℕ) → TimelineRecord
  recovered run errors = record {
    occurred_at = v.time_of run.id;
    run_id = run.id;
    category = engine_category;
    name = "interrupted-run-recovered";
    metadata =
        ("previousStatus", str (status_text run.status))
        ∷ ("outcome", str (outcome_text (recovery_outcome run errors)))
        ∷ [];
  }

  -- One round of `recoverInterruptedRuns` for a run that is not the interactive demo's.
  unfoldable pub recover_run : PersistedRun → Repository → Option Repository
  unfolding cleanup_persisted_leases update_run_status append_timeline
  recover_run run r = do
    let cleaned = cleanup_persisted_leases run.id r
    let errors = length cleaned.0
    r' ← update_run_status run.id cleanup (cleanup_options run errors) (now run.id) cleaned.1
    update_run_status run.id (status_of (recovery_outcome run errors)) (final_options run errors)
        (now run.id) (append_timeline (recovered run errors) r')

  abbrev pub is_demo : PersistedRun → Bool
  is_demo run = str_eq run.scenario_id "interactive-demo"

  unfoldable pub recover_runs : List PersistedRun → Repository → Option Repository
  unfolding recover_run
  recover_runs [] r = some r
  recover_runs (run ∷ rest) r =
      (if is_demo run then some r else recover_run run r) >>= recover_runs rest

  unfoldable pub recover_interrupted_runs : Repository → Option Repository
  unfolding recover_runs list_active_runs
  recover_interrupted_runs r = recover_runs (list_active_runs r) r

  abbrev pub no_options : StatusOptions
  no_options = record {
    outcome_status = none;
    started_at = none;
    finished_at = none;
    metadata = none;
  }

  abbrev pub as_cancelled : StatusOptions
  as_cancelled = record no_options { outcome_status = some cancelled_outcome }

  unfoldable pub finalize_interrupted_cancellation :
      (run_id : String) → Repository → Option Repository
  unfolding cleanup_persisted_leases update_run_status
  finalize_interrupted_cancellation id r = do
    let cleaned = cleanup_persisted_leases id r
    let errors : Value = num (pos (length cleaned.0))
    r1 ← update_run_status id cancelling no_options (now id) cleaned.1
    r2 ← update_run_status id cancelled as_cancelled (now id) r1
    r3 ← update_run_status id cleanup as_cancelled (now id) r2
    update_run_status id cancelled
        (record as_cancelled {
          finished_at = some (now id);
          metadata = some (("cleanupErrorCount", errors) ∷ []);
        })
        (now id) r3

  abbrev pub requested : (run_id : String) → TimelineRecord
  requested id = record {
    occurred_at = v.time_of id;
    run_id = id;
    category = engine_category;
    name = "cancellation-requested";
    metadata = [];
  }

  abbrev pub cancelling_from :
      (run_id : String) → (has_controller : Bool) → Repository × Bool → Option (Repository × Bool)
  cancelling_from id has_controller (r, false) = some (r, false)
  cancelling_from id true (r, true) = some (append_timeline (requested id) r, true)
  cancelling_from id false (r, true) = do
    r' ← finalize_interrupted_cancellation id (append_timeline (requested id) r)
    some (r', true)

  -- `cancel`. A run with a controller is executed by this process, which is told to abort.
  unfoldable pub cancel :
      (run_id : String) → (has_controller : Bool) → Repository → Option (Repository × Bool)
  unfolding request_cancellation append_timeline finalize_interrupted_cancellation
  cancel id has_controller r =
      cancelling_from id has_controller (request_cancellation id (now id) r)
