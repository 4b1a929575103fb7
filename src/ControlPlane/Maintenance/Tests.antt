-- ===== src/ControlPlane/Maintenance/Tests.antt =====
-- Two leases and an artifact, where one lease has no cleaner and the file cannot be deleted.
use testy_mc_testface.Prelude.{
  ℕ, zero, suc, ◌≤◌, String, List, [], ◌∷◌, none, some, length, str_eq, if◌then◌else◌, arith,
}
use testy_mc_testface.Scenario.Repository.Records.{PersistedLease, PersistedArtifact, active}
use testy_mc_testface.ControlPlane.Maintenance.{
  thrown, ok, raised, MaintenancePlatform, MaintenanceOptions, execute,
}
use testy_mc_testface.ControlPlane.Maintenance.Cycle.{
  Gives, gives, IsReliable, IsAccounted, execute_lem,
}

abbrev lease_of : (resource_type : String) → PersistedLease
lease_of kind = record {
  lease = record {
    lease_id = "lease";
    run_id = "run";
    resource_type = kind;
    resource_key = "key";
    expires_at = "0";
  };
  status = active;
  released_at = none;
}

abbrev trace : PersistedArtifact
trace = record {
  artifact_id = "trace";
  run_id = "run";
  kind = "trace";
  media_type = "text/plain";
  location = "trace.txt";
  sha256 = "0";
  metadata = [];
  created_at = "0";
}

abbrev expired : ℕ → List PersistedLease
expired (suc (suc n)) = lease_of "container" ∷ lease_of "port" ∷ []
expired _ = []

abbrev old_artifacts : ℕ → List PersistedArtifact
old_artifacts (suc n) = trace ∷ []
old_artifacts _ = []

-- The world is the number of the calls.
abbrev service : MaintenancePlatform ℕ
service = record {
  clock = λ w. (w, suc w);
  iso = λ _. "time";
  fingerprint_of = λ _. "fingerprint";
  resource_cleaner = λ kind. if str_eq kind "port" then some (λ _ w. (ok tt, suc w)) else none;
  delete_file = λ _ w. (thrown (raised "denied"), suc w);
  claim_leases = λ c w. (ok (expired c.limit), suc w);
  record_lease_failure = λ _ _ _ w. (ok tt, suc w);
  release_lease = λ _ _ w. (ok tt, suc w);
  claim_artifacts = λ c w. (ok (old_artifacts c.limit), suc w);
  record_artifact_failure = λ _ _ _ w. (ok tt, suc w);
  delete_record = λ _ w. (ok tt, suc w);
  append_event = λ _ w. (ok tt, suc w);
}

expired_fit : (n : ℕ) → length (expired n) ≤ n
expired_fit zero = omega arith
expired_fit (suc zero) = omega arith
expired_fit (suc (suc n)) = omega arith

old_artifacts_fit : (n : ℕ) → length (old_artifacts n) ≤ n
old_artifacts_fit zero = omega arith
old_artifacts_fit (suc n) = omega arith

service-IsReliable : IsReliable service
service-IsReliable = record {
  leases = λ c w. gives _ _ (expired_fit c.limit);
  artifacts = λ c w. gives _ _ (old_artifacts_fit c.limit);
  lease_recorded = λ _ _ _ w. gives tt _ tt;
  artifact_recorded = λ _ _ _ w. gives tt _ tt;
  appended = λ _ w. gives tt _ tt;
}

abbrev options : MaintenanceOptions
options = record {
  interval_ms = 0;
  batch_size = 10;
  claim_ttl_ms = 60;
  artifact_retention_ms = 100;
}

execute_lem_example :
    Gives (λ r. IsAccounted 10 r.leases × IsAccounted 10 r.artifacts) (execute service options 7)
execute_lem_example = execute_lem service service-IsReliable options 7
