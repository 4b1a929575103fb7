-- ===== src/ControlPlane/Maintenance.antt =====
-- apps/control-plane/src/maintenance.ts: ControlPlaneMaintenance. The database, the cleaners and the clock are
-- calls on a world, that can throw where the code can meet it; `iso` writes a time. The timer that
-- starts the cycles is left out.
pub mod Cycle
pub mod Tests
use testy_mc_testface.Prelude.{
  ℕ, suc, ◌+◌, ℤ, pos, sub_ℕ, ◌==◌, String, Bool, true, false, not, ◌&&◌, List, [], ◌∷◌, Option,
  none, some, length, Table, if◌then◌else◌,
}
use testy_mc_testface.Scenario.Value.{Value, str}
use testy_mc_testface.Scenario.Types.{TimelineRecord, engine_category}
use testy_mc_testface.Scenario.Repository.Records.{PersistedLease, PersistedArtifact}

pub data Failure : Type 0 where
  no_cleaner : (resource_type : String) → Failure
  raised : (message : String) → Failure

pub data Answer (A : Type 0) : Type 0 where
  thrown : Failure → Answer A
  ok : A → Answer A

pub record ClaimOptions : Type 0 where
  pub before : String
  pub claim_until : String
  pub limit : ℕ

pub record MaintenanceOptions : Type 0 where
  pub interval_ms : ℕ
  pub batch_size : ℕ
  pub claim_ttl_ms : ℕ
  pub artifact_retention_ms : ℕ

pub record CycleCounts : Type 0 where
  pub claimed : ℕ
  pub done : ℕ
  pub failed : ℕ

pub record CycleReport : Type 0 where
  pub started_at : String
  pub completed_at : String
  pub leases : CycleCounts
  pub artifacts : CycleCounts

-- What the constructor is given, and the platform.
pub record MaintenancePlatform (W : Type 0) : Type 0 where
  pub clock : W → ℕ × W
  pub iso : ℤ → String
  pub fingerprint_of : Failure → String
  pub resource_cleaner :
      (resource_type : String) → Option (PersistedLease → W → Answer (Unit {0}) × W)
  pub delete_file : PersistedArtifact → W → Answer (Unit {0}) × W
  pub claim_leases : ClaimOptions → W → Answer (List PersistedLease) × W
  pub record_lease_failure :
      (lease_id : String) (attempted_at : String) (error : String) → W → Answer (Unit {0}) × W
  pub release_lease : (lease_id : String) (released_at : String) → W → Answer (Unit {0}) × W
  pub claim_artifacts : ClaimOptions → W → Answer (List PersistedArtifact) × W
  pub record_artifact_failure :
      (artifact_id : String) (attempted_at : String) (error : String) → W → Answer (Unit {0}) × W
  pub delete_record : (artifact_id : String) → W → Answer (Unit {0}) × W
  pub append_event : TimelineRecord → W → Answer (Unit {0}) × W

module _ {W : Type 0} where
  abbrev pub after : {A B : Type 0} → Answer A × W → (A → W → Answer B × W) → Answer B × W
  after (thrown e, w) next = (thrown e, w)
  after (ok a, w) next = next a w

  -- A `try` that makes true of success, whose `catch` makes false.
  abbrev pub caught :
      Answer (Unit {0}) × W → (Failure → W → Answer (Unit {0}) × W) → Answer Bool × W
  caught (ok _, w) handle = (ok true, w)
  caught (thrown e, w) handle = after (handle e w) (λ _ w'. (ok false, w'))

abbrev pub engine_event : (run_id : String) (at : ℕ) (name : String) → Table Value → TimelineRecord
engine_event run at name metadata = record {
  occurred_at = at;
  run_id = run;
  category = engine_category;
  name = name;
  metadata = metadata;
}

abbrev pub tally : Bool → ℕ × ℕ → ℕ × ℕ
tally true (done, failed) = (suc done, failed)
tally false (done, failed) = (done, suc failed)

module _ {W : Type 0} (v : MaintenancePlatform W) where
  abbrev pub lease_failed : (started : ℕ) → PersistedLease → Failure → W → Answer (Unit {0}) × W
  lease_failed started l e w =
      let (at, w1) = v.clock w in
      let error = v.fingerprint_of e in
      after (v.record_lease_failure l.lease.lease_id (v.iso (pos at)) error w1) (λ _ w2.
        v.append_event
          (engine_event l.lease.run_id at "expired-resource-cleanup-failed" (
            ("resourceType", str l.lease.resource_type)
            ∷ ("expiredBefore", str (v.iso (pos started)))
            ∷ ("errorFingerprint", str error)
            ∷ []))
          w2)

  abbrev pub release_expired : PersistedLease → W → Answer (Unit {0}) × W
  release_expired l w =
      let (at, w1) = v.clock w in
      after (v.release_lease l.lease.lease_id (v.iso (pos at)) w1) (λ _ w2.
        v.append_event
          (engine_event l.lease.run_id at "expired-resource-released"
            (("resourceType", str l.lease.resource_type) ∷ []))
          w2)

  abbrev pub clean_lease :
      (started : ℕ)
      → Option (PersistedLease → W → Answer (Unit {0}) × W)
      → PersistedLease
      → W
      → Answer Bool × W
  clean_lease started none l w =
      after (lease_failed started l (no_cleaner l.lease.resource_type) w) (λ _ w1. (ok false, w1))
  clean_lease started (some cleaner) l w =
      caught (after (cleaner l w) (λ _ w1. release_expired l w1)) (lease_failed started l)

  -- The loop over the leases: how many were released, and how many were not.
  unfoldable pub clean_leases : (started : ℕ) → List PersistedLease → W → Answer (ℕ × ℕ) × W
  clean_leases started [] w = (ok (0, 0), w)
  clean_leases started (l ∷ rest) w =
      after (clean_lease started (v.resource_cleaner l.lease.resource_type) l w)
        (λ done w1. after (clean_leases started rest w1) (λ n w2. (ok (tally done n), w2)))

  abbrev pub artifact_failed : PersistedArtifact → Failure → W → Answer (Unit {0}) × W
  artifact_failed a e w =
      let (at, w1) = v.clock w in
      let error = v.fingerprint_of e in
      after (v.record_artifact_failure a.artifact_id (v.iso (pos at)) error w1) (λ _ w2.
        v.append_event
          (engine_event a.run_id at "artifact-retention-failed"
            (("kind", str a.kind) ∷ ("errorFingerprint", str error) ∷ []))
          w2)

  abbrev pub pruned : PersistedArtifact → W → Answer (Unit {0}) × W
  pruned a w =
      let (at, w1) = v.clock w in
      v.append_event
        (engine_event a.run_id at "artifact-retained-record-pruned" (("kind", str a.kind) ∷ [])) w1

  abbrev pub prune_artifact : PersistedArtifact → W → Answer Bool × W
  prune_artifact a w =
      caught
        (after (v.delete_file a w)
          (λ _ w1. after (v.delete_record a.artifact_id w1) (λ _ w2. pruned a w2)))
        (artifact_failed a)

  -- The loop over the artifacts.
  unfoldable pub prune_artifacts : List PersistedArtifact → W → Answer (ℕ × ℕ) × W
  prune_artifacts [] w = (ok (0, 0), w)
  prune_artifacts (a ∷ rest) w =
      after (prune_artifact a w)
        (λ done w1. after (prune_artifacts rest w1) (λ n w2. (ok (tally done n), w2)))

  abbrev pub counts_of : {A : Type 0} → List A → ℕ × ℕ → CycleCounts
  counts_of claimed n = record { claimed = length claimed; done = n.0; failed = n.1 }

  abbrev pub complete : (started : ℕ) → CycleCounts → CycleCounts → W → Answer CycleReport × W
  complete started leases artifacts w =
      let (at, w1) = v.clock w in
      (
        ok (record {
          started_at = v.iso (pos started);
          completed_at = v.iso (pos at);
          leases = leases;
          artifacts = artifacts;
        }),
        w1,
      )

  abbrev pub claim_of : MaintenanceOptions → (started : ℕ) → (before : ℤ) → ClaimOptions
  claim_of options started before = record {
    before = v.iso before;
    claim_until = v.iso (pos (started + options.claim_ttl_ms));
    limit = options.batch_size;
  }

  unfoldable pub execute : MaintenanceOptions → W → Answer CycleReport × W
  unfolding clean_leases prune_artifacts
  execute options w =
      let (started, w1) = v.clock w in
      after (v.claim_leases (claim_of options started (pos started)) w1) (λ leases w2.
        after (clean_leases started leases w2) (λ n w3.
          after
            (v.claim_artifacts
              (claim_of options started (sub_ℕ started options.artifact_retention_ms)) w3)
            (λ artifacts w4.
              after (prune_artifacts artifacts w4)
                (λ m w5. complete started (counts_of leases n) (counts_of artifacts m) w5))))
