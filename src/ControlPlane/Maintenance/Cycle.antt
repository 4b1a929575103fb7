-- ===== src/ControlPlane/Maintenance/Cycle.antt =====
-- A cycle of the maintenance comes to a report, whatever the cleaners throw.
use testy_mc_testface.Prelude.{
  ℕ, suc, ◌+◌, ◌≤◌, ◌≡◌, refl, String, Bool, true, false, List, [], ◌∷◌, Option, none, some, length,
  arith,
}
use testy_mc_testface.Scenario.Types.{TimelineRecord}
use testy_mc_testface.Scenario.Repository.Records.{PersistedLease, PersistedArtifact}
use testy_mc_testface.ControlPlane.Maintenance.{
  Failure, no_cleaner, Answer, thrown, ok, ClaimOptions, MaintenanceOptions, CycleCounts,
  MaintenancePlatform, after, caught, tally, lease_failed, release_expired, clean_lease,
  clean_leases, artifact_failed, prune_artifacts, execute,
}

module _ {W : Type 0} where
  -- A call that does not throw, and what holds of its answer.
  pub data Gives {A : Type 0} (P : A → Type 0) : Answer A × W → Type 0 where
    gives : (a : A) (w : W) → P a → Gives P (ok a, w)

  after-Gives :
      {A B : Type 0} (P : A → Type 0) (Q : B → Type 0) (m : Answer A × W)
      (next : A → W → Answer B × W)
      → Gives P m
      → ((a : A) (w : W) → P a → Gives Q (next a w))
      → Gives Q (after m next)
  after-Gives P Q m next (gives a w holds) h = h a w holds

  caught-Gives :
      (m : Answer (Unit {0}) × W) (handle : Failure → W → Answer (Unit {0}) × W)
      → ((e : Failure) (w : W) → Gives (λ _. Unit {0}) (handle e w))
      → Gives (λ (_ : Bool). Unit {0}) (caught m handle)
  caught-Gives (ok a, w) handle h = gives true w tt
  caught-Gives (thrown e, w) handle h =
      after-Gives (λ _. Unit {0}) (λ _. Unit {0}) (handle e w) (λ _ w'. (ok false, w')) (h e w)
        (λ _ w' _. gives false w' tt)

abbrev pub sum_of : ℕ × ℕ → ℕ
sum_of n = n.0 + n.1

-- The counts of a report add up, within the size of a batch.
pub record IsAccounted (limit : ℕ) (c : CycleCounts) : Type 0 where
  pub total : c.done + c.failed ≡ c.claimed
  pub fits : c.claimed ≤ limit

-- The database answers: the claims are as long as they may be, and a failure can be recorded.
module _ {W : Type 0} (v : MaintenancePlatform W) where
  pub record IsReliable : Type 0 where
    pub leases : (c : ClaimOptions) (w : W) → Gives (λ l. length l ≤ c.limit) (v.claim_leases c w)
    pub artifacts :
        (c : ClaimOptions) (w : W) → Gives (λ l. length l ≤ c.limit) (v.claim_artifacts c w)
    pub lease_recorded :
        (id at error : String) (w : W)
        → Gives (λ _. Unit {0}) (v.record_lease_failure id at error w)
    pub artifact_recorded :
        (id at error : String) (w : W)
        → Gives (λ _. Unit {0}) (v.record_artifact_failure id at error w)
    pub appended : (t : TimelineRecord) (w : W) → Gives (λ _. Unit {0}) (v.append_event t w)

  module _ (reliable : IsReliable) where
    lease_failed-Gives :
        (started : ℕ) (l : PersistedLease) (e : Failure) (w : W)
        → Gives (λ _. Unit {0}) (lease_failed v started l e w)
    lease_failed-Gives started l e w =
        after-Gives (λ _. Unit {0}) (λ _. Unit {0}) _ _ (reliable.lease_recorded _ _ _ _)
          (λ _ w2 _. reliable.appended _ w2)

    clean_lease-Gives :
        (started : ℕ) (cleaner : Option (PersistedLease → W → Answer (Unit {0}) × W))
        (l : PersistedLease) (w : W)
        → Gives (λ _. Unit {0}) (clean_lease v started cleaner l w)
    clean_lease-Gives started none l w =
        after-Gives (λ _. Unit {0}) (λ _. Unit {0}) _ _
          (lease_failed-Gives started l (no_cleaner l.lease.resource_type) w)
          (λ _ w1 _. gives false w1 tt)
    clean_lease-Gives started (some cleaner) l w =
        caught-Gives (after (cleaner l w) (λ _ w1. release_expired v l w1))
          (lease_failed v started l) (lease_failed-Gives started l)

    tally-sum : (done : Bool) (n : ℕ × ℕ) (k : ℕ) → sum_of n ≡ k → sum_of (tally done n) ≡ suc k
    tally-sum true (a, b) k e = omega arith
    tally-sum false (a, b) k e = omega arith

    clean_leases-Gives :
        (started : ℕ) (ls : List PersistedLease) (w : W)
        → Gives (λ n. sum_of n ≡ length ls) (clean_leases v started ls w)
    unfolding clean_leases
    clean_leases-Gives started [] w = gives (0, 0) w refl
    clean_leases-Gives started (l ∷ rest) w =
        after-Gives (λ _. Unit {0}) (λ n. sum_of n ≡ suc (length rest)) _ _
          (clean_lease-Gives started (v.resource_cleaner l.lease.resource_type) l w)
          (λ done w1 _.
            after-Gives (λ n. sum_of n ≡ length rest) (λ n. sum_of n ≡ suc (length rest)) _ _
              (clean_leases-Gives started rest w1)
              (λ n w2 e. gives (tally done n) w2 (tally-sum done n (length rest) e)))

    artifact_failed-Gives :
        (a : PersistedArtifact) (e : Failure) (w : W)
        → Gives (λ _. Unit {0}) (artifact_failed v a e w)
    artifact_failed-Gives a e w =
        after-Gives (λ _. Unit {0}) (λ _. Unit {0}) _ _ (reliable.artifact_recorded _ _ _ _)
          (λ _ w2 _. reliable.appended _ w2)

    prune_artifacts-Gives :
        (old : List PersistedArtifact) (w : W)
        → Gives (λ n. sum_of n ≡ length old) (prune_artifacts v old w)
    unfolding prune_artifacts
    prune_artifacts-Gives [] w = gives (0, 0) w refl
    prune_artifacts-Gives (a ∷ rest) w =
        after-Gives (λ _. Unit {0}) (λ n. sum_of n ≡ suc (length rest)) _ _
          (caught-Gives _ (artifact_failed v a) (artifact_failed-Gives a))
          (λ done w1 _.
            after-Gives (λ n. sum_of n ≡ length rest) (λ n. sum_of n ≡ suc (length rest)) _ _
              (prune_artifacts-Gives rest w1)
              (λ n w2 e. gives (tally done n) w2 (tally-sum done n (length rest) e)))

    -- If the database answers and can record failures, a cycle comes to a report, whatever the cleaners, the
    -- deletions and the releases throw; and in the report every claimed lease is counted once, as released or
    -- as failed, and every claimed artifact as deleted or as failed, with no more of either than a batch has.
    pub execute_lem :
        (options : MaintenanceOptions) (w : W)
        → Gives
            (λ r.
              IsAccounted options.batch_size r.leases × IsAccounted options.batch_size r.artifacts)
            (execute v options w)
    unfolding execute
    execute_lem options w =
        after-Gives (λ ls. length ls ≤ options.batch_size) _ _ _ (reliable.leases _ _)
          (λ ls w2 fits.
            after-Gives (λ n. sum_of n ≡ length ls) _ _ _ (clean_leases-Gives _ ls w2)
              (λ n w3 total.
                after-Gives (λ old. length old ≤ options.batch_size) _ _ _ (reliable.artifacts _ _)
                  (λ old w4 fits'.
                    after-Gives (λ m. sum_of m ≡ length old) _ _ _ (prune_artifacts-Gives old w4)
                      (λ m w5 total'. gives _ _ (
                        record { total = total; fits = fits },
                        record { total = total'; fits = fits' },
                      )))))
