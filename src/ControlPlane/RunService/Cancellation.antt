-- ===== src/ControlPlane/RunService/Cancellation.antt =====
-- `cancel` on every branch, and the status that a recovered run ends in.
use testy_mc_testface.Prelude.{
  ◌≢◌, ◌≡◌, refl, ap, ◌∙◌, String, true, false, [], ◌∷◌, some, is_some, length, lookup, insert,
  lookup-insert_self, if◌then◌else◌, arith, pos,
}
use testy_mc_testface.Scenario.Status.{RunStatus, failed, cancelled, cleanup, cancelling}
use testy_mc_testface.Scenario.Types.{failed_outcome, cancelled_outcome}
use testy_mc_testface.Scenario.Value.{Value, num}
use testy_mc_testface.Scenario.Repository.{
  Repository, StatusOptions, updated_run, update_run_status, cancellable, request_cancellation,
  append_timeline, list_active_resource_leases,
}
use testy_mc_testface.Scenario.Repository.Records.{PersistedRun}
use testy_mc_testface.ControlPlane.RunService.{
  Service, cleanup_persisted_leases, now, recover_run, no_options, as_cancelled,
  finalize_interrupted_cancellation, requested, cancel,
}
use testy_mc_testface.ControlPlane.RunService.Settled.{
  update_run_status-some, clean_leases-runs, recover_run_lem,
}

-- An update of a stored run, and what is stored then.
updating :
    (id at : String) (status : RunStatus) (o : StatusOptions) (r : Repository)
    (stored : PersistedRun)
    → lookup id r.runs ≡ some stored
    → (r' : Repository) × (update_run_status id status o at r ≡ some r')
      × (lookup id r'.runs ≡ some (updated_run stored status o at))
updating id at status o r stored h =
    let new = updated_run stored status o at in
    (
      record r { runs = insert id new r.runs },
      update_run_status-some id status o at r stored h,
      lookup-insert_self id new r.runs,
    )

module _ (v : Service) where
  -- A run that was interrupted and is recovered ends CANCELLED if its cancellation was requested and FAILED
  -- otherwise, whatever its leases did; it keeps its identity and scenario, and the other runs are
  -- left as they are.
  pub recover_run_status :
      (run : PersistedRun) (r : Repository)
      → lookup run.id r.runs ≡ some run
      → (r' : Repository) × (after : PersistedRun) × (recover_run v run r ≡ some r')
        × (lookup run.id r'.runs ≡ some after)
        × (after.status ≡ (if is_some run.cancel_requested_at then cancelled else failed))
        × (after.outcome_status
            ≡ some (if is_some run.cancel_requested_at then cancelled_outcome else failed_outcome))
        × (after.id ≡ run.id)
        × (after.scenario_id ≡ run.scenario_id)
        × ((other : String) → run.id ≢ other → lookup other r'.runs ≡ lookup other r.runs)
  recover_run_status run r h =
      let (r', made, there, others) = recover_run_lem v run run r h in
      (r', _, made, there, ground arith, ground arith, refl, refl, others)

  finalize_lem :
      (id : String) (r : Repository) (stored : PersistedRun)
      → lookup id r.runs ≡ some stored
      → (r' : Repository) × (after : PersistedRun) × (finalize_interrupted_cancellation v id r
          ≡ some r')
        × (lookup id r'.runs ≡ some after)
        × (after.status ≡ cancelled)
  unfolding finalize_interrupted_cancellation
  finalize_lem id r stored h =
      let cleaned = cleanup_persisted_leases v id r in
      let errors : Value = num (pos (length cleaned.0)) in
      let same : cleaned.1.runs ≡ r.runs =
        unfold cleanup_persisted_leases in
        clean_leases-runs v (list_active_resource_leases id r) r in
      let last = record (as_cancelled v) {
        finished_at = some (now v id);
        metadata = some (("cleanupErrorCount", errors) ∷ []);
      } in
      let (r1, e1, h1) =
        updating id (now v id) cancelling (no_options v) cleaned.1 stored
          (ap (lookup id) same ∙ h) in
      let (r2, e2, h2) = updating id (now v id) cancelled (as_cancelled v) r1 _ h1 in
      let (r3, e3, h3) = updating id (now v id) cleanup (as_cancelled v) r2 _ h2 in
      let (r4, e4, h4) = updating id (now v id) cancelled last r3 _ h3 in
      (r4, _, rw (e1, e2, e3) e4, h4, refl)

  request_cancellation_lem :
      (id at : String) (r : Repository) (run : PersistedRun)
      → lookup id r.runs ≡ some run
      → cancellable run.status ≡ true
      → let new = record run { cancel_requested_at = some at; updated_at = at } in
        request_cancellation id at r ≡ (record r { runs = insert id new r.runs }, true)
  unfolding request_cancellation
  request_cancellation_lem id at r run h k = rw (h, k, request_cancellation) refl

  -- A cancellation that the repository accepts ends the run as CANCELLED at once, if no execution of this process has
  -- the run.
  pub cancel_lem :
      (id : String) (r : Repository) (run : PersistedRun)
      → lookup id r.runs ≡ some run
      → cancellable run.status ≡ true
      → (r' : Repository) × (after : PersistedRun) × (cancel v id false r ≡ some (r', true))
        × (lookup id r'.runs ≡ some after)
        × (after.status ≡ cancelled)
  unfolding cancel
  cancel_lem id r run h k =
      let at = now v id in
      let new = record run { cancel_requested_at = some at; updated_at = at } in
      let asked : Repository = record r { runs = insert id new r.runs } in
      let logged = append_timeline (requested v id) asked in
      let there : lookup id logged.runs ≡ some new =
        unfold append_timeline in lookup-insert_self id new r.runs in
      let (r', after, made, found, status) = finalize_lem id logged new there in
      (r', after, rw (request_cancellation_lem id at r run h k, made) refl, found, status)
