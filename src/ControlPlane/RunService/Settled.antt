-- ===== src/ControlPlane/RunService/Settled.antt =====
-- After a restart no interrupted run is left.
use testy_mc_testface.Prelude.{
  ◌≢◌, ◌≡◌, refl, ap, ◌∙◌, ℕ, String, List, [], ◌∷◌, Option, none, some, ◌>>=◌, length, lookup,
  insert, lookup-insert, lookup-insert_self, eq_iff, arith, Bool-cases, Option-cases, inl, inr,
}
use testy_mc_testface.Scenario.Status.{RunStatus, cleanup}
use testy_mc_testface.Scenario.Types.{TimelineRecord}
use testy_mc_testface.Scenario.Repository.{
  Repository, StatusOptions, updated_run, update_run_status, append_timeline,
  release_resource_lease, list_active_resource_leases, is_active,
}
use testy_mc_testface.Scenario.Repository.Records.{PersistedRun, PersistedLease}
use testy_mc_testface.ControlPlane.RunService.{
  Service, clean_lease, clean_leases, cleanup_persisted_leases, status_of, recovery_outcome,
  cleanup_options, final_options, recovered, now, recover_run,
}

pub update_run_status-some :
    (id : String) (status : RunStatus) (o : StatusOptions) (at : String) (r : Repository)
    (run : PersistedRun)
    → lookup id r.runs ≡ some run
    → update_run_status id status o at r
      ≡ some (record r { runs = insert id (updated_run run status o at) r.runs })
unfolding update_run_status
update_run_status-some id status o at r run h = rw (h, update_run_status) refl

release-runs : (id at : String) (r : Repository) → (release_resource_lease id at r).runs ≡ r.runs
unfolding release_resource_lease
release-runs id at r = elim (Option-cases (lookup id r.leases)) [
  | inl missing ↦ rw (missing, release_resource_lease) refl
  | inr (l, there) ↦ elim (Bool-cases (is_active l.status)) [
    | inl held ↦ rw (there, held, release_resource_lease) refl
    | inr free ↦ rw (there, free, release_resource_lease) refl
  ]
]

-- Two updates of one run, with an entry in the timeline between them.
two_updates :
    (id at : String) (s1 s2 : RunStatus) (o1 o2 : StatusOptions) (t : TimelineRecord)
    (r : Repository) (stored : PersistedRun)
    → lookup id r.runs ≡ some stored
    → (r' : Repository) × ((update_run_status id s1 o1 at r >>= λ m.
          update_run_status id s2 o2 at (append_timeline t m))
        ≡ some r')
      × (lookup id r'.runs ≡ some (updated_run (updated_run stored s1 o1 at) s2 o2 at))
      × ((other : String) → id ≢ other → lookup other r'.runs ≡ lookup other r.runs)
unfolding append_timeline
two_updates id at s1 s2 o1 o2 t r stored h =
    let u1 = updated_run stored s1 o1 at in
    let u2 = updated_run u1 s2 o2 at in
    let m : Repository = record r { runs = insert id u1 r.runs } in
    let m' = append_timeline t m in
    let first = update_run_status-some id s1 o1 at r stored h in
    let second = update_run_status-some id s2 o2 at m' u1 (lookup-insert_self id u1 r.runs) in
    (
      record m' { runs = insert id u2 (insert id u1 r.runs) },
      rw first second,
      lookup-insert_self id u2 (insert id u1 r.runs),
      λ other apart. ground (
        arith,
        lookup-insert id other u2 (insert id u1 r.runs),
        lookup-insert id other u1 r.runs,
        eq_iff id other,
      ),
    )

module _ (v : Service) where
  clean_lease-runs :
      (cleaner : Option (PersistedLease → Option String)) (l : PersistedLease) (r : Repository)
      → (clean_lease v cleaner l r).1.runs ≡ r.runs
  clean_lease-runs none l r = refl
  clean_lease-runs (some cleaner) l r = elim (Option-cases (cleaner l)) [
    | inl done ↦ rw (done, clean_lease) (release-runs l.lease.lease_id (now v l.lease.lease_id) r)
    | inr (message, thrown) ↦ rw (thrown, clean_lease) refl
  ]

  pub clean_leases-runs :
      (ls : List PersistedLease) (r : Repository) → (clean_leases v ls r).1.runs ≡ r.runs
  unfolding clean_leases
  clean_leases-runs [] r = refl
  clean_leases-runs (l ∷ rest) r =
      let cleaner = v.cleaner l.lease.resource_type in
      clean_leases-runs rest (clean_lease v cleaner l r).1 ∙ clean_lease-runs cleaner l r

  -- The run that a recovery leaves.
  abbrev pub settled_run : (run stored : PersistedRun) → (errors : ℕ) → PersistedRun
  settled_run run stored errors =
      updated_run (updated_run stored cleanup (cleanup_options v run errors) (now v run.id))
        (status_of v (recovery_outcome v run errors)) (final_options v run errors) (now v run.id)

  abbrev pub lease_errors : PersistedRun → Repository → ℕ
  lease_errors run r = length (cleanup_persisted_leases v run.id r).0

  -- A recovery of a stored run succeeds, settles the run and leaves the others alone.
  pub recover_run_lem :
      (run stored : PersistedRun) (r : Repository)
      → lookup run.id r.runs ≡ some stored
      → (r' : Repository) × (recover_run v run r ≡ some r')
        × (lookup run.id r'.runs ≡ some (settled_run run stored (lease_errors run r)))
        × ((other : String) → run.id ≢ other → lookup other r'.runs ≡ lookup other r.runs)
  unfolding recover_run
  recover_run_lem run stored r h =
      let cleaned = (cleanup_persisted_leases v run.id r).1 in
      let errors = lease_errors run r in
      let same : cleaned.runs ≡ r.runs =
        unfold cleanup_persisted_leases in
        clean_leases-runs (list_active_resource_leases run.id r) r in
      let (r', made, there, others) =
        two_updates run.id (now v run.id) cleanup (status_of v (recovery_outcome v run errors))
          (cleanup_options v run errors) (final_options v run errors) (recovered v run errors)
          cleaned stored (ap (lookup run.id) same ∙ h) in
      (r', made, there, λ other apart. others other apart ∙ ap (lookup other) same)
