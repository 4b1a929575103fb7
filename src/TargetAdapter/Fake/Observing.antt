-- ===== src/TargetAdapter/Fake/Observing.antt =====
-- A run that is prepared can be observed to its end.
use testy_mc_testface.Prelude.{
  ◌≡◌, refl, String, true, false, [], ◌∷◌, Option, none, some, lookup, insert, lookup-insert_self,
  Option-cases, inl, inr, ◌+++◌, or_else,
}
use testy_mc_testface.TargetAdapter.Fake.{
  PreparedTarget, FakeTargetState, FakeTargetAdapter, ObservationHandle, fresh_state, prepare,
  prepare_run, change, start_observation, wait_for_completion, collect_outcome,
}

abbrev pub handle_of : (prepared : PreparedTarget) → ObservationHandle
handle_of prepared = record {
  observation_id = "obs-" +++ prepared.target_run_id;
  target_run_id = prepared.target_run_id;
}

abbrev pub observed : FakeTargetState → FakeTargetState
observed s = record s { observation_state = "completed" }

module _ (segment_of : (run_id : String) → String) where
  -- What the methods give for a run after its observation was started.
  pub record IsObserved (prepared : PreparedTarget) (run : String) (a after : FakeTargetAdapter)
      : Type 0 where
    pub started : start_observation run a ≡ some (handle_of prepared, after)
    pub again : prepare_run segment_of run after ≡ (prepared, after)
    pub completed :
        (expected : Option String)
        → wait_for_completion run expected false after
          ≡ some (record { completed = true; state = or_else expected "completed" })
    pub aborted : (expected : Option String) → wait_for_completion run expected true after ≡ none
    pub collected :
        collect_outcome run after
        ≡ some (record {
          target_run_id = prepared.target_run_id;
          tenant_id = prepared.tenant_id;
          visible_tenant_ids = prepared.tenant_id ∷ [];
          score_count = 1;
          company_count = 1;
        })

  known-IsObserved :
      (run : String) (s : FakeTargetState) (a : FakeTargetAdapter)
      → lookup run a.by_run ≡ some s
      → IsObserved s.prepared run a (record a { by_run = insert run (observed s) a.by_run })
  unfolding start_observation change wait_for_completion collect_outcome prepare_run
  known-IsObserved run s a there =
      let now = lookup-insert_self run (observed s) a.by_run in
      record {
        started = rw (there, start_observation, change) refl;
        again = rw (now, prepare_run) refl;
        completed = λ expected. rw (now, wait_for_completion) refl;
        aborted = λ expected. rw (now, wait_for_completion) refl;
        collected = rw (now, collect_outcome) refl;
      }

  -- Every run can be prepared. Its observation then starts, and it completes with the state that is expected, or
  -- `completed`, unless it is aborted; the outcome shows the tenant that was prepared and no other; and a second
  -- preparation changes nothing and gives the same target.
  pub prepare_run_lem :
      (run : String) (a : FakeTargetAdapter)
      → (after : FakeTargetAdapter) × IsObserved
          (prepare_run segment_of run a).0
          run
          (prepare_run segment_of run a).1
          after
  unfolding prepare_run
  prepare_run_lem run a = elim (Option-cases (lookup run a.by_run)) [
    | inl missing ↦
        let new = (prepare segment_of run none a).1 in
        rw (missing, prepare_run)
          (
            _,
            known-IsObserved run (fresh_state segment_of run) new
                (lookup-insert_self run (fresh_state segment_of run) a.by_run),
          )
    | inr (s, there) ↦ rw (there, prepare_run) (_, known-IsObserved run s a there)
  ]
