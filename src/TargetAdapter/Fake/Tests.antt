-- ===== src/TargetAdapter/Fake/Tests.antt =====
-- Two runs whose segments are their own names.
use testy_mc_testface.Prelude.{refl, String, List, [], ◌∷◌}
use testy_mc_testface.TargetAdapter.Fake.Observing.{IsObserved, prepare_run_lem}
use testy_mc_testface.TargetAdapter.Fake.{
  FakeTargetAdapter, prepare_run, new_adapter, cleanup_run, Call, preparing, observing,
}
use testy_mc_testface.TargetAdapter.Fake.Isolation.{IsIsolated, serve_calls, serve_calls-IsIsolated}

abbrev named_by_run : (run_id : String) → String
named_by_run run = run

abbrev two_runs : List Call
two_runs = preparing "a" ∷ preparing "b" ∷ observing "a" ∷ []

serve_calls-IsIsolated_example :
    IsIsolated "a"
      (serve_calls named_by_run two_runs new_adapter)
      (cleanup_run "a" (serve_calls named_by_run two_runs new_adapter))
serve_calls-IsIsolated_example =
    serve_calls-IsIsolated named_by_run two_runs "a" (λ m n is_m is_n e. e) refl

prepare_run_lem_example :
    (after : FakeTargetAdapter) × IsObserved named_by_run
      (prepare_run named_by_run "a" new_adapter).0
      "a"
      (prepare_run named_by_run "a" new_adapter).1
      after
prepare_run_lem_example = prepare_run_lem named_by_run "a" new_adapter
