-- ===== src/TargetAdapter/Fake.antt =====
-- packages/target-adapter/src/fake.ts: the target that stands for a real one in tests. A method that
-- throws is `none`, and leaves the state as it was. The first twelve digits of the SHA-256 of a run's
-- identity are a function of it; endpoints and sites are values of any kind, which are only kept. The time of an
-- observation is left out.
pub mod Pairing
pub mod Isolation
pub mod Observing
pub mod Tests
use testy_mc_testface.Prelude.{
  ℕ, String, Bool, true, false, List, [], ◌∷◌, Option, none, some, ◌>>=◌, or_else, Table, lookup,
  insert, delete, ◌+++◌, is_empty, if◌then◌else◌,
}
use testy_mc_testface.Scenario.Value.{Value, Members, end}

pub record PreparedTarget : Type 0 where
  pub target_run_id : String
  pub tenant_id : String
  pub control_tenant_id : String
  pub tracking_script_url : String
  pub ingestion_token : String
  pub site_id : String
  pub target_origin : String

pub record FakeTargetState : Type 0 where
  pub prepared : PreparedTarget
  pub vendor_endpoints : Members
  pub site : Option Members
  pub observation_state : String

pub record FakeTargetAdapter : Type 0 where
  pub by_run : Table FakeTargetState
  pub by_target : Table String

abbrev pub new_adapter : FakeTargetAdapter
new_adapter = record { by_run = []; by_target = [] }

pub record ObservationHandle : Type 0 where
  pub observation_id : String
  pub target_run_id : String

pub record ObservationResult : Type 0 where
  pub completed : Bool
  pub state : String

pub record TargetOutcome : Type 0 where
  pub target_run_id : String
  pub tenant_id : String
  pub visible_tenant_ids : List String
  pub score_count : ℕ
  pub company_count : ℕ

module _ (segment_of : (run_id : String) → String) where
  abbrev pub target_of : (run_id : String) → String
  target_of run = "fake-" +++ segment_of run

  abbrev pub prepared_for : (run_id : String) → PreparedTarget
  prepared_for run =
      let segment = segment_of run in
      record {
        target_run_id = target_of run;
        tenant_id = "tenant-alpha-" +++ segment;
        control_tenant_id = "tenant-beta-" +++ segment;
        tracking_script_url = "https://tracking.example.test/" +++ segment +++ ".js";
        ingestion_token = "fake-ingestion-" +++ segment;
        site_id = "site-" +++ segment;
        target_origin = "https://target.example.test";
      }

  abbrev pub fresh_state : (run_id : String) → FakeTargetState
  fresh_state run = record {
    prepared = prepared_for run;
    vendor_endpoints = end;
    site = none;
    observation_state = "ready";
  }

  abbrev pub prepare :
      (run_id : String)
      → Option FakeTargetState
      → FakeTargetAdapter
      → PreparedTarget × FakeTargetAdapter
  prepare run (some existing) a = (existing.prepared, a)
  prepare run none a = (
    prepared_for run,
    record {
      by_run = insert run (fresh_state run) a.by_run;
      by_target = insert (target_of run) run a.by_target;
    },
  )

  unfoldable pub prepare_run :
      (run_id : String) → FakeTargetAdapter → PreparedTarget × FakeTargetAdapter
  unfolding lookup insert
  prepare_run run a = prepare run (lookup run a.by_run) a

-- A change of the state of a run that was prepared.
unfoldable pub change :
    (run_id : String)
    → (FakeTargetState → FakeTargetState)
    → FakeTargetAdapter
    → Option (FakeTargetState × FakeTargetAdapter)
unfolding lookup insert
change run f a = do
  state ← lookup run a.by_run
  some (f state, record a { by_run = insert run (f state) a.by_run })

unfoldable pub configure_vendor_endpoints :
    (run_id : String) → Members → FakeTargetAdapter → Option (FakeTargetState × FakeTargetAdapter)
unfolding change
configure_vendor_endpoints run endpoints a =
    change run (λ s. record s { vendor_endpoints = endpoints }) a

unfoldable pub configure_synthetic_site :
    (run_id : String) → Members → FakeTargetAdapter → Option (FakeTargetState × FakeTargetAdapter)
unfolding change
configure_synthetic_site run site a = change run (λ s. record s { site = some site }) a

unfoldable pub start_observation :
    (run_id : String) → FakeTargetAdapter → Option (ObservationHandle × FakeTargetAdapter)
unfolding change
start_observation run a = do
  changed ← change run (λ s. record s { observation_state = "completed" }) a
  let target = changed.0.prepared.target_run_id
  some (record { observation_id = "obs-" +++ target; target_run_id = target }, changed.1)

unfoldable pub wait_for_completion :
    (run_id : String)
    → (expected_state : Option String) → (aborted : Bool) → FakeTargetAdapter
    → Option ObservationResult
unfolding lookup
wait_for_completion run expected aborted a = lookup run a.by_run >>= λ state.
    if aborted
    then none
    else some (record { completed = true; state = or_else expected state.observation_state })

unfoldable pub collect_outcome : (run_id : String) → FakeTargetAdapter → Option TargetOutcome
unfolding lookup
collect_outcome run a = do
  state ← lookup run a.by_run
  some (record {
    target_run_id = state.prepared.target_run_id;
    tenant_id = state.prepared.tenant_id;
    visible_tenant_ids = state.prepared.tenant_id ∷ [];
    score_count = 1;
    company_count = 1;
  })

abbrev pub forget : (target : String) → Option String → FakeTargetAdapter → FakeTargetAdapter
forget target none a = a
forget target (some run) a = record {
  by_run = delete run a.by_run;
  by_target = delete target a.by_target;
}

-- A run without a name (`!runId`) is taken for none.
abbrev pub named : Option String → Option String
named none = none
named (some text) = if is_empty text then none else some text

unfoldable pub cleanup_target : (target_run_id : String) → FakeTargetAdapter → FakeTargetAdapter
unfolding lookup delete
cleanup_target target a = forget target (named (lookup target a.by_target)) a

abbrev pub cleanup_state : Option FakeTargetState → FakeTargetAdapter → FakeTargetAdapter
cleanup_state none a = a
cleanup_state (some state) a =
    let target = state.prepared.target_run_id in
    if is_empty target then a else cleanup_target target a

unfoldable pub cleanup_run : (run_id : String) → FakeTargetAdapter → FakeTargetAdapter
unfolding cleanup_target
cleanup_run run a = cleanup_state (lookup run a.by_run) a

unfoldable pub snapshot : (run_id : String) → FakeTargetAdapter → Option FakeTargetState
unfolding lookup
snapshot run a = lookup run a.by_run

-- A call of a method that changes the state.
pub data Call : Type 0 where
  preparing : (run_id : String) → Call
  endpoints : (run_id : String) → Members → Call
  site : (run_id : String) → Members → Call
  observing : (run_id : String) → Call
  cleaning_run : (run_id : String) → Call
  cleaning_target : (target_run_id : String) → Call

abbrev pub or_before :
    {A : Type 0} → FakeTargetAdapter → Option (A × FakeTargetAdapter) → FakeTargetAdapter
or_before a none = a
or_before a (some (_, a')) = a'

unfoldable pub serve_call :
    ((run_id : String) → String) → Call → FakeTargetAdapter → FakeTargetAdapter
unfolding prepare_run configure_vendor_endpoints configure_synthetic_site start_observation
    cleanup_run
serve_call segment_of (preparing run) a = (prepare_run segment_of run a).1
serve_call segment_of (endpoints run given) a = or_before a (configure_vendor_endpoints run given a)
serve_call segment_of (site run given) a = or_before a (configure_synthetic_site run given a)
serve_call segment_of (observing run) a = or_before a (start_observation run a)
serve_call segment_of (cleaning_run run) a = cleanup_run run a
serve_call segment_of (cleaning_target target) a = cleanup_target target a
