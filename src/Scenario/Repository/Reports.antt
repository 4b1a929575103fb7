-- ===== src/Scenario/Repository/Reports.antt =====
-- What the repository tells of a run: the lists and reports of memory-repository.ts.
use testy_mc_testface.Prelude.{
  ◌≡◌, ◌≢◌, refl, String, Bool, ◌&&◌, List, [], ◌∷◌, ◌++◌, ◌==◌, Option, none, some, Table, arith,
  lookup-insert, eq_iff, str_eq,
}
use testy_mc_testface.Scenario.Types.{StepRecord, TimelineRecord}
use testy_mc_testface.Scenario.Repository.Records.{
  PersistedRun, PersistedArtifact, AssertionResult, PersistedProviderCall, PersistedBrowserAction,
  PersistedObservation,
}
use testy_mc_testface.Scenario.Repository.{
  Repository, list_of, upsert, append, replace_first, get_run, record_step, append_timeline,
  add_artifact, record_assertion_result, record_provider_call, record_browser_action,
  record_observation,
}

abbrev pub list_timeline : String → Repository → List TimelineRecord
list_timeline run r = list_of r.timeline run

abbrev pub list_steps : String → Repository → List StepRecord
list_steps run r = list_of r.steps run

abbrev pub list_artifacts : String → Repository → List PersistedArtifact
list_artifacts run r = list_of r.artifacts run

abbrev pub list_assertion_results : String → Repository → List AssertionResult
list_assertion_results run r = list_of r.assertions run

abbrev pub list_provider_calls : String → Repository → List PersistedProviderCall
list_provider_calls run r = list_of r.provider_calls run

abbrev pub list_browser_actions : String → Repository → List PersistedBrowserAction
list_browser_actions run r = list_of r.browser_actions run

abbrev pub list_observations : String → Repository → List PersistedObservation
list_observations run r = list_of r.observations run

pub record AssertionSnapshot : Type 0 where
  pub run_id : String
  pub provider_calls : List PersistedProviderCall
  pub browser_actions : List PersistedBrowserAction
  pub observations : List PersistedObservation
  pub steps : List StepRecord
  pub artifacts : List PersistedArtifact

unfoldable pub build_assertion_snapshot : String → Repository → AssertionSnapshot
build_assertion_snapshot run r = record {
  run_id = run;
  provider_calls = list_provider_calls run r;
  browser_actions = list_browser_actions run r;
  observations = list_observations run r;
  steps = list_steps run r;
  artifacts = list_artifacts run r;
}

pub record RunReport : Type 0 where
  pub run : PersistedRun
  pub steps : List StepRecord
  pub timeline : List TimelineRecord
  pub artifacts : List PersistedArtifact
  pub assertions : List AssertionResult
  pub provider_calls : List PersistedProviderCall
  pub browser_actions : List PersistedBrowserAction
  pub observations : List PersistedObservation

-- The report on a run that is there.
unfoldable assemble :
    Option PersistedRun
    → List StepRecord
    → List TimelineRecord
    → List PersistedArtifact
    → List AssertionResult
    → List PersistedProviderCall
    → List PersistedBrowserAction
    → List PersistedObservation
    → Option RunReport
assemble none steps timeline artifacts assertions calls actions observations = none
assemble (some run) steps timeline artifacts assertions calls actions observations = some (record {
  run = run;
  steps = steps;
  timeline = timeline;
  artifacts = artifacts;
  assertions = assertions;
  provider_calls = calls;
  browser_actions = actions;
  observations = observations;
})

unfoldable pub build_report : String → Repository → Option RunReport
unfolding assemble
build_report id r =
    assemble (get_run id r) (list_steps id r) (list_timeline id r) (list_artifacts id r)
      (list_assertion_results id r) (list_provider_calls id r) (list_browser_actions id r)
      (list_observations id r)

-- One recorded event, of any kind.
pub data Event : Type 0 where
  stepped : StepRecord → Event
  timed : TimelineRecord → Event
  stored : PersistedArtifact → Event
  asserted : AssertionResult → Event
  called : PersistedProviderCall → Event
  browsed : PersistedBrowserAction → Event
  observed : PersistedObservation → Event

unfoldable pub record_event : Event → Repository → Repository
record_event (stepped x) r = record_step x r
record_event (timed x) r = append_timeline x r
record_event (stored x) r = add_artifact x r
record_event (asserted x) r = record_assertion_result x r
record_event (called x) r = record_provider_call x r
record_event (browsed x) r = record_browser_action x r
record_event (observed x) r = record_observation x r

abbrev pub run_of : Event → String
run_of (stepped x) = x.run_id
run_of (timed x) = x.run_id
run_of (stored x) = x.run_id
run_of (asserted x) = x.run_id
run_of (called x) = x.run_id
run_of (browsed x) = x.run_id
run_of (observed x) = x.run_id

module _ {ℓ} {A : Type ℓ} where
  list_of-append :
      (run other : String) (x : A) (t : Table (List A))
      → run ≢ other
      → list_of (append t run x) other ≡ list_of t other
  unfolding list_of append
  list_of-append run other x t h =
      ground (arith, lookup-insert run other (list_of t run ++ x ∷ []) t, eq_iff run other)

  list_of-upsert :
      (run other : String) (x : A) (matches : A → Bool) (t : Table (List A))
      → run ≢ other
      → list_of (upsert t run x matches) other ≡ list_of t other
  unfolding list_of upsert
  list_of-upsert run other x matches t h =
      ground (
        arith,
        lookup-insert run other (replace_first matches x (list_of t run)) t,
        eq_iff run other,
      )

-- Whatever is recorded for one run leaves the report and the assertion snapshot of another run as
-- they were.
pub build_report-record_event :
    (e : Event) (other : String) (r : Repository)
    → run_of e ≢ other
    → (build_report other (record_event e r) ≡ build_report other r)
      × (build_assertion_snapshot other (record_event e r) ≡ build_assertion_snapshot other r)
unfolding record_event build_report build_assertion_snapshot record_step append_timeline
    add_artifact record_assertion_result record_provider_call record_browser_action
    record_observation
build_report-record_event (stepped x) other r h =
    let e =
      list_of-upsert x.run_id other x (λ c. str_eq c.step_id x.step_id && c.attempt == x.attempt)
        r.steps h in
    (cc e, cc e)
build_report-record_event (timed x) other r h =
    let e = list_of-append x.run_id other x r.timeline h in (cc e, refl)
build_report-record_event (stored x) other r h =
    let e = list_of-append x.run_id other x r.artifacts h in (cc e, cc e)
build_report-record_event (asserted x) other r h =
    let e =
      list_of-upsert x.run_id other x (λ c. str_eq c.assertion_id x.assertion_id) r.assertions h in
    (cc e, refl)
build_report-record_event (called x) other r h =
    let e = list_of-append x.run_id other x r.provider_calls h in (cc e, cc e)
build_report-record_event (browsed x) other r h =
    let e = list_of-append x.run_id other x r.browser_actions h in (cc e, cc e)
build_report-record_event (observed x) other r h =
    let e =
      list_of-upsert x.run_id other x (λ c. str_eq c.observation_id x.observation_id) r.observations
        h in
    (cc e, cc e)
