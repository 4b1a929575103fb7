-- ===== src/Scenario/Repository.antt =====
-- packages/scenario-engine/src/memory-repository.ts: what is kept of each run. A stored value is
-- copied in the source (`structuredClone`); values of this model cannot be changed, so a copy is the
-- value. Times are texts, as in the source.
pub mod Records
pub mod Upsert
pub mod Leases
pub mod Cancelling
pub mod Reports
pub mod Tests
use testy_mc_testface.Prelude.{
  ℕ, String, Bool, true, false, ◌&&◌, ◌||◌, not, List, [], ◌∷◌, ◌++◌, map, Option, none, some,
  Table, lookup, insert, str_eq, select, if◌then◌else◌, or_else, is_empty, ◌==◌,
}
use testy_mc_testface.Scenario.Value.{Value}
use testy_mc_testface.Scenario.Status.{RunStatus, passed, failed, cancelled, cleanup, same_status}
use testy_mc_testface.Scenario.Types.{Outcome, StepRecord, TimelineRecord, ResourceLease}
use Records.{
  PersistedRun, PersistedArtifact, AssertionResult, PersistedProviderCall, PersistedBrowserAction,
  PersistedObservation, LeaseStatus, active, released, PersistedLease,
}

pub record Repository : Type 0 where
  pub runs : Table PersistedRun
  pub steps : Table (List StepRecord)
  pub timeline : Table (List TimelineRecord)
  pub artifacts : Table (List PersistedArtifact)
  pub assertions : Table (List AssertionResult)
  pub provider_calls : Table (List PersistedProviderCall)
  pub browser_actions : Table (List PersistedBrowserAction)
  pub observations : Table (List PersistedObservation)
  pub leases : Table PersistedLease

-- The private helpers `append`, `upsert` and `list`.
module _ {ℓ} {A : Type ℓ} where
  unfoldable pub list_of : Table (List A) → String → List A
  list_of t run = or_else (lookup run t) []

  unfoldable pub append : Table (List A) → String → A → Table (List A)
  unfolding list_of
  append t run v = insert run (list_of t run ++ v ∷ []) t

  -- The first record that matches is replaced; a new one goes to the end.
  unfoldable pub replace_first : (A → Bool) → A → List A → List A
  replace_first matches v [] = v ∷ []
  replace_first matches v (x ∷ xs) = if matches x then v ∷ xs else x ∷ replace_first matches v xs

  unfoldable pub upsert : Table (List A) → String → A → (A → Bool) → Table (List A)
  unfolding list_of replace_first
  upsert t run v matches = insert run (replace_first matches v (list_of t run)) t

unfoldable pub is_terminal : RunStatus → Bool
unfolding same_status
is_terminal s = same_status s passed || same_status s failed || same_status s cancelled

-- `none` where the source throws.
unfoldable pub create_run : PersistedRun → Repository → Option Repository
create_run run r = elim (lookup run.id r.runs) [
  | some _ ↦ none
  | none ↦ some (record r { runs = insert run.id run r.runs })
]

pub record StatusOptions : Type 0 where
  pub outcome_status : Option Outcome
  pub started_at : Option String
  pub finished_at : Option String
  pub metadata : Option (Table Value)

-- A text that is given and not empty takes the place of the one before.
abbrev pub overriding : Option String → Option String → Option String
overriding none old = old
overriding (some t) old = if is_empty t then old else some t

abbrev pub merged : Table Value → Table Value → Table Value
merged old [] = old
merged old ((k, v) ∷ rest) = merged (insert k v old) rest

-- What `updateRunStatus` makes of a run.
abbrev pub updated_run : PersistedRun → RunStatus → StatusOptions → (now : String) → PersistedRun
updated_run run status o now = record run {
  status = status;
  updated_at = now;
  outcome_status = elim o.outcome_status [ none ↦ run.outcome_status | some s ↦ some s ];
  started_at = overriding o.started_at run.started_at;
  finished_at = overriding o.finished_at run.finished_at;
  metadata = elim o.metadata [ none ↦ run.metadata | some m ↦ merged run.metadata m ];
}

unfoldable pub update_run_status :
    String → RunStatus → StatusOptions → (now : String) → Repository → Option Repository
update_run_status id status o now r = elim (lookup id r.runs) [
  | none ↦ none
  | some run ↦ some (record r { runs = insert id (updated_run run status o now) r.runs })
]

unfoldable pub cancellable : RunStatus → Bool
unfolding is_terminal same_status
cancellable s = not (is_terminal s || same_status s cleanup)

unfoldable pub request_cancellation :
    String → (requested_at : String) → Repository → Repository × Bool
unfolding cancellable
request_cancellation id requested_at r = elim (lookup id r.runs) [
  | none ↦ (r, false)
  | some run ↦
      if cancellable run.status
      then (
        record r {
          runs =
              insert id
                (record run { cancel_requested_at = some requested_at; updated_at = requested_at })
                r.runs;
        },
        true,
      )
      else (r, false)
]

abbrev pub get_run : String → Repository → Option PersistedRun
get_run id r = lookup id r.runs

abbrev pub entries {ℓ} : {A : Type ℓ} → Table A → List A
entries [] = []
entries ((k, v) ∷ t) = v ∷ entries t

unfoldable pub list_active_runs : Repository → List PersistedRun
unfolding is_terminal
list_active_runs r = select (λ run. not (is_terminal run.status)) (entries r.runs)

unfoldable pub record_step : StepRecord → Repository → Repository
unfolding upsert
record_step s r = record r {
  steps = upsert r.steps s.run_id s (λ c. str_eq c.step_id s.step_id && c.attempt == s.attempt);
}

unfoldable pub append_timeline : TimelineRecord → Repository → Repository
unfolding append
append_timeline t r = record r { timeline = append r.timeline t.run_id t }

unfoldable pub add_artifact : PersistedArtifact → Repository → Repository
unfolding append
add_artifact a r = record r { artifacts = append r.artifacts a.run_id a }

unfoldable pub record_assertion_result : AssertionResult → Repository → Repository
unfolding upsert
record_assertion_result a r = record r {
  assertions = upsert r.assertions a.run_id a (λ c. str_eq c.assertion_id a.assertion_id);
}

unfoldable pub record_provider_call : PersistedProviderCall → Repository → Repository
unfolding append
record_provider_call c r = record r { provider_calls = append r.provider_calls c.run_id c }

unfoldable pub record_browser_action : PersistedBrowserAction → Repository → Repository
unfolding append
record_browser_action a r = record r { browser_actions = append r.browser_actions a.run_id a }

unfoldable pub record_observation : PersistedObservation → Repository → Repository
unfolding upsert
record_observation o r = record r {
  observations = upsert r.observations o.run_id o (λ c. str_eq c.observation_id o.observation_id);
}

unfoldable pub create_resource_lease : ResourceLease → Repository → Option Repository
create_resource_lease lease r = elim (lookup lease.lease_id r.leases) [
  | some _ ↦ none
  | none ↦ some (record r {
    leases =
        insert lease.lease_id (record { lease = lease; status = active; released_at = none })
          r.leases;
  })
]

abbrev pub is_active : LeaseStatus → Bool
is_active active = true
is_active released = false

unfoldable pub release_resource_lease : String → (released_at : String) → Repository → Repository
release_resource_lease id at r = elim (lookup id r.leases) [
  | none ↦ r
  | some l ↦
      if is_active l.status
      then record r {
        leases = insert id (record l { status = released; released_at = some at }) r.leases;
      }
      else r
]

unfoldable pub list_active_resource_leases : String → Repository → List PersistedLease
list_active_resource_leases run r =
    select (λ l. str_eq l.lease.run_id run && is_active l.status) (entries r.leases)
