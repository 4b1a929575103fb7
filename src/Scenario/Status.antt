-- ===== src/Scenario/Status.antt =====
-- packages/scenario-engine/src/state-machine.ts and the statuses of packages/shared-types.
pub mod Paths
pub mod Tests
use testy_mc_testface.Prelude.{
  ◌≡◌, refl, Bool, true, false, List, [], ◌∷◌, Option, none, some, String, any, if◌then◌else◌,
}

pub data RunStatus : Type 0 where
  created validating allocating compiling configuring running observing asserting passed failed
        cancelling cancelled cleanup :
      RunStatus

pub RunStatus-discrete : Discrete RunStatus
RunStatus-discrete = hlevel

unfoldable pub same_status : RunStatus → RunStatus → Bool
unfolding RunStatus-discrete
same_status s t = elim (RunStatus-discrete s t) [ yes _ ↦ true | no _ ↦ false ]

-- The table of the state machine.
unfoldable pub transitions : RunStatus → List RunStatus
transitions created = validating ∷ cancelling ∷ []
transitions validating = allocating ∷ failed ∷ cancelling ∷ []
transitions allocating = compiling ∷ failed ∷ cancelling ∷ []
transitions compiling = configuring ∷ failed ∷ cancelling ∷ []
transitions configuring = running ∷ failed ∷ cancelling ∷ []
transitions running = observing ∷ failed ∷ cancelling ∷ []
transitions observing = asserting ∷ failed ∷ cancelling ∷ []
transitions asserting = passed ∷ failed ∷ cancelling ∷ []
transitions passed = cleanup ∷ []
transitions failed = cleanup ∷ []
transitions cancelling = cancelled ∷ []
transitions cancelled = cleanup ∷ []
transitions cleanup = passed ∷ failed ∷ cancelled ∷ []

unfoldable pub can_transition : RunStatus → RunStatus → Bool
unfolding transitions same_status
can_transition current next = any (same_status next) (transitions current)

-- The new status, or `none` where the source throws and keeps the old one.
unfoldable pub transition : RunStatus → RunStatus → Option RunStatus
unfolding can_transition
transition current next = if can_transition current next then some next else none

abbrev pub status_text : RunStatus → String
status_text created = "CREATED"
status_text validating = "VALIDATING"
status_text allocating = "ALLOCATING"
status_text compiling = "COMPILING"
status_text configuring = "CONFIGURING"
status_text running = "RUNNING"
status_text observing = "OBSERVING"
status_text asserting = "ASSERTING"
status_text passed = "PASSED"
status_text failed = "FAILED"
status_text cancelling = "CANCELLING"
status_text cancelled = "CANCELLED"
status_text cleanup = "CLEANUP"
