-- ===== src/Scenario/Resolver.antt =====
-- packages/scenario-engine/src/resolver.ts: from a scenario as it is written to the steps that run.
-- The loader's schema admits no variable in the identities, actions and fragment names, so a
-- substitution leaves them alone. A name is looked up among an object's own members; the source also
-- sees what objects inherit, such as `constructor`. Where the steps of one object fail in several places, the source throws
-- what stands first in the file, the model what stands first in the type.
pub mod Results
pub mod Templates
pub mod Substitute
pub mod Expand
pub mod Validate
pub mod Resolve
pub mod Shape
pub mod Plain
pub mod Settling
pub mod Termination
pub mod Identities
pub mod Tests
use testy_mc_testface.Prelude.{ℕ, String, Option, List, Table}
use testy_mc_testface.Scenario.Value.{Value, Items}
use testy_mc_testface.Scenario.Types.{TaskStep, PollStep, Condition}

-- A step as it is written. `PlainStep` is `Exclude<ScenarioStepDefinition, FragmentStep>`.
mutual
  pub data StepDefinition : Type 0 where
    plain : PlainStep → StepDefinition
    fragment : (id : String) (timeout_ms : Option ℕ) (use_fragment : String) → StepDefinition

  pub data PlainStep : Type 0 where
    task : TaskStep → PlainStep
    poll : PollStep → PlainStep
    parallel : (id : String) (timeout_ms : Option ℕ) → Definitions → PlainStep
    repeat : (id : String) (timeout_ms : Option ℕ) (times : ℕ) → Definitions → PlainStep
    condition : (id : String) (timeout_ms : Option ℕ) → Condition → Definitions → PlainStep
    condition_else :
        (id : String) (timeout_ms : Option ℕ) → Condition → Definitions → Definitions → PlainStep

  pub data Definitions : Type 0 where
    nil : Definitions
    cons : StepDefinition → Definitions → Definitions

pub record PhaseConfig : Type 0 where
  pub allocate : Option Definitions
  pub compile : Option Definitions
  pub configure : Option Definitions
  pub run : Definitions
  pub observe : Option Definitions
  pub assert : Option Definitions

-- The assertions are JSON objects.
pub record ScenarioConfig : Type 0 where
  pub scenario_id : String
  pub display_name : String
  pub target : String
  pub timeout_ms : Option ℕ
  pub variables : Table Value
  pub fragments : Table Definitions
  pub assertions : Items
  pub phases : PhaseConfig

-- What `ScenarioValidationError` tells of a substitution.
pub data Unsubstituted : Type 0 where
  undefined_variable : (name : String) → Unsubstituted
  not_interpolable : (name : String) → Unsubstituted

pub data Failure : Type 0 where
  unsubstituted : Unsubstituted → Failure
  fragment_cycle : (names : List String) → Failure
  unknown_fragment : (step_id name : String) → Failure
  invalid : (issues : List String) → Failure

abbrev pub id_of_plain : PlainStep → String
id_of_plain (task t) = t.id
id_of_plain (poll t) = t.id
id_of_plain (parallel id _ _) = id
id_of_plain (repeat id _ _ _) = id
id_of_plain (condition id _ _ _) = id
id_of_plain (condition_else id _ _ _ _) = id

abbrev pub id_of : StepDefinition → String
id_of (plain s) = id_of_plain s
id_of (fragment id _ _) = id
