-- ===== src/Scenario/Resolver/Resolve.antt =====
-- `resolveScenario`, with the fuel that the expansion of its steps takes. `hash` stands for the hash
-- of the canonical JSON text of all else.
use testy_mc_testface.Prelude.{
  ℕ, suc, ◌+◌, ◌*◌, String, Bool, true, false, ◌&&◌, not, List, [], ◌∷◌, ◌++◌, Option, none, some,
  str_eq, length, or_else, ℤ, Table, if◌then◌else◌,
}
use Prim.Native.Nat.{max}
use testy_mc_testface.Scenario.Value.{Items, arr}
use testy_mc_testface.Scenario.Types.{Step, Steps, Phases, ResolvedScenario}
use testy_mc_testface.Scenario.Resolver.{
  StepDefinition, plain, fragment, PlainStep, task, poll, parallel, repeat, condition,
  condition_else, Definitions, nil, cons, ScenarioConfig, invalid, id_of,
}
use testy_mc_testface.Scenario.Resolver.Results.{Run, done, threw, lift, and_then}
use testy_mc_testface.Scenario.Resolver.Substitute.{substitute_items}
use testy_mc_testface.Scenario.Resolver.Expand.{append_steps, expand}
use testy_mc_testface.Scenario.Resolver.Validate.{
  validate_unique_step_ids, validate_fragment_references, validate_unique_assertion_ids,
  validate_assertions,
}

-- How deep steps stand inside one another.
unfoldable mutual
  pub depth : Definitions → ℕ
  depth nil = 0
  depth (cons s rest) = max (depth_of s) (depth rest)

  pub depth_of : StepDefinition → ℕ
  depth_of (plain s) = depth_plain s
  depth_of (fragment _ _ _) = 0

  pub depth_plain : PlainStep → ℕ
  depth_plain (task _) = 0
  depth_plain (poll _) = 0
  depth_plain (parallel _ _ steps) = suc (depth steps)
  depth_plain (repeat _ _ _ steps) = suc (depth steps)
  depth_plain (condition _ _ _ steps) = suc (depth steps)
  depth_plain (condition_else _ _ _ steps others) = suc (max (depth steps) (depth others))

unfoldable pub deepest : Table Definitions → ℕ
unfolding depth
deepest [] = 0
deepest ((_, steps) ∷ rest) = max (depth steps) (deepest rest)

-- A call of `expand` for each level of the steps, and as many for each fragment.
unfoldable pub fuel_for : Table Definitions → Definitions → ℕ
unfolding deepest
fuel_for fragments steps = suc (depth steps + length fragments * suc (deepest fragments))

abbrev pub has_id : String → Definitions → Bool
has_id id nil = false
has_id id (cons s rest) = if str_eq (id_of s) id then true else has_id id rest

abbrev is_empty_items : Items → Bool
is_empty_items Items.nil = true
is_empty_items (Items.cons _ _) = false

abbrev pub given : Option Definitions → Definitions
given steps = or_else steps nil

unfoldable pub issues_of : ScenarioConfig → List String
unfolding validate_unique_step_ids validate_fragment_references validate_unique_assertion_ids
    validate_assertions
issues_of config =
    validate_unique_step_ids config
    ++ (validate_fragment_references config
        ++ (validate_unique_assertion_ids [] config.assertions
            ++ (validate_assertions config.assertions
                ++ (if not (is_empty_items config.assertions)
                      && has_id "system-assertions" (given config.phases.assert)
                    then "Step ID 'system-assertions' is reserved when declarative assertions are configured."
                      ∷ []
                    else []))))

unfoldable pub assertion_steps : Items → Steps
assertion_steps Items.nil = Steps.nil
assertion_steps (Items.cons a rest) =
    Steps.cons
      (Step.task (record {
        id = "system-assertions";
        timeout_ms = none;
        action = "assertions-evaluate";
        input = some (arr (Items.cons a rest));
        retry = none;
        compensate = none;
      }))
      Steps.nil

pub record Resolved : Type 0 where
  pub scenario : ResolvedScenario
  pub assertions : Items

module _ (decimal : ℤ → String) (hash : ResolvedScenario → Items → String) where
  unfoldable pub expand_phase : ScenarioConfig → Definitions → Run Steps
  unfolding expand fuel_for
  expand_phase config steps =
      expand decimal config.variables config.fragments (fuel_for config.fragments steps) [] "" steps

  unfoldable pub materialize : ScenarioConfig → Phases → Items → Resolved
  materialize config phases assertions =
      let scenario : ResolvedScenario = record {
        scenario_id = config.scenario_id;
        display_name = config.display_name;
        target = config.target;
        timeout_ms = or_else config.timeout_ms 600_000;
        variables = config.variables;
        phases = phases;
        content_hash = "";
      } in
      record {
        scenario = record scenario { content_hash = hash scenario assertions };
        assertions = assertions;
      }

  unfoldable pub resolve_valid : ScenarioConfig → Run Resolved
  unfolding expand_phase materialize assertion_steps append_steps substitute_items
  resolve_valid config =
      and_then (lift (substitute_items decimal config.variables config.assertions)) λ assertions.
        and_then (expand_phase config (given config.phases.assert)) λ authored.
          and_then (expand_phase config (given config.phases.allocate)) λ allocate.
            and_then (expand_phase config (given config.phases.compile)) λ compile.
              and_then (expand_phase config (given config.phases.configure)) λ configure.
                and_then (expand_phase config config.phases.run) λ run.
                  and_then (expand_phase config (given config.phases.observe)) λ observe. done (
                    materialize config
                      (record {
                        allocate = allocate;
                        compile = compile;
                        configure = configure;
                        run = run;
                        observe = observe;
                        assert = append_steps authored (assertion_steps assertions);
                      })
                      assertions)

  unfoldable pub resolve_scenario : ScenarioConfig → Run Resolved
  unfolding issues_of resolve_valid
  resolve_scenario config = elim (issues_of config) [
    | [] ↦ resolve_valid config
    | issue ∷ rest ↦ threw (invalid (issue ∷ rest))
  ]
