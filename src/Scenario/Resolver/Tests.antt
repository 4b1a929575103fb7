-- ===== src/Scenario/Resolver/Tests.antt =====
-- A scenario with a variable and a fragment, and one with a fragment that is not there.
use testy_mc_testface.Prelude.{
  ◌≡◌, ◌⊎◌, refl, ℤ, pos, String, List, [], ◌∷◌, All, true, some, none, Table, lookup, ◌+++◌,
  text_length, drop_char,
}
use testy_mc_testface.Scenario.Value.{Value, num, str, Items, get_member}
use testy_mc_testface.Scenario.Types.{Step, Steps, TaskStep, ResolvedScenario}
use testy_mc_testface.Scenario.Resolver.{
  plain, fragment, task, parallel, Definitions, nil, cons, ScenarioConfig, invalid,
}
use testy_mc_testface.Scenario.Resolver.Results.{ok, done, threw}
use testy_mc_testface.Scenario.Resolver.Templates.{pieces, variable_at}
use testy_mc_testface.Scenario.Resolver.Substitute.{
  substitute_text, substitute_value, render, exact_variable, defined,
}
use testy_mc_testface.Scenario.Resolver.Expand.{expand, append_steps}
use testy_mc_testface.Scenario.Resolver.Validate.{validate_unique_step_ids, present, phases_of}
use testy_mc_testface.Scenario.Resolver.Resolve.{issues_of, resolve_scenario, fuel_for}
use testy_mc_testface.Scenario.Resolver.Plain.{
  is_plain, substitute_value-plain, substitute_text-exact,
}
use testy_mc_testface.Scenario.Resolver.Settling.{Settled}
use testy_mc_testface.Scenario.Resolver.Termination.{resolve_scenario-Settled}
use testy_mc_testface.Scenario.Resolver.Identities.{
  HasDistinctIds, validate_unique_step_ids-HasDistinctIds,
}

abbrev decimal : ℤ → String
decimal n = "7"

abbrev hash : ResolvedScenario → Items → String
hash scenario assertions = "hash"

abbrev visit : String → Value → TaskStep
visit id input = record {
  id = id;
  timeout_ms = none;
  action = "visit";
  input = some input;
  retry = none;
  compensate = none;
}

abbrev variables : Table Value
variables = ("count", num (pos 7)) ∷ []

abbrev shared : Definitions
shared =
    cons (plain (parallel "both" none (cons (plain (task (visit "b" (str "{{count}}")))) nil))) nil

abbrev config : ScenarioConfig
config = record {
  scenario_id = "s";
  display_name = "S";
  target = "t";
  timeout_ms = none;
  variables = variables;
  fragments = ("shared", shared) ∷ [];
  assertions = Items.nil;
  phases = record {
    allocate = none;
    compile = none;
    configure = none;
    run =
        cons (plain (task (visit "a" (str "n={{count}}")))) (cons (fragment "f" none "shared") nil);
    observe = none;
    assert = none;
  };
}

resolver : Unit {0}
unfolding expand append_steps substitute_text pieces variable_at render exact_variable text_length
    drop_char substitute_value lookup validate_unique_step_ids issues_of resolve_scenario is_plain
    get_member HasDistinctIds
resolver = tt

substitutes : substitute_text decimal variables "n={{count}}!" ≡ ok (str "n=7!")
unfolding resolver
substitutes = refl

expands :
    expand decimal variables config.fragments
      (fuel_for config.fragments config.phases.run)
      []
      ""
      config.phases.run
    ≡ done (
        Steps.cons (Step.task (visit "a" (str "n=7"))) (
          Steps.cons
            (Step.parallel "f.both" none
              (Steps.cons (Step.task (visit "f.both.b" (num (pos 7)))) Steps.nil))
            Steps.nil))
unfolding resolver fuel_for
expands = refl

has_no_issues : issues_of config ≡ []
unfolding resolver
has_no_issues = refl

finds_no_duplicate : validate_unique_step_ids config ≡ []
unfolding resolver
finds_no_duplicate = refl

is_without : is_plain (str "no {braces}") ≡ true
unfolding resolver
is_without = refl

resolve_scenario-Settled_example :
    ((issue : String) × (rest : List String) × (issues_of config ≡ issue ∷ rest)
      × (resolve_scenario decimal hash config ≡ threw (invalid (issue ∷ rest))))
    ⊎ ((issues_of config ≡ []) × Settled (resolve_scenario decimal hash config))
resolve_scenario-Settled_example = resolve_scenario-Settled decimal hash config

validate_unique_step_ids-HasDistinctIds_example :
    All (λ e. HasDistinctIds e.1) (present (phases_of config.phases))
    × All (λ e. HasDistinctIds e.1) config.fragments
validate_unique_step_ids-HasDistinctIds_example =
    validate_unique_step_ids-HasDistinctIds config finds_no_duplicate

substitute_value-plain_example :
    substitute_value decimal variables (str "no {braces}") ≡ ok (str "no {braces}")
substitute_value-plain_example =
    substitute_value-plain decimal variables (str "no {braces}") is_without

substitute_text-exact_example :
    substitute_text decimal variables ("{{" +++ "count" +++ "}}") ≡ defined variables "count"
substitute_text-exact_example = substitute_text-exact decimal variables "count" refl refl

-- A step inside another is substituted once more for each level, so that a variable in the value of
-- a variable is replaced there, and stays at the top.
abbrev chained : Table Value
chained = ("outer", str "{{count}}") ∷ variables

outside :
    expand decimal chained [] 2 [] "" (cons (plain (task (visit "a" (str "{{outer}}")))) nil)
    ≡ done (Steps.cons (Step.task (visit "a" (str "{{count}}"))) Steps.nil)
unfolding resolver
outside = refl

inside :
    expand decimal chained [] 2 [] ""
      (cons (plain (parallel "p" none (cons (plain (task (visit "a" (str "{{outer}}")))) nil))) nil)
    ≡ done (
        Steps.cons
          (Step.parallel "p" none (Steps.cons (Step.task (visit "p.a" (num (pos 7)))) Steps.nil))
          Steps.nil)
unfolding resolver
inside = refl
