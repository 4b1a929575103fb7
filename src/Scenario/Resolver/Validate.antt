-- ===== src/Scenario/Resolver/Validate.antt =====
-- The validations of resolver.ts. Each gives the issues that it adds.
use testy_mc_testface.Prelude.{
  String, Bool, false, not, ◌&&◌, ◌||◌, List, [], ◌∷◌, ◌++◌, Option, none, some, str_eq, any,
  is_some, le_ℤ, Table, lookup, if◌then◌else◌, ◌+++◌,
}
use testy_mc_testface.Scenario.Value.{Value, num, str, obj, Items, get_member}
use testy_mc_testface.Scenario.Resolver.{
  StepDefinition, plain, fragment, PlainStep, task, poll, parallel, repeat, condition,
  condition_else, Definitions, nil, cons, PhaseConfig, ScenarioConfig, id_of,
}

-- `validateUniqueStepIds`: the keys seen so far, and the issues.
abbrev pub Seen : Type 0
Seen = List String × List String

abbrev pub see : (key issue : String) → Seen → Seen
see key issue (keys, issues) =
    (key ∷ keys, if any (str_eq key) keys then issues ++ issue ∷ [] else issues)

unfoldable mutual
  pub visit_ids : (label : String) → Definitions → Seen → Seen
  visit_ids label nil seen = seen
  visit_ids label (cons step rest) seen = visit_ids label rest (
      visit_inner label step (
        see (label +++ ":" +++ id_of step)
          ("Duplicate step ID '" +++ id_of step +++ "' in " +++ label +++ ".") seen))

  pub visit_inner : (label : String) → StepDefinition → Seen → Seen
  visit_inner label (plain s) seen = visit_nested label s seen
  visit_inner label (fragment _ _ _) seen = seen

  pub visit_nested : (label : String) → PlainStep → Seen → Seen
  visit_nested label (parallel id _ steps) seen = visit_ids (label +++ "." +++ id) steps seen
  visit_nested label (repeat id _ _ steps) seen = visit_ids (label +++ "." +++ id) steps seen
  visit_nested label (condition id _ _ steps) seen =
      visit_ids (label +++ "." +++ id +++ ".then") steps seen
  visit_nested label (condition_else id _ _ steps others) seen =
      visit_ids (label +++ "." +++ id +++ ".else") others
        (visit_ids (label +++ "." +++ id +++ ".then") steps seen)
  visit_nested label (task _) seen = seen
  visit_nested label (poll _) seen = seen

-- `Object.entries(config.phases)`, and those that are there.
abbrev pub phases_of : PhaseConfig → Table (Option Definitions)
phases_of p =
    ("allocate", p.allocate)
    ∷ ("compile", p.compile)
    ∷ ("configure", p.configure)
    ∷ ("run", some p.run)
    ∷ ("observe", p.observe)
    ∷ ("assert", p.assert)
    ∷ []

abbrev pub present : Table (Option Definitions) → Table Definitions
present [] = []
present ((name, none) ∷ rest) = present rest
present ((name, some steps) ∷ rest) = (name, steps) ∷ present rest

unfoldable pub visit_all : (kind : String) → Table Definitions → Seen → Seen
unfolding visit_ids
visit_all kind [] seen = seen
visit_all kind ((name, steps) ∷ rest) seen =
    visit_all kind rest (visit_ids (kind +++ " '" +++ name +++ "'") steps seen)

unfoldable pub validate_unique_step_ids : ScenarioConfig → List String
unfolding visit_all
validate_unique_step_ids config =
    (visit_all "fragment" config.fragments
      (visit_all "phase" (present (phases_of config.phases)) ([], []))).1

module _ (fragments : Table Definitions) where
  unfoldable mutual
    unfolding lookup

    pub visit_references : Definitions → List String
    visit_references nil = []
    visit_references (cons step rest) = visit_reference step ++ visit_references rest

    pub visit_reference : StepDefinition → List String
    visit_reference (fragment id _ name) =
        if is_some (lookup name fragments)
        then []
        else ("Step '" +++ id +++ "' references unknown fragment '" +++ name +++ "'.") ∷ []
    visit_reference (plain s) = visit_plain s

    pub visit_plain : PlainStep → List String
    visit_plain (parallel _ _ steps) = visit_references steps
    visit_plain (repeat _ _ _ steps) = visit_references steps
    visit_plain (condition _ _ _ steps) = visit_references steps
    visit_plain (condition_else _ _ _ steps others) =
        visit_references steps ++ visit_references others
    visit_plain (task _) = []
    visit_plain (poll _) = []

  unfoldable pub visit_tables : Table Definitions → List String
  unfolding visit_references
  visit_tables [] = []
  visit_tables ((_, steps) ∷ rest) = visit_references steps ++ visit_tables rest

unfoldable pub validate_fragment_references : ScenarioConfig → List String
unfolding visit_tables
validate_fragment_references config =
    visit_tables config.fragments (present (phases_of config.phases))
    ++ visit_tables config.fragments config.fragments

-- A text member of an assertion; another value has no text.
abbrev pub text_member : String → Value → String
text_member key (obj m) = elim (get_member key m) [ some (str s) ↦ s | _ ↦ "" ]
text_member key _ = ""

abbrev pub any_member : String → Value → Option Value
any_member key (obj m) = get_member key m
any_member key _ = none

unfoldable pub validate_unique_assertion_ids : List String → Items → List String
unfolding get_member
validate_unique_assertion_ids seen Items.nil = []
validate_unique_assertion_ids seen (Items.cons a rest) =
    let id = text_member "id" a in
    (if any (str_eq id) seen then ("Duplicate assertion ID '" +++ id +++ "'.") ∷ [] else [])
    ++ validate_unique_assertion_ids (id ∷ seen) rest

abbrev exceeds : Option Value → Option Value → Bool
exceeds (some (num low)) (some (num high)) = not (le_ℤ low high)
exceeds _ _ = false

abbrev is_count : Value → Bool
is_count a =
    str_eq (text_member "type" a) "provider-call-count"
    || str_eq (text_member "type" a) "observation-count"

abbrev bounded : Value → Bool
bounded a =
    is_some (any_member "equals" a)
    || is_some (any_member "minimum" a)
    || is_some (any_member "maximum" a)

abbrev needs_expected : Value → Bool
needs_expected a =
    str_eq (text_member "type" a) "observation"
    && (not (str_eq (text_member "operator" a) "present")
        && (not (str_eq (text_member "operator" a) "absent")
            && not (is_some (any_member "expected" a))))

abbrev issue_if : Bool → String → List String
issue_if b issue = if b then issue ∷ [] else []

unfoldable pub validate_assertion : Value → List String
unfolding get_member
validate_assertion a =
    let name = "Assertion '" +++ text_member "id" a +++ "'" in
    issue_if (is_count a && not (bounded a)) (name +++ " must define equals, minimum, or maximum.")
    ++ (issue_if (is_count a && exceeds (any_member "minimum" a) (any_member "maximum" a))
          (name +++ " has minimum greater than maximum.")
        ++ issue_if (needs_expected a) (name +++ " requires an expected value."))

unfoldable pub validate_assertions : Items → List String
unfolding validate_assertion
validate_assertions Items.nil = []
validate_assertions (Items.cons a rest) = validate_assertion a ++ validate_assertions rest
