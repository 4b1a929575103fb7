-- ===== src/Scenario/Resolver/Termination.antt =====
-- `expand` and `resolveScenario` come to an end.
use testy_mc_testface.Prelude.{
  ℕ, zero, suc, ◌+◌, ◌*◌, ◌≤◌, ◌<◌, ◌≡◌, refl, ◌∙◌, String, true, List, [], ◌∷◌, ◌++◌, Option, none,
  some, All, ◌⊎◌, List-cases, is_some, str_eq, any, ℤ, Table, lookup, arith, Bool-cases,
  Option-cases, inl, inr, ◌+++◌,
}
use testy_mc_testface.Scenario.Value.{Value, Items}
use testy_mc_testface.Scenario.Types.{ResolvedScenario}
use testy_mc_testface.Scenario.Resolver.{
  StepDefinition, plain, fragment, PlainStep, task, poll, parallel, repeat, condition,
  condition_else, Definitions, nil, cons, invalid, id_of_plain, ScenarioConfig,
}
use testy_mc_testface.Scenario.Resolver.Results.{threw}
use testy_mc_testface.Scenario.Resolver.Substitute.{substitute_items}
use testy_mc_testface.Scenario.Resolver.Expand.{
  next_id, Call, resolve_mapped, resolve_step, expand_fragment, expand_one, expand_list, expand,
}
use testy_mc_testface.Scenario.Resolver.Validate.{
  visit_references, visit_reference, visit_plain, visit_tables, present, phases_of,
  validate_unique_step_ids, validate_fragment_references,
}
use testy_mc_testface.Scenario.Resolver.Resolve.{
  depth, depth_of, depth_plain, deepest, fuel_for, given, expand_phase, issues_of, resolve_valid,
  resolve_scenario,
}
use testy_mc_testface.Scenario.Resolver.Shape.{substitute_step-SameShape}
use testy_mc_testface.Scenario.Resolver.Settling.{
  Settled, finished, failed, cycle, and_then-Settled, lift-Settled, lift-then-Settled,
  append-eq-nil, remaining, remaining_falls, remaining_nil, found-le-deepest, found-refers,
}

module _ (decimal : ℤ → String) (variables : Table Value) (fragments : Table Definitions)
    (refers : visit_tables fragments fragments ≡ []) where
  -- The calls of `expand` that are still needed, at most.
  abbrev need : List String → Definitions → ℕ
  need stack steps = depth steps + remaining stack fragments * suc (deepest fragments)

  -- A call that settles for steps that refer to what is there, below a bound.
  abbrev Settles : Call → ℕ → Type 0
  Settles go bound =
      (stack : List String) (prefix : String) (steps : Definitions)
      → visit_references fragments steps ≡ []
      → need stack steps < bound
      → Settled (go stack prefix steps)

  module _ (go : Call) (bound : ℕ) (settles : Settles go bound) where
    resolve_mapped-Settled :
        (stack : List String) (id : String) (s : PlainStep)
        → visit_plain fragments s ≡ []
        → depth_plain s + remaining stack fragments * suc (deepest fragments) ≤ bound
        → Settled (resolve_mapped go stack id s)
    unfolding resolve_mapped visit_plain depth_plain
    resolve_mapped-Settled stack id (task t) h k = finished
    resolve_mapped-Settled stack id (poll t) h k = finished
    resolve_mapped-Settled stack id (parallel _ timeout steps) h k =
        and_then-Settled _ (settles stack id steps h (omega arith)) (λ _. finished)
    resolve_mapped-Settled stack id (repeat _ timeout times steps) h k =
        and_then-Settled _ (settles stack id steps h (omega arith)) (λ _. finished)
    resolve_mapped-Settled stack id (condition _ timeout when steps) h k =
        and_then-Settled _ (settles stack (id +++ ".then") steps h (omega arith)) (λ _. finished)
    resolve_mapped-Settled stack id (condition_else _ timeout when steps others) h k =
        let (a, b) = append-eq-nil (visit_references fragments steps) _ h in
        and_then-Settled _ (settles stack (id +++ ".then") steps a (omega arith)) λ _.
          and_then-Settled _ (settles stack (id +++ ".else") others b (omega arith)) (λ _. finished)

    resolve_step-Settled :
        (stack : List String) (id : String) (s : PlainStep)
        → visit_plain fragments s ≡ []
        → depth_plain s + remaining stack fragments * suc (deepest fragments) ≤ bound
        → Settled (resolve_step decimal variables fragments go stack id s)
    unfolding resolve_step
    resolve_step-Settled stack id s h k =
        lift-then-Settled _ (substitute_step-SameShape decimal variables fragments s)
          λ t same. resolve_mapped-Settled stack id t (same.1 ∙ h) (omega (arith, same.0))

    expand_fragment-Settled :
        (stack : List String) (next id name : String)
        → is_some (lookup name fragments) ≡ true
        → remaining stack fragments * suc (deepest fragments) ≤ bound
        → Settled (expand_fragment decimal variables fragments go stack next id name)
    unfolding expand_fragment
    expand_fragment-Settled stack next id name h k = elim (Bool-cases (any (str_eq name) stack)) [
      | inl again ↦ rw (again, expand_fragment) (failed cycle)
      | inr new ↦ elim (Option-cases (lookup name fragments)) [
        | inl missing ↦ ground (arith, missing, h)
        | inr (steps, found) ↦
            let falls = remaining_falls stack name fragments new h in
            let below = found-le-deepest name steps fragments found in
            rw (new, expand_fragment, found)
              (settles (stack ++ name ∷ []) next steps
                (found-refers fragments name steps fragments found refers) (grind arith))
      ]
    ]

    expand_one-Settled :
        (stack : List String) (prefix : String) (s : StepDefinition)
        → visit_reference fragments s ≡ []
        → depth_of s + remaining stack fragments * suc (deepest fragments) ≤ bound
        → Settled (expand_one decimal variables fragments go stack prefix s)
    unfolding expand_one visit_reference depth_of
    expand_one-Settled stack prefix (plain s) h k =
        and_then-Settled _ (resolve_step-Settled stack (next_id prefix (id_of_plain s)) s h k)
          (λ _. finished)
    expand_one-Settled stack prefix (fragment id timeout name) h k =
        expand_fragment-Settled stack (next_id prefix id) id name (ground (arith, h)) (omega arith)

    expand_list-Settled :
        (stack : List String) (prefix : String) (steps : Definitions)
        → visit_references fragments steps ≡ []
        → need stack steps ≤ bound
        → Settled (expand_list decimal variables fragments go stack prefix steps)
    unfolding expand_list visit_references depth
    expand_list-Settled stack prefix nil h k = finished
    expand_list-Settled stack prefix (cons s rest) h k =
        let (a, b) = append-eq-nil (visit_reference fragments s) _ h in
        and_then-Settled _ (expand_one-Settled stack prefix s a (omega arith)) λ _.
          and_then-Settled _ (expand_list-Settled stack prefix rest b (omega arith)) (λ _. finished)

  -- Fuel above what is needed is enough.
  pub expand-Settled :
      (fuel : ℕ) (stack : List String) (prefix : String) (steps : Definitions)
      → visit_references fragments steps ≡ []
      → need stack steps < fuel
      → Settled (expand decimal variables fragments fuel stack prefix steps)
  unfolding expand
  expand-Settled zero stack prefix steps h k = absurd (omega arith)
  expand-Settled (suc fuel) stack prefix steps h k =
      expand_list-Settled (expand decimal variables fragments fuel) fuel (expand-Settled fuel) stack
        prefix steps h (omega arith)

-- What the validation of references says of the phases, those that are missing included.
present-refers :
    (fragments : Table Definitions) (phases : Table (Option Definitions))
    → visit_tables fragments (present phases) ≡ []
    → All (λ e. visit_references fragments (given e.1) ≡ []) phases
unfolding visit_tables visit_references
present-refers fragments [] h = tt
present-refers fragments ((name, none) ∷ rest) h = (refl, present-refers fragments rest h)
present-refers fragments ((name, some s) ∷ rest) h =
    let (a, b) = append-eq-nil (visit_references fragments s) _ h in
    (a, present-refers fragments rest b)

module _ (decimal : ℤ → String) (hash : ResolvedScenario → Items → String)
    (config : ScenarioConfig) where
  expand_phase-Settled :
      (steps : Definitions)
      → visit_tables config.fragments config.fragments ≡ []
      → visit_references config.fragments steps ≡ []
      → Settled (expand_phase decimal hash config steps)
  unfolding expand_phase fuel_for
  expand_phase-Settled steps refers h =
      expand-Settled decimal config.variables config.fragments refers
        (fuel_for config.fragments steps) [] "" steps h
        (rw (remaining_nil config.fragments) (omega arith))

  resolve_valid-Settled :
      validate_fragment_references config ≡ [] → Settled (resolve_valid decimal hash config)
  unfolding validate_fragment_references resolve_valid
  resolve_valid-Settled h =
      let phases = phases_of config.phases in
      let (there, refers) = append-eq-nil (visit_tables config.fragments (present phases)) _ h in
      let (allocate, (compile, (configure, (run, (observe, (assert, _)))))) =
        present-refers config.fragments phases there in
      let settled = λ (steps : Definitions). expand_phase-Settled steps refers in
      and_then-Settled _
        (lift-Settled (substitute_items decimal config.variables config.assertions))
        λ _. and_then-Settled _ (settled (given config.phases.assert) assert) λ _.
          and_then-Settled _ (settled (given config.phases.allocate) allocate) λ _.
            and_then-Settled _ (settled (given config.phases.compile) compile) λ _.
              and_then-Settled _ (settled (given config.phases.configure) configure) λ _.
                and_then-Settled _ (settled config.phases.run run) λ _.
                  and_then-Settled _ (settled (given config.phases.observe) observe) (λ _. finished)

  references_valid : issues_of config ≡ [] → validate_fragment_references config ≡ []
  unfolding issues_of
  references_valid h =
      (append-eq-nil (validate_fragment_references config) _
        (append-eq-nil (validate_unique_step_ids config) _ h).1).0

  -- Every resolution comes to an end. A scenario with issues is refused with all of them; one without
  -- is resolved, or refused for a variable or for a cycle of fragments, and never for a fragment that
  -- is not there.
  pub resolve_scenario-Settled :
      ((issue : String) × (rest : List String) × (issues_of config ≡ issue ∷ rest)
        × (resolve_scenario decimal hash config ≡ threw (invalid (issue ∷ rest))))
      ⊎ ((issues_of config ≡ []) × Settled (resolve_scenario decimal hash config))
  unfolding resolve_scenario
  resolve_scenario-Settled = elim (List-cases (issues_of config)) [
    | inl none_left ↦ inr (
      none_left,
      rw (none_left, resolve_scenario) (resolve_valid-Settled (references_valid none_left)),
    )
    | inr (issue, rest, e) ↦ inl (issue, rest, e, rw (e, resolve_scenario) refl)
  ]
