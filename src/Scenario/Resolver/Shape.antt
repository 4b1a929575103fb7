-- ===== src/Scenario/Resolver/Shape.antt =====
-- What a substitution leaves of a step: its nesting and its references to fragments.
use testy_mc_testface.Prelude.{suc, ◌≡◌, refl, ap, String, ℤ, Table}
use testy_mc_testface.Scenario.Value.{Value}
use testy_mc_testface.Scenario.Resolver.{
  StepDefinition, plain, fragment, PlainStep, task, poll, parallel, repeat, condition,
  condition_else, Definitions, nil, cons,
}
use testy_mc_testface.Scenario.Resolver.Results.{Returns, returns, >>=-Returns, Returns-any}
use testy_mc_testface.Scenario.Resolver.Substitute.{
  substitute_step, substitute_definition, substitute_steps, substitute_task, substitute_poll,
  substitute_condition,
}
use testy_mc_testface.Scenario.Resolver.Validate.{visit_references, visit_reference, visit_plain}
use testy_mc_testface.Scenario.Resolver.Resolve.{depth, depth_of, depth_plain}

module _ (decimal : ℤ → String) (variables : Table Value) (fragments : Table Definitions) where
  abbrev pub SameShape : PlainStep → PlainStep → Type 0
  SameShape s t =
      (depth_plain t ≡ depth_plain s) × (visit_plain fragments t ≡ visit_plain fragments s)

  abbrev SameDefinition : StepDefinition → StepDefinition → Type 0
  SameDefinition s t =
      (depth_of t ≡ depth_of s) × (visit_reference fragments t ≡ visit_reference fragments s)

  abbrev SameSteps : Definitions → Definitions → Type 0
  SameSteps s t =
      (depth t ≡ depth s) × (visit_references fragments t ≡ visit_references fragments s)

  mutual
    unfolding substitute_step depth visit_references

    substitute_step-SameShape_lem :
        (s : PlainStep) → Returns (SameShape s) (substitute_step decimal variables s)
    substitute_step-SameShape_lem (task t) =
        >>=-Returns _ (Returns-any (substitute_task decimal variables t))
          (λ u _. returns (refl, refl))
    substitute_step-SameShape_lem (poll t) =
        >>=-Returns _ (Returns-any (substitute_poll decimal variables t))
          (λ u _. returns (refl, refl))
    substitute_step-SameShape_lem (parallel id timeout steps) =
        >>=-Returns _ (substitute_steps-SameShape steps) (λ ss h. returns (ap suc h.0, h.1))
    substitute_step-SameShape_lem (repeat id timeout times steps) =
        >>=-Returns _ (substitute_steps-SameShape steps) (λ ss h. returns (ap suc h.0, h.1))
    substitute_step-SameShape_lem (condition id timeout when steps) =
        >>=-Returns _ (Returns-any (substitute_condition decimal variables when)) λ c _.
          >>=-Returns _ (substitute_steps-SameShape steps) (λ ss h. returns (ap suc h.0, h.1))
    substitute_step-SameShape_lem (condition_else id timeout when steps others) =
        >>=-Returns _ (Returns-any (substitute_condition decimal variables when)) λ c _.
          >>=-Returns _ (substitute_steps-SameShape steps) λ ss h.
            >>=-Returns _ (substitute_steps-SameShape others)
              λ os k. returns (cc (h.0, k.0), cc (h.1, k.1))

    substitute_definition-SameShape :
        (s : StepDefinition)
        → Returns (SameDefinition s) (substitute_definition decimal variables s)
    substitute_definition-SameShape (plain s) =
        >>=-Returns _ (substitute_step-SameShape_lem s) (λ t h. returns h)
    substitute_definition-SameShape (fragment id timeout name) = returns (refl, refl)

    substitute_steps-SameShape :
        (s : Definitions) → Returns (SameSteps s) (substitute_steps decimal variables s)
    substitute_steps-SameShape nil = returns (refl, refl)
    substitute_steps-SameShape (cons s rest) =
        >>=-Returns _ (substitute_definition-SameShape s) λ t h.
          >>=-Returns _ (substitute_steps-SameShape rest)
            λ ts k. returns (cc (h.0, k.0), cc (h.1, k.1))

  pub substitute_step-SameShape :
      (s : PlainStep) → Returns (SameShape s) (substitute_step decimal variables s)
  substitute_step-SameShape s = substitute_step-SameShape_lem s
