-- ===== src/Scenario/Resolver/Expand.antt =====
-- `expand` and `resolveStep`. Each call of `expand` takes one unit of fuel.
use testy_mc_testface.Prelude.{
  ℕ, zero, suc, String, List, [], ◌∷◌, ◌++◌, none, some, str_eq, any, ℤ, Table, lookup,
  if◌then◌else◌, is_empty, ◌+++◌,
}
use testy_mc_testface.Scenario.Value.{Value}
use testy_mc_testface.Scenario.Types.{Step, Steps}
use testy_mc_testface.Scenario.Resolver.{
  StepDefinition, plain, fragment, PlainStep, task, poll, parallel, repeat, condition,
  condition_else, Definitions, nil, cons, fragment_cycle, unknown_fragment, id_of_plain,
}
use testy_mc_testface.Scenario.Resolver.Results.{Run, done, threw, unfinished, lift, and_then}
use testy_mc_testface.Scenario.Resolver.Substitute.{substitute_step}

unfoldable pub append_steps : Steps → Steps → Steps
append_steps Steps.nil later = later
append_steps (Steps.cons s rest) later = Steps.cons s (append_steps rest later)

abbrev pub next_id : (prefix id : String) → String
next_id prefix id = if is_empty prefix then id else prefix +++ "." +++ id

-- A call of `expand` on the steps inside a step.
abbrev pub Call : Type 0
Call = (stack : List String) (prefix : String) → Definitions → Run Steps

unfoldable pub resolve_mapped : Call → (stack : List String) → (id : String) → PlainStep → Run Step
resolve_mapped go stack id (task t) = done (Step.task (record t { id = id }))
resolve_mapped go stack id (poll t) = done (Step.poll (record t { id = id }))
resolve_mapped go stack id (parallel _ timeout steps) =
    and_then (go stack id steps) λ ss. done (Step.parallel id timeout ss)
resolve_mapped go stack id (repeat _ timeout times steps) =
    and_then (go stack id steps) λ ss. done (Step.repeat id timeout times ss)
resolve_mapped go stack id (condition _ timeout when steps) =
    and_then (go stack (id +++ ".then") steps) λ ss. done (Step.condition id timeout when ss)
resolve_mapped go stack id (condition_else _ timeout when steps others) =
    and_then (go stack (id +++ ".then") steps) λ ss.
      and_then (go stack (id +++ ".else") others)
        λ os. done (Step.condition_else id timeout when ss os)

module _ (decimal : ℤ → String) (variables : Table Value) (fragments : Table Definitions) where
  unfoldable pub resolve_step : Call → (stack : List String) → (id : String) → PlainStep → Run Step
  unfolding substitute_step resolve_mapped
  resolve_step go stack id step =
      and_then (lift (substitute_step decimal variables step))
        λ mapped. resolve_mapped go stack id mapped

  unfoldable pub expand_fragment :
      Call → (stack : List String) → (next id name : String) → Run Steps
  unfolding lookup
  expand_fragment go stack next id name =
      if any (str_eq name) stack
      then threw (fragment_cycle (stack ++ name ∷ []))
      else elim (lookup name fragments) [
        | none ↦ threw (unknown_fragment id name)
        | some steps ↦ go (stack ++ name ∷ []) next steps
      ]

  unfoldable pub expand_one :
      Call → (stack : List String) → (prefix : String) → StepDefinition → Run Steps
  unfolding expand_fragment resolve_step
  expand_one go stack prefix (fragment id timeout name) =
      expand_fragment go stack (next_id prefix id) id name
  expand_one go stack prefix (plain step) =
      and_then (resolve_step go stack (next_id prefix (id_of_plain step)) step)
        λ s. done (Steps.cons s Steps.nil)

  -- The loop over the steps of one list.
  unfoldable pub expand_list : Call → Call
  unfolding expand_one append_steps
  expand_list go stack prefix nil = done Steps.nil
  expand_list go stack prefix (cons step rest) =
      and_then (expand_one go stack prefix step) λ first.
        and_then (expand_list go stack prefix rest) λ later. done (append_steps first later)

  unfoldable pub expand : (fuel : ℕ) → Call
  unfolding expand_list
  expand zero stack prefix steps = unfinished
  expand (suc fuel) stack prefix steps = expand_list (expand fuel) stack prefix steps
