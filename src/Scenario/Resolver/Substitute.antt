-- ===== src/Scenario/Resolver/Substitute.antt =====
-- `substituteValue`, on texts, on values and on steps.
use Prim.Native.String
use testy_mc_testface.Prelude.{
  String, true, false, List, [], ◌∷◌, Option, none, some, if◌then◌else◌, is_empty, ℤ, Table, lookup,
}
use testy_mc_testface.Scenario.Value.{
  Value, null, bool, num, str, arr, obj, Items, Members, end, member,
}
use testy_mc_testface.Scenario.Types.{TaskStep, PollStep, Condition, ActionCall}
use testy_mc_testface.Scenario.Resolver.{
  StepDefinition, plain, fragment, PlainStep, task, poll, parallel, repeat, condition,
  condition_else, Definitions, nil, cons, undefined_variable, not_interpolable,
}
use testy_mc_testface.Scenario.Resolver.Results.{Result, ok, err, ◌>>=◌}
use testy_mc_testface.Scenario.Resolver.Templates.{Piece, char, variable, pieces, variable_at}

-- `String(replacement)`, for what is no object.
abbrev pub interpolated : (decimal : ℤ → String) → (name : String) → Value → Result String
interpolated decimal name (bool true) = ok "true"
interpolated decimal name (bool false) = ok "false"
interpolated decimal name (num n) = ok (decimal n)
interpolated decimal name (str s) = ok s
interpolated decimal name _ = err (not_interpolable name)

abbrev pub defined : Table Value → (name : String) → Result Value
defined variables name = elim (lookup name variables) [
  | none ↦ err (undefined_variable name)
  | some v ↦ ok v
]

-- A text that is one variable and no more.
unfoldable pub exact_variable : String → Option String
unfolding variable_at
exact_variable s = elim (variable_at s) [
  | none ↦ none
  | some (name, rest) ↦ if is_empty rest then some name else none
]

module _ (decimal : ℤ → String) (variables : Table Value) where
  unfoldable pub render : List Piece → Result String
  unfolding lookup
  render [] = ok ""
  render (char c ∷ rest) = do later ← render rest; ok (String.◌∷◌ c later)
  render (variable name ∷ rest) = do
    v ← defined variables name
    text ← interpolated decimal name v
    later ← render rest
    ok (String.◌++◌ text later)

  unfoldable pub substitute_text : String → Result Value
  unfolding exact_variable pieces render lookup
  substitute_text text = elim (exact_variable text) [
    | some name ↦ defined variables name
    | none ↦ render (pieces 0 text) >>= λ s. ok (str s)
  ]

  unfoldable mutual
    unfolding substitute_text

    pub substitute_value : Value → Result Value
    substitute_value (str s) = substitute_text s
    substitute_value (arr items) = substitute_items items >>= λ xs. ok (arr xs)
    substitute_value (obj members) = substitute_members members >>= λ ms. ok (obj ms)
    substitute_value (bool b) = ok (bool b)
    substitute_value (num n) = ok (num n)
    substitute_value null = ok null

    pub substitute_items : Items → Result Items
    substitute_items Items.nil = ok Items.nil
    substitute_items (Items.cons v rest) = do
      w ← substitute_value v
      later ← substitute_items rest
      ok (Items.cons w later)

    pub substitute_members : Members → Result Members
    substitute_members end = ok end
    substitute_members (member key v rest) = do
      w ← substitute_value v
      later ← substitute_members rest
      ok (member key w later)

  unfoldable pub substitute_input : Option Value → Result (Option Value)
  unfolding substitute_value
  substitute_input none = ok none
  substitute_input (some v) = substitute_value v >>= λ w. ok (some w)

  unfoldable pub substitute_condition : Condition → Result Condition
  unfolding substitute_value
  substitute_condition c = do
    path ← substitute_value c.path
    equals ← substitute_value c.equals
    ok (record { path = path; equals = equals })

  unfoldable pub substitute_call : Option ActionCall → Result (Option ActionCall)
  unfolding substitute_input
  substitute_call none = ok none
  substitute_call (some c) = substitute_input c.input >>= λ i. ok (some (record c { input = i }))

  unfoldable pub substitute_task : TaskStep → Result TaskStep
  unfolding substitute_input substitute_call
  substitute_task t = do
    input ← substitute_input t.input
    compensate ← substitute_call t.compensate
    ok (record t { input = input; compensate = compensate })

  unfoldable pub substitute_poll : PollStep → Result PollStep
  unfolding substitute_input substitute_condition
  substitute_poll t = do
    input ← substitute_input t.input
    until ← substitute_condition t.until
    ok (record t { input = input; until = until })

  -- The steps inside a step are substituted with it.
  unfoldable mutual
    unfolding substitute_task substitute_poll substitute_condition

    pub substitute_step : PlainStep → Result PlainStep
    substitute_step (task t) = substitute_task t >>= λ u. ok (task u)
    substitute_step (poll t) = substitute_poll t >>= λ u. ok (poll u)
    substitute_step (parallel id timeout steps) =
        substitute_steps steps >>= λ ss. ok (parallel id timeout ss)
    substitute_step (repeat id timeout times steps) =
        substitute_steps steps >>= λ ss. ok (repeat id timeout times ss)
    substitute_step (condition id timeout when steps) = do
      c ← substitute_condition when
      ss ← substitute_steps steps
      ok (condition id timeout c ss)
    substitute_step (condition_else id timeout when steps others) = do
      c ← substitute_condition when
      ss ← substitute_steps steps
      os ← substitute_steps others
      ok (condition_else id timeout c ss os)

    pub substitute_definition : StepDefinition → Result StepDefinition
    substitute_definition (plain s) = substitute_step s >>= λ t. ok (plain t)
    substitute_definition (fragment id timeout name) = ok (fragment id timeout name)

    pub substitute_steps : Definitions → Result Definitions
    substitute_steps nil = ok nil
    substitute_steps (cons s rest) = do
      t ← substitute_definition s
      later ← substitute_steps rest
      ok (cons t later)
