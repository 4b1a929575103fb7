-- ===== src/Scenario/Resolver/Plain.antt =====
-- Texts with no variable, and texts that are one.
use Prim.Native.Char.{code}
use testy_mc_testface.Prelude.{
  ◌≡◌, refl, ap, ◌∙◌, String, Bool, true, false, ◌&&◌, List, [], ◌∷◌, none, some, ℤ, Table,
  drop_char, ◌+++◌, and_parts, Option-cases, inl, inr,
}
use text.Mathlib.TextLemmas.{nil-append, cons-append}
use testy_mc_testface.Scenario.Value.{
  Value, null, bool, num, str, arr, obj, Items, Members, end, member,
}
use testy_mc_testface.Scenario.Resolver.Results.{ok}
use testy_mc_testface.Scenario.Resolver.Templates.{
  Piece, char, variable, pieces, variable_at, span_name, is_name_char, starts_name,
}
use testy_mc_testface.Scenario.Resolver.Substitute.{
  exact_variable, render, substitute_text, substitute_value, substitute_items, substitute_members,
  defined,
}

-- No piece is a variable.
abbrev pub no_variable : List Piece → Bool
no_variable [] = true
no_variable (char _ ∷ rest) = no_variable rest
no_variable (variable _ ∷ rest) = false

-- No text of the value holds a variable. Keys are not substituted.
unfoldable mutual
  pub is_plain : Value → Bool
  is_plain (str s) = no_variable (pieces 0 s)
  is_plain (arr items) = are_plain items
  is_plain (obj members) = have_plain members
  is_plain null = true
  is_plain (bool _) = true
  is_plain (num _) = true

  pub are_plain : Items → Bool
  are_plain Items.nil = true
  are_plain (Items.cons v rest) = is_plain v && are_plain rest

  pub have_plain : Members → Bool
  have_plain end = true
  have_plain (member _ v rest) = is_plain v && have_plain rest

module _ (decimal : ℤ → String) (variables : Table Value) where
  render-pieces :
      (s : String) → no_variable (pieces 0 s) ≡ true → render decimal variables (pieces 0 s) ≡ ok s
  unfolding pieces render
  render-pieces String.[] h = refl
  render-pieces (String.◌∷◌ c s) h = elim (Option-cases (variable_at (String.◌∷◌ c s))) [
    | inl free ↦
        let p : pieces 0 (String.◌∷◌ c s) ≡ char c ∷ pieces 0 s = rw (free, pieces) refl in
        let h' : no_variable (pieces 0 s) ≡ true = rw p at h in rw (p, render-pieces s h') refl
    | inr ((name, rest), found) ↦ let h' = rw (found, pieces) at h in cc h'
  ]

  -- A text with no variable is no variable either.
  exact_variable-eq-none : (s : String) → no_variable (pieces 0 s) ≡ true → exact_variable s ≡ none
  unfolding pieces exact_variable
  exact_variable-eq-none String.[] h = refl
  exact_variable-eq-none (String.◌∷◌ c s) h = elim (Option-cases (variable_at (String.◌∷◌ c s))) [
    | inl free ↦ rw (free, exact_variable) refl
    | inr ((name, rest), found) ↦ let h' = rw (found, pieces) at h in cc h'
  ]

  substitute_text-plain :
      (s : String)
      → no_variable (pieces 0 s) ≡ true
      → substitute_text decimal variables s ≡ ok (str s)
  unfolding substitute_text
  substitute_text-plain s h =
      rw (exact_variable-eq-none s h, substitute_text, render-pieces s h) refl

  mutual
    unfolding substitute_value is_plain

    substitute_value-plain_lem :
        (v : Value) → is_plain v ≡ true → substitute_value decimal variables v ≡ ok v
    substitute_value-plain_lem (str s) h = substitute_text-plain s h
    substitute_value-plain_lem (arr items) h = rw (substitute_items-plain items h) refl
    substitute_value-plain_lem (obj members) h = rw (substitute_members-plain members h) refl
    substitute_value-plain_lem null h = refl
    substitute_value-plain_lem (bool b) h = refl
    substitute_value-plain_lem (num n) h = refl

    substitute_items-plain :
        (xs : Items) → are_plain xs ≡ true → substitute_items decimal variables xs ≡ ok xs
    substitute_items-plain Items.nil h = refl
    substitute_items-plain (Items.cons v rest) h =
        let (a, b) = and_parts (is_plain v) _ h in
        rw (substitute_value-plain_lem v a, substitute_items-plain rest b) refl

    substitute_members-plain :
        (ms : Members) → have_plain ms ≡ true → substitute_members decimal variables ms ≡ ok ms
    substitute_members-plain end h = refl
    substitute_members-plain (member key v rest) h =
        let (a, b) = and_parts (is_plain v) _ h in
        rw (substitute_value-plain_lem v a, substitute_members-plain rest b) refl

  -- A value none of whose texts holds a variable comes through a substitution as it is, whatever the
  -- variables are.
  pub substitute_value-plain :
      (v : Value) → is_plain v ≡ true → substitute_value decimal variables v ≡ ok v
  substitute_value-plain v h = substitute_value-plain_lem v h

-- Every character may stand in a name.
abbrev pub is_name : String → Bool
is_name String.[] = true
is_name (String.◌∷◌ c s) = is_name_char (code c) && is_name s

span_name-close :
    (name rest : String)
    → is_name name ≡ true
    → span_name (name +++ String.◌∷◌ "}" rest) ≡ (name, String.◌∷◌ "}" rest)
unfolding span_name
span_name-close String.[] rest h = rw (nil-append (String.◌∷◌ "}" rest)) refl
span_name-close (String.◌∷◌ c s) rest h =
    let (a, b) = and_parts (is_name_char (code c)) _ h in
    rw (cons-append c s (String.◌∷◌ "}" rest), span_name, span_name-close s rest b, a) refl

variable_at-braces :
    (name : String)
    → starts_name name ≡ true
    → is_name name ≡ true
    → variable_at ("{{" +++ name +++ "}}") ≡ some (name, "")
unfolding variable_at drop_char
variable_at-braces String.[] s h = cc
variable_at-braces (String.◌∷◌ c rest) s h =
    let name = String.◌∷◌ c rest in
    let inner = name +++ "}}" in
    let open_one : "{{" +++ inner ≡ String.◌∷◌ "{" (String.◌∷◌ "{" inner) =
      cons-append "{" "{" inner
      ∙ ap (String.◌∷◌ "{") (cons-append "{" "" inner ∙ ap (String.◌∷◌ "{") (nil-append inner)) in
    let starts : starts_name inner ≡ true = rw (cons-append c rest "}}") s in
    rw (open_one, variable_at, starts, span_name-close name "}" h) refl

-- A text that is one variable in braces stands for the variable's value, of whatever type, or fails
-- if it is not defined.
pub substitute_text-exact :
    (decimal : ℤ → String) (variables : Table Value) (name : String)
    → starts_name name ≡ true
    → is_name name ≡ true
    → substitute_text decimal variables ("{{" +++ name +++ "}}") ≡ defined variables name
unfolding substitute_text exact_variable
substitute_text-exact decimal variables name s h =
    rw (variable_at-braces name s h, substitute_text) refl
