-- ===== src/Scenario/Value.antt =====
-- The JSON values of packages/assertion-engine/src/types.ts (`ScenarioValue` is the same type), and
-- the paths and comparisons of packages/scenario-engine/src/executor.ts. Numbers are integers.
pub mod Tests
use testy_mc_testface.Prelude.{
  Bool, true, false, ◌&&◌, List, [], ◌∷◌, Option, none, some, String, str_eq, ℤ, eq_ℤ, Table,
  if◌then◌else◌, or_else, split, drop_char, is_empty, ◌+++◌,
}
use testy_mc_testface.Prelude.Json.{number_text, quoted}

mutual
  pub data Value : Type 0 where
    null : Value
    bool : Bool → Value
    num : ℤ → Value
    str : String → Value
    arr : Items → Value
    obj : Members → Value

  pub data Items : Type 0 where
    nil : Items
    cons : Value → Items → Items

  pub data Members : Type 0 where
    end : Members
    member : String → Value → Members → Members

abbrev pub to_members : Table Value → Members
to_members [] = end
to_members ((k, v) ∷ t) = member k v (to_members t)

unfoldable pub get_member : String → Members → Option Value
get_member k end = none
get_member k (member j v m) = if str_eq j k then some v else get_member k m

-- `JSON.stringify(value)`.
unfoldable mutual
  unfolding number_text quoted

  pub stringify : Value → String
  stringify null = "null"
  stringify (bool true) = "true"
  stringify (bool false) = "false"
  stringify (num n) = number_text n
  stringify (str s) = quoted s
  stringify (arr items) = "[" +++ items_text items +++ "]"
  stringify (obj members) = "{" +++ members_text members +++ "}"

  pub items_text : Items → String
  items_text nil = ""
  items_text (cons v nil) = stringify v
  items_text (cons v (cons w rest)) = stringify v +++ "," +++ items_text (cons w rest)

  pub members_text : Members → String
  members_text end = ""
  members_text (member k v end) = quoted k +++ ":" +++ stringify v
  members_text (member k v (member j w rest)) =
      quoted k +++ ":" +++ stringify v +++ "," +++ members_text (member j w rest)

-- `JSON.stringify(a) === JSON.stringify(b)`.
unfoldable pub same_value : Value → Value → Bool
unfolding stringify
same_value a b = str_eq (stringify a) (stringify b)

-- One segment of a path: a member of an object, and nothing of any other value.
unfoldable pub step_into : String → Value → Option Value
unfolding get_member
step_into segment (obj m) = get_member segment m
step_into segment _ = none

unfoldable pub follow : List String → Value → Option Value
unfolding step_into
follow [] v = some v
follow (s ∷ rest) v = elim (step_into s v) [ none ↦ none | some u ↦ follow rest u ]

-- `path.replace(/^\$\.?/u, "")`.
unfoldable pub strip_root : String → String
unfolding drop_char
strip_root path = elim (drop_char b'$' path) [
  | none ↦ path
  | some rest ↦ or_else (drop_char b'.' rest) rest
]

unfoldable pub read_path : Value → String → Option Value
unfolding follow strip_root split
read_path root path =
    let normalized = strip_root path in
    if is_empty normalized then some root else follow (split b'.' normalized) root
