-- ===== src/VendorRuntime/Ledger/Text.antt =====
-- The text methods that ledger.ts calls.
use Prim.Native.Char.{Char, code}
use Prim.Native.String.{String}
use testy_mc_testface.Prelude.{
  ℕ, Bool, true, false, ◌&&◌, ◌||◌, List, [], ◌∷◌, Option, none, some, ◌==◌, leb, is_empty,
  if◌then◌else◌,
}
use text.Mathlib.Text.{starts_with}

push_head : Char → List String → List String
push_head c [] = String.◌∷◌ c String.[] ∷ []
push_head c (s ∷ rest) = String.◌∷◌ c s ∷ rest

-- `\s`.
abbrev is_space : ℕ → Bool
is_space c =
    leb 9 c && leb c 13
    || c == 32
    || c == 0xa0
    || c == 0x1680
    || leb 0x2000 c && leb c 0x200a
    || c == 0x2028
    || c == 0x2029
    || c == 0x202f
    || c == 0x205f
    || c == 0x3000
    || c == 0xfeff

abbrev starts_space : String → Bool
starts_space String.[] = false
starts_space (String.◌∷◌ c s) = is_space (code c)

-- `split(/\s+/u)`: at each run of spaces.
unfoldable pub split_spaces : String → List String
unfolding push_head
split_spaces String.[] = "" ∷ []
split_spaces (String.◌∷◌ c s) =
    let parts = split_spaces s in
    if is_space (code c) then if starts_space s then parts else "" ∷ parts else push_head c parts

abbrev starts_line : String → Bool
starts_line String.[] = false
starts_line (String.◌∷◌ c s) = code c == 10

-- `split(/\r?\n/u)`: a carriage return before a line feed goes with it.
unfoldable pub split_lines : String → List String
unfolding push_head
split_lines String.[] = "" ∷ []
split_lines (String.◌∷◌ c s) =
    let parts = split_lines s in
    if code c == 10
    then "" ∷ parts
    else if code c == 13 && starts_line s
    then parts
    else push_head c parts

unfoldable pub trim_start : String → String
trim_start String.[] = ""
trim_start (String.◌∷◌ c s) =
    let rest = trim_start s in if is_space (code c) then rest else String.◌∷◌ c s

unfoldable pub trim_end : String → String
trim_end String.[] = ""
trim_end (String.◌∷◌ c s) =
    let rest = trim_end s in if is_space (code c) && is_empty rest then "" else String.◌∷◌ c rest

-- `text.slice(text.indexOf(part))`, where the part is there.
unfoldable pub from_part : (part : String) → String → Option String
from_part part String.[] = if is_empty part then some "" else none
from_part part (String.◌∷◌ c s) =
    let later = from_part part s in
    if starts_with (String.◌∷◌ c s) part then some (String.◌∷◌ c s) else later

-- What stands before and behind the first such character.
unfoldable pub cut : ℕ → String → Option (String × String)
cut c String.[] = none
cut c (String.◌∷◌ d s) = elim (code d == c) [
  | true ↦ some ("", s)
  | false ↦ elim (cut c s) [
    | none ↦ none
    | some (before, behind) ↦ some (String.◌∷◌ d before, behind)
  ]
]
