-- ===== src/Prelude/Text.antt =====
-- What the program does with the characters of a text.
use Prim.Native.Char.{Char, code}
use Prim.Native.String
use Prim.Native.String.{String, compare}
use Prim.Native.Nat.{ℕ, suc, Ordering}
use mathlib.Core.Bool.{Bool, true, false}
use mathlib.Core.Option.{Option, none, some}
use mathlib.Core.List.{List, [], ◌∷◌}
use testy_mc_testface.Prelude.Tests.{◌==◌, if◌then◌else◌}

push_head : Char → List String → List String
push_head c [] = String.◌∷◌ c String.[] ∷ []
push_head c (s ∷ rest) = String.◌∷◌ c s ∷ rest

-- `s.split(c)` for a text of one character: always at least one part.
unfoldable pub split : ℕ → String → List String
unfolding push_head
split c String.[] = "" ∷ []
split c (String.◌∷◌ ch s) =
    let parts = split c s in if code ch == c then "" ∷ parts else push_head ch parts

-- The rest behind a leading character.
unfoldable pub drop_char : ℕ → String → Option String
drop_char c String.[] = none
drop_char c (String.◌∷◌ ch s) = if code ch == c then some s else none

-- `s.length`, for a text of the basic plane.
unfoldable pub text_length : String → ℕ
text_length String.[] = 0
text_length (String.◌∷◌ _ s) = suc (text_length s)

abbrev pub is_empty : String → Bool
is_empty String.[] = true
is_empty (String.◌∷◌ _ _) = false

infixr 65 ◌+++◌
abbrev pub ◌+++◌ : String → String → String
s +++ t = String.◌++◌ s t

abbrev pub concat : List String → String
concat [] = ""
concat (s ∷ rest) = s +++ concat rest

abbrev pub join : String → List String → String
join sep [] = ""
join sep (s ∷ []) = s
join sep (s ∷ t ∷ rest) = s +++ sep +++ join sep (t ∷ rest)

-- `array.sort()` of texts.
insert_sorted : String → List String → List String
insert_sorted s [] = s ∷ []
insert_sorted s (t ∷ rest) = elim (compare s t) [
  | Ordering.gt ↦ t ∷ insert_sorted s rest
  | _ ↦ s ∷ t ∷ rest
]

unfoldable pub sort_texts : List String → List String
unfolding insert_sorted
sort_texts [] = []
sort_texts (s ∷ rest) = insert_sorted s (sort_texts rest)
