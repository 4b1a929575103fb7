-- ===== src/Scenario/Resolver/Templates.antt =====
-- `substituteValue` on a text: variables in double braces.
use Prim.Native.Char.{Char, code}
use testy_mc_testface.Prelude.{
  ℕ, zero, suc, ◌+◌, String, Bool, false, ◌&&◌, ◌||◌, List, [], ◌∷◌, Option, none, some, ◌>>=◌, leb,
  ◌==◌, if◌then◌else◌, drop_char, text_length,
}

abbrev pub is_letter : ℕ → Bool
is_letter c = leb b'a' c && leb c b'z' || leb b'A' c && leb c b'Z'

abbrev pub is_name_char : ℕ → Bool
is_name_char c = is_letter c || leb b'0' c && leb c b'9' || c == b'_' || c == b'.' || c == b'-'

abbrev pub starts_name : String → Bool
starts_name String.[] = false
starts_name (String.◌∷◌ c s) = is_letter (code c)

-- The longest run of name characters, and what follows it.
unfoldable pub span_name : String → String × String
span_name String.[] = ("", "")
span_name (String.◌∷◌ c s) =
    let later = span_name s in
    if is_name_char (code c) then (String.◌∷◌ c later.0, later.1) else ("", String.◌∷◌ c s)

unfoldable pub close : String × String → Option (String × String)
close (name, rest) = do one ← drop_char b'}' rest; two ← drop_char b'}' one; some (name, two)

-- A variable at the start of the text: its name, and what follows it.
unfoldable pub variable_at : String → Option (String × String)
unfolding span_name close drop_char
variable_at s = do
  one ← drop_char b'{' s
  two ← drop_char b'{' one
  if starts_name two then close (span_name two) else none

pub data Piece : Type 0 where
  char : Char → Piece
  variable : String → Piece

-- The text cut at its variables, after so many characters that are passed over.
unfoldable pub pieces : ℕ → String → List Piece
unfolding variable_at text_length
pieces skip String.[] = []
pieces (suc skip) (String.◌∷◌ c s) = pieces skip s
pieces zero (String.◌∷◌ c s) = elim (variable_at (String.◌∷◌ c s)) [
  | none ↦ char c ∷ pieces zero s
  | some (name, _) ↦ variable name ∷ pieces (text_length name + 3) s
]
