-- ===== src/Prelude/Json.antt =====
-- How `JSON.stringify` writes a number and a text. A whole number is written in decimal, which
-- JavaScript does below 10 ^ 21.
use Prim.Native.Char.{Char, code}
use Prim.Native.String.{String}
use Prim.Native.Nat.{ℕ, zero, suc, ◌+◌, ◌/◌, ◌%◌}
use mathlib.Core.Bool.{true, false}
use mathlib.Core.List.{List, [], ◌∷◌}
use testy_mc_testface.Prelude.Tests.{ltb, ◌==◌, if◌then◌else◌}
use testy_mc_testface.Prelude.Text.{◌+++◌}
use testy_mc_testface.Prelude.Int.{ℤ, pos, negsuc}

abbrev nth_text : ℕ → List String → String
nth_text n [] = ""
nth_text zero (s ∷ rest) = s
nth_text (suc n) (s ∷ rest) = nth_text n rest

abbrev digit_text : ℕ → String
digit_text n = nth_text n (
    "0" ∷ "1" ∷ "2" ∷ "3" ∷ "4" ∷ "5" ∷ "6" ∷ "7" ∷ "8" ∷ "9" ∷ "a" ∷ "b" ∷ "c" ∷ "d" ∷ "e" ∷ "f"
    ∷ [])

-- A number has no more digits than it counts, and one has one.
decimal_from : (fuel : ℕ) → ℕ → String
decimal_from zero n = digit_text n
decimal_from (suc fuel) n = elim (ltb n 10) [
  | true ↦ digit_text n
  | false ↦ decimal_from fuel (n / 10) +++ digit_text (n % 10)
]

unfoldable pub number_text : ℤ → String
unfolding decimal_from
number_text (pos n) = decimal_from n n
number_text (negsuc n) = "-" +++ decimal_from (n + 1) (n + 1)

-- The escapes of a character in a quoted text; the others below a space are written in hexadecimal.
escaped : Char → String
escaped c =
    let n = code c in
    if n == 34
    then "\\\""
    else if n == 92
    then "\\\\"
    else if n == 8
    then "\\b"
    else if n == 9
    then "\\t"
    else if n == 10
    then "\\n"
    else if n == 12
    then "\\f"
    else if n == 13
    then "\\r"
    else if ltb n 32
    then "\\u00" +++ digit_text (n / 16) +++ digit_text (n % 16)
    else String.◌∷◌ c ""

escaped_text : String → String
unfolding escaped
escaped_text String.[] = ""
escaped_text (String.◌∷◌ c s) = escaped c +++ escaped_text s

unfoldable pub quoted : String → String
unfolding escaped_text
quoted s = "\"" +++ escaped_text s +++ "\""
