-- ===== src/Assertion/Values.antt =====
-- Values as the evaluator compares them: evaluator.ts, from `compareObservation` on.
use testy_mc_testface.Prelude.{
  ℕ, zero, suc, ℤ, pos, negsuc, le_ℤ, String, Bool, true, false, not, ◌||◌, List, [], ◌∷◌, Option,
  none, some, is_empty, split, if◌then◌else◌,
}
use text.Mathlib.Text.{starts_with}
use testy_mc_testface.Scenario.Value.{
  Value, null, bool, num, str, arr, obj, Items, nil, cons, Members, end, member, get_member,
  same_value,
}
use testy_mc_testface.Assertion.{
  Platform, Operator, equals, not_equals, contains, present, absent, at_least, at_most,
}

abbrev pub item_at : ℕ → Items → Option Value
item_at n nil = none
item_at zero (cons v rest) = some v
item_at (suc n) (cons v rest) = item_at n rest

abbrev pub indexed : Option ℤ → Items → Option Value
indexed (some (pos n)) items = item_at n items
indexed _ items = none

unfoldable pub follow_path : Platform → List String → Option Value → Option Value
unfolding get_member
follow_path p [] v = v
follow_path p (segment ∷ rest) (some (arr items)) =
    follow_path p rest (indexed (p.parse_int segment) items)
follow_path p (segment ∷ rest) (some (obj m)) = follow_path p rest (get_member segment m)
follow_path p (segment ∷ rest) _ = none

unfoldable pub read_path : Platform → Option Value → (path : Option String) → Option Value
unfolding follow_path split
read_path p value none = value
read_path p value (some path) =
    if is_empty path then value else follow_path p (split b'.' path) value

-- -1 where the source gives it.
unfoldable pub number_at : Platform → Option Value → (path : String) → ℤ
unfolding read_path
number_at p value path = elim (read_path p value (some path)) [ some (num n) ↦ n | _ ↦ negsuc 0 ]

-- `Object.entries(value).sort(...)` on the keys, which keeps the order of keys that collate alike.
unfoldable pub insert_member : Platform → String → Value → Members → Members
insert_member p key v end = member key v end
insert_member p key v (member k w rest) =
    if p.collates key k
    then member key v (member k w rest)
    else member k w (insert_member p key v rest)

unfoldable mutual
  unfolding insert_member

  pub sort_value : Platform → Value → Value
  sort_value p (arr items) = arr (sort_items p items)
  sort_value p (obj members) = obj (sort_members p members)
  sort_value p null = null
  sort_value p (bool b) = bool b
  sort_value p (num n) = num n
  sort_value p (str s) = str s

  pub sort_items : Platform → Items → Items
  sort_items p nil = nil
  sort_items p (cons v rest) = cons (sort_value p v) (sort_items p rest)

  pub sort_members : Platform → Members → Members
  sort_members p end = end
  sort_members p (member key v rest) = insert_member p key (sort_value p v) (sort_members p rest)

-- `canonical(a) === canonical(b)`. A value that is not there has no text.
unfoldable pub same_canonical : Platform → Option Value → Option Value → Bool
unfolding sort_value same_value
same_canonical p none none = true
same_canonical p (some a) (some b) = same_value (sort_value p a) (sort_value p b)
same_canonical p _ _ = false

-- `text.includes(part)`.
abbrev pub includes_text : String → (part : String) → Bool
includes_text String.[] part = is_empty part
includes_text (String.◌∷◌ c s) part = starts_with (String.◌∷◌ c s) part || includes_text s part

abbrev pub some_item : Platform → Items → Option Value → Bool
some_item p nil expected = false
some_item p (cons v rest) expected = same_canonical p (some v) expected || some_item p rest expected

unfoldable pub contains_value : Platform → (actual expected : Option Value) → Bool
unfolding same_canonical
contains_value p (some (str s)) (some (str t)) = includes_text s t
contains_value p (some (arr items)) expected = some_item p items expected
contains_value p _ _ = false

abbrev pub is_given : Option Value → Bool
is_given none = false
is_given (some null) = false
is_given (some _) = true

abbrev pub is_at_least : (actual expected : Option Value) → Bool
is_at_least (some (num a)) (some (num b)) = le_ℤ b a
is_at_least _ _ = false

unfoldable pub compare_observation : Platform → Operator → (actual expected : Option Value) → Bool
unfolding same_canonical contains_value
compare_observation p present actual expected = is_given actual
compare_observation p absent actual expected = not (is_given actual)
compare_observation p equals actual expected = same_canonical p actual expected
compare_observation p not_equals actual expected = not (same_canonical p actual expected)
compare_observation p contains actual expected = contains_value p actual expected
compare_observation p at_least actual expected = is_at_least actual expected
compare_observation p at_most actual expected = is_at_least expected actual

-- At most `limit` items or members of each level.
unfoldable mutual
  pub sanitize_value : Platform → Value → Value
  sanitize_value p (str s) = str (p.sanitize_string s)
  sanitize_value p (arr items) = arr (sanitize_items p 50 items)
  sanitize_value p (obj members) = obj (sanitize_members p 50 members)
  sanitize_value p null = null
  sanitize_value p (bool b) = bool b
  sanitize_value p (num n) = num n

  pub sanitize_items : Platform → (limit : ℕ) → Items → Items
  sanitize_items p limit nil = nil
  sanitize_items p zero (cons v rest) = nil
  sanitize_items p (suc limit) (cons v rest) =
      cons (sanitize_value p v) (sanitize_items p limit rest)

  pub sanitize_members : Platform → (limit : ℕ) → Members → Members
  sanitize_members p limit end = end
  sanitize_members p zero (member key v rest) = end
  sanitize_members p (suc limit) (member key v rest) =
      member key (if p.sensitive_key key then str "[redacted]" else sanitize_value p v)
        (sanitize_members p limit rest)
