-- ===== src/Assertion/Matching.antt =====
-- Filters, bounds and orders: evaluator.ts.
use testy_mc_testface.Prelude.{
  ℕ, ◌+◌, String, Bool, true, false, ◌&&◌, ◌||◌, List, [], ◌∷◌, Option, none, some, is_some,
  or_else, str_eq, leb, ltb, ◌==◌, if◌then◌else◌,
}
use testy_mc_testface.Scenario.Repository.Records.{PersistedProviderCall}
use testy_mc_testface.Assertion.{ProviderCallSelector, Bounds}

-- A filter that is not given admits all.
abbrev pub admits_text : Option String → Option String → Bool
admits_text none actual = true
admits_text (some t) none = false
admits_text (some t) (some u) = str_eq u t

abbrev pub admits_number : Option ℕ → Option ℕ → Bool
admits_number none actual = true
admits_number (some n) none = false
admits_number (some n) (some m) = m == n

unfoldable pub matches_provider : PersistedProviderCall → ProviderCallSelector → Bool
matches_provider r s =
    str_eq r.vendor_id s.vendor_id
    && (admits_text s.operation_id r.operation_id
        && (admits_text s.case_id r.case_id && admits_number s.status_code r.status_code))

unfoldable pub matches_bounds : (value : ℕ) → Bounds → Bool
matches_bounds value b = elim b.equals [
  | some n ↦ value == n
  | none ↦
      if is_some b.minimum && ltb value (or_else b.minimum 0)
      then false
      else if is_some b.maximum && ltb (or_else b.maximum 0) value
      then false
      else is_some b.minimum || is_some b.maximum
]

-- `sort` keeps the order of what compares alike.
unfoldable pub insert_sorted {ℓ} : {A : Type ℓ} → (A → A → Bool) → A → List A → List A
insert_sorted le x [] = x ∷ []
insert_sorted le x (y ∷ rest) = if le x y then x ∷ y ∷ rest else y ∷ insert_sorted le x rest

unfoldable pub sort_by {ℓ} : {A : Type ℓ} → (A → A → Bool) → List A → List A
unfolding insert_sorted
sort_by le [] = []
sort_by le (x ∷ rest) = insert_sorted le x (sort_by le rest)

-- `findIndex((record, i) => i >= cursor && test(record))`, from the index of the first record.
unfoldable pub find_index {ℓ} : {A : Type ℓ} → (ℕ → A → Bool) → (index : ℕ) → List A → Option ℕ
find_index test index [] = none
find_index test index (x ∷ rest) =
    let later = find_index test (index + 1) rest in if test index x then some index else later

unfoldable pub follows_order :
    (cursor : ℕ) → List ProviderCallSelector → List PersistedProviderCall → Bool
unfolding find_index
follows_order cursor [] records = true
follows_order cursor (selector ∷ rest) records =
    elim (find_index (λ i r. leb cursor i && matches_provider r selector) 0 records) [
      | none ↦ false
      | some index ↦ follows_order (index + 1) rest records
    ]
