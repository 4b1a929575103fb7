-- ===== src/Assertion/Counts.antt =====
-- Verdicts on counts.
use testy_mc_testface.Prelude.{
  ℕ, ◌≤◌, ◌≡◌, refl, ◌↔◌, ◌⊎◌, inl, inr, String, true, ◌||◌, Option, none, some, is_some, arith,
  length, select,
}
use testy_mc_testface.Scenario.Repository.Reports.{AssertionSnapshot}
use testy_mc_testface.Assertion.{ProviderCallSelector, Bounds, Platform}
use testy_mc_testface.Assertion.Matching.{matches_provider, matches_bounds}
use testy_mc_testface.Assertion.Verdicts.{
  evaluate_provider_call_count, evaluate_observation_count, observed_records,
}

abbrev pub AtLeast : Option ℕ → ℕ → Type 0
AtLeast none value = Unit
AtLeast (some n) value = n ≤ value

abbrev pub AtMost : Option ℕ → ℕ → Type 0
AtMost none value = Unit
AtMost (some n) value = value ≤ n

-- The exact number where one is given, and else within the bounds, of which there is one at least.
abbrev pub IsWithin : Bounds → ℕ → Type 0
IsWithin b value =
    ((n : ℕ) × (b.equals ≡ some n) × (value ≡ n))
    ⊎ ((b.equals ≡ none)
        × AtLeast b.minimum value
        × AtMost b.maximum value
        × ((is_some b.minimum || is_some b.maximum) ≡ true))

-- The record's fields taken apart, so that they can be split on.
matches_bounds-parts :
    (value : ℕ) (e low high : Option ℕ)
    → let b : Bounds = record { equals = e; minimum = low; maximum = high } in
      (matches_bounds value b ≡ true) ↔ IsWithin b value
unfolding matches_bounds
matches_bounds-parts value (some n) low high = (
  λ h. inl (n, refl, ground (arith, h)),
  λ w. elim w [ inl (m, e, v) ↦ ground (arith, e, v) | inr (e, _, _, _) ↦ cc ],
)
matches_bounds-parts value none none none =
    (λ h. cc, λ w. elim w [ inl (m, e, v) ↦ cc | inr (e, _, _, h) ↦ h ])
matches_bounds-parts value none (some l) none = (
  λ h. inr (refl, ground (arith, h), tt, refl),
  λ w. elim w [ inl (m, e, v) ↦ cc | inr (e, low, _, _) ↦ ground (arith, low) ],
)
matches_bounds-parts value none none (some u) = (
  λ h. inr (refl, tt, ground (arith, h), refl),
  λ w. elim w [ inl (m, e, v) ↦ cc | inr (e, _, high, _) ↦ ground (arith, high) ],
)
matches_bounds-parts value none (some l) (some u) = (
  λ h. inr (refl, ground (arith, h), ground (arith, h), refl),
  λ w. elim w [ inl (m, e, v) ↦ cc | inr (e, low, high, _) ↦ ground (arith, low, high) ],
)

-- An assertion on a count passes exactly if the number of calls that match, or of observations of
-- the type and status, is the number that is asked for, or lies within the bounds where none is; with
-- neither it fails.
pub evaluate_count_iff :
    (p : Platform) (id type_name : String) (status : Option String)
    (selector : ProviderCallSelector) (bounds : Bounds) (snapshot : AssertionSnapshot)
    → (((evaluate_provider_call_count p id selector bounds snapshot).passed ≡ true)
        ↔ IsWithin bounds
            (length (select (λ r. matches_provider r selector) snapshot.provider_calls)))
      × (((evaluate_observation_count p id type_name status bounds snapshot).passed ≡ true)
          ↔ IsWithin bounds (length (observed_records p type_name status snapshot)))
unfolding evaluate_provider_call_count evaluate_observation_count
evaluate_count_iff p id type_name status selector bounds snapshot = (
  matches_bounds-parts _ bounds.equals bounds.minimum bounds.maximum,
  matches_bounds-parts _ bounds.equals bounds.minimum bounds.maximum,
)
