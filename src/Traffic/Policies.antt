-- ===== src/Traffic/Policies.antt =====
-- The limits that a normalised retry policy and a normalised expectation keep.
use testy_mc_testface.Prelude.{
  ℕ, ◌≡◌, Bool, true, not, ◌&&◌, List, [], ◌∷◌, Option, none, some, or_else, is_some, select, All,
  Bool-cases, inl, inr,
}
use testy_mc_testface.Traffic.{Number, RetryPolicy, Expectation, Platform}
use testy_mc_testface.Traffic.Results.{
  require, optional, each, Returns, returns, after-Returns, Returns-any, require-Returns,
  each-Returns, Optional, optional-Returns,
}
use testy_mc_testface.Traffic.Limits.{
  Limits, number, bounded_integer, Within, bounded_integer-Returns,
}
use testy_mc_testface.Traffic.Request.{
  Retry, Expected, member, distinct, distinct_of, is_factor, normalize_retry, in_order,
  no_expectation, is_true, is_empty_list, normalize_expectation,
}

abbrev pub IsStatus : ℕ → Type 0
IsStatus = Within 100 599

All-select : (P : ℕ → Type 0) (test : ℕ → Bool) (xs : List ℕ) → All P xs → All P (select test xs)
All-select P test [] h = tt
All-select P test (x ∷ xs) h = elim (Bool-cases (test x)) [
  | inl kept ↦ rw (kept, select) (h.0, All-select P test xs h.1)
  | inr dropped ↦ rw (dropped, select) (All-select P test xs h.1)
]

All-distinct : (P : ℕ → Type 0) (xs : List ℕ) → All P xs → All P (distinct xs)
unfolding distinct
All-distinct P [] h = tt
All-distinct P (x ∷ xs) h = (h.0, All-select P _ (distinct xs) (All-distinct P xs h.1))

Optional-distinct_of :
    (P : ℕ → Type 0) (xs : Option (List ℕ))
    → Optional (All P) xs
    → Optional (All P) (distinct_of xs)
Optional-distinct_of P none h = tt
Optional-distinct_of P (some xs) h = All-distinct P xs h

-- A retry policy within the limits.
pub record IsPolicy (limits : Limits) (r : Retry) : Type 0 where
  pub attempts_within : Within 1 limits.max_retry_attempts r.attempts
  pub delay_within : Optional (Within 0 limits.max_retry_delay_ms) r.delay_ms
  pub statuses_within : Optional (All IsStatus) r.retry_on_statuses

pub optional_integer-Returns :
    (x : Option Number) (low high : ℕ)
    → Returns (Optional (Within low high)) (optional (λ n. bounded_integer n low high) x)
optional_integer-Returns x low high =
    optional-Returns (Within low high) (λ n. bounded_integer n low high) x
      (λ n. bounded_integer-Returns n low high)

optional_statuses-Returns :
    (x : Option (List Number))
    → Returns (Optional (All IsStatus)) (optional (each (λ n. bounded_integer n 100 599)) x)
optional_statuses-Returns x =
    optional-Returns (All IsStatus) (each (λ n. bounded_integer n 100 599)) x (λ ns.
      each-Returns IsStatus (λ n. bounded_integer n 100 599) ns
        (λ n. bounded_integer-Returns n 100 599))

pub normalize_retry-Returns :
    (p : Platform) (value : Option RetryPolicy) (limits : Limits)
    → Returns (IsPolicy limits) (normalize_retry p value limits)
unfolding normalize_retry
normalize_retry-Returns p value limits =
    let given = member value (λ (v : RetryPolicy). some v.attempts) in
    let factor = or_else (member value (λ (v : RetryPolicy). v.backoff_factor)) (number 1) in
    let delay_ms = member value (λ (v : RetryPolicy). v.delay_ms) in
    let codes = member value (λ (v : RetryPolicy). v.retry_on_statuses) in
    let n = or_else given (number 1) in
    let max_delay = limits.max_retry_delay_ms in
    after-Returns (bounded_integer n 1 limits.max_retry_attempts)
      (bounded_integer-Returns n 1 limits.max_retry_attempts)
      λ attempts a.
        after-Returns (optional (λ k. bounded_integer k 0 max_delay) delay_ms)
          (optional_integer-Returns delay_ms 0 max_delay)
          λ delay d.
            after-Returns (require (is_factor p factor))
              (Returns-any (require (is_factor p factor)))
              λ _ _.
                after-Returns (optional (each (λ k. bounded_integer k 100 599)) codes)
                  (optional_statuses-Returns codes)
                  λ statuses s. returns (record {
                    attempts_within = a;
                    delay_within = d;
                    statuses_within = Optional-distinct_of IsStatus statuses s;
                  })

-- An expectation whose numbers are in range.
pub record IsSensible (maximum : ℕ) (e : Expected) : Type 0 where
  pub codes_within : Optional (All IsStatus) e.status_codes
  pub least_within : Optional (Within 0 3600000) e.min_duration_ms
  pub most_within : Optional (Within 0 3600000) e.max_duration_ms
  pub ordered : in_order e.min_duration_ms e.max_duration_ms ≡ true
  pub count_within : Optional (Within 1 maximum) e.attempt_count

pub normalize_expectation-Returns :
    (value : Option Expectation) (maximum : ℕ)
    → Returns (IsSensible maximum) (normalize_expectation value maximum)
unfolding normalize_expectation
normalize_expectation-Returns value maximum =
    let e = or_else value no_expectation in
    let some_codes = not (is_empty_list e.status_codes) in
    let compatible = not (is_true e.network_failure && is_some e.status_codes) in
    after-Returns (require some_codes) (Returns-any (require some_codes)) λ _ _.
      after-Returns (require compatible) (Returns-any (require compatible)) λ _ _.
        after-Returns (optional (each (λ n. bounded_integer n 100 599)) e.status_codes)
          (optional_statuses-Returns e.status_codes)
          λ statuses s.
            after-Returns (optional (λ n. bounded_integer n 0 3600000) e.min_duration_ms)
              (optional_integer-Returns e.min_duration_ms 0 3600000)
              λ least l.
                after-Returns (optional (λ n. bounded_integer n 0 3600000) e.max_duration_ms)
                  (optional_integer-Returns e.max_duration_ms 0 3600000)
                  λ most m.
                    after-Returns (require (in_order least most))
                      (require-Returns (in_order least most))
                      λ _ o.
                        after-Returns (optional (λ n. bounded_integer n 1 maximum) e.attempt_count)
                          (optional_integer-Returns e.attempt_count 1 maximum)
                          λ count c. returns (record {
                            codes_within = s;
                            least_within = l;
                            most_within = m;
                            ordered = o;
                            count_within = c;
                          })
