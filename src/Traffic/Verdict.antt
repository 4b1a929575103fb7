-- ===== src/Traffic/Verdict.antt =====
-- When a request has passed.
use testy_mc_testface.Prelude.{
  ℕ, ◌≤◌, ◌<◌, ◌≡◌, refl, ℤ, pos, negsuc, Bool, true, false, not, ◌&&◌, String, List, [], ◌∷◌, ◌++◌,
  Option, none, some, any, ◌==◌, ◌↔◌, ◌⊎◌, arith,
}
use testy_mc_testface.Traffic.{AttemptResult}
use testy_mc_testface.Traffic.Request.{Expected, NormalizedRequest, is_true}
use testy_mc_testface.Traffic.Retries.{
  is_response, is_nil, evaluate_expectation, network_reason, status_reason, reason, is_below,
  is_above, differs,
}

abbrev pub Occurs : ℕ → List ℕ → Type 0
Occurs n [] = ⊥
Occurs n (v ∷ vs) = (v ≡ n) ⊎ Occurs n vs

-- The statuses asked for, or a success or redirection.
abbrev pub Accepts : Option (List ℕ) → (status : ℕ) → Type 0
Accepts none status = (200 ≤ status) × (status < 400)
Accepts (some values) status = Occurs status values

abbrev pub StatusMeets : Option (List ℕ) → (is_reply : Bool) → Option ℕ → Type 0
StatusMeets codes true (some status) = Accepts codes status
StatusMeets codes _ _ = Unit {0}

abbrev pub AtLeast : Option ℕ → ℤ → Type 0
AtLeast none total = Unit {0}
AtLeast (some n) (pos m) = n ≤ m
AtLeast (some n) (negsuc m) = ⊥

abbrev pub AtMost : Option ℕ → ℤ → Type 0
AtMost none total = Unit {0}
AtMost (some n) (pos m) = m ≤ n
AtMost (some n) (negsuc m) = Unit {0}

abbrev pub Counts : Option ℕ → ℕ → Type 0
Counts none count = Unit {0}
Counts (some n) count = n ≡ count

-- What an expectation asks of the last attempt, the number of attempts and the time.
abbrev pub Meets : Expected → AttemptResult → ℕ → ℤ → Type 0
Meets e final count total =
    (is_true e.network_failure ≡ not (is_response final.outcome))
    × (StatusMeets e.status_codes (is_response final.outcome) final.status_code
        × (AtLeast e.min_duration_ms total
            × (AtMost e.max_duration_ms total × Counts e.attempt_count count)))

any_iff : (values : List ℕ) (n : ℕ) → (any (λ v. v == n) values ≡ true) ↔ Occurs n values
any_iff [] n = ground arith
any_iff (v ∷ vs) n = ground (arith, any_iff vs n)

is_nil-append : (xs ys : List String) → is_nil (xs ++ ys) ≡ (is_nil xs && is_nil ys)
is_nil-append [] ys = refl
is_nil-append (x ∷ xs) ys = refl

network_iff : (a b : Bool) → (is_nil (network_reason a b) ≡ true) ↔ (a ≡ b)
network_iff true true = ground arith
network_iff true false = ground arith
network_iff false true = ground arith
network_iff false false = ground arith

below_iff :
    (n : Option ℕ) (total : ℤ) (t : String)
    → (is_nil (reason (is_below n total) t) ≡ true) ↔ AtLeast n total
below_iff none total t = ground arith
below_iff (some n) (pos m) t = ground arith
below_iff (some n) (negsuc m) t = ground arith

above_iff :
    (n : Option ℕ) (total : ℤ) (t : String)
    → (is_nil (reason (is_above n total) t) ≡ true) ↔ AtMost n total
above_iff none total t = ground arith
above_iff (some n) (pos m) t = ground arith
above_iff (some n) (negsuc m) t = ground arith

Counts-iff :
    (n : Option ℕ) (count : ℕ) (t : String)
    → (is_nil (reason (differs n count) t) ≡ true) ↔ Counts n count
Counts-iff none count t = ground arith
Counts-iff (some n) count t = ground arith

status_iff :
    (codes : Option (List ℕ)) (is_reply : Bool) (status : Option ℕ)
    → (is_nil (status_reason codes is_reply status) ≡ true) ↔ StatusMeets codes is_reply status
status_iff codes true none = ground arith
status_iff codes false none = ground arith
status_iff codes false (some s) = ground arith
status_iff none true (some s) = ground arith
status_iff (some values) true (some s) = ground (arith, any_iff values s)

and_iff :
    {P Q : Type 0} (a b : Bool) → ((a ≡ true) ↔ P) → ((b ≡ true) ↔ Q) → ((a && b) ≡ true) ↔ (P × Q)
and_iff true b p q = ((λ h. (p.0 refl, q.0 h)), (λ h. q.1 h.1))
and_iff false b p q = ((λ h. cc), (λ h. cc (p.1 h.0)))

-- There is no reason against a request exactly if the network has failed where that is expected, the status of a
-- response is one that is asked for (or from 200 to 399), and the time and the number of attempts are as
-- asked for.
pub evaluate_expectation_iff :
    (request : NormalizedRequest) (final : AttemptResult) (count : ℕ) (total : ℤ)
    → (is_nil (evaluate_expectation request final count total) ≡ true)
      ↔ Meets request.expect final count total
unfolding evaluate_expectation
evaluate_expectation_iff request final count total =
    let e = request.expect in
    let network = network_reason (is_true e.network_failure) (not (is_response final.outcome)) in
    let status = status_reason e.status_codes (is_response final.outcome) final.status_code in
    let below = reason (is_below e.min_duration_ms total) "duration-below-minimum" in
    let above = reason (is_above e.max_duration_ms total) "duration-above-maximum" in
    let attempts = reason (differs e.attempt_count count) "unexpected-attempt-count" in
    rw
      (
        is_nil-append network (status ++ (below ++ (above ++ attempts))),
        is_nil-append status (below ++ (above ++ attempts)),
        is_nil-append below (above ++ attempts),
        is_nil-append above attempts,
      )
      (and_iff (is_nil network)
        (is_nil status && (is_nil below && (is_nil above && is_nil attempts)))
        (network_iff (is_true e.network_failure) (not (is_response final.outcome)))
        (and_iff (is_nil status) (is_nil below && (is_nil above && is_nil attempts))
          (status_iff e.status_codes (is_response final.outcome) final.status_code)
          (and_iff (is_nil below) (is_nil above && is_nil attempts)
            (below_iff e.min_duration_ms total "duration-below-minimum")
            (and_iff (is_nil above) (is_nil attempts)
              (above_iff e.max_duration_ms total "duration-above-maximum")
              (Counts-iff e.attempt_count count "unexpected-attempt-count")))))
