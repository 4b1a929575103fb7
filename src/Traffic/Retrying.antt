-- ===== src/Traffic/Retrying.antt =====
-- The attempts of a request: how many there are, and when another one follows.
use testy_mc_testface.Prelude.{
  ℕ, suc, zero, ◌+◌, ◌≤◌, ◌≡◌, refl, ap, true, false, List, [], ◌∷◌, none, some, length, last?, ltb,
  arith, Bool-cases, ◌⊎◌, inl, inr, subst, sym,
}
use testy_mc_testface.Traffic.{AttemptResult, RequestResult, RouteBinding, Platform}
use testy_mc_testface.Traffic.Results.{Result, ok, err}
use testy_mc_testface.Traffic.Limits.{Limits}
use testy_mc_testface.Traffic.Request.{Retry, NormalizedRequest}
use testy_mc_testface.Traffic.Attempts.{
  Moment, Course, throw_if_aborted, try_attempt, conclude_attempt, failed_attempt, execute_attempt,
}
use testy_mc_testface.Traffic.Retries.{
  retry_delay_ms, is_retriable, should_retry, attempts_from, result_of, execute_request, is_nil,
  concluded_request,
}

-- A course without an abort: no signal, and every sleep ends.
pub record IsCalm (course : Course) : Type 0 where
  pub slept_first : course.slept ≡ ok tt
  pub not_aborted : (n : ℕ) → (course.moment n).aborted_before ≡ false
  pub not_failing : (n : ℕ) → (course.moment n).aborted ≡ false
  pub slept : (n : ℕ) → (course.moment n).slept ≡ ok tt

-- Attempts numbered from n: a retriable one before the last number is followed by another, after a delay
-- within the maximum; any other is the last.
pub data Tried (maximum : ℕ) (retry : Retry) : ℕ → List AttemptResult → Type 0 where
  final :
      (n : ℕ) (r : AttemptResult)
      → r.attempt ≡ n
      → r.scheduled_retry_delay_ms ≡ none
      → ((n ≡ retry.attempts) ⊎ (is_retriable retry r ≡ false))
      → Tried maximum retry n (r ∷ [])
  again :
      (n : ℕ) (r : AttemptResult) (rest : List AttemptResult) (delay : ℕ)
      → r.attempt ≡ n
      → suc n ≤ retry.attempts
      → is_retriable retry r ≡ true
      → r.scheduled_retry_delay_ms ≡ some delay
      → delay ≤ maximum
      → Tried maximum retry (suc n) rest
      → Tried maximum retry n (r ∷ rest)

retry_delay_ms-le :
    (p : Platform) (retry : Retry) (n maximum : ℕ) → retry_delay_ms p retry n maximum ≤ maximum
unfolding retry_delay_ms
retry_delay_ms-le p retry n maximum = ground arith

should_retry_parts :
    (retry : Retry) (n : ℕ) (r : AttemptResult)
    → should_retry retry n r ≡ true
    → (suc n ≤ retry.attempts) × (is_retriable retry r ≡ true)
unfolding should_retry
should_retry_parts retry n r h = ground (arith, h)

should_retry_over :
    (retry : Retry) (n : ℕ) (r : AttemptResult)
    → n ≤ retry.attempts
    → should_retry retry n r ≡ false
    → (n ≡ retry.attempts) ⊎ (is_retriable retry r ≡ false)
unfolding should_retry
should_retry_over retry n r k h = elim (Bool-cases (is_retriable retry r)) [
  | inl more ↦ inl (ground (arith, h, more))
  | inr over ↦ inr over
]

Tried-length :
    (maximum : ℕ) (retry : Retry) {n : ℕ} {rs : List AttemptResult}
    → n ≤ retry.attempts
    → Tried maximum retry n rs
    → (1 ≤ length rs) × (length rs + n ≤ suc retry.attempts)
Tried-length maximum retry h (final n r a d l) = omega arith
Tried-length maximum retry h (again n r rest delay a more t s d later) =
    omega (arith, Tried-length maximum retry more later)

last_of :
    (r : AttemptResult) (rs : List AttemptResult) → (f : AttemptResult) × (last? (r ∷ rs) ≡ some f)
last_of r [] = (r, refl)
last_of r (s ∷ rs) = last_of s rs

module _ (p : Platform) (limits : Limits) (route : RouteBinding) (request : NormalizedRequest) where
  -- An attempt that is not aborted has a result, with its number.
  conclude_attempt_lem :
      (n : ℕ) (moment : Moment) (tried : Result (ℕ × List ℕ))
      → moment.aborted ≡ false
      → (r : AttemptResult) × (conclude_attempt p limits route request n moment tried ≡ ok r)
        × (r.attempt ≡ n)
        × (r.scheduled_retry_delay_ms ≡ none)
  unfolding conclude_attempt failed_attempt
  conclude_attempt_lem n moment (ok (status, bytes)) calm = (_, refl, refl, refl)
  conclude_attempt_lem n moment (err e) calm =
      (failed_attempt p limits route request n moment e, rw calm refl, refl, refl)

  execute_attempt_lem :
      (n : ℕ) (moment : Moment)
      → moment.aborted ≡ false
      → (r : AttemptResult) × (execute_attempt p limits route request n moment ≡ ok r)
        × (r.attempt ≡ n)
        × (r.scheduled_retry_delay_ms ≡ none)
  unfolding execute_attempt
  execute_attempt_lem n moment calm =
      conclude_attempt_lem n moment (try_attempt p limits route request moment.reply) calm

  result_of_lem :
      (course : Course) (rs : List AttemptResult)
      → 1 ≤ length rs
      → (r : RequestResult) × (result_of p limits route request course rs ≡ ok r)
        × (r.request_id ≡ request.id)
        × (r.attempts ≡ rs)
        × (r.attempt_count ≡ length rs)
        × (r.passed ≡ is_nil r.failure_reasons)
  unfolding result_of
  result_of_lem course [] h = absurd (omega arith)
  result_of_lem course (a ∷ rs) h =
      let (f, e) = last_of a rs in
      (concluded_request request course f (a ∷ rs), rw e refl, refl, refl, refl, refl)

  execute_request_ok :
      (course : Course) (rs : List AttemptResult) (r : RequestResult)
      → course.slept ≡ ok tt
      → attempts_from p limits route request request.retry.attempts 1 course.moment ≡ ok rs
      → result_of p limits route request course rs ≡ ok r
      → execute_request p limits route request course ≡ ok r
  unfolding execute_request
  execute_request_ok course rs r slept run made =
      elim (Bool-cases (ltb 0 request.delay_before_ms)) [
        | inl waits ↦ rw (waits, slept, run, made) refl
        | inr at_once ↦ rw (at_once, run, made) refl
      ]

  module _ (rounds n : ℕ) (moment : ℕ → Moment) (r : AttemptResult)
      (calm : (moment n).aborted_before ≡ false)
      (tried : execute_attempt p limits route request n (moment n) ≡ ok r) where
    abbrev delayed : AttemptResult
    delayed = record r {
      scheduled_retry_delay_ms = some (retry_delay_ms p request.retry n limits.max_retry_delay_ms);
    }

    round_again :
        (rs : List AttemptResult)
        → should_retry request.retry n r ≡ true
        → (moment n).slept ≡ ok tt
        → attempts_from p limits route request rounds (suc n) moment ≡ ok rs
        → attempts_from p limits route request (suc rounds) n moment ≡ ok (delayed ∷ rs)
    unfolding attempts_from throw_if_aborted
    round_again rs retried slept run = rw (calm, tried, retried, slept, run) refl

    round_last :
        should_retry request.retry n r ≡ false
        → attempts_from p limits route request (suc rounds) n moment ≡ ok (r ∷ [])
    unfolding attempts_from throw_if_aborted
    round_last over = rw (calm, tried, over) refl

  attempts_from_lem :
      (course : Course) (rounds n : ℕ)
      → IsCalm course
      → rounds + n ≡ suc request.retry.attempts
      → 1 ≤ rounds
      → (rs : List AttemptResult) × (attempts_from p limits route request rounds n course.moment
          ≡ ok rs)
        × Tried limits.max_retry_delay_ms request.retry n rs
  unfolding is_retriable
  attempts_from_lem course zero n calm total some_round = absurd (omega arith)
  attempts_from_lem course (suc rounds) n calm total some_round =
      let now = course.moment n in
      let (r, tried, number, unscheduled) = execute_attempt_lem n now (calm.not_failing n) in
      let before = calm.not_aborted n in
      elim (Bool-cases (should_retry request.retry n r)) [
        | inl retried ↦
            let (more, retriable) = should_retry_parts request.retry n r retried in
            let (rs, run, later) =
              attempts_from_lem course rounds (suc n) calm (omega arith) (omega arith) in
            (
              delayed rounds n course.moment r before tried ∷ rs,
              round_again rounds n course.moment r before tried rs retried (calm.slept n) run,
              again n (delayed rounds n course.moment r before tried) rs
                  (retry_delay_ms p request.retry n limits.max_retry_delay_ms) number more retriable
                  refl (retry_delay_ms-le p request.retry n limits.max_retry_delay_ms) later,
            )
        | inr over ↦ (
          r ∷ [],
          round_last rounds n course.moment r before tried over,
          final n r number unscheduled (should_retry_over request.retry n r (omega arith) over),
        )
      ]

  -- A request with at least one attempt that is not aborted has a result for it: its attempts
  -- follow the retry policy, at most as many as the policy allows and at least one, each delay is within
  -- the generator's maximum, and it has passed if there is no reason against it.
  pub execute_request_lem :
      (course : Course)
      → IsCalm course
      → 1 ≤ request.retry.attempts
      → (r : RequestResult) × (execute_request p limits route request course ≡ ok r)
        × (r.request_id ≡ request.id)
        × Tried limits.max_retry_delay_ms request.retry 1 r.attempts
        × (r.attempt_count ≡ length r.attempts)
        × (1 ≤ r.attempt_count)
        × (r.attempt_count ≤ request.retry.attempts)
        × (r.passed ≡ is_nil r.failure_reasons)
  execute_request_lem course calm some_attempt =
      let (rs, run, tried) =
        attempts_from_lem course request.retry.attempts 1 calm (omega arith) some_attempt in
      let bounds = Tried-length limits.max_retry_delay_ms request.retry some_attempt tried in
      let (r, made, id, same, number, passed) = result_of_lem course rs (bounds.0) in
      (
        r,
        execute_request_ok course rs r calm.slept_first run made,
        id,
        subst (Tried limits.max_retry_delay_ms request.retry 1) (sym same) tried,
        omega (arith, number, ap length same),
        omega (arith, number, bounds),
        omega (arith, number, bounds),
        passed,
      )
