-- ===== src/Traffic/Bounds.antt =====
-- The limits that a normalised request keeps.
use testy_mc_testface.Prelude.{
  ℕ, ◌≤◌, ◌≡◌, refl, Bool, true, false, not, ◌&&◌, String, List, [], Option, none, some, or_else,
  is_some, length, leb, leb→le, Table,
}
use testy_mc_testface.Traffic.{post, Method, RequestBody, RequestDefinition, Platform}
use testy_mc_testface.Traffic.Results.{
  ok, require, optional, Returns, returns, after-Returns, Returns-any, require-Returns, Returns-ok,
  Optional,
}
use testy_mc_testface.Traffic.Limits.{
  Limits, number, bounded_integer, Within, bounded_integer-Returns,
}
use testy_mc_testface.Traffic.Normalize.{
  assert_identifier, is_identifier, normalize_path, normalize_headers, encode_body, body_text,
}
use testy_mc_testface.Traffic.Request.{
  NormalizedRequest, normalize_retry, in_order, normalize_expectation, is_get_or_head,
  assert_synthetic_request, with_idempotency_key, content_of, normalize_request,
}
use testy_mc_testface.Traffic.Policies.{
  optional_integer-Returns, IsPolicy, normalize_retry-Returns, IsSensible,
  normalize_expectation-Returns,
}

-- The bytes of a body are within the limit.
abbrev BodyWithin : ℕ → Option (List ℕ) × Table String → Type 0
BodyWithin maximum encoded = Optional (λ (bytes : List ℕ). length bytes ≤ maximum) encoded.0

encode_body-Returns :
    (p : Platform) (body : Option RequestBody) (headers : Table String) (maximum : ℕ)
    → Returns (BodyWithin maximum) (encode_body p body headers maximum)
unfolding encode_body
encode_body-Returns p none headers maximum = returns tt
encode_body-Returns p (some body) headers maximum =
    after-Returns (body_text p body headers) (Returns-any (body_text p body headers)) λ encoded _.
      let small = leb (length (p.encode encoded.0)) maximum in
      after-Returns (require small) (require-Returns small)
        λ _ h. returns (leb→le (length (p.encode encoded.0)) maximum h)

-- A request within the limits of its generator.
pub record IsBounded (limits : Limits) (q : NormalizedRequest) : Type 0 where
  pub timeout_within : Within 1 limits.max_request_timeout_ms q.timeout_ms
  pub abort_within : Optional (Within 1 limits.max_request_timeout_ms) q.abort_after_ms
  pub delay_within : Within 0 limits.max_retry_delay_ms q.delay_before_ms
  pub policy : IsPolicy limits q.retry
  pub sensible : IsSensible limits.max_retry_attempts q.expect
  pub expected_attempts : in_order q.expect.attempt_count (some q.retry.attempts) ≡ true
  pub body_within : Optional (λ (bytes : List ℕ). length bytes ≤ limits.max_body_bytes) q.body
  pub bodiless : (is_get_or_head q.method && is_some q.body) ≡ false

not-true : (b : Bool) → not b ≡ true → b ≡ false
not-true true h = cc
not-true false h = refl

content_of-Returns :
    (p : Platform) (value : RequestDefinition) (method : Method) (maximum : ℕ)
    → Returns
        (λ content.
          BodyWithin maximum content × ((is_get_or_head method && is_some content.0) ≡ false))
        (content_of p value method maximum)
unfolding content_of
content_of-Returns p value method maximum =
    let headers = or_else value.headers [] in
    after-Returns (normalize_headers p headers) (Returns-any (normalize_headers p headers))
      λ given _.
        after-Returns (encode_body p value.body given maximum)
          (encode_body-Returns p value.body given maximum)
          λ encoded b.
            let bodiless = not (is_get_or_head method && is_some encoded.0) in
            let key = with_idempotency_key p value.idempotency_key encoded.1 in
            after-Returns (require bodiless) (require-Returns bodiless) λ _ n.
              after-Returns key (Returns-any key)
                λ _ _. returns (b, not-true (is_get_or_head method && is_some encoded.0) n)

assert_identifier-Returns : (value : String) → Returns (λ id. id ≡ value) (assert_identifier value)
unfolding assert_identifier
assert_identifier-Returns value =
    after-Returns (require (is_identifier value)) (Returns-any (require (is_identifier value)))
      λ _ _. returns refl

normalize_request-Returns :
    (p : Platform) (value : RequestDefinition) (limits : Limits)
    → Returns (λ q. (q.id ≡ value.id) × IsBounded limits q) (normalize_request p value limits)
unfolding normalize_request
normalize_request-Returns p value limits =
    let method = or_else value.method post in
    let timeout = or_else value.timeout_ms (number 10000) in
    let delay = or_else value.delay_before_ms (number 0) in
    let max_timeout = limits.max_request_timeout_ms in
    let max_delay = limits.max_retry_delay_ms in
    after-Returns (assert_identifier value.id) (assert_identifier-Returns value.id) λ id i.
      after-Returns (assert_synthetic_request p value)
        (Returns-any (assert_synthetic_request p value))
        λ _ _.
          after-Returns (normalize_path p value.path) (Returns-any (normalize_path p value.path))
            λ path _.
              after-Returns (content_of p value method limits.max_body_bytes)
                (content_of-Returns p value method limits.max_body_bytes)
                λ content c.
                  after-Returns (bounded_integer timeout 1 max_timeout)
                    (bounded_integer-Returns timeout 1 max_timeout)
                    λ _ t.
                      after-Returns
                        (optional (λ k. bounded_integer k 1 max_timeout) value.abort_after_ms)
                        (optional_integer-Returns value.abort_after_ms 1 max_timeout)
                        λ _ a.
                          after-Returns (bounded_integer delay 0 max_delay)
                            (bounded_integer-Returns delay 0 max_delay)
                            λ _ d.
                              after-Returns (normalize_retry p value.retry limits)
                                (normalize_retry-Returns p value.retry limits)
                                λ retry r.
                                  after-Returns
                                    (normalize_expectation value.expect limits.max_retry_attempts)
                                    (normalize_expectation-Returns value.expect
                                      limits.max_retry_attempts)
                                    λ expect e.
                                      let fits =
                                        in_order expect.attempt_count (some retry.attempts) in
                                      after-Returns (require fits) (require-Returns fits) λ _ f.
                                        returns (
                                          i,
                                          record {
                                            timeout_within = t;
                                            abort_within = a;
                                            delay_within = d;
                                            policy = r;
                                            sensible = e;
                                            expected_attempts = f;
                                            body_within = c.0;
                                            bodiless = c.1;
                                          },
                                        )

-- A request that is accepted keeps its identity and is within the limits of the generator: its
-- timeout, the delays before it and between its attempts, the number of its attempts and the one that is expected, the
-- statuses, the durations and the bytes of its body, of which a GET or HEAD request has none.
pub normalize_request-IsBounded :
    (p : Platform) (value : RequestDefinition) (limits : Limits) (q : NormalizedRequest)
    → normalize_request p value limits ≡ ok q
    → (q.id ≡ value.id) × IsBounded limits q
normalize_request-IsBounded p value limits q h =
    Returns-ok (normalize_request-Returns p value limits) h
