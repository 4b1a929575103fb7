-- ===== src/Traffic/FreeNames.antt =====
-- The headers that a request may set itself.
use testy_mc_testface.Prelude.{
  ◌≡◌, refl, String, Bool, true, false, not, ◌&&◌, List, [], ◌∷◌, Option, none, some, or_else,
  is_some, is_empty, leb, length, text_length, All, Table, insert, str_eq, Bool-cases, inl, inr, ℕ,
}
use testy_mc_testface.Traffic.{
  RequestBody, json, malformed_json, form, raw, RequestDefinition, Platform, Method, post,
}
use testy_mc_testface.Traffic.Results.{
  Result, ok, err, ◌>>◌, require, optional, Returns, returns, fails, after-Returns, Returns-any,
  require-Returns,
}
use testy_mc_testface.Traffic.Limits.{Limits, number, bounded_integer}
use testy_mc_testface.Traffic.Normalize.{
  is_sensitive, is_protected, or_invalid, has_header, set_header, normalize_header,
  normalize_entries, normalize_headers, assert_bounded_header_value, with_default, with_given,
  body_text, encode_body, assert_identifier, normalize_path,
}
use testy_mc_testface.Traffic.Request.{
  with_idempotency_key, content_of, is_get_or_head, assert_synthetic_request, normalize_retry,
  normalize_expectation, in_order, normalize_request,
}

-- A name that a request may set.
abbrev pub IsFree : String → Type 0
IsFree name = (is_sensitive name ≡ false) × (is_protected name ≡ false)

abbrev pub HasFreeNames : Table String → Type 0
HasFreeNames headers = All (λ (e : String × String). IsFree e.0) headers

insert-HasFreeNames :
    (name value : String) (t : Table String)
    → IsFree name
    → HasFreeNames t
    → HasFreeNames (insert name value t)
unfolding insert
insert-HasFreeNames name value [] free h = (free, tt)
insert-HasFreeNames name value ((other, v) ∷ rest) free h = elim (Bool-cases (str_eq other name)) [
  | inl same ↦ rw same (free, h.1)
  | inr away ↦ rw away (h.0, insert-HasFreeNames name value rest free h.1)
]

not-true : (b : Bool) → not b ≡ true → b ≡ false
not-true true h = cc
not-true false h = refl

module _ (p : Platform) where
  set_header-Returns :
      (name value : String) (headers : Table String)
      → IsFree (p.lower name)
      → HasFreeNames headers
      → Returns HasFreeNames (set_header p name value headers)
  unfolding set_header
  set_header-Returns name value headers free h = elim (Bool-cases (p.is_header name value)) [
    | inl fits ↦
        rw fits (returns (insert-HasFreeNames (p.lower name) (p.header_value value) headers free h))
    | inr odd ↦ rw odd fails
  ]

  or_invalid-Returns :
      (m : Result (Table String)) → Returns HasFreeNames m → Returns HasFreeNames (or_invalid m)
  or_invalid-Returns (ok t) h = h
  or_invalid-Returns (err e) h = fails

  normalize_header-Returns :
      (name value : String) (headers : Table String)
      → HasFreeNames headers
      → Returns HasFreeNames (normalize_header p name value headers)
  unfolding normalize_header
  normalize_header-Returns name value headers h =
      let plain = not (is_sensitive (p.lower name)) in
      let own = not (is_protected (p.lower name)) in
      let short = leb (text_length name) 128 in
      let sound = assert_bounded_header_value value 4096 in
      after-Returns (require plain) (require-Returns plain) λ _ a.
        after-Returns (require own) (require-Returns own) λ _ b.
          after-Returns (require short) (Returns-any (require short)) λ _ _.
            after-Returns sound (Returns-any sound) λ _ _.
              or_invalid-Returns (set_header p name value headers) (
                set_header-Returns name value headers
                  (
                    not-true (is_sensitive (p.lower name)) a,
                    not-true (is_protected (p.lower name)) b,
                  )
                  h)

  normalize_entries-Returns :
      (values headers : Table String)
      → HasFreeNames headers
      → Returns HasFreeNames (normalize_entries p values headers)
  unfolding normalize_entries
  normalize_entries-Returns [] headers h = returns h
  normalize_entries-Returns ((name, value) ∷ rest) headers h =
      after-Returns (normalize_header p name value headers)
        (normalize_header-Returns name value headers h)
        λ headers' h'. normalize_entries-Returns rest headers' h'

  module _ (content : IsFree (p.lower "content-type")) where
    with_default-Returns :
        (type : String) (headers : Table String)
        → HasFreeNames headers
        → Returns HasFreeNames (with_default p type headers)
    with_default-Returns type headers h = elim (Bool-cases (has_header "content-type" headers)) [
      | inl there ↦ rw there (returns h)
      | inr missing ↦ rw missing (set_header-Returns "content-type" type headers content h)
    ]

    with_given-Returns :
        (type : Option String) (headers : Table String)
        → HasFreeNames headers
        → Returns HasFreeNames (with_given p type headers)
    unfolding with_given
    with_given-Returns none headers h = returns h
    with_given-Returns (some type) headers h =
        let sound = assert_bounded_header_value type 256 in
        elim (Bool-cases (not (is_empty type) && not (has_header "content-type" headers))) [
          | inl set_it ↦ rw set_it (
              after-Returns sound (Returns-any sound)
                λ _ _. set_header-Returns "content-type" type headers content h)
          | inr keep ↦ rw keep (returns h)
        ]

    body_text-Returns :
        (body : RequestBody) (headers : Table String)
        → HasFreeNames headers
        → Returns (λ (b : String × Table String). HasFreeNames b.1) (body_text p body headers)
    unfolding body_text
    body_text-Returns (json value) headers h =
        after-Returns (with_default p "application/json" headers)
          (with_default-Returns "application/json" headers h) λ _ h'. returns h'
    body_text-Returns (malformed_json value) headers h =
        after-Returns (with_default p "application/json" headers)
          (with_default-Returns "application/json" headers h) λ _ h'. returns h'
    body_text-Returns (form fields) headers h =
        after-Returns (with_default p "application/x-www-form-urlencoded" headers)
          (with_default-Returns "application/x-www-form-urlencoded" headers h) λ _ h'. returns h'
    body_text-Returns (raw value type) headers h =
        after-Returns (with_given p type headers) (with_given-Returns type headers h)
          λ _ h'. returns h'

    module _ (idempotency : IsFree (p.lower "idempotency-key")) where
      with_idempotency_key-Returns :
          (key : Option String) (headers : Table String)
          → HasFreeNames headers
          → Returns HasFreeNames (with_idempotency_key p key headers)
      unfolding with_idempotency_key
      with_idempotency_key-Returns none headers h = returns h
      with_idempotency_key-Returns (some key) headers h =
          let sound = assert_bounded_header_value key 256 in
          after-Returns sound (Returns-any sound)
            λ _ _. set_header-Returns "idempotency-key" key headers idempotency h

      encode_body-Returns :
          (body : Option RequestBody) (headers : Table String) (maximum : ℕ)
          → HasFreeNames headers
          → Returns
              (λ (b : Option (List ℕ) × Table String). HasFreeNames b.1)
              (encode_body p body headers maximum)
      unfolding encode_body
      encode_body-Returns none headers maximum h = returns h
      encode_body-Returns (some body) headers maximum h =
          after-Returns (body_text p body headers) (body_text-Returns body headers h) λ encoded h'.
            let small = leb (length (p.encode encoded.0)) maximum in
            after-Returns (require small) (Returns-any (require small)) λ _ _. returns h'

      content_of-Returns :
          (value : RequestDefinition) (method : Method) (maximum : ℕ)
          → Returns
              (λ (c : Option (List ℕ) × Table String). HasFreeNames c.1)
              (content_of p value method maximum)
      unfolding content_of normalize_headers
      content_of-Returns value method maximum =
          let values = or_else value.headers [] in
          let few = leb (length values) 32 in
          after-Returns (require few >> normalize_entries p values [])
            (after-Returns (require few) (Returns-any (require few))
              λ _ _. normalize_entries-Returns values [] tt)
            λ given h.
              after-Returns (encode_body p value.body given maximum)
                (encode_body-Returns value.body given maximum h)
                λ encoded h'.
                  let bodiless = not (is_get_or_head method && is_some encoded.0) in
                  after-Returns (require bodiless) (Returns-any (require bodiless)) λ _ _.
                    after-Returns (with_idempotency_key p value.idempotency_key encoded.1)
                      (with_idempotency_key-Returns value.idempotency_key encoded.1 h')
                      λ _ h''. returns h''

      pub normalize_request-Returns :
          (value : RequestDefinition) (limits : Limits)
          → Returns (λ q. HasFreeNames q.headers) (normalize_request p value limits)
      unfolding normalize_request
      normalize_request-Returns value limits =
          let method = or_else value.method post in
          let timeout =
            bounded_integer (or_else value.timeout_ms (number 10000)) 1
              limits.max_request_timeout_ms in
          let abort =
            optional (λ k. bounded_integer k 1 limits.max_request_timeout_ms)
              value.abort_after_ms in
          let delay =
            bounded_integer (or_else value.delay_before_ms (number 0)) 0
              limits.max_retry_delay_ms in
          let retry = normalize_retry p value.retry limits in
          let expect = normalize_expectation value.expect limits.max_retry_attempts in
          after-Returns (assert_identifier value.id) (Returns-any (assert_identifier value.id))
            λ _ _.
              after-Returns (assert_synthetic_request p value)
                (Returns-any (assert_synthetic_request p value))
                λ _ _.
                  after-Returns (normalize_path p value.path)
                    (Returns-any (normalize_path p value.path))
                    λ _ _.
                      after-Returns (content_of p value method limits.max_body_bytes)
                        (content_of-Returns value method limits.max_body_bytes)
                        λ _ h. after-Returns timeout (Returns-any timeout) λ _ _.
                          after-Returns abort (Returns-any abort) λ _ _.
                            after-Returns delay (Returns-any delay) λ _ _.
                              after-Returns retry (Returns-any retry) λ r _.
                                after-Returns expect (Returns-any expect) λ e _.
                                  let fits = in_order e.attempt_count (some r.attempts) in
                                  after-Returns (require fits) (Returns-any (require fits))
                                    λ _ _. returns h
