-- ===== src/Traffic/Repeating.antt =====
-- The requests of a repetition have identities of their own.
pub mod Tests
use testy_mc_testface.Prelude.{
  ℕ, suc, zero, ◌≤◌, ◌<◌, ◌≡◌, ◌≢◌, refl, sym, ap, subst, ◌-◌, ◌&&◌, some, ◌∙◌, String, Bool, true,
  false, not, ◌||◌, List, [], ◌∷◌, map, length, any, str_eq, eq_iff, ◌+++◌, text_length, leb, arith,
  Bool-cases, inl, inr, All,
}
use text.Mathlib.TextLemmas.{append_cancel_left}
use testy_mc_testface.Traffic.{RequestDefinition, BatchDefinition, RepeatDefinition, Platform}
use testy_mc_testface.Traffic.Results.{
  Result, ok, err, ◌>>=◌, ◌>>◌, require, each, Returns, returns, fails, after-Returns, Returns-any,
  Returns-ok, >>=-parts,
}
use testy_mc_testface.Traffic.Limits.{Limits, normalize_positive_integer}
use testy_mc_testface.Traffic.Request.{NormalizedRequest, normalize_request}
use testy_mc_testface.Traffic.Bounds.{normalize_request-IsBounded}
use testy_mc_testface.Traffic.Bursts.{
  assert_unique_from, assert_unique_request_ids, repeated_request_id, instances, repeated_batch,
}
use testy_mc_testface.Traffic.Identities.{request_ids}

abbrev definition_ids : List RequestDefinition → List String
definition_ids requests = map (λ (r : RequestDefinition). r.id) requests

-- No identity has been seen, and each is seen once.
abbrev AreFresh : (seen ids : List String) → Type 0
AreFresh seen [] = Unit {0}
AreFresh seen (id ∷ ids) = (any (str_eq id) seen ≡ false) × AreFresh (id ∷ seen) ids

assert_unique_from-ok :
    (seen : List String) (qs : List NormalizedRequest)
    → AreFresh seen (request_ids qs)
    → assert_unique_from seen qs ≡ ok tt
unfolding assert_unique_from
assert_unique_from-ok seen [] fresh = refl
assert_unique_from-ok seen (q ∷ qs) fresh =
    rw (fresh.0) (assert_unique_from-ok (q.id ∷ seen) qs fresh.1)

module _ (p : Platform) where
  abbrev instance_id : (base : String) → (ordinal : ℕ) → String
  instance_id base ordinal = base +++ ("-" +++ p.decimal ordinal)

  -- The decimal forms of different numbers differ.
  abbrev pub HasDistinctDecimals : Type 0
  HasDistinctDecimals = (m n : ℕ) → p.decimal m ≡ p.decimal n → m ≡ n

  module _ (differ : HasDistinctDecimals) where
    instance_id-inj : (base : String) (m n : ℕ) → instance_id base m ≡ instance_id base n → m ≡ n
    instance_id-inj base m n e = differ m n (
        append_cancel_left "-" (p.decimal m) (p.decimal n)
          (append_cancel_left base ("-" +++ p.decimal m) ("-" +++ p.decimal n) e))

    -- Identities of instances with lower ordinals.
    abbrev AreBelow : (base : String) → (ordinal : ℕ) → List String → Type 0
    AreBelow base n seen = All (λ (s : String). (m : ℕ) × (m < n) × (s ≡ instance_id base m)) seen

    not-seen :
        (base : String) (n : ℕ) (seen : List String)
        → AreBelow base n seen
        → any (str_eq (instance_id base n)) seen ≡ false
    not-seen base n [] below = refl
    not-seen base n (s ∷ seen) below = elim (Bool-cases (str_eq (instance_id base n) s)) [
      | inl same ↦
          let (m, lower, e) = below.0 in
          let equal : instance_id base n ≡ instance_id base m =
            (eq_iff (instance_id base n) s).0 same ∙ e in
          let number = instance_id-inj base n m equal in absurd (omega arith)
      | inr other ↦ rw other (not-seen base n seen below.1)
    ]

    AreBelow-suc :
        (base : String) (n : ℕ) (seen : List String)
        → AreBelow base n seen
        → AreBelow base (suc n) seen
    AreBelow-suc base n [] below = tt
    AreBelow-suc base n (s ∷ seen) below =
        let (m, lower, e) = below.0 in ((m, omega arith, e), AreBelow-suc base n seen below.1)

    repeated_request_id-Returns :
        (limits : Limits) (base : String) (n : ℕ)
        → Returns (λ id. id ≡ instance_id base n) (repeated_request_id p limits base n)
    unfolding repeated_request_id
    repeated_request_id-Returns limits base n =
        let maximum = 64 - text_length ("-" +++ p.decimal n) in
        let fits = leb 1 maximum && leb (text_length base) maximum in
        after-Returns (require fits) (Returns-any (require fits)) λ _ _. returns refl

    instances-AreFresh :
        (limits : Limits) (request : RequestDefinition) (n count : ℕ) (seen : List String)
        → AreBelow request.id n seen
        → Returns (λ rs. AreFresh seen (definition_ids rs)) (instances p limits request n count)
    unfolding instances
    instances-AreFresh limits request n zero seen below = returns tt
    instances-AreFresh limits request n (suc count) seen below =
        after-Returns (repeated_request_id p limits request.id n)
          (repeated_request_id-Returns limits request.id n)
          λ id e.
            let seen' = id ∷ seen in
            let below' : AreBelow request.id (suc n) seen' =
              ((n, omega arith, e), AreBelow-suc request.id n seen below) in
            let new : any (str_eq id) seen ≡ false = rw e (not-seen request.id n seen below) in
            after-Returns (instances p limits request (suc n) count)
              (instances-AreFresh limits request (suc n) count seen' below')
              λ rest fresh. returns (new, fresh)

    repeated_batch-Returns :
        (limits : Limits) (definition : RepeatDefinition)
        → Returns
            (λ b. AreFresh [] (definition_ids b.requests))
            (repeated_batch p limits definition)
    unfolding repeated_batch
    repeated_batch-Returns limits definition =
        let count = normalize_positive_integer (some definition.count) 1 limits.max_requests in
        after-Returns count (Returns-any count) λ n _.
          after-Returns (instances p limits definition.request 1 n)
            (instances-AreFresh limits definition.request 1 n [] tt) λ rs fresh. returns fresh

  -- Normalisation keeps the identities.
  each-ids :
      (limits : Limits) (rs : List RequestDefinition) (qs : List NormalizedRequest)
      → each (λ r. normalize_request p r limits) rs ≡ ok qs
      → request_ids qs ≡ definition_ids rs
  unfolding each
  each-ids limits [] qs h = let same : qs ≡ [] = cc in ap request_ids same
  each-ids limits (r ∷ rs) qs h =
      let (q, e, h1) = >>=-parts (normalize_request p r limits) _ h in
      let (qs', e', h2) = >>=-parts (each (λ r. normalize_request p r limits) rs) _ h1 in
      let same : qs ≡ q ∷ qs' = cc in
      let id : q.id ≡ r.id = (normalize_request-IsBounded p r limits q e).0 in
      let ih = each-ids limits rs qs' e' in ap request_ids same ∙ cc (id, ih)

  -- Where different numbers have different decimal forms: the requests that a repetition makes,
  -- however often it repeats, are never refused as duplicates once they are normalised.
  pub repeated_batch_unique :
      (limits : Limits) (definition : RepeatDefinition) (batch : BatchDefinition)
      (requests : List NormalizedRequest)
      → HasDistinctDecimals
      → repeated_batch p limits definition ≡ ok batch
      → each (λ r. normalize_request p r limits) batch.requests ≡ ok requests
      → assert_unique_request_ids requests ≡ ok tt
  unfolding assert_unique_request_ids
  repeated_batch_unique limits definition batch requests differ made accepted =
      let fresh = Returns-ok (repeated_batch-Returns differ limits definition) made in
      let same = each-ids limits batch.requests requests accepted in
      assert_unique_from-ok [] requests (subst (AreFresh []) (sym same) fresh)
