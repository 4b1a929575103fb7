-- ===== src/Traffic/Identities.antt =====
-- Every result stands at the place of its request.
use testy_mc_testface.Prelude.{
  ◌⊎◌, ℕ, suc, zero, ◌≡◌, refl, ap, ◌∙◌, String, List, [], ◌∷◌, Option, none, some, map, last?,
  Bool-cases, inl, inr,
}
use testy_mc_testface.Traffic.{RequestResult, AttemptResult, RouteBinding, Platform}
use testy_mc_testface.Traffic.Results.{
  Result, ok, err, Returns, returns, fails, after-Returns, Returns-any,
}
use testy_mc_testface.Traffic.Limits.{Limits}
use testy_mc_testface.Traffic.Request.{NormalizedRequest}
use testy_mc_testface.Traffic.Attempts.{Course}
use testy_mc_testface.Traffic.Retries.{
  attempts_from, with_final, result_of, pause, concluded_request, execute_request,
}
use testy_mc_testface.Traffic.Batch.{
  get_elem?, set, Worker, ready, busy, stopped, Running, Weather, cancelled_request_result,
  or_timed_out, serve_request, take_next, finish, advance, advance_if, turn, turns, finalize,
}

abbrev pub result_ids : List RequestResult → List String
result_ids results = map (λ (r : RequestResult). r.request_id) results

abbrev pub request_ids : List NormalizedRequest → List String
request_ids requests = map (λ (q : NormalizedRequest). q.id) requests

get_elem?-set_cases :
    {A : Type 0} (xs : List A) (i j : ℕ) (v y : A)
    → get_elem? (set xs j v) i ≡ some y
    → ((i ≡ j) × (y ≡ v)) ⊎ (get_elem? xs i ≡ some y)
get_elem?-set_cases [] i j v y h = cc
get_elem?-set_cases (x ∷ xs) zero zero v y h = inl (refl, cc)
get_elem?-set_cases (x ∷ xs) (suc i) zero v y h = inr h
get_elem?-set_cases (x ∷ xs) zero (suc j) v y h = inr h
get_elem?-set_cases (x ∷ xs) (suc i) (suc j) v y h = elim (get_elem?-set_cases xs i j v y h) [
  | inl (e, f) ↦ inl (ap suc e, f)
  | inr k ↦ inr k
]

-- The results in a table are those of the requests at their places.
abbrev pub OwnIds : List NormalizedRequest → List (Option RequestResult) → Type 0
OwnIds requests slots =
    (i : ℕ) (r : RequestResult)
    → get_elem? slots i ≡ some (some r)
    → (q : NormalizedRequest) × (get_elem? requests i ≡ some q) × (r.request_id ≡ q.id)

set_own :
    (requests : List NormalizedRequest) (slots : List (Option RequestResult))
    (q : NormalizedRequest) (j : ℕ) (r : RequestResult)
    → get_elem? requests j ≡ some q
    → r.request_id ≡ q.id
    → OwnIds requests slots
    → (i : ℕ) (r' : RequestResult)
    → ((i ≡ j) × (◌≡◌ {A = Option RequestResult} (some r') (some r)))
      ⊎ (get_elem? slots i ≡ some (some r'))
    → (q' : NormalizedRequest) × (get_elem? requests i ≡ some q') × (r'.request_id ≡ q'.id)
set_own requests slots q j r e id own i r' (inl (same, v)) =
    let r_same : r' ≡ r = cc in (q, rw same e, ap (λ (t : RequestResult). t.request_id) r_same ∙ id)
set_own requests slots q j r e id own i r' (inr old) = own i r' old

set-OwnIds :
    (requests : List NormalizedRequest) (slots : List (Option RequestResult))
    (q : NormalizedRequest) (j : ℕ) (r : RequestResult)
    → get_elem? requests j ≡ some q
    → r.request_id ≡ q.id
    → OwnIds requests slots
    → OwnIds requests (set slots j (some r))
set-OwnIds requests slots q j r e id own i r' h =
    set_own requests slots q j r e id own i r' (get_elem?-set_cases slots i j (some r) (some r') h)

abbrev HasId : NormalizedRequest → RequestResult → Type 0
HasId q r = r.request_id ≡ q.id

pub finalize-ids :
    (weather : Weather) (requests : List NormalizedRequest) (slots : List (Option RequestResult))
    → OwnIds requests slots
    → result_ids (finalize weather requests slots) ≡ request_ids requests
unfolding finalize cancelled_request_result
finalize-ids weather [] slots own = refl
finalize-ids weather (q ∷ requests) [] own =
    ap (λ (ids : List String). q.id ∷ ids) (finalize-ids weather requests [] (λ i r e. cc))
finalize-ids weather (q ∷ requests) (none ∷ slots) own =
    ap (λ (ids : List String). q.id ∷ ids)
      (finalize-ids weather requests slots (λ i r e. own (suc i) r e))
finalize-ids weather (q ∷ requests) (some r ∷ slots) own =
    let (q', e, id) = own 0 r refl in
    let same : q' ≡ q = cc in
    let mine : r.request_id ≡ q.id = id ∙ ap (λ (t : NormalizedRequest). t.id) same in
    let ih = finalize-ids weather requests slots (λ i r' e'. own (suc i) r' e') in cc (mine, ih)

module _ (p : Platform) (limits : Limits) (route : RouteBinding) where
  with_final-HasId :
      (q : NormalizedRequest) (course : Course) (rs : List AttemptResult)
      (final : Option AttemptResult)
      → Returns (HasId q) (with_final p limits route q course rs final)
  unfolding concluded_request
  with_final-HasId q course rs none = fails
  with_final-HasId q course rs (some f) = returns refl

  execute_request-HasId :
      (q : NormalizedRequest) (course : Course)
      → Returns (HasId q) (execute_request p limits route q course)
  unfolding execute_request result_of concluded_request
  execute_request-HasId q course =
      let tried = attempts_from p limits route q q.retry.attempts 1 course.moment in
      after-Returns (pause p limits route q course) (Returns-any (pause p limits route q course))
        λ _ _.
          after-Returns tried (Returns-any tried) λ rs _. with_final-HasId q course rs (last? rs)

  module _ (weather : Weather) where
    or_timed_out-HasId :
        (q : NormalizedRequest) (j : ℕ) (m : Result RequestResult)
        → Returns (HasId q) m
        → Returns (HasId q) (or_timed_out p limits route weather q j m)
    unfolding cancelled_request_result
    or_timed_out-HasId q j (ok r) h = h
    or_timed_out-HasId q j (err e) h = elim (Bool-cases (weather.aborted_at j)) [
      | inl aborted ↦ rw aborted fails
      | inr going ↦ elim (Bool-cases (weather.timed_out_at j)) [
        | inl late ↦ rw (going, late) (returns refl)
        | inr early ↦ rw (going, early) fails
      ]
    ]

    serve_request-HasId :
        (q : NormalizedRequest) (j : ℕ)
        → Returns (HasId q) (serve_request p limits route weather q j)
    unfolding serve_request
    serve_request-HasId q j =
        or_timed_out-HasId q j (execute_request p limits route q (weather.course j))
          (execute_request-HasId q (weather.course j))

    module _ (requests : List NormalizedRequest) where
      abbrev pub Keeps : Running → Type 0
      Keeps s = OwnIds requests s.results

      finish-Keeps :
          (request : Option NormalizedRequest) (w j : ℕ) (s : Running)
          → get_elem? requests j ≡ request
          → Keeps s
          → Returns Keeps (finish p limits route weather request w j s)
      unfolding finish
      finish-Keeps none w j s e own = returns own
      finish-Keeps (some q) w j s e own =
          after-Returns (serve_request p limits route weather q j) (serve_request-HasId q j)
            λ r id. returns (set-OwnIds requests s.results q j r e id own)

      take_next-Keeps :
          (request : Option NormalizedRequest) (w : ℕ) (s : Running)
          → Keeps s
          → Keeps (take_next request w s)
      unfolding take_next
      take_next-Keeps none w s own = own
      take_next-Keeps (some q) w s own = own

      advance_if-Keeps :
          (worker : Option Worker) (w : ℕ) (s : Running)
          → Keeps s
          → Returns Keeps (advance_if p limits route weather requests worker w s)
      unfolding advance_if advance
      advance_if-Keeps none w s own = returns own
      advance_if-Keeps (some ready) w s own =
          returns (take_next-Keeps (get_elem? requests s.next) w s own)
      advance_if-Keeps (some (busy j)) w s own = finish-Keeps (get_elem? requests j) w j s refl own
      advance_if-Keeps (some stopped) w s own = returns own

      pub turns-Keeps :
          (schedule : List ℕ) (s : Running)
          → Keeps s
          → Returns Keeps (turns p limits route weather requests schedule s)
      unfolding turns turn
      turns-Keeps [] s own = returns own
      turns-Keeps (w ∷ rest) s own =
          after-Returns (turn p limits route weather requests w s)
            (advance_if-Keeps (get_elem? s.workers w) w s own) λ s' own'. turns-Keeps rest s' own'
