-- ===== src/Traffic/Workers.antt =====
-- The workers of a batch under a schedule: each request is taken once, and every turn brings the end
-- nearer.
use testy_mc_testface.Prelude.{
  ℕ, suc, ◌+◌, ◌-◌, ◌*◌, ◌≤◌, ◌<◌, ◌≡◌, refl, ◌∙◌, Bool, true, false, not, ◌&&◌, List, [], ◌∷◌,
  Option, none, some, length, ltb, ◌==◌, if◌then◌else◌, arith,
}
use testy_mc_testface.Traffic.{RequestResult, RouteBinding, Platform}
use testy_mc_testface.Traffic.Results.{Result, ok, err, ◌>>=◌}
use testy_mc_testface.Traffic.Limits.{Limits}
use testy_mc_testface.Traffic.Request.{NormalizedRequest}
use testy_mc_testface.Traffic.Batch.{
  get_elem?, set, Worker, ready, busy, stopped, has_stopped, take_next, finish, Running, Weather,
  serve_request, turn,
}
use testy_mc_testface.Traffic.Slots.{
  length-set, get_elem?-set, get_elem?-lt, get_elem?-none, sum_of, sum_of-set,
}

-- Whether a worker holds an index, and the turns that it has left without another request.
abbrev pub holds : (index : ℕ) → Worker → ℕ
holds i ready = 0
holds i (busy j) = if i == j then 1 else 0
holds i stopped = 0

abbrev pub turns_left : Worker → ℕ
turns_left ready = 1
turns_left (busy j) = 2
turns_left stopped = 0

-- Whether the request at an index has its result.
abbrev pub is_done : Option (Option RequestResult) → ℕ
is_done (some (some _)) = 1
is_done _ = 0

abbrev pub done_at : (index : ℕ) → List (Option RequestResult) → ℕ
done_at i results = is_done (get_elem? results i)

abbrev pub taken_at : (index count next : ℕ) → ℕ
taken_at i n next = if ltb i next && ltb i n then 1 else 0

abbrev pub can_go_on : Option Worker → Bool
can_go_on (some w) = not (has_stopped w)
can_go_on none = false

abbrev pub if_ok : (Running → Bool) → Result Running → Bool
if_ok test (ok s) = test s
if_ok test (err _) = true

module _ (p : Platform) (limits : Limits) (route : RouteBinding) (weather : Weather) where
  -- The results of the requests one after the other.
  unfoldable pub serve_all : List NormalizedRequest → (index : ℕ) → Result (List RequestResult)
  unfolding serve_request
  serve_all [] i = ok []
  serve_all (request ∷ rest) i = do
    result ← serve_request p limits route weather request i
    results ← serve_all rest (suc i)
    ok (result ∷ results)

module _ (p : Platform) (limits : Limits) (route : RouteBinding) (weather : Weather)
    (requests : List NormalizedRequest) where
  abbrev pub count : ℕ
  count = length requests

  -- The turns that are left.
  abbrev pub potential : Running → ℕ
  potential s = 2 * (count - s.next) + sum_of turns_left s.workers

  -- Whether each turn is given to a worker that has not stopped, as far as no request throws.
  unfoldable pub is_effective : (schedule : List ℕ) → Running → Bool
  is_effective [] s = true
  is_effective (w ∷ rest) s =
      can_go_on (get_elem? s.workers w)
      && if_ok (is_effective rest) (turn p limits route weather requests w s)

  -- Each request that is taken is held by one worker or done, none is taken twice, and the results
  -- are those of `served`.
  pub record IsExact (served : List RequestResult) (s : Running) : Type 0 where
    pub slots : length s.results ≡ count
    pub once : (i : ℕ) → sum_of (holds i) s.workers + done_at i s.results ≡ taken_at i count s.next
    pub own :
        (i : ℕ) (r : RequestResult)
        → get_elem? s.results i ≡ some (some r)
        → get_elem? served i ≡ some r
    pub crew : 0 < length s.workers
    pub over : (w : ℕ) → get_elem? s.workers w ≡ some stopped → count ≤ s.next

  -- Every request is served, with these results.
  abbrev pub Serves : List RequestResult → Type 0
  Serves served =
      (i : ℕ) (q : NormalizedRequest)
      → get_elem? requests i ≡ some q
      → (r : RequestResult) × (serve_request p limits route weather q i ≡ ok r)
        × (get_elem? served i ≡ some r)

  module _ (served : List RequestResult) (serves : Serves served) where
    -- What a turn leads to.
    abbrev pub Advanced : Running → Result Running → Type 0
    Advanced s r =
        (s' : Running) × (r ≡ ok s') × IsExact served s' × (potential s ≡ suc (potential s'))

    pub take_next-Advanced :
        (request : Option NormalizedRequest) (w : ℕ) (s : Running)
        → get_elem? requests s.next ≡ request
        → get_elem? s.workers w ≡ some ready
        → IsExact served s
        → Advanced s (ok (take_next request w s))
    unfolding take_next
    take_next-Advanced none w s over at inv =
        let all_taken : count ≤ s.next = get_elem?-none requests s.next over in
        (
          record s { next = s.next + 1; workers = set s.workers w stopped },
          refl,
          record {
            slots = inv.slots;
            once =
                λ i. ground (arith, inv.once i, sum_of-set (holds i) s.workers w ready stopped at);
            own = inv.own;
            crew = omega (arith, inv.crew, length-set s.workers w stopped);
            over = λ v h. omega (arith, all_taken);
          },
          omega (arith, sum_of-set turns_left s.workers w ready stopped at),
        )
    take_next-Advanced (some q) w s there at inv =
        let more : s.next < count = get_elem?-lt requests s.next q there in
        (
          record s { next = s.next + 1; workers = set s.workers w (busy s.next) },
          refl,
          record {
            slots = inv.slots;
            once = λ i.
                ground (arith, inv.once i, sum_of-set (holds i) s.workers w ready (busy s.next) at);
            own = inv.own;
            crew = omega (arith, inv.crew, length-set s.workers w (busy s.next));
            over = λ v h. ground (
              arith,
              inv.over v,
              get_elem?-set s.workers v w (busy s.next) (get_elem?-lt s.workers w ready at),
            );
          },
          omega (arith, sum_of-set turns_left s.workers w ready (busy s.next) at),
        )

    pub finish-Advanced :
        (request : Option NormalizedRequest) (w j : ℕ) (s : Running)
        → get_elem? requests j ≡ request
        → get_elem? s.workers w ≡ some (busy j)
        → IsExact served s
        → Advanced s (finish p limits route weather request w j s)
    unfolding finish
    finish-Advanced none w j s out at inv =
        let outside : count ≤ j = get_elem?-none requests j out in
        let held = sum_of-set (holds j) s.workers w (busy j) ready at in
        absurd (ground (arith, inv.once j, held))
    finish-Advanced (some q) w j s there at inv =
        let (r, e, mine) = serves j q there in
        let inside : j < length s.results =
          omega (arith, inv.slots, get_elem?-lt requests j q there) in
        rw e (
          record s { results = set s.results j (some r); workers = set s.workers w ready },
          refl,
          record {
            slots = length-set s.results j (some r) ∙ inv.slots;
            once = λ i. ground (
              arith,
              inv.once i,
              sum_of-set (holds i) s.workers w (busy j) ready at,
              get_elem?-set s.results i j (some r) inside,
            );
            own = λ i r' h.
                ground (arith, inv.own i r', mine, get_elem?-set s.results i j (some r) inside);
            crew = omega (arith, inv.crew, length-set s.workers w ready);
            over = λ v h. ground (
              arith,
              inv.over v,
              get_elem?-set s.workers v w ready (get_elem?-lt s.workers w (busy j) at),
            );
          },
          omega (arith, sum_of-set turns_left s.workers w (busy j) ready at),
        )
