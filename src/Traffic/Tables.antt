-- ===== src/Traffic/Tables.antt =====
-- The tables of a batch: its results, its workers, and the requests one after the other.
use testy_mc_testface.Prelude.{
  ℕ, suc, zero, ◌+◌, ◌<◌, ◌≡◌, refl, ap, true, false, List, [], ◌∷◌, Option, none, some, length,
  arith,
}
use testy_mc_testface.Traffic.{RequestResult, RouteBinding, Platform}
use testy_mc_testface.Traffic.Results.{ok, >>=-parts}
use testy_mc_testface.Traffic.Limits.{Limits}
use testy_mc_testface.Traffic.Request.{NormalizedRequest}
use testy_mc_testface.Traffic.Batch.{
  get_elem?, replicate, Worker, ready, busy, stopped, all_stopped, Weather, serve_request, finalize,
}
use testy_mc_testface.Traffic.Slots.{sum_of}
use testy_mc_testface.Traffic.Workers.{holds, turns_left, done_at, taken_at, can_go_on, serve_all}

-- A table in which every result is there.
pub finalize_lem :
    (weather : Weather) (requests : List NormalizedRequest) (slots : List (Option RequestResult))
    (served : List RequestResult)
    → length slots ≡ length requests
    → length served ≡ length requests
    → ((i : ℕ) → i < length requests → done_at i slots ≡ 1)
    → ((i : ℕ) (r : RequestResult)
        → get_elem? slots i ≡ some (some r)
        → get_elem? served i ≡ some r)
    → finalize weather requests slots ≡ served
unfolding finalize
finalize_lem weather [] slots [] h k all own = refl
finalize_lem weather [] slots (r ∷ served) h k all own = absurd (omega arith)
finalize_lem weather (q ∷ requests) [] served h k all own = absurd (omega arith)
finalize_lem weather (q ∷ requests) (x ∷ slots) [] h k all own = absurd (omega arith)
finalize_lem weather (q ∷ requests) (none ∷ slots) (r ∷ served) h k all own =
    absurd (omega (arith, all 0 (omega arith)))
finalize_lem weather (q ∷ requests) (some x ∷ slots) (r ∷ served) h k all own =
    let ih =
      finalize_lem weather requests slots served (omega arith) (omega arith)
        (λ i lt. all (suc i) (omega arith)) (λ i r' e. own (suc i) r' e) in
    cc (own 0 x refl, ih)

pub done_at-replicate : (i n : ℕ) → done_at i (replicate n none) ≡ 0
done_at-replicate i zero = refl
done_at-replicate zero (suc n) = refl
done_at-replicate (suc i) (suc n) = done_at-replicate i n

pub taken_at-zero : (i n : ℕ) → taken_at i n 0 ≡ 0
taken_at-zero i n = ground arith

pub not_there : (n i : ℕ) (r : RequestResult) → get_elem? (replicate n none) i ≡ some (some r) → ⊥
not_there zero i r h = cc
not_there (suc n) zero r h = cc
not_there (suc n) (suc i) r h = not_there n i r h

-- Once no turn is left, every worker has stopped.
pub all_stopped_of : (ws : List Worker) → sum_of turns_left ws ≡ 0 → all_stopped ws ≡ true
all_stopped_of [] h = refl
all_stopped_of (ready ∷ ws) h = absurd (omega arith)
all_stopped_of (busy j ∷ ws) h = absurd (omega arith)
all_stopped_of (stopped ∷ ws) h = all_stopped_of ws (omega arith)

pub held_of_stopped :
    (ws : List Worker) (i : ℕ) → sum_of turns_left ws ≡ 0 → sum_of (holds i) ws ≡ 0
held_of_stopped [] i h = refl
held_of_stopped (ready ∷ ws) i h = absurd (omega arith)
held_of_stopped (busy j ∷ ws) i h = absurd (omega arith)
held_of_stopped (stopped ∷ ws) i h = omega (arith, held_of_stopped ws i (omega arith))

-- A worker that has not stopped can be given a turn.
pub runnable :
    (ws : List Worker) → all_stopped ws ≡ false → (w : ℕ) × (can_go_on (get_elem? ws w) ≡ true)
runnable [] h = cc
runnable (ready ∷ ws) h = (0, refl)
runnable (busy j ∷ ws) h = (0, refl)
runnable (stopped ∷ ws) h = let (w, e) = runnable ws h in (suc w, e)

pub stopped_of_all :
    (ws : List Worker) → all_stopped ws ≡ true → 0 < length ws → get_elem? ws 0 ≡ some stopped
stopped_of_all [] e h = absurd (omega arith)
stopped_of_all (ready ∷ ws) e h = cc
stopped_of_all (busy j ∷ ws) e h = cc
stopped_of_all (stopped ∷ ws) e h = refl

pub turns_left_of_stopped : (ws : List Worker) → all_stopped ws ≡ true → sum_of turns_left ws ≡ 0
turns_left_of_stopped [] e = refl
turns_left_of_stopped (ready ∷ ws) e = cc
turns_left_of_stopped (busy j ∷ ws) e = cc
turns_left_of_stopped (stopped ∷ ws) e = omega (arith, turns_left_of_stopped ws e)

pub turns_left_of_runnable :
    (ws : List Worker) (w : ℕ) → can_go_on (get_elem? ws w) ≡ true → 0 < sum_of turns_left ws
turns_left_of_runnable [] w e = cc
turns_left_of_runnable (ready ∷ ws) zero e = omega arith
turns_left_of_runnable (busy j ∷ ws) zero e = omega arith
turns_left_of_runnable (stopped ∷ ws) zero e = cc
turns_left_of_runnable (worker ∷ ws) (suc w) e = omega (arith, turns_left_of_runnable ws w e)

-- No worker has stopped at the start.
pub not_stopped : (c w : ℕ) → get_elem? (replicate c ready) w ≡ some stopped → ⊥
not_stopped zero w h = cc
not_stopped (suc c) zero h = cc
not_stopped (suc c) (suc w) h = not_stopped c w h

module _ (p : Platform) (limits : Limits) (route : RouteBinding) (weather : Weather) where
  abbrev ServedAt : (index : ℕ) → NormalizedRequest → Option RequestResult → Type 0
  ServedAt j q found =
      (r : RequestResult) × (serve_request p limits route weather q j ≡ ok r) × (found ≡ some r)

  serve_all_step :
      (q q' : NormalizedRequest) (qs : List NormalizedRequest) (r : RequestResult)
      (rs : List RequestResult) (k i j : ℕ)
      → j ≡ k + i
      → get_elem? (q ∷ qs) i ≡ some q'
      → serve_request p limits route weather q k ≡ ok r
      → ((i j : ℕ) (q : NormalizedRequest)
          → j ≡ suc k + i
          → get_elem? qs i ≡ some q
          → ServedAt j q (get_elem? rs i))
      → ServedAt j q' (get_elem? (r ∷ rs) i)
  serve_all_step q q' qs r rs k zero j e at first later =
      let here : j ≡ k = omega arith in let same : q' ≡ q = cc in (r, rw (here, same) first, refl)
  serve_all_step q q' qs r rs k (suc i) j e at first later = later i j q' (omega arith) at

  -- The results of the requests from an index on.
  pub serve_all_lem :
      (qs : List NormalizedRequest) (k : ℕ) (served : List RequestResult)
      → serve_all p limits route weather qs k ≡ ok served
      → (length served ≡ length qs)
        × ((i j : ℕ) (q : NormalizedRequest)
            → j ≡ k + i
            → get_elem? qs i ≡ some q
            → ServedAt j q (get_elem? served i))
  unfolding serve_all
  serve_all_lem [] k served h = (let same : served ≡ [] = cc in ap length same, λ i j q e at. cc)
  serve_all_lem (q ∷ qs) k served h =
      let (r, first, h1) = >>=-parts (serve_request p limits route weather q k) _ h in
      let (rs, rest, h2) = >>=-parts (serve_all p limits route weather qs (suc k)) _ h1 in
      let same : served ≡ r ∷ rs = cc in
      let (len, each) = serve_all_lem qs (suc k) rs rest in
      (
        omega (arith, ap length same, len),
        λ i j q' e at. rw same (serve_all_step q q' qs r rs k i j e at first each),
      )
