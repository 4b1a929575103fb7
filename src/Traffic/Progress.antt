-- ===== src/Traffic/Progress.antt =====
-- The end of a batch: what its report holds, whatever the schedule.
use testy_mc_testface.Prelude.{
  ◌⊎◌, ℕ, ◌+◌, ◌*◌, ◌<◌, ◌≡◌, refl, subst, String, true, false, List, [], ◌∷◌, ◌++◌, Option, none,
  some, length, arith, Bool-cases, and_parts, inl, inr,
}
use testy_mc_testface.Traffic.{RequestResult, RouteBinding, Platform}
use testy_mc_testface.Traffic.Results.{Result, ok, err, >>=-parts}
use testy_mc_testface.Traffic.Limits.{Limits}
use testy_mc_testface.Traffic.Request.{NormalizedRequest}
use testy_mc_testface.Traffic.Attempts.{throw_if_aborted}
use testy_mc_testface.Traffic.Batch.{
  get_elem?, Worker, ready, busy, stopped, all_stopped, Running, Weather, advance_if, turn, turns,
  start, finalize, report_of, execute_batch,
}
use testy_mc_testface.Traffic.Slots.{length-replicate, sum_of-zero, sum_of-one}
use testy_mc_testface.Traffic.Tables.{
  finalize_lem, done_at-replicate, taken_at-zero, not_there, all_stopped_of, held_of_stopped,
  runnable, serve_all_lem, stopped_of_all, turns_left_of_stopped, turns_left_of_runnable,
  not_stopped,
}
use testy_mc_testface.Traffic.Workers.{
  holds, turns_left, can_go_on, potential, is_effective, serve_all, IsExact, Serves, if_ok,
  Advanced, take_next-Advanced, finish-Advanced,
}

if_ok-true : (m : Result Running) → if_ok (λ _. true) m ≡ true
if_ok-true (ok s) = refl
if_ok-true (err e) = refl

module _ (p : Platform) (limits : Limits) (route : RouteBinding) (weather : Weather)
    (requests : List NormalizedRequest) (served : List RequestResult)
    (serves : Serves p limits route weather requests served) where
  advance_if-Advanced :
      (worker : Option Worker) (w : ℕ) (s : Running)
      → get_elem? s.workers w ≡ worker
      → can_go_on worker ≡ true
      → IsExact p limits route weather requests served s
      → Advanced p limits route weather requests served serves s
          (advance_if p limits route weather requests worker w s)
  unfolding advance_if
  advance_if-Advanced none w s at going inv = cc
  advance_if-Advanced (some ready) w s at going inv =
      take_next-Advanced p limits route weather requests served serves (get_elem? requests s.next) w
        s refl at inv
  advance_if-Advanced (some (busy j)) w s at going inv =
      finish-Advanced p limits route weather requests served serves (get_elem? requests j) w j s
        refl at inv
  advance_if-Advanced (some stopped) w s at going inv = cc

  turns_lem :
      (schedule : List ℕ) (s : Running)
      → is_effective p limits route weather requests schedule s ≡ true
      → IsExact p limits route weather requests served s
      → (s' : Running) × (turns p limits route weather requests schedule s ≡ ok s')
        × IsExact p limits route weather requests served s'
        × (potential p limits route weather requests s
            ≡ length schedule + potential p limits route weather requests s')
  unfolding turns is_effective
  turns_lem [] s e inv = (s, refl, inv, omega arith)
  turns_lem (w ∷ rest) s e inv =
      let next = turn p limits route weather requests w s in
      let goes_on = is_effective p limits route weather requests rest in
      let (going, later) = and_parts (can_go_on (get_elem? s.workers w)) (if_ok goes_on next) e in
      let (s1, stepped, inv1, spent) : Advanced p limits route weather requests served serves s
          next =
        unfold turn in advance_if-Advanced (get_elem? s.workers w) w s refl going inv in
      let later1 : goes_on s1 ≡ true = rw stepped at later in
      let (s2, run, inv2, left) = turns_lem rest s1 later1 inv1 in
      (s2, rw stepped run, inv2, omega arith)

  -- At the start nothing is taken.
  start-IsExact :
      (concurrency : ℕ)
      → 0 < concurrency
      → IsExact p limits route weather requests served
          (start p limits route weather requests concurrency)
  unfolding start
  start-IsExact c some_worker = record {
    slots = length-replicate (length requests) none;
    once = λ i. omega (
      arith,
      sum_of-zero (holds i) c ready refl,
      done_at-replicate i (length requests),
      taken_at-zero i (length requests),
    );
    own = λ i r h. absurd (not_there (length requests) i r h);
    crew = omega (arith, some_worker, length-replicate c ready);
    over = λ w h. absurd (not_stopped c w h);
  }

  potential-start :
      (concurrency : ℕ)
      → potential p limits route weather requests
          (start p limits route weather requests concurrency)
        ≡ 2 * length requests + concurrency
  unfolding start
  potential-start c = omega (arith, sum_of-one turns_left c ready refl)

  -- With no turn left the table has every result.
  finished :
      (s : Running)
      → potential p limits route weather requests s ≡ 0
      → IsExact p limits route weather requests served s
      → length served ≡ length requests
      → (all_stopped s.workers ≡ true) × (finalize weather requests s.results ≡ served)
  finished s over inv k = (
    all_stopped_of s.workers (omega arith),
    finalize_lem weather requests s.results served inv.slots k
        (λ i lt. ground (arith, inv.once i, held_of_stopped s.workers i (omega arith))) inv.own,
  )

  -- A further turn for a worker that has not stopped.
  is_effective-append :
      (schedule : List ℕ) (w : ℕ) (s s' : Running)
      → is_effective p limits route weather requests schedule s ≡ true
      → turns p limits route weather requests schedule s ≡ ok s'
      → can_go_on (get_elem? s'.workers w) ≡ true
      → is_effective p limits route weather requests (schedule ++ (w ∷ [])) s ≡ true
  unfolding turns is_effective
  is_effective-append [] w s s' e run going =
      let same : s' ≡ s = cc in
      let going1 : can_go_on (get_elem? s.workers w) ≡ true =
        subst (λ (t : Running). can_go_on (get_elem? t.workers w) ≡ true) same going in
      rw going1 (if_ok-true (turn p limits route weather requests w s))
  is_effective-append (v ∷ rest) w s s' e run going =
      let next = turn p limits route weather requests v s in
      let goes_on = is_effective p limits route weather requests rest in
      let (going0, later) = and_parts (can_go_on (get_elem? s.workers v)) (if_ok goes_on next) e in
      let (s1, stepped, run1) = >>=-parts next (turns p limits route weather requests rest) run in
      let later1 : goes_on s1 ≡ true = rw stepped at later in
      rw (going0, stepped) (is_effective-append rest w s1 s' later1 run1 going)

  -- Workers that have all stopped have no turn left.
  nothing_left :
      (s : Running)
      → all_stopped s.workers ≡ true
      → IsExact p limits route weather requests served s
      → potential p limits route weather requests s ≡ 0
  nothing_left s e inv =
      let taken = inv.over 0 (stopped_of_all s.workers e inv.crew) in
      omega (arith, taken, turns_left_of_stopped s.workers e)

  -- A worker that can go on has a turn left.
  some_turn_left :
      (s : Running) (w : ℕ)
      → can_go_on (get_elem? s.workers w) ≡ true
      → IsExact p limits route weather requests served s
      → 0 < potential p limits route weather requests s
  some_turn_left s w going inv = omega (arith, turns_left_of_runnable s.workers w going)

module _ (p : Platform) (limits : Limits) (route : RouteBinding) (weather : Weather) where
  -- Where every request of a batch is served one after the other, at least one worker runs and the
  -- signal is not aborted: a schedule that gives each turn to a worker that has not stopped either
  -- has twice as many turns as requests and one for each worker, and then the batch reports exactly
  -- those results in order, or it has fewer, and then another turn can be given.
  pub execute_batch_lem :
      (batch_id : String) (requests : List NormalizedRequest) (served : List RequestResult)
      (concurrency : ℕ) (schedule : List ℕ)
      → serve_all p limits route weather requests 0 ≡ ok served
      → 0 < concurrency
      → weather.aborted_before ≡ false
      → weather.aborted ≡ false
      → is_effective p limits route weather requests schedule
          (start p limits route weather requests concurrency)
        ≡ true
      → ((length schedule ≡ 2 * length requests + concurrency)
          × (execute_batch p limits route weather batch_id requests concurrency schedule
              ≡ some (ok (report_of weather batch_id concurrency served))))
        ⊎ ((length schedule < 2 * length requests + concurrency)
            × (w : ℕ) × (is_effective p limits route weather requests
                  (schedule ++ (w ∷ []))
                  (start p limits route weather requests concurrency)
                ≡ true))
  unfolding execute_batch throw_if_aborted
  execute_batch_lem batch_id requests served c schedule each some_worker before after e =
      let (len, own) = serve_all_lem p limits route weather requests 0 served each in
      let serves : Serves p limits route weather requests served =
        λ i q at. own i i q (omega arith) at in
      let first = start p limits route weather requests c in
      let inv0 = start-IsExact p limits route weather requests served serves c some_worker in
      let total = potential-start p limits route weather requests served serves c in
      let (s, run, inv, spent) =
        turns_lem p limits route weather requests served serves schedule first e inv0 in
      elim (Bool-cases (all_stopped s.workers)) [
        | inl stop ↦
            let over = nothing_left p limits route weather requests served serves s stop inv in
            let table = (finished p limits route weather requests served serves s over inv len).1 in
            inl (omega arith, rw (before, run, stop, after, table) refl)
        | inr running ↦
            let (w, going) = runnable s.workers running in
            let more =
              is_effective-append p limits route weather requests served serves schedule w first s e
                run going in
            let left = some_turn_left p limits route weather requests served serves s w going inv in
            inr (omega arith, w, more)
      ]
