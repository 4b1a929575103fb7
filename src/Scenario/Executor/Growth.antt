-- ===== src/Scenario/Executor/Growth.antt =====
-- What only grows in the course of an execution.
use testy_mc_testface.Prelude.{
  ℕ, ◌≤◌, ◌≡◌, refl, sym, ◌∙◌, String, List, [], ◌++◌, Option, none, some, arith, lookup,
  lookup-insert, or_else, eq_iff, str_eq, if◌then◌else◌,
}
use mathlib.Core.List.{append-nil, append_assoc}
use testy_mc_testface.Process.Runs.{Event, run, run-Keeps_later}
use testy_mc_testface.Scenario.Errors.{Thrown, SanitizedError}
use testy_mc_testface.Scenario.Status.{RunStatus, transition}
use testy_mc_testface.Scenario.Types.{ActionCall}
use testy_mc_testface.Scenario.World.{World, CleanupEntry, abort_group, detach}
use testy_mc_testface.Scenario.World.Await.{
  Reply, Returned, undefined, value, ended, report, advance, push_cleanup, set_output,
}
use testy_mc_testface.Scenario.Executor.Actions.{Setup, count_attempt, next_attempt}
use testy_mc_testface.Scenario.Executor.Steps.{add_compensation}
use testy_mc_testface.Scenario.Executor.Lifecycle.{move_to, push_error, execute_scenario}
use testy_mc_testface.Scenario.Executor.Keeps.Lifecycle.{LifecycleRule, execute_scenario-Keeps}

-- The second list goes on where the first ends.
abbrev pub Extends {ℓ} : {A : Type ℓ} → List A → List A → Type ℓ
Extends {A} xs ys = (zs : List A) × (ys ≡ xs ++ zs)

Extends-same {ℓ} : {A : Type ℓ} (xs : List A) → Extends xs xs
Extends-same xs = ([], sym (append-nil xs))

Extends-trans {ℓ} : {A : Type ℓ} (xs ys zs : List A) → Extends xs ys → Extends ys zs → Extends xs zs
Extends-trans xs ys zs (a, p) (b, q) = (a ++ b, rw (q, p) (append_assoc xs a b))

abbrev pub attempts_of : String → World → ℕ
attempts_of id w = or_else (lookup id w.attempts) 0

-- No entry that was registered is lost or moved, no attempt is forgotten, time does not go back.
pub record Grows (v w : World) : Type 0 where
  pub cleanups : Extends v.cleanups w.cleanups
  pub compensations : Extends v.compensations w.compensations
  pub errors : Extends v.cleanup_errors w.cleanup_errors
  pub counted : (id : String) → attempts_of id v ≤ attempts_of id w
  pub later : v.now ≤ w.now

-- The parts of the state are those of before, but for the clock.
Grows-of_same :
    (v w : World)
    → w.cleanups ≡ v.cleanups
    → w.compensations ≡ v.compensations
    → w.cleanup_errors ≡ v.cleanup_errors
    → w.attempts ≡ v.attempts
    → v.now ≤ w.now
    → Grows v w
Grows-of_same v w a b c d e = record {
  cleanups = ([], a ∙ sym (append-nil v.cleanups));
  compensations = ([], b ∙ sym (append-nil v.compensations));
  errors = ([], c ∙ sym (append-nil v.cleanup_errors));
  counted = λ id. rw d (omega arith);
  later = e;
}

Grows-refl : (w : World) → Grows w w
Grows-refl w = Grows-of_same w w refl refl refl refl (omega arith)

Grows-trans : (u v w : World) → Grows u v → Grows v w → Grows u w
Grows-trans u v w g h = record {
  cleanups = Extends-trans _ _ _ g.cleanups h.cleanups;
  compensations = Extends-trans _ _ _ g.compensations h.compensations;
  errors = Extends-trans _ _ _ g.errors h.errors;
  counted = λ id. omega (arith, g.counted id, h.counted id);
  later = omega (arith, g.later, h.later);
}

count_attempt-Grows : (id : String) (w : World) → Grows w (count_attempt id w)
unfolding count_attempt
count_attempt-Grows id w = record {
  cleanups = Extends-same _;
  compensations = Extends-same _;
  errors = Extends-same _;
  counted = λ j. rw (lookup-insert id j (next_attempt id w) w.attempts) (grows j);
  later = omega arith;
}
  where
    grows :
        (j : String)
        → attempts_of j w
          ≤ or_else (if str_eq id j then some (next_attempt id w) else lookup j w.attempts) 0
    grows j = ground (arith, eq_iff id j)

set_output-Grows : (id : String) (v : Returned) (w : World) → Grows w (set_output id v w)
unfolding set_output
set_output-Grows id (value v) w = Grows-of_same w _ refl refl refl refl (omega arith)
set_output-Grows id undefined w = Grows-refl w
set_output-Grows id (ended o e) w = Grows-refl w
set_output-Grows id (report r) w = Grows-refl w

add_compensation-Grows :
    (id : String) (c : Option ActionCall) (w : World) → Grows w (add_compensation id c w)
add_compensation-Grows id none w = Grows-refl w
add_compensation-Grows id (some c) w = record {
  cleanups = Extends-same _;
  compensations = (_, refl);
  errors = Extends-same _;
  counted = λ j. omega arith;
  later = omega arith;
}

push_cleanup-Grows : (e : CleanupEntry) (w : World) → Grows w (push_cleanup e w)
unfolding push_cleanup
push_cleanup-Grows e w = record {
  cleanups = (_, refl);
  compensations = Extends-same _;
  errors = Extends-same _;
  counted = λ j. omega arith;
  later = omega arith;
}

push_error-Grows : (e : SanitizedError) (w : World) → Grows w (push_error e w)
push_error-Grows e w = record {
  cleanups = Extends-same _;
  compensations = Extends-same _;
  errors = (_, refl);
  counted = λ j. omega arith;
  later = omega arith;
}

advance-Grows : (r : Reply) (w : World) → Grows w (advance r w)
unfolding advance
advance-Grows r w = Grows-of_same w _ refl refl refl refl (omega arith)

abort_group-Grows : (i : ℕ) (e : Thrown) (w : World) → Grows w (abort_group i e w)
unfolding abort_group
abort_group-Grows i e w = Grows-of_same w _ refl refl refl refl (omega arith)

detach-Grows : (w : World) → Grows w (detach w)
unfolding detach
detach-Grows w = Grows-of_same w _ refl refl refl refl (omega arith)

move_to-Grows : (s : RunStatus) (w : World) → Grows w (move_to s w)
unfolding move_to
move_to-Grows s w = moves (transition w.status s)
  where
    moves :
        (o : Option RunStatus) → Grows w (elim o [ none ↦ w | some t ↦ record w { status = t } ])
    moves none = Grows-refl w
    moves (some t) = Grows-of_same w _ refl refl refl refl (omega arith)

Grows-rule : LifecycleRule Grows
Grows-rule = record {
  steps = record {
    stay = Grows-refl;
    advances = advance-Grows;
    registers = push_cleanup-Grows;
    counts = count_attempt-Grows;
    outputs = set_output-Grows;
    compensates = add_compensation-Grows;
    groups = λ w. Grows-of_same w _ refl refl refl refl (omega arith);
    aborts = abort_group-Grows;
  };
  moves = move_to-Grows;
  collects = push_error-Grows;
  detaches = detach-Grows;
}

-- At any two points of one execution, whatever is answered and in whatever order the children of
-- parallel groups and abandoned work go on: the cleanups, compensations and cleanup errors that the
-- state has at the first point are the beginnings of those at the second, no attempt counter falls,
-- and the clock does not go back.
pub execute_scenario-Grows :
    (setup : Setup) (started : ℕ) (w : World) (es more : List (Event Reply))
    → Grows
        (run (execute_scenario setup started) w es).world
        (run (execute_scenario setup started) w (es ++ more)).world
execute_scenario-Grows setup started w es more =
    run-Keeps_later Grows Grows-refl Grows-trans (execute_scenario setup started) w es more
      (execute_scenario-Keeps Grows Grows-rule setup started)
