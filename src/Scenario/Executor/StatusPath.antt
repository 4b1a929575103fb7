-- ===== src/Scenario/Executor/StatusPath.antt =====
-- The statuses that an execution goes through.
use testy_mc_testface.Prelude.{ℕ, ◌≡◌, refl, ◌⊎◌, inl, inr, List, Option, none, some, String}
use testy_mc_testface.Process.Runs.{
  Event, run, states, last_from, last_from-states, Chain, states-Chain,
}
use testy_mc_testface.Scenario.Errors.{Thrown}
use testy_mc_testface.Scenario.Status.{RunStatus, created, transition}
use testy_mc_testface.Scenario.Status.Paths.{transition-some}
use testy_mc_testface.Scenario.Types.{ActionCall}
use testy_mc_testface.Scenario.World.{World, start_world, detach, abort_group}
use testy_mc_testface.Scenario.World.Await.{
  Reply, Returned, undefined, value, ended, report, advance, push_cleanup, set_output,
}
use testy_mc_testface.Scenario.Executor.Actions.{Setup, count_attempt}
use testy_mc_testface.Scenario.Executor.Steps.{add_compensation}
use testy_mc_testface.Scenario.Executor.Lifecycle.{move_to, execute_scenario, initial}
use testy_mc_testface.Scenario.Executor.Keeps.Lifecycle.{LifecycleRule, execute_scenario-Keeps}

-- The status stays, or the table allows the change.
abbrev pub Moves : World → World → Type 0
Moves v w = (w.status ≡ v.status) ⊎ (transition v.status w.status ≡ some w.status)

move_to-Moves : (s : RunStatus) (w : World) → Moves w (move_to s w)
unfolding move_to
move_to-Moves s w = moves (transition w.status s) refl
  where
    moves :
        (o : Option RunStatus)
        → transition w.status s ≡ o
        → Moves w (elim o [ none ↦ w | some t ↦ record w { status = t } ])
    moves none e = inl refl
    moves (some t) e = let same : t ≡ s = transition-some w.status s t e in inr (rw (← same) at e)

set_output-Moves : (id : String) (v : Returned) (w : World) → Moves w (set_output id v w)
unfolding set_output
set_output-Moves id (value v) w = inl refl
set_output-Moves id undefined w = inl refl
set_output-Moves id (ended o e) w = inl refl
set_output-Moves id (report r) w = inl refl

add_compensation-Moves :
    (id : String) (c : Option ActionCall) (w : World) → Moves w (add_compensation id c w)
add_compensation-Moves id none w = inl refl
add_compensation-Moves id (some c) w = inl refl

Moves-rule : LifecycleRule Moves
unfolding advance push_cleanup count_attempt abort_group detach
Moves-rule = record {
  steps = record {
    stay = λ w. inl refl;
    advances = λ r w. inl refl;
    registers = λ e w. inl refl;
    counts = λ id w. inl refl;
    outputs = set_output-Moves;
    compensates = add_compensation-Moves;
    groups = λ w. inl refl;
    aborts = λ i e w. inl refl;
  };
  moves = move_to-Moves;
  collects = λ e w. inl refl;
  detaches = λ w. inl refl;
}

-- An execution begins at CREATED, and however far it comes, whatever is answered and in whatever
-- order its parts go on: each of the states that it goes through has the status of the state before
-- it, or one to which the table of the state machine allows a transition from there. The last of
-- these states is the one that the execution has reached.
pub execute_scenario-Moves :
    (setup : Setup) (started : ℕ) (aborted : Option Thrown) (es : List (Event Reply))
    → let start = initial setup started aborted in
      let through = states (execute_scenario setup started) start es in
      (start.status ≡ created)
      × Chain Moves start through
      × (last_from start through ≡ (run (execute_scenario setup started) start es).world)
unfolding initial start_world
execute_scenario-Moves setup started aborted es =
    let start = initial setup started aborted in
    (
      refl,
      states-Chain Moves (execute_scenario setup started) start es
          (execute_scenario-Keeps Moves Moves-rule setup started),
      last_from-states (execute_scenario setup started) start es,
    )
