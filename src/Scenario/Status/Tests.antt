-- ===== src/Scenario/Status/Tests.antt =====
-- The tests of packages/scenario-engine/test/state-machine.test.ts, and a path.
use testy_mc_testface.Prelude.{◌≡◌, refl, [], ◌∷◌, none, some}
use testy_mc_testface.Scenario.Status.{
  transition, created, validating, allocating, running, cleanup,
}
use testy_mc_testface.Scenario.Status.Paths.{PathFrom, here, enters, history, history-PathFrom}

legal : transition created validating ≡ some validating
unfolding transition
legal = refl

illegal : transition running cleanup ≡ none
unfolding transition
illegal = refl

two_steps : PathFrom created allocating (validating ∷ allocating ∷ [])
unfolding transition
two_steps = enters (enters here refl refl) refl refl

history-PathFrom_example : validating ∷ allocating ∷ [] ≡ history allocating
history-PathFrom_example = history-PathFrom two_steps ((λ e. cc), ((λ e. cc), tt)) tt
