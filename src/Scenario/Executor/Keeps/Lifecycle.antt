-- ===== src/Scenario/Executor/Keeps/Lifecycle.antt =====
-- What a whole execution keeps.
use testy_mc_testface.Prelude.{ℕ, String, List, [], ◌∷◌, Option, none, some}
use testy_mc_testface.Process.{read}
use testy_mc_testface.Process.Keeps.{Keeps, settle-Keeps, >>-Keeps, sync-Keeps, read-Keeps}
use testy_mc_testface.Scenario.Status.{RunStatus}
use testy_mc_testface.Scenario.Errors.{Thrown, SanitizedError}
use testy_mc_testface.Scenario.Types.{Steps, Outcome}
use testy_mc_testface.Scenario.World.{World, CleanupEntry, CompensationEntry, detach}
use testy_mc_testface.Scenario.World.Await.{Code, Returned, undefined, value, ended, report}
use testy_mc_testface.Scenario.Executor.Actions.{Setup}
use testy_mc_testface.Scenario.Executor.Lifecycle.{
  move_to, push_error, announce, moved, enter, run_phases, run_body, enter_unless_there, conclude,
  collecting, compensate, release_lease, clean, compensate_all, clean_all, clean_up, report_of,
  clean_up_and_report, execute_scenario, finish,
}
use testy_mc_testface.Scenario.Executor.Keeps.{
  StepRule, await-Keeps, check_abort-Keeps, if-Keeps, invoke_action-Keeps, execute_steps-Keeps,
  thrown-Keeps, ret_idle-Keeps, done-Keeps, write-Keeps,
}

pub record LifecycleRule (R : World → World → Type 0) : Type 0 where
  pub steps : StepRule R
  pub moves : (s : RunStatus) (w : World) → R w (move_to s w)
  pub collects : (e : SanitizedError) (w : World) → R w (push_error e w)
  pub detaches : (w : World) → R w (detach w)

module _ (R : World → World → Type 0) (rule : LifecycleRule R) (setup : Setup) where
  read_code-Keeps : (g : World → Code) → ((w : World) → Keeps R (g w)) → Keeps R (read g)
  read_code-Keeps g h = read-Keeps R rule.steps.stay g h

  announce-Keeps : (s : RunStatus) → Keeps R (announce setup s)
  unfolding announce
  announce-Keeps s =
      >>-Keeps R _ _ (await-Keeps R rule.steps _)
        (read_code-Keeps _ (λ v. await-Keeps R rule.steps _))

  moved-Keeps : (s t : RunStatus) (o : Option RunStatus) → Keeps R (moved setup s t o)
  unfolding moved
  moved-Keeps s t none = thrown-Keeps R rule.steps _
  moved-Keeps s t (some _) = announce-Keeps t

  enter-Keeps : (s : RunStatus) → Keeps R (enter setup s)
  unfolding enter
  enter-Keeps s = sync-Keeps R _ _ (rule.moves s) (λ w. moved-Keeps w.status s _)

  run_phases-Keeps : (ps : List (RunStatus × Steps)) → Keeps R (run_phases setup ps)
  unfolding run_phases
  run_phases-Keeps [] = done-Keeps R rule.steps
  run_phases-Keeps ((status, steps) ∷ rest) =
      >>-Keeps R _ _
        (>>-Keeps R _ _ (>>-Keeps R _ _ (check_abort-Keeps R rule.steps _) (enter-Keeps status))
          (execute_steps-Keeps R rule.steps setup status steps _))
        (run_phases-Keeps rest)

  run_body-Keeps : Keeps R (run_body setup)
  unfolding run_body
  run_body-Keeps =
      >>-Keeps R _ _ (>>-Keeps R _ _ (enter-Keeps _) (run_phases-Keeps _)) (enter-Keeps _)

  enter_unless_there-Keeps : (s : RunStatus) → Keeps R (enter_unless_there setup s)
  unfolding enter_unless_there
  enter_unless_there-Keeps s =
      read_code-Keeps _ (λ w. if-Keeps R rule.steps _ _ _ (done-Keeps R rule.steps) (enter-Keeps s))

  conclude-Keeps : (e : Thrown) → Keeps R (conclude setup e)
  unfolding conclude
  conclude-Keeps e = read_code-Keeps _ (λ w.
      if-Keeps R rule.steps _ _ _
        (>>-Keeps R _ _ (>>-Keeps R _ _ (enter_unless_there-Keeps _) (enter-Keeps _))
          (ret_idle-Keeps R rule.steps _))
        (>>-Keeps R _ _ (enter_unless_there-Keeps _) (ret_idle-Keeps R rule.steps _)))

  collecting-Keeps : (p : Code) → Keeps R p → Keeps R (collecting setup p)
  unfolding collecting
  collecting-Keeps p h =
      settle-Keeps R p _ _ h (ret_idle-Keeps R rule.steps)
        (λ e. write-Keeps R rule.steps _ _ (rule.collects _))

  compensate-Keeps : (c : CompensationEntry) → Keeps R (compensate setup c)
  unfolding compensate
  compensate-Keeps c = collecting-Keeps _ (
      >>-Keeps R _ _ (invoke_action-Keeps R rule.steps setup _ _ _ _)
        (read_code-Keeps _ (λ w. await-Keeps R rule.steps _)))

  release_lease-Keeps : (id : Option String) → Keeps R (release_lease setup id)
  unfolding release_lease
  release_lease-Keeps none = done-Keeps R rule.steps
  release_lease-Keeps (some id) = read_code-Keeps _ (λ w. await-Keeps R rule.steps _)

  clean-Keeps : (c : CleanupEntry) → Keeps R (clean setup c)
  unfolding clean
  clean-Keeps c = collecting-Keeps _ (
      >>-Keeps R _ _ (>>-Keeps R _ _ (await-Keeps R rule.steps _) (release_lease-Keeps c.lease_id))
        (read_code-Keeps _ (λ w. await-Keeps R rule.steps _)))

  compensate_all-Keeps : (cs : List CompensationEntry) → Keeps R (compensate_all setup cs)
  unfolding compensate_all
  compensate_all-Keeps [] = done-Keeps R rule.steps
  compensate_all-Keeps (c ∷ cs) = >>-Keeps R _ _ (compensate-Keeps c) (compensate_all-Keeps cs)

  clean_all-Keeps : (cs : List CleanupEntry) → Keeps R (clean_all setup cs)
  unfolding clean_all
  clean_all-Keeps [] = done-Keeps R rule.steps
  clean_all-Keeps (c ∷ cs) = >>-Keeps R _ _ (clean-Keeps c) (clean_all-Keeps cs)

  clean_up-Keeps : (o : Outcome) (e : Option Thrown) → Keeps R (clean_up setup o e)
  unfolding clean_up
  clean_up-Keeps o e =
      >>-Keeps R _ _
        (>>-Keeps R _ _
          (>>-Keeps R _ _ (enter-Keeps _) (
            if-Keeps R rule.steps _ _ _ (done-Keeps R rule.steps)
              (read_code-Keeps _ (λ w. compensate_all-Keeps _))))
          (read_code-Keeps _ (λ w. clean_all-Keeps _)))
        (read_code-Keeps _ (λ w. >>-Keeps R _ _ (enter-Keeps _) (ret_idle-Keeps R rule.steps _)))

  report_of-Keeps : (started : ℕ) (v : Returned) → Keeps R (report_of setup started v)
  unfolding report_of
  report_of-Keeps started (ended outcome error) =
      read_code-Keeps _ (λ w. ret_idle-Keeps R rule.steps _)
  report_of-Keeps started undefined = ret_idle-Keeps R rule.steps _
  report_of-Keeps started (value v) = ret_idle-Keeps R rule.steps _
  report_of-Keeps started (report r) = ret_idle-Keeps R rule.steps _

  clean_up_and_report-Keeps :
      (started : ℕ) (v : Returned) → Keeps R (clean_up_and_report setup started v)
  unfolding clean_up_and_report
  clean_up_and_report-Keeps started (ended outcome error) =
      settle-Keeps R _ _ _ (clean_up-Keeps outcome error) (report_of-Keeps started)
        (λ e. sync-Keeps R _ _ (rule.collects _) (λ _. report_of-Keeps started _))
  clean_up_and_report-Keeps started undefined = ret_idle-Keeps R rule.steps _
  clean_up_and_report-Keeps started (value v) = ret_idle-Keeps R rule.steps _
  clean_up_and_report-Keeps started (report r) = ret_idle-Keeps R rule.steps _

  pub execute_scenario-Keeps : (started : ℕ) → Keeps R (execute_scenario setup started)
  unfolding execute_scenario finish
  execute_scenario-Keeps started =
      settle-Keeps R _ _ _
        (settle-Keeps R _ _ _ run_body-Keeps (λ _. ret_idle-Keeps R rule.steps _) conclude-Keeps)
        (λ v. sync-Keeps R _ _ rule.detaches (λ _. clean_up_and_report-Keeps started v))
        (λ e. sync-Keeps R _ _ rule.detaches (λ _. thrown-Keeps R rule.steps e))
