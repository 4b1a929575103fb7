-- ===== src/Scenario/Executor/Keeps.antt =====
-- Relations between states that the executor's steps keep, whatever the handlers and the observer
-- answer and in whatever order the children of a group go on.
pub mod Lifecycle
use testy_mc_testface.Prelude.{
  ℕ, zero, suc, ◌+◌, ◌≡◌, refl, String, Bool, true, false, ◌||◌, List, [], ◌∷◌, Option, none, some,
  leb, ◌==◌, if◌then◌else◌,
}
use testy_mc_testface.Process.{idle, ret, throw, sync, settle, race, read, write}
use testy_mc_testface.Process.Keeps.{
  Keeps, settle-Keeps, >>=-Keeps, >>-Keeps, par-Keeps, race-Keeps, fail_if-Keeps, read-Keeps,
  ret-Keeps, throw-Keeps, sync-Keeps, call-Keeps,
}
use testy_mc_testface.Scenario.Errors.{Thrown}
use testy_mc_testface.Scenario.Value.{Value}
use testy_mc_testface.Scenario.Status.{RunStatus}
use testy_mc_testface.Scenario.Types.{
  TaskStep, PollStep, RetryPolicy, ActionCall, StepKind, Step, Steps, task, poll, parallel, repeat,
  condition, condition_else, nil, cons, task_kind, poll_kind,
}
use testy_mc_testface.Scenario.World.{
  World, Signal, CleanupEntry, abort_group, thrown_if_aborted, abort_reason,
}
use testy_mc_testface.Scenario.World.Await.{
  Code, Request, Registration, register_cleanup, register_lease, Reply, Answer, resolves, rejects,
  pends, Returned, await, advance, answered, done, push_cleanup, set_output, on_step,
}
use testy_mc_testface.Scenario.Executor.Actions.{
  Setup, check_abort, abortable_delay, count_attempt, next_attempt, register, register_all,
  run_handler, run_with_timeout, invoke_action, try_action, attempts_from, execute_attempted_action,
  max_attempts, backoff, started_record, failed_record,
}
use testy_mc_testface.Scenario.Executor.Steps.{
  add_compensation, repeated, start_group, with_group, group_child, execute_task, poll_until,
  execute_poll, limited, execute_step, execute_steps, execute_children, condition_matches, Tested,
  met, unmet, broken, branch,
}

-- The relation holds for each change of state that the steps of a scenario make.
pub record StepRule (R : World → World → Type 0) : Type 0 where
  pub stay : (w : World) → R w w
  pub advances : (r : Reply) (w : World) → R w (advance r w)
  pub registers : (e : CleanupEntry) (w : World) → R w (push_cleanup e w)
  pub counts : (id : String) (w : World) → R w (count_attempt id w)
  pub outputs : (id : String) (v : Returned) (w : World) → R w (set_output id v w)
  pub compensates :
      (id : String) (c : Option ActionCall) (w : World) → R w (add_compensation id c w)
  pub groups : (w : World) → R w (start_group w)
  pub aborts : (i : ℕ) (e : Thrown) (w : World) → R w (abort_group i e w)

module _ (R : World → World → Type 0) (rule : StepRule R) where
  idle-Keeps : Keeps {Q = Request} {P = Reply} {V = Returned} {E = Thrown} R idle
  unfolding Keeps
  idle-Keeps = tt

  answered-Keeps : (a : Answer) → Keeps R (answered a)
  unfolding answered
  answered-Keeps (resolves v) = ret-Keeps R _ _ idle-Keeps
  answered-Keeps (rejects e) = throw-Keeps R _ _ idle-Keeps
  answered-Keeps pends = idle-Keeps

  pub thrown-Keeps : (e : Thrown) → Keeps {Q = Request} {P = Reply} {V = Returned} R (throw e idle)
  thrown-Keeps e = throw-Keeps R e idle idle-Keeps

  pub ret_idle-Keeps : (v : Returned) → Keeps {Q = Request} {P = Reply} {E = Thrown} R (ret v idle)
  ret_idle-Keeps v = ret-Keeps R v idle idle-Keeps

  pub done-Keeps : Keeps R done
  unfolding done
  done-Keeps = ret_idle-Keeps _

  pub write-Keeps :
      (f : World → World) (v : Returned)
      → ((w : World) → R w (f w))
      → Keeps {Q = Request} {P = Reply} {E = Thrown} R (write f v)
  unfolding write
  write-Keeps f v h = sync-Keeps R f _ h (λ _. ret_idle-Keeps v)

  pub await-Keeps : (q : Request) → Keeps R (await q)
  unfolding await
  await-Keeps q =
      call-Keeps R q _ (λ r. sync-Keeps R _ _ (rule.advances r) (λ _. answered-Keeps r.answer))

  pub check_abort-Keeps : (s : Signal) → Keeps R (check_abort s)
  unfolding check_abort
  check_abort-Keeps s =
      read-Keeps R rule.stay _
        (λ w. fail_if-Keeps R (thrown_if_aborted s w) idle done idle-Keeps done-Keeps)

  branch-Keeps : (t : Tested) (p q : Code) → Keeps R p → Keeps R q → Keeps R (branch t p q)
  unfolding branch
  branch-Keeps met p q hp hq = hp
  branch-Keeps unmet p q hp hq = hq
  branch-Keeps (broken e) p q hp hq = thrown-Keeps e

  pub if-Keeps : (b : Bool) (p q : Code) → Keeps R p → Keeps R q → Keeps R (if b then p else q)
  if-Keeps true p q hp hq = hp
  if-Keeps false p q hp hq = hq

  abortable_delay-Keeps : (ms : ℕ) (s : Signal) → Keeps R (abortable_delay ms s)
  unfolding abortable_delay
  abortable_delay-Keeps ms s =
      >>-Keeps R _ _ (check_abort-Keeps s) (
        if-Keeps (ms == 0) _ _ (check_abort-Keeps s) (race-Keeps R rule.stay _ _ _ (await-Keeps _)))

  module _ (setup : Setup) where
    register-Keeps : (r : Registration) → Keeps R (register setup r)
    unfolding register
    register-Keeps (register_cleanup name cleanup) = (write-Keeps _ _ (rule.registers _))
    register-Keeps (register_lease id type key expires cleanup) =
        >>-Keeps R _ _ (await-Keeps _) (write-Keeps _ _ (rule.registers _))

    register_all-Keeps : (rs : List Registration) → Keeps R (register_all setup rs)
    unfolding register_all
    register_all-Keeps [] = done-Keeps
    register_all-Keeps (r ∷ rs) = >>-Keeps R _ _ (register-Keeps r) (register_all-Keeps rs)

    run_handler-Keeps :
        (name : String) (input : Option Value) → Keeps R (run_handler setup name input)
    unfolding run_handler
    run_handler-Keeps name input = read-Keeps R rule.stay _ (λ w. call-Keeps R _ _ (λ r.
        sync-Keeps R _ _ (rule.advances r)
          (λ _. >>-Keeps R _ _ (register_all-Keeps r.registrations) (answered-Keeps r.answer))))

    run_with_timeout-Keeps :
        (operation : Signal → Code) (ms : ℕ) (s : Signal) (label : String)
        → ((t : Signal) → Keeps R (operation t))
        → Keeps R (run_with_timeout setup operation ms s label)
    unfolding run_with_timeout
    run_with_timeout-Keeps operation ms s label h =
        read-Keeps R rule.stay _ (λ w. race-Keeps R rule.stay _ _ _ (h _))

    pub invoke_action-Keeps :
        (name : String) (input : Option Value) (s : Signal) (timeout : Option ℕ)
        → Keeps R (invoke_action setup name input s timeout)
    unfolding invoke_action
    invoke_action-Keeps name input s none =
        if-Keeps (setup.registered name) _ _
          (race-Keeps R rule.stay _ _ _ (run_handler-Keeps name input)) (thrown-Keeps _)
    invoke_action-Keeps name input s (some ms) =
        if-Keeps (setup.registered name) _ _
          (run_with_timeout-Keeps _ ms s _ (λ _. run_handler-Keeps name input)) (thrown-Keeps _)

    module _ (step_id : String) (kind : StepKind) (action : String) (input : Option Value)
        (retry : Option RetryPolicy) (timeout : Option ℕ) (phase : RunStatus) (s : Signal) where
      attempts_from-Keeps :
          (left attempt : ℕ)
          → Keeps R
              (attempts_from setup step_id kind action input retry timeout phase s left attempt)
      unfolding attempts_from try_action
      attempts_from-Keeps zero attempt = thrown-Keeps _
      attempts_from-Keeps (suc left) attempt = >>-Keeps R _ _ (check_abort-Keeps s) (
          sync-Keeps R _ _ (rule.counts step_id) (λ w. >>-Keeps R _ _ (await-Keeps _) (
            settle-Keeps R _ _ _
              (>>=-Keeps R _ _ (invoke_action-Keeps action input s timeout) (λ v.
                >>-Keeps R _ _ (read-Keeps R rule.stay _ (λ u. await-Keeps _)) (ret_idle-Keeps v)))
              ret_idle-Keeps
              (λ e. read-Keeps R rule.stay _ (λ u. >>-Keeps R _ _ (await-Keeps _) (
                if-Keeps _ _ _ (thrown-Keeps e) (
                  >>-Keeps R _ _ (abortable_delay-Keeps _ s)
                    (attempts_from-Keeps left (attempt + 1)))))))))

      execute_attempted_action-Keeps :
          Keeps R (execute_attempted_action setup step_id kind action input retry timeout phase s)
      unfolding execute_attempted_action
      execute_attempted_action-Keeps = attempts_from-Keeps _ 1

    module _ (phase : RunStatus) where
      execute_task-Keeps : (t : TaskStep) (s : Signal) → Keeps R (execute_task setup phase t s)
      unfolding execute_task
      execute_task-Keeps t s =
          >>=-Keeps R _ _ (execute_attempted_action-Keeps _ _ _ _ _ _ _ s) (λ v.
            >>-Keeps R _ _ (write-Keeps _ _ (rule.outputs t.id v))
              (write-Keeps _ _ (rule.compensates t.id t.compensate)))

      poll_until-Keeps :
          (p : PollStep) (deadline rounds : ℕ) (s : Signal)
          → Keeps R (poll_until setup phase p deadline rounds s)
      unfolding poll_until
      poll_until-Keeps p deadline zero s = idle-Keeps
      poll_until-Keeps p deadline (suc rounds) s = read-Keeps R rule.stay _ (λ w.
          if-Keeps (leb w.now deadline) _ _
            (>>=-Keeps R _ _ (execute_attempted_action-Keeps _ _ _ _ _ _ _ s) (λ v.
              sync-Keeps R _ _ (rule.outputs p.id v) (λ _. read-Keeps R rule.stay _ (λ u.
                branch-Keeps _ _ _ done-Keeps (
                  >>-Keeps R _ _ (abortable_delay-Keeps p.interval_ms s)
                    (poll_until-Keeps p deadline rounds s))))))
            (thrown-Keeps _))

      execute_poll-Keeps : (p : PollStep) (s : Signal) → Keeps R (execute_poll setup phase p s)
      unfolding execute_poll
      execute_poll-Keeps p s = read-Keeps R rule.stay _ (λ w. poll_until-Keeps p _ _ s)

      limited-Keeps :
          (id : String) (timeout : Option ℕ) (execute : Signal → Code) (s : Signal)
          → ((t : Signal) → Keeps R (execute t))
          → Keeps R (limited setup phase id timeout execute s)
      unfolding limited
      limited-Keeps id none execute s h = h s
      limited-Keeps id (some ms) execute s h = run_with_timeout-Keeps execute ms s _ h

      repeated-Keeps : (n : ℕ) (p : Code) → Keeps R p → Keeps R (repeated n p)
      unfolding repeated
      repeated-Keeps zero p h = done-Keeps
      repeated-Keeps (suc n) p h = >>-Keeps R _ _ h (repeated-Keeps n p h)

      group_child-Keeps : (i : ℕ) (p : Code) → Keeps R p → Keeps R (group_child i p)
      unfolding group_child
      group_child-Keeps i p h =
          settle-Keeps R p _ _ h ret_idle-Keeps
            (λ e. sync-Keeps R _ _ (rule.aborts i e) (λ _. thrown-Keeps e))

      mutual
        unfolding execute_step execute_steps execute_children with_group

        execute_step-Keeps : (x : Step) (s : Signal) → Keeps R (execute_step setup phase x s)
        execute_step-Keeps (task t) s = execute_task-Keeps t s
        execute_step-Keeps (poll p) s =
            limited-Keeps p.id p.timeout_ms _ s (λ t. execute_poll-Keeps p t)
        execute_step-Keeps (parallel id timeout steps) s =
            limited-Keeps id timeout _ s
              (λ t. sync-Keeps R _ _ rule.groups (λ w. execute_children-Keeps steps _ _))
        execute_step-Keeps (repeat id timeout times steps) s =
            limited-Keeps id timeout _ s (λ t. repeated-Keeps times _ (execute_steps-Keeps steps t))
        execute_step-Keeps (condition id timeout c thens) s = limited-Keeps id timeout _ s (λ t.
            read-Keeps R rule.stay _
              (λ w. branch-Keeps _ _ _ (execute_steps-Keeps thens t) done-Keeps))
        execute_step-Keeps (condition_else id timeout c thens elses) s =
            limited-Keeps id timeout _ s (λ t.
              read-Keeps R rule.stay _ (λ w.
                branch-Keeps _ _ _ (execute_steps-Keeps thens t) (execute_steps-Keeps elses t)))

        pub execute_steps-Keeps :
            (xs : Steps) (s : Signal) → Keeps R (execute_steps setup phase xs s)
        execute_steps-Keeps nil s = done-Keeps
        execute_steps-Keeps (cons x xs) s =
            >>-Keeps R _ _ (>>-Keeps R _ _ (check_abort-Keeps s) (execute_step-Keeps x s))
              (execute_steps-Keeps xs s)

        execute_children-Keeps :
            (xs : Steps) (i : ℕ) (g : Signal) → Keeps R (execute_children setup phase xs i g)
        execute_children-Keeps nil i g = done-Keeps
        execute_children-Keeps (cons x xs) i g =
            par-Keeps R _ _ (group_child-Keeps i _ (execute_step-Keeps x g))
              (execute_children-Keeps xs i g)
