-- ===== src/Scenario/Status/Paths.antt =====
-- The paths that the table of packages/scenario-engine/src/state-machine.ts allows.
use testy_mc_testface.Prelude.{◌≡◌, ◌≢◌, refl, sym, ◌∙◌, ap, List, [], ◌∷◌, ◌++◌, some, arith, All}
use testy_mc_testface.Scenario.Status.{
  RunStatus, created, validating, allocating, compiling, configuring, running, observing, asserting,
  passed, failed, cancelling, cancelled, cleanup, transition,
}

-- The machine goes from `s` to the index, and the list holds the statuses that it enters, in order.
pub data PathFrom (s : RunStatus) : RunStatus → List RunStatus → Type 0 where
  here : PathFrom s s []
  enters :
      {t u : RunStatus} {v w : List RunStatus}
      → PathFrom s t v
      → transition t u ≡ some u
      → w ≡ v ++ u ∷ []
      → PathFrom s u w

pub PathFrom-append :
    {s t u : RunStatus} {v w : List RunStatus}
    → PathFrom s t v
    → PathFrom t u w
    → (x : List RunStatus) × PathFrom s u x
PathFrom-append p here = (_, p)
PathFrom-append p (enters q step e) = (_, enters (PathFrom-append p q).1 step refl)

pub transition-some : (s t u : RunStatus) → transition s t ≡ some u → u ≡ t
unfolding transition
transition-some s t u h = ground arith

-- What is entered before the machine stands at a stage, if it has not been cleaned up.
abbrev pub history : RunStatus → List RunStatus
history validating = validating ∷ []
history allocating = validating ∷ allocating ∷ []
history compiling = validating ∷ allocating ∷ compiling ∷ []
history configuring = validating ∷ allocating ∷ compiling ∷ configuring ∷ []
history running = validating ∷ allocating ∷ compiling ∷ configuring ∷ running ∷ []
history observing = validating ∷ allocating ∷ compiling ∷ configuring ∷ running ∷ observing ∷ []
history asserting =
    validating ∷ allocating ∷ compiling ∷ configuring ∷ running ∷ observing ∷ asserting ∷ []
history passed =
    validating ∷ allocating ∷ compiling ∷ configuring ∷ running ∷ observing ∷ asserting ∷ passed
    ∷ []
history _ = []

-- The stages of a run that nothing has ended, and its success.
abbrev pub IsStage : RunStatus → Type 0
IsStage failed = ⊥
IsStage cancelling = ⊥
IsStage cancelled = ⊥
IsStage cleanup = ⊥
IsStage _ = Unit

-- A stage is entered from the stage before it, or from cleanup.
IsStage-before :
    (t u : RunStatus)
    → transition t u ≡ some u
    → t ≢ cleanup
    → IsStage u
    → (history u ≡ history t ++ u ∷ []) × IsStage t
unfolding transition
IsStage-before created u h n s = ground arith
IsStage-before cleanup u h n s = absurd (n refl)
IsStage-before _ u h n s = ground arith

abbrev pub NotCleanup : RunStatus → Type 0
NotCleanup s = s ≢ cleanup

All-init :
    (P : RunStatus → Type 0) (v : List RunStatus) (x : RunStatus)
    → All P (v ++ x ∷ [])
    → All P v × P x
All-init P [] x h = (tt, h.0)
All-init P (y ∷ v) x h = let (a, b) = All-init P v x h.1 in ((h.0, a), b)

ends_elsewhere :
    {t : RunStatus} {v : List RunStatus} → PathFrom created t v → All NotCleanup v → t ≢ cleanup
ends_elsewhere here h = λ e. cc
ends_elsewhere (enters {v = v} p step e) h = (All-init NotCleanup v _ (rw e at h)).1

-- A run that stands at one of the stages or has passed, and has never been cleaned up, has entered
-- exactly the stages up to there, each once and in order.
pub history-PathFrom :
    {t : RunStatus} {v : List RunStatus}
    → PathFrom created t v
    → All NotCleanup v
    → IsStage t
    → v ≡ history t
history-PathFrom here h s = refl
history-PathFrom (enters {t = t} {u = u} {v = v} p step e) h s =
    let (before, _) = All-init NotCleanup v u (rw e at h) in
    let (same, stage) = IsStage-before t u step (ends_elsewhere p before) s in
    e ∙ ap (λ x. x ++ u ∷ []) (history-PathFrom p before stage) ∙ sym same
