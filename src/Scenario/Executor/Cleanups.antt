-- ===== src/Scenario/Executor/Cleanups.antt =====
-- The cleanup loop of packages/scenario-engine/src/executor.ts calls every callback, once and in
-- order, whatever fails on the way.
use mathlib.Core.List.{append-nil, append_assoc}
use testy_mc_testface.Prelude.{
  ◌≡◌, refl, sym, subst, ◌∙◌, ap, String, List, [], ◌∷◌, ◌++◌, Option, none, some,
}
use testy_mc_testface.Process.{write}
use testy_mc_testface.Process.Runs.{Event, run}
use testy_mc_testface.Process.Ends.{
  Ends, sync-Ends, read-Ends, call-Ends, settle-Ends, >>-Ends, run-Ends, picked, Reached,
}
use testy_mc_testface.Scenario.World.{World, CleanupEntry}
use testy_mc_testface.Scenario.World.Await.{
  Request, Reply, Answer, resolves, rejects, pends, run_cleanup, on_resource_released, await,
  answered, done,
}
use testy_mc_testface.Scenario.Executor.Actions.{Setup}
use testy_mc_testface.Scenario.Executor.Lifecycle.{collecting, release_lease, clean, clean_all}

-- The callback that a request calls.
abbrev pub callback : Request → List CleanupEntry
callback (run_cleanup c) = c ∷ []
callback _ = []

abbrev Exactly : List CleanupEntry → List CleanupEntry → Type 0
Exactly l m = m ≡ l

abbrev Never : List CleanupEntry → Type 0
Never _ = ⊥

answered-Ends :
    (l : List CleanupEntry) (a : Answer) → Ends callback (Exactly l) (Exactly l) l (answered a)
unfolding answered Ends
answered-Ends l (resolves v) = (refl, refl)
answered-Ends l (rejects e) = (refl, refl)
answered-Ends l pends = tt

await-Ends :
    (l : List CleanupEntry) (q : Request)
    → Ends callback (Exactly (l ++ callback q)) (Exactly (l ++ callback q)) l (await q)
unfolding await
await-Ends l q =
    call-Ends callback _ _ l q _
      (λ r. sync-Ends callback _ _ _ _ _ (λ w. answered-Ends (l ++ callback q) r.answer))

-- A request that calls no callback.
quiet-Ends :
    (l : List CleanupEntry) (q : Request)
    → callback q ≡ []
    → Ends callback (Exactly l) (Exactly l) l (await q)
quiet-Ends l q e =
    subst (λ m. Ends callback (Exactly m) (Exactly m) l (await q))
      (ap (λ x. l ++ x) e ∙ append-nil l) (await-Ends l q)

module _ (setup : Setup) where
  release_lease-Ends :
      (l : List CleanupEntry) (id : Option String)
      → Ends callback (Exactly l) (Exactly l) l (release_lease setup id)
  unfolding release_lease done Ends
  release_lease-Ends l none = (refl, refl)
  release_lease-Ends l (some id) =
      read-Ends callback _ _ l _ (λ w. quiet-Ends l (on_resource_released id w.now) refl)

  clean-Ends :
      (l : List CleanupEntry) (c : CleanupEntry)
      → Ends callback (Exactly (l ++ c ∷ [])) Never l (clean setup c)
  unfolding clean collecting
  clean-Ends l c =
      let m : List CleanupEntry = l ++ c ∷ [] in
      settle-Ends callback (Exactly m) (Exactly m) (Exactly m) Never l _ _ _
        (>>-Ends callback (Exactly m) (Exactly m) (Exactly m) l _ _
          (>>-Ends callback (Exactly m) (Exactly m) (Exactly m) l _ _ (await-Ends l (run_cleanup c))
            (λ k e. rw e (release_lease-Ends m c.lease_id)))
          (λ k e. rw e (read-Ends callback _ _ m _ (λ w. quiet-Ends m _ refl))))
        (λ k v e. unfold Ends in (e, refl)) (λ k x e. unfold Ends write in (λ w. (e, refl)))

  clean_all-Ends :
      (l cs : List CleanupEntry) → Ends callback (Exactly (l ++ cs)) Never l (clean_all setup cs)
  unfolding clean_all done Ends
  clean_all-Ends l [] = (sym (append-nil l), refl)
  clean_all-Ends l (c ∷ cs) =
      >>-Ends callback (Exactly (l ++ c ∷ [])) (Exactly (l ++ c ∷ cs)) Never l _ _ (clean-Ends l c)
        (λ k e. rw e (
          subst (λ m. Ends callback (Exactly m) Never (l ++ c ∷ []) (clean_all setup cs))
            (append_assoc l (c ∷ []) cs) (clean_all-Ends (l ++ c ∷ []) cs)))

-- The cleanup loop never throws, and where it returns it has called every callback of the list,
-- each once and in the order of the list, whatever the callbacks and the observer answered.
pub clean_all_calls :
    (setup : Setup) (cs : List CleanupEntry) (w : World) (es : List (Event Reply))
    → Reached
        (λ l. l ≡ cs)
        (λ _. ⊥)
        (picked callback (run (clean_all setup cs) w es).calls)
        (run (clean_all setup cs) w es).status
clean_all_calls setup cs w es =
    run-Ends callback (Exactly cs) Never [] (clean_all setup cs) w es (clean_all-Ends setup [] cs)
