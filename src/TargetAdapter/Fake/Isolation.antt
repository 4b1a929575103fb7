-- ===== src/TargetAdapter/Fake/Isolation.antt =====
-- A cleanup takes one run away and no other, after any calls.
use testy_mc_testface.Prelude.{
  ◌≡◌, ◌≢◌, refl, ap, ◌∙◌, String, false, List, [], ◌∷◌, Option, none, some, lookup, delete,
  is_empty, Bool-cases, Option-cases, inl, inr,
}
use text.Mathlib.TextLemmas.{cons-append}
use testy_mc_testface.TargetAdapter.Fake.{
  FakeTargetState, FakeTargetAdapter, new_adapter, target_of, prepare_run, change,
  configure_vendor_endpoints, configure_synthetic_site, start_observation, forget, named,
  cleanup_target, cleanup_state, cleanup_run, snapshot, Call, preparing, endpoints, site, observing,
  cleaning_run, cleaning_target, or_before, serve_call,
}
use testy_mc_testface.TargetAdapter.Fake.Pairing.{
  lookup-delete_self, lookup-delete_other, IsPaired, new_adapter-IsPaired, change-IsPaired,
  prepare-IsPaired, forget-IsPaired,
}

named-eq-some : (found : Option String) (run : String) → named found ≡ some run → found ≡ some run
named-eq-some none run h = cc
named-eq-some (some text) run h = elim (Bool-cases (is_empty text)) [
  | inl empty ↦ let e = rw empty at h in cc
  | inr full ↦ rw full at h
]

is_empty-target_of :
    (segment_of : (run_id : String) → String) (run : String)
    → is_empty (target_of segment_of run) ≡ false
is_empty-target_of segment_of run = ap is_empty (cons-append "f" "ake-" (segment_of run))

-- Some call of a list prepares the run.
pub data Prepares (run : String) : List Call → Type 0 where
  now : (call : Call) (rest : List Call) → call ≡ preparing run → Prepares run (call ∷ rest)
  later : (call : Call) (rest : List Call) → Prepares run rest → Prepares run (call ∷ rest)

-- The adapter after some calls.
unfoldable pub serve_calls :
    ((run_id : String) → String) → List Call → FakeTargetAdapter → FakeTargetAdapter
unfolding serve_call
serve_calls segment_of [] a = a
serve_calls segment_of (call ∷ rest) a = serve_calls segment_of rest (serve_call segment_of call a)

-- What a cleanup of one run leaves.
pub record IsIsolated (run : String) (a b : FakeTargetAdapter) : Type 0 where
  pub gone : snapshot run b ≡ none
  pub others : (other : String) → run ≢ other → snapshot other b ≡ snapshot other a

module _ (segment_of : (run_id : String) → String) (Known : String → Type 0) where
  or_before-IsPaired :
      (run : String) (f : FakeTargetState → FakeTargetState) (a : FakeTargetAdapter)
      → ((t : FakeTargetState) → (f t).prepared ≡ t.prepared)
      → IsPaired segment_of Known a
      → IsPaired segment_of Known (or_before a (change run f a))
  unfolding change
  or_before-IsPaired run f a keeps paired = elim (Option-cases (lookup run a.by_run)) [
    | inl missing ↦ rw (missing, change) paired
    | inr (s, there) ↦
        rw (there, change) (change-IsPaired segment_of Known run f s a keeps there paired)
  ]

  observing-IsPaired :
      (run : String) (a : FakeTargetAdapter)
      → IsPaired segment_of Known a
      → IsPaired segment_of Known (or_before a (start_observation run a))
  unfolding start_observation change
  observing-IsPaired run a paired = elim (Option-cases (lookup run a.by_run)) [
    | inl missing ↦ rw (missing, start_observation, change) paired
    | inr (s, there) ↦
        rw (there, start_observation, change)
          (change-IsPaired segment_of Known run (λ t. record t { observation_state = "completed" })
            s a (λ t. refl) there paired)
  ]

  module _ (differ : (m n : String) → Known m → Known n → segment_of m ≡ segment_of n → m ≡ n) where
    forget-named :
        (target : String) (found : Option String) (a : FakeTargetAdapter)
        → named (lookup target a.by_target) ≡ found
        → IsPaired segment_of Known a
        → IsPaired segment_of Known (forget target found a)
    forget-named target none a e paired = paired
    forget-named target (some run) a e paired =
        forget-IsPaired segment_of Known differ target run a
          (named-eq-some (lookup target a.by_target) run e) paired

    cleanup_target-IsPaired :
        (target : String) (a : FakeTargetAdapter)
        → IsPaired segment_of Known a
        → IsPaired segment_of Known (cleanup_target target a)
    unfolding cleanup_target
    cleanup_target-IsPaired target a paired =
        forget-named target (named (lookup target a.by_target)) a refl paired

    cleanup_state-IsPaired :
        (found : Option FakeTargetState) (a : FakeTargetAdapter)
        → IsPaired segment_of Known a
        → IsPaired segment_of Known (cleanup_state found a)
    cleanup_state-IsPaired none a paired = paired
    cleanup_state-IsPaired (some s) a paired =
        elim (Bool-cases (is_empty s.prepared.target_run_id)) [
          | inl empty ↦ rw empty paired
          | inr full ↦ rw full (cleanup_target-IsPaired s.prepared.target_run_id a paired)
        ]

    serve_call-IsPaired :
        (call : Call) (a : FakeTargetAdapter)
        → ((run : String) → call ≡ preparing run → Known run)
        → IsPaired segment_of Known a
        → IsPaired segment_of Known (serve_call segment_of call a)
    unfolding serve_call prepare_run configure_vendor_endpoints configure_synthetic_site cleanup_run
    serve_call-IsPaired (preparing run) a all_known paired =
        prepare-IsPaired segment_of Known differ run (lookup run a.by_run) a (all_known run refl)
          paired
    serve_call-IsPaired (endpoints run given) a all_known paired =
        or_before-IsPaired run (λ s. record s { vendor_endpoints = given }) a (λ t. refl) paired
    serve_call-IsPaired (site run given) a all_known paired =
        or_before-IsPaired run (λ s. record s { site = some given }) a (λ t. refl) paired
    serve_call-IsPaired (observing run) a all_known paired = observing-IsPaired run a paired
    serve_call-IsPaired (cleaning_run run) a all_known paired =
        cleanup_state-IsPaired (lookup run a.by_run) a paired
    serve_call-IsPaired (cleaning_target target) a all_known paired =
        cleanup_target-IsPaired target a paired

  serve_calls-IsPaired :
      (calls : List Call) (a : FakeTargetAdapter)
      → ((m n : String) → Known m → Known n → segment_of m ≡ segment_of n → m ≡ n)
      → ((run : String) → Prepares run calls → Known run)
      → IsPaired segment_of Known a
      → IsPaired segment_of Known (serve_calls segment_of calls a)
  unfolding serve_calls
  serve_calls-IsPaired [] a differ all_known paired = paired
  serve_calls-IsPaired (call ∷ rest) a differ all_known paired =
      serve_calls-IsPaired rest (serve_call segment_of call a) differ
        (λ run later_on. all_known run (later call rest later_on))
        (serve_call-IsPaired differ call a (λ run e. all_known run (now call rest e)) paired)

  forgotten :
      (run : String) (s : FakeTargetState) (a : FakeTargetAdapter)
      → lookup run a.by_run ≡ some s
      → is_empty run ≡ false
      → IsPaired segment_of Known a
      → (cleanup_state (some s) a).by_run ≡ delete run a.by_run
  unfolding cleanup_target
  forgotten run s a there full paired =
      let (id, found) = paired.forth run s there in
      let target = s.prepared.target_run_id in
      let some_target : is_empty target ≡ false =
        ap is_empty id ∙ is_empty-target_of segment_of run in
      let own : lookup target a.by_target ≡ some run =
        ap (λ (k : String). lookup k a.by_target) id ∙ found in
      rw (some_target, cleanup_target, own, full) refl

  cleanup_run-IsIsolated :
      (run : String) (a : FakeTargetAdapter)
      → is_empty run ≡ false
      → IsPaired segment_of Known a
      → IsIsolated run a (cleanup_run run a)
  unfolding cleanup_run snapshot
  cleanup_run-IsIsolated run a full paired = elim (Option-cases (lookup run a.by_run)) [
    | inl missing ↦ rw (missing, cleanup_run) (record { gone = missing; others = λ other e. refl })
    | inr (s, there) ↦
        let left = forgotten run s a there full paired in
        rw (there, cleanup_run)
          (record {
            gone = ap (lookup run) left ∙ lookup-delete_self run a.by_run;
            others = λ other e. ap (lookup other) left ∙ lookup-delete_other run other a.by_run e;
          })
  ]

-- After any calls, a cleanup of a run with a name takes that run away and leaves every other as it is, provided
-- that the runs which the calls prepare have different segments.
pub serve_calls-IsIsolated :
    (segment_of : (run_id : String) → String) (calls : List Call) (run : String)
    → ((m n : String) → Prepares m calls → Prepares n calls → segment_of m ≡ segment_of n → m ≡ n)
    → is_empty run ≡ false
    → IsIsolated run
        (serve_calls segment_of calls new_adapter)
        (cleanup_run run (serve_calls segment_of calls new_adapter))
serve_calls-IsIsolated segment_of calls run differ full =
    let Known : String → Type 0 = λ m. Prepares m calls in
    cleanup_run-IsIsolated segment_of Known run (serve_calls segment_of calls new_adapter) full (
      serve_calls-IsPaired segment_of Known calls new_adapter differ (λ m prepares. prepares)
        (new_adapter-IsPaired segment_of Known))
