-- ===== src/ControlPlane/RunService/Recovery.antt =====
-- After a restart no interrupted run is left, but for the interactive demo's.
use testy_mc_testface.Prelude.{
  ◌⊎◌, ◌≢◌, ◌≡◌, refl, sym, ap, ◌∙◌, String, Bool, true, false, not, List, [], ◌∷◌, Option, none,
  some, Table, lookup, str_eq, eq_iff, select, All, if◌then◌else◌, arith, Bool-cases, inl, inr,
}
use testy_mc_testface.Scenario.Types.{Outcome, passed_outcome, failed_outcome, cancelled_outcome}
use testy_mc_testface.Scenario.Repository.{Repository, list_active_runs, is_terminal, entries}
use testy_mc_testface.Scenario.Repository.Records.{PersistedRun}
use testy_mc_testface.ControlPlane.RunService.{
  Service, status_of, recovery_outcome, recover_run, is_demo, recover_runs,
  recover_interrupted_runs,
}
use testy_mc_testface.ControlPlane.RunService.Settled.{settled_run, lease_errors, recover_run_lem}

-- No key stands twice.
abbrev pub HasDistinctKeys : Table PersistedRun → Type 0
HasDistinctKeys [] = Unit {0}
HasDistinctKeys ((key, run) ∷ rest) = (lookup key rest ≡ none) × HasDistinctKeys rest

-- A store of runs under their own identities, each once.
pub record IsStore (runs : Table PersistedRun) : Type 0 where
  pub keyed : All (λ (e : String × PersistedRun). e.1.id ≡ e.0) runs
  pub once : HasDistinctKeys runs

-- A run that a list still holds.
abbrev Waits : String → List PersistedRun → Type 0
Waits id [] = ⊥
Waits id (run ∷ rest) = (run.id ≡ id) ⊎ Waits id rest

-- A run that is stored, of the same scenario.
abbrev IsKnown : Table PersistedRun → PersistedRun → Type 0
IsKnown runs run =
    (stored : PersistedRun) × (lookup run.id runs ≡ some stored)
    × (stored.scenario_id ≡ run.scenario_id)

status_of-is_terminal : (v : Service) (o : Outcome) → is_terminal (status_of v o) ≡ true
unfolding is_terminal
status_of-is_terminal v passed_outcome = refl
status_of-is_terminal v failed_outcome = refl
status_of-is_terminal v cancelled_outcome = refl

module _ (v : Service) where
  abbrev pub IsAtRest : PersistedRun → Type 0
  IsAtRest run = (is_terminal run.status ≡ true) ⊎ (is_demo v run ≡ true)

  abbrev AreSettledBut : List PersistedRun → Table PersistedRun → Type 0
  AreSettledBut waiting runs =
      (id : String) (stored : PersistedRun)
      → lookup id runs ≡ some stored
      → IsAtRest stored ⊎ Waits id waiting

  -- A round for a run of the demo changes nothing.
  demo_round :
      (run : PersistedRun) (rest : List PersistedRun) (runs : Table PersistedRun)
      → is_demo v run ≡ true
      → IsKnown runs run
      → AreSettledBut (run ∷ rest) runs
      → AreSettledBut rest runs
  demo_round run rest runs demo (known, there, scenario) settled id stored h =
      elim (settled id stored h) [
        | inl at_rest ↦ inl at_rest
        | inr (inl same) ↦
            let found : known ≡ stored = cc in
            let e : stored.scenario_id ≡ run.scenario_id =
              ap (λ (t : PersistedRun). t.scenario_id) (sym found) ∙ scenario in
            inl (inr (rw e demo))
        | inr (inr later) ↦ inr later
      ]

  -- What is stored under an identity after a round.
  abbrev After : PersistedRun → PersistedRun → Table PersistedRun → Table PersistedRun → Type 0
  After run new runs runs' =
      (lookup run.id runs' ≡ some new)
      × ((other : String) → run.id ≢ other → lookup other runs' ≡ lookup other runs)

  apart : (a b : String) → str_eq a b ≡ false → a ≢ b
  apart a b h e = ground (arith, eq_iff a b)

  round-IsKnown :
      (run new : PersistedRun) (runs runs' : Table PersistedRun) (other : PersistedRun)
      → After run new runs runs'
      → new.scenario_id ≡ run.scenario_id
      → IsKnown runs run
      → IsKnown runs other
      → IsKnown runs' other
  round-IsKnown run new runs runs' other (there, others) kept (k, hk, ek) (o, ho, eo) =
      elim (Bool-cases (str_eq run.id other.id)) [
        | inl same ↦
            let e : run.id ≡ other.id = (eq_iff run.id other.id).0 same in
            let found : k ≡ o = cc in
            let scenario : k.scenario_id ≡ o.scenario_id =
              ap (λ (t : PersistedRun). t.scenario_id) found in
            (
              new,
              sym (ap (λ (i : String). lookup i runs') e) ∙ there,
              kept ∙ sym ek ∙ scenario ∙ eo,
            )
        | inr away ↦ (o, others other.id (apart run.id other.id away) ∙ ho, eo)
      ]

  round-AreSettledBut :
      (run new : PersistedRun) (rest : List PersistedRun) (runs runs' : Table PersistedRun)
      → After run new runs runs'
      → is_terminal new.status ≡ true
      → AreSettledBut (run ∷ rest) runs
      → AreSettledBut rest runs'
  round-AreSettledBut run new rest runs runs' (there, others) ended settled id stored h =
      elim (Bool-cases (str_eq run.id id)) [
        | inl same ↦
            let e : run.id ≡ id = (eq_iff run.id id).0 same in
            let here : lookup id runs' ≡ some new =
              sym (ap (λ (i : String). lookup i runs') e) ∙ there in
            let found : new ≡ stored = cc in
            inl (inl (ap (λ (t : PersistedRun). is_terminal t.status) (sym found) ∙ ended))
        | inr away ↦
            let differ = apart run.id id away in
            let old : lookup id runs ≡ some stored = sym (others id differ) ∙ h in
            elim (settled id stored old) [
              | inl at_rest ↦ inl at_rest
              | inr (inl same) ↦ absurd (differ same)
              | inr (inr later) ↦ inr later
            ]
      ]

  All-IsKnown :
      (run new : PersistedRun) (runs runs' : Table PersistedRun) (others : List PersistedRun)
      → After run new runs runs'
      → new.scenario_id ≡ run.scenario_id
      → IsKnown runs run
      → All (IsKnown runs) others
      → All (IsKnown runs') others
  All-IsKnown run new runs runs' [] after kept known all = tt
  All-IsKnown run new runs runs' (other ∷ rest) after kept known all = (
    round-IsKnown run new runs runs' other after kept known all.0,
    All-IsKnown run new runs runs' rest after kept known all.1,
  )

  abbrev skip_or : Bool → PersistedRun → Repository → Option Repository
  skip_or demo run r = if demo then some r else recover_run v run r

  recover_runs_lem :
      (waiting : List PersistedRun) (r : Repository)
      → All (IsKnown r.runs) waiting
      → AreSettledBut waiting r.runs
      → (r' : Repository) × (recover_runs v waiting r ≡ some r') × AreSettledBut [] r'.runs
  unfolding recover_runs
  recover_runs_lem [] r known settled = (r, refl, settled)
  recover_runs_lem (run ∷ rest) r known settled = elim (Bool-cases (is_demo v run)) [
    | inl demo ↦
        let (r', done, over) =
          recover_runs_lem rest r known.1 (demo_round run rest r.runs demo known.0 settled) in
        (r', rw demo done, over)
    | inr plain ↦
        let (stored, there, scenario) = known.0 in
        let errors = lease_errors v run r in
        let new = settled_run v run stored errors in
        let (r1, made, settles, leaves) = recover_run_lem v run stored r there in
        let ended = status_of-is_terminal v (recovery_outcome v run errors) in
        let known1 =
          All-IsKnown run new r.runs r1.runs rest (settles, leaves) scenario known.0 known.1 in
        let settled1 =
          round-AreSettledBut run new rest r.runs r1.runs (settles, leaves) ended settled in
        let (r', done, over) = recover_runs_lem rest r1 known1 settled1 in
        (r', rw (plain, made) done, over)
  ]

-- The runs of a table, by their own identities.
abbrev IsOwn : Table PersistedRun → PersistedRun → Type 0
IsOwn runs run = lookup run.id runs ≡ some run

lookup-here :
    (id key : String) (run : PersistedRun) (rest : Table PersistedRun)
    → id ≡ key
    → lookup id ((key, run) ∷ rest) ≡ some run
unfolding lookup
lookup-here id key run rest e =
    let same : str_eq key id ≡ true = (eq_iff key id).1 (sym e) in rw (same, lookup) refl

lookup-past :
    (id key : String) (run : PersistedRun) (rest : Table PersistedRun)
    → str_eq key id ≡ false
    → lookup id ((key, run) ∷ rest) ≡ lookup id rest
unfolding lookup
lookup-past id key run rest away = rw (away, lookup) refl

All-IsOwn-cons :
    (key : String) (value : PersistedRun) (rest : Table PersistedRun) (xs : List PersistedRun)
    → lookup key rest ≡ none
    → All (IsOwn rest) xs
    → All (IsOwn ((key, value) ∷ rest)) xs
All-IsOwn-cons key value rest [] free all = tt
All-IsOwn-cons key value rest (x ∷ xs) free all = (
  elim (Bool-cases (str_eq key x.id)) [
    | inl same ↦
        let e : key ≡ x.id = (eq_iff key x.id).0 same in
        let there : lookup key rest ≡ some x = ap (λ (i : String). lookup i rest) e ∙ all.0 in
        absurd (cc)
    | inr away ↦ lookup-past x.id key value rest away ∙ all.0
  ],
  All-IsOwn-cons key value rest xs free all.1,
)

entries-IsOwn : (runs : Table PersistedRun) → IsStore runs → All (IsOwn runs) (entries runs)
entries-IsOwn [] s = tt
entries-IsOwn ((key, run) ∷ rest) s = (
  lookup-here run.id key run rest s.keyed.0,
  All-IsOwn-cons key run rest (entries rest) s.once.0
      (entries-IsOwn rest (record { keyed = s.keyed.1; once = s.once.1 })),
)

-- The active runs are known, and every other run is at rest.
select-IsKnown :
    (test : PersistedRun → Bool) (runs : Table PersistedRun) (xs : List PersistedRun)
    → All (IsOwn runs) xs
    → All (IsKnown runs) (select test xs)
select-IsKnown test runs [] all = tt
select-IsKnown test runs (x ∷ xs) all = elim (Bool-cases (test x)) [
  | inl chosen ↦ rw (chosen, select) ((x, all.0, refl), select-IsKnown test runs xs all.1)
  | inr left ↦ rw (left, select) (select-IsKnown test runs xs all.1)
]

Waits-cons :
    (test : PersistedRun → Bool) (id : String) (x : PersistedRun) (xs : List PersistedRun)
    → Waits id (select test xs)
    → Waits id (select test (x ∷ xs))
Waits-cons test id x xs w = elim (Bool-cases (test x)) [
  | inl chosen ↦ rw (chosen, select) (inr w)
  | inr left ↦ rw (left, select) w
]

select-Waits :
    (test : PersistedRun → Bool) (runs : Table PersistedRun) (id : String) (run : PersistedRun)
    → All (λ (e : String × PersistedRun). e.1.id ≡ e.0) runs
    → lookup id runs ≡ some run
    → (test run ≡ false) ⊎ Waits id (select test (entries runs))
unfolding lookup
select-Waits test [] id run keyed h = cc
select-Waits test ((key, x) ∷ rest) id run keyed h = elim (Bool-cases (str_eq key id)) [
  | inl same ↦
      let e : id ≡ key = sym ((eq_iff key id).0 same) in
      let here = lookup-here id key x rest e in
      let found : run ≡ x = cc in
      elim (Bool-cases (test x)) [
        | inl chosen ↦ inr (rw (chosen, select) (inl (keyed.0 ∙ sym e)))
        | inr left ↦ inl (ap test found ∙ left)
      ]
  | inr away ↦
      elim (select-Waits test rest id run keyed.1 (sym (lookup-past id key x rest away) ∙ h)) [
        | inl left ↦ inl left
        | inr later ↦ inr (Waits-cons test id x (entries rest) later)
      ]
]

-- The runs that were not asked to be recovered are at rest.
not-false : (b : Bool) → not b ≡ false → b ≡ true
not-false true h = refl
not-false false h = cc

IsAtRest-or :
    (v : Service) (id : String) (run : PersistedRun) (waiting : List PersistedRun)
    → (not (is_terminal run.status) ≡ false) ⊎ Waits id waiting
    → IsAtRest v run ⊎ Waits id waiting
IsAtRest-or v id run waiting (inl ended) = inl (inl (not-false (is_terminal run.status) ended))
IsAtRest-or v id run waiting (inr w) = inr w

no_longer :
    (v : Service) (id : String) (run : PersistedRun) → IsAtRest v run ⊎ Waits id [] → IsAtRest v run
no_longer v id run (inl at_rest) = at_rest
no_longer v id run (inr w) = elim w [ ]

-- A recovery after a restart never throws, and afterwards every stored run has ended, but for those of
-- the interactive demo, if each run is stored once and under its identity.
pub recover_interrupted_runs-IsAtRest :
    (v : Service) (r : Repository)
    → IsStore r.runs
    → (r' : Repository) × (recover_interrupted_runs v r ≡ some r')
      × ((id : String) (run : PersistedRun) → lookup id r'.runs ≡ some run → IsAtRest v run)
unfolding recover_interrupted_runs list_active_runs
recover_interrupted_runs-IsAtRest v r s =
    let live = λ (run : PersistedRun). not (is_terminal run.status) in
    let known = select-IsKnown live r.runs (entries r.runs) (entries-IsOwn r.runs s) in
    let settled = λ (id : String) (run : PersistedRun) (h : lookup id r.runs ≡ some run).
      IsAtRest-or v id run (select live (entries r.runs))
        (select-Waits live r.runs id run s.keyed h) in
    let (r', done, over) = recover_runs_lem v (select live (entries r.runs)) r known settled in
    (r', done, λ id run h. no_longer v id run (over id run h))
