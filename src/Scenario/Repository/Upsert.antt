-- ===== src/Scenario/Repository/Upsert.antt =====
-- Records that are kept once for each key.
use testy_mc_testface.Prelude.{
  ℕ, ◌≡◌, ◌≢◌, ◌↔◌, ◌⊎◌, Option, none, some, eq_refl, refl, ap, ◌∙◌, sym, String, Bool, true, ◌&&◌,
  List, [], ◌∷◌, arith, All, eq_iff, str_eq, ◌==◌, Bool-cases, inl, inr, lookup-insert,
  if◌then◌else◌, Table, insert,
}
use testy_mc_testface.Scenario.Types.{StepRecord}
use testy_mc_testface.Scenario.Repository.{Repository, list_of, replace_first, record_step}

-- No two records of the list have one key.
module _ {ℓ} {A : Type ℓ} (key : A → String × ℕ) where
  abbrev pub HasDistinctKeys : List A → Type 0
  HasDistinctKeys [] = Unit
  HasDistinctKeys (x ∷ xs) = All (λ y. key y ≢ key x) xs × HasDistinctKeys xs

  module _ (v : A) (matches : A → Bool)
      (match_iff : (x : A) → (matches x ≡ true) ↔ (key x ≡ key v)) where
    All-replace_first :
        (P : String × ℕ → Type 0) (xs : List A)
        → All (λ y. P (key y)) xs
        → P (key v)
        → All (λ y. P (key y)) (replace_first matches v xs)
    unfolding replace_first
    All-replace_first P [] h p = (p, tt)
    All-replace_first P (x ∷ xs) (q, h) p = elim (Bool-cases (matches x)) [
      | inl hit ↦ rw (hit, replace_first) (p, h)
      | inr miss ↦ rw (miss, replace_first) (q, All-replace_first P xs h p)
    ]

    pub replace_first-HasDistinctKeys :
        (xs : List A) → HasDistinctKeys xs → HasDistinctKeys (replace_first matches v xs)
    unfolding replace_first
    replace_first-HasDistinctKeys [] h = (tt, tt)
    replace_first-HasDistinctKeys (x ∷ xs) (away, h) = elim (Bool-cases (matches x)) [
      | inl hit ↦ rw (hit, replace_first) (rw ((match_iff x).0 hit) at away, h)
      | inr miss ↦
          rw (miss, replace_first)
            (
              All-replace_first (λ k. k ≢ key x) xs away (λ e. cc ((match_iff x).1 (sym e))),
              replace_first-HasDistinctKeys xs h,
            )
    ]

abbrev pub step_key : StepRecord → String × ℕ
step_key s = (s.step_id, s.attempt)

-- At most one record for each step and attempt, in every run.
abbrev pub IsKeyed : Repository → Type 0
IsKeyed r = (run : String) → HasDistinctKeys step_key (list_of r.steps run)

abbrev pub is_for : (step_id : String) (attempt : ℕ) → StepRecord → Bool
is_for id attempt c = str_eq c.step_id id && c.attempt == attempt

-- The first record of a step's attempt.
abbrev pub find_step : (step_id : String) (attempt : ℕ) → List StepRecord → Option StepRecord
find_step id attempt [] = none
find_step id attempt (x ∷ rest) = if is_for id attempt x then some x else find_step id attempt rest

find_step-replace_first :
    (s : StepRecord) (xs : List StepRecord)
    → find_step s.step_id s.attempt (replace_first (is_for s.step_id s.attempt) s xs) ≡ some s
unfolding replace_first
find_step-replace_first s [] = ground (arith, eq_refl s.step_id)
find_step-replace_first s (x ∷ xs) = elim (Bool-cases (is_for s.step_id s.attempt x)) [
  | inl hit ↦ rw (hit, replace_first) (ground (arith, eq_refl s.step_id))
  | inr miss ↦ rw (miss, replace_first) (rw miss (find_step-replace_first s xs))
]

find_step-replace_first_other :
    (s : StepRecord) (id : String) (attempt : ℕ) (xs : List StepRecord)
    → (id ≢ s.step_id) ⊎ (attempt ≢ s.attempt)
    → find_step id attempt (replace_first (is_for s.step_id s.attempt) s xs)
      ≡ find_step id attempt xs
unfolding replace_first
find_step-replace_first_other s id n [] h = ground (arith, eq_iff s.step_id id)
find_step-replace_first_other s id n (x ∷ xs) h = elim (Bool-cases (is_for s.step_id s.attempt x)) [
  | inl hit ↦
      rw (hit, replace_first)
        (ground (arith, eq_iff s.step_id id, eq_iff x.step_id id, eq_iff x.step_id s.step_id))
  | inr miss ↦
      rw (miss, replace_first)
        (ap (λ later. if is_for id n x then some x else later)
          (find_step-replace_first_other s id n xs h))
]

step_matches_iff :
    (s c : StepRecord) → (is_for s.step_id s.attempt c ≡ true) ↔ (step_key c ≡ step_key s)
step_matches_iff s c = ground (arith, eq_iff c.step_id s.step_id)

list_of-insert :
    (run other : String) (xs : List StepRecord) (t : Table (List StepRecord))
    → list_of (insert run xs t) other ≡ (if str_eq run other then xs else list_of t other)
unfolding list_of
list_of-insert run other xs t = rw (lookup-insert run other xs t) (ground arith)

-- What a record changes, and what it leaves.
pub record IsRecorded (s : StepRecord) (r after : Repository) : Type 0 where
  pub keyed : IsKeyed after
  pub found : find_step s.step_id s.attempt (list_of after.steps s.run_id) ≡ some s
  pub others :
      (id : String) (attempt : ℕ)
      → (id ≢ s.step_id) ⊎ (attempt ≢ s.attempt)
      → find_step id attempt (list_of after.steps s.run_id)
        ≡ find_step id attempt (list_of r.steps s.run_id)
  pub elsewhere : (run : String) → s.run_id ≢ run → list_of after.steps run ≡ list_of r.steps run

-- Recording a step keeps at most one record for each step and attempt in every run. The record of
-- that step and attempt is then the new one, so that a step's outcome takes the place of the record
-- that it is running; those of other steps and attempts, and the other runs, are as they were.
pub record_step-IsRecorded :
    (s : StepRecord) (r : Repository) → IsKeyed r → IsRecorded s r (record_step s r)
unfolding record_step
record_step-IsRecorded s r h =
    let old = list_of r.steps s.run_id in
    let new = replace_first (is_for s.step_id s.attempt) s old in
    let there : list_of (insert s.run_id new r.steps) s.run_id ≡ new =
      rw (list_of-insert s.run_id s.run_id new r.steps, eq_refl s.run_id) refl in
    record {
      keyed = λ run.
          rw (list_of-insert s.run_id run new r.steps) (elim (Bool-cases (str_eq s.run_id run)) [
            | inl same ↦
                rw same
                  (replace_first-HasDistinctKeys step_key s _ (step_matches_iff s) old (h s.run_id))
            | inr other ↦ rw other (h run)
          ]);
      found = ap (find_step s.step_id s.attempt) there ∙ find_step-replace_first s old;
      others =
          λ id n apart. ap (find_step id n) there ∙ find_step-replace_first_other s id n old apart;
      elsewhere =
          λ run away. list_of-insert s.run_id run new r.steps ∙ ground (arith, eq_iff s.run_id run);
    }
