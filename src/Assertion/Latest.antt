-- ===== src/Assertion/Latest.antt =====
-- The last attempt at a step.
use testy_mc_testface.Prelude.{
  ℕ, ◌≤◌, ◌≡◌, refl, subst, ◌⊎◌, inl, inr, String, Bool, true, false, List, [], ◌∷◌, some, arith,
  All, leb, str_eq, select, last?, if◌then◌else◌, Bool-cases, Option-cases, eq_iff,
}
use testy_mc_testface.Scenario.Types.{
  StepRecord, StepStatus, step_passed, step_running, step_failed, step_cancelled, step_skipped,
}
use testy_mc_testface.Scenario.Repository.Reports.{AssertionSnapshot}
use testy_mc_testface.Assertion.{Platform}
use testy_mc_testface.Assertion.Matching.{insert_sorted, sort_by}
use testy_mc_testface.Assertion.Verdicts.{latest_step, evaluate_step, step_status_text}

abbrev pub Occurs : {A : Type 0} → A → List A → Type 0
Occurs a [] = ⊥
Occurs a (x ∷ xs) = (x ≡ a) ⊎ Occurs a xs

Occurs-select :
    {A : Type 0} (q : A → Bool) (a : A) (xs : List A)
    → Occurs a (select q xs)
    → Occurs a xs × (q a ≡ true)
Occurs-select q a [] o = absurd o
Occurs-select q a (x ∷ xs) o = elim (Bool-cases (q x)) [
  | inl hit ↦ elim (subst (λ b. Occurs a (if b then x ∷ select q xs else select q xs)) hit o) [
    | inl e ↦ (inl e, subst (λ y. q y ≡ true) e hit)
    | inr later ↦ let (p, t) = Occurs-select q a xs later in (inr p, t)
  ]
  | inr miss ↦
      let (p, t) =
        Occurs-select q a xs
          (subst (λ b. Occurs a (if b then x ∷ select q xs else select q xs)) miss o) in
      (inr p, t)
]

All-select {ℓ κ} :
    {A : Type ℓ} (q : A → Bool) (P : A → Type κ) (xs : List A)
    → All P (select q xs)
    → All (λ x. (q x ≡ false) ⊎ P x) xs
All-select q P [] h = tt
All-select q P (x ∷ xs) h = elim (Bool-cases (q x)) [
  | inl hit ↦
      let (p, t) = subst (λ b. All P (if b then x ∷ select q xs else select q xs)) hit h in
      (inr p, All-select q P xs t)
  | inr miss ↦ (
    inl miss,
    All-select q P xs (subst (λ b. All P (if b then x ∷ select q xs else select q xs)) miss h),
  )
]

last?-Occurs : {A : Type 0} (xs : List A) (a : A) → last? xs ≡ some a → Occurs a xs
last?-Occurs [] a h = cc
last?-Occurs (x ∷ []) a h = inl (cc)
last?-Occurs (x ∷ y ∷ xs) a h = inr (last?-Occurs (y ∷ xs) a h)

-- Steps in the order of their attempts.
abbrev earlier : StepRecord → StepRecord → Bool
earlier l r = leb l.attempt r.attempt

Occurs-insert_sorted :
    (a x : StepRecord) (xs : List StepRecord)
    → Occurs a (insert_sorted earlier x xs)
    → (x ≡ a) ⊎ Occurs a xs
unfolding insert_sorted
Occurs-insert_sorted a x [] o = o
Occurs-insert_sorted a x (y ∷ xs) o = elim (Bool-cases (earlier x y)) [
  | inl hit ↦ rw (hit, insert_sorted) at o
  | inr miss ↦ elim (rw (miss, insert_sorted) at o) [
    | inl e ↦ inr (inl e)
    | inr later ↦ elim (Occurs-insert_sorted a x xs later) [
      | inl e ↦ inl e
      | inr there ↦ inr (inr there)
    ]
  ]
]

Occurs-sort_by :
    (a : StepRecord) (xs : List StepRecord) → Occurs a (sort_by earlier xs) → Occurs a xs
unfolding sort_by
Occurs-sort_by a [] o = o
Occurs-sort_by a (x ∷ xs) o = elim (Occurs-insert_sorted a x (sort_by earlier xs) o) [
  | inl e ↦ inl e
  | inr there ↦ inr (Occurs-sort_by a xs there)
]

module _ (limit : ℕ) where
  abbrev Below : StepRecord → Type 0
  Below s = s.attempt ≤ limit

  All-insert_sorted :
      (x : StepRecord) (xs : List StepRecord)
      → All Below (insert_sorted earlier x xs)
      → Below x × All Below xs
  unfolding insert_sorted
  All-insert_sorted x [] h = h
  All-insert_sorted x (y ∷ xs) h = elim (Bool-cases (earlier x y)) [
    | inl hit ↦ rw (hit, insert_sorted) at h
    | inr miss ↦
        let (here, later) = rw (miss, insert_sorted) at h in
        let (own, rest) = All-insert_sorted x xs later in (own, (here, rest))
  ]

  All-sort_by : (xs : List StepRecord) → All Below (sort_by earlier xs) → All Below xs
  unfolding sort_by
  All-sort_by [] h = h
  All-sort_by (x ∷ xs) h =
      let (own, rest) = All-insert_sorted x (sort_by earlier xs) h in (own, All-sort_by xs rest)

-- Each attempt is at most the next.
abbrev Ascends : List StepRecord → Type 0
Ascends [] = Unit
Ascends (x ∷ []) = Unit
Ascends (x ∷ y ∷ xs) = (x.attempt ≤ y.attempt) × Ascends (y ∷ xs)

Ascends-insert_sorted :
    (x : StepRecord) (xs : List StepRecord) → Ascends xs → Ascends (insert_sorted earlier x xs)
unfolding insert_sorted
Ascends-insert_sorted x [] h = tt
Ascends-insert_sorted x (y ∷ []) h = elim (Bool-cases (earlier x y)) [
  | inl hit ↦ rw (hit, insert_sorted) (ground (arith, hit), tt)
  | inr miss ↦ rw (miss, insert_sorted) (ground (arith, miss), tt)
]
Ascends-insert_sorted x (y ∷ z ∷ xs) (le, h) = elim (Bool-cases (earlier x y)) [
  | inl hit ↦ rw (hit, insert_sorted) (ground (arith, hit), (le, h))
  | inr miss ↦ elim (Bool-cases (earlier x z)) [
    | inl before ↦
        rw (miss, insert_sorted, before) (ground (arith, miss), (ground (arith, before), h))
    | inr after ↦
        let later = Ascends-insert_sorted x (z ∷ xs) h in
        rw (miss, insert_sorted, after) (le, rw (after, insert_sorted) at later)
  ]
]

Ascends-sort_by : (xs : List StepRecord) → Ascends (sort_by earlier xs)
unfolding sort_by
Ascends-sort_by [] = tt
Ascends-sort_by (x ∷ xs) = Ascends-insert_sorted x (sort_by earlier xs) (Ascends-sort_by xs)

last?-highest :
    (xs : List StepRecord) (a : StepRecord)
    → Ascends xs
    → last? xs ≡ some a
    → All (λ (s : StepRecord). s.attempt ≤ a.attempt) xs
last?-highest [] a h e = tt
last?-highest (x ∷ []) a h e = (ground (arith, e), tt)
last?-highest (x ∷ y ∷ xs) a (le, h) e =
    let rest = last?-highest (y ∷ xs) a h e in (omega (arith, rest.0), rest)

abbrev pub is_step : String → StepRecord → Bool
is_step step_id s = str_eq s.step_id step_id

only_passed : (s : StepStatus) → str_eq (step_status_text s) "PASSED" ≡ true → s ≡ step_passed
only_passed step_passed h = refl
only_passed step_running h = cc
only_passed step_failed h = cc
only_passed step_cancelled h = cc
only_passed step_skipped h = cc

-- The assertion on a step passes only if the last attempt at it has passed: there is a record of it
-- that passed, and no record of the step has a higher attempt.
pub evaluate_step_passed :
    (p : Platform) (step_id : String) (snapshot : AssertionSnapshot)
    → (evaluate_step p step_id snapshot).passed ≡ true
    → (r : StepRecord) × Occurs r snapshot.steps
      × (r.step_id ≡ step_id)
      × (r.status ≡ step_passed)
      × All
          (λ (s : StepRecord). (is_step step_id s ≡ false) ⊎ (s.attempt ≤ r.attempt))
          snapshot.steps
unfolding evaluate_step latest_step
evaluate_step_passed p step_id snapshot h =
    let own = select (is_step step_id) snapshot.steps in
    let sorted = sort_by earlier own in
    elim (Option-cases (last? sorted)) [
      | inl missing ↦ let h' = rw missing at h in cc h'
      | inr (r, found) ↦
          let (there, named) =
            Occurs-select (is_step step_id) r snapshot.steps
              (Occurs-sort_by r own (last?-Occurs sorted r found)) in
          (
            r,
            there,
            (eq_iff r.step_id step_id).0 named,
            only_passed r.status (rw found at h),
            All-select (is_step step_id) (λ (s : StepRecord). s.attempt ≤ r.attempt) snapshot.steps
                (All-sort_by r.attempt own (last?-highest sorted r (Ascends-sort_by own) found)),
          )
    ]
