-- ===== src/Scenario/Resolver/Identities.antt =====
-- The identities of the steps of one list.
use testy_mc_testface.Prelude.{
  ◌≡◌, ◌≢◌, refl, String, true, false, List, [], ◌∷◌, str_eq, eq_refl, any, All, Table, arith,
  Bool-cases, inl, inr, ◌+++◌,
}
use testy_mc_testface.Scenario.Resolver.{
  StepDefinition, plain, fragment, PlainStep, task, poll, parallel, repeat, condition,
  condition_else, Definitions, nil, cons, ScenarioConfig, id_of,
}
use testy_mc_testface.Scenario.Resolver.Validate.{
  Seen, see, visit_ids, visit_inner, visit_nested, visit_all, present, phases_of,
  validate_unique_step_ids,
}

-- No step of the list has this identity.
abbrev pub IsAbsent : String → Definitions → Type 0
IsAbsent id nil = Unit
IsAbsent id (cons s rest) = (id ≢ id_of s) × IsAbsent id rest

-- No two steps of one list have one identity, and so in the lists inside the steps.
unfoldable mutual
  pub HasDistinctIds : Definitions → Type 0
  HasDistinctIds nil = Unit
  HasDistinctIds (cons s rest) = IsAbsent (id_of s) rest × InnerDistinct s × HasDistinctIds rest

  pub InnerDistinct : StepDefinition → Type 0
  InnerDistinct (plain s) = NestedDistinct s
  InnerDistinct (fragment _ _ _) = Unit

  pub NestedDistinct : PlainStep → Type 0
  NestedDistinct (task _) = Unit
  NestedDistinct (poll _) = Unit
  NestedDistinct (parallel _ _ steps) = HasDistinctIds steps
  NestedDistinct (repeat _ _ _ steps) = HasDistinctIds steps
  NestedDistinct (condition _ _ _ steps) = HasDistinctIds steps
  NestedDistinct (condition_else _ _ _ steps others) = HasDistinctIds steps × HasDistinctIds others

abbrev Holds : List String → String → Type 0
Holds keys key = any (str_eq key) keys ≡ true

-- A visit that adds no issue met none before, and forgets no key.
abbrev Grew : Seen → Seen → Type 0
Grew a b = (a.1 ≡ []) × ((key : String) → Holds a.0 key → Holds b.0 key)

Grew-trans : (a b c : Seen) → Grew a b → Grew b c → Grew a c
Grew-trans a b c (p, h) (q, k) = (p, λ key i. k key (h key i))

-- No step of the list has a key among these.
abbrev IsFresh : String → List String → Definitions → Type 0
IsFresh label keys nil = Unit
IsFresh label keys (cons s rest) =
    (any (str_eq (label +++ ":" +++ id_of s)) keys ≡ false) × IsFresh label keys rest

IsFresh-fewer :
    (label : String) (a b : List String) (steps : Definitions)
    → ((key : String) → Holds a key → Holds b key)
    → IsFresh label b steps
    → IsFresh label a steps
IsFresh-fewer label a b nil h f = tt
IsFresh-fewer label a b (cons s rest) h (f, fs) =
    let key = label +++ ":" +++ id_of s in
    (
      elim (Bool-cases (any (str_eq key) a)) [
        | inl there ↦ let now = h key there in cc (now, f)
        | inr away ↦ away
      ],
      IsFresh-fewer label a b rest h fs,
    )

IsFresh-IsAbsent :
    (label id : String) (keys : List String) (steps : Definitions)
    → Holds keys (label +++ ":" +++ id)
    → IsFresh label keys steps
    → IsAbsent id steps
IsFresh-IsAbsent label id keys nil h f = tt
IsFresh-IsAbsent label id keys (cons s rest) h (f, fs) = (
  λ e. let here : any (str_eq (label +++ ":" +++ id)) keys ≡ false = rw e f in cc (here, h),
  IsFresh-IsAbsent label id keys rest h fs,
)

see-fresh :
    (key issue : String) (seen : Seen)
    → (see key issue seen).1 ≡ []
    → Grew seen (see key issue seen)
      × (any (str_eq key) seen.0 ≡ false)
      × Holds (see key issue seen).0 key
see-fresh key issue (keys, []) h = elim (Bool-cases (any (str_eq key) keys)) [
  | inl there ↦ let h' = rw there at h in cc h'
  | inr away ↦ ((refl, λ other i. ground (arith, i)), away, ground (arith, eq_refl key))
]
see-fresh key issue (keys, i ∷ is) h = elim (Bool-cases (any (str_eq key) keys)) [
  | inl there ↦ let h' = rw there at h in cc h'
  | inr away ↦ let h' = rw away at h in cc h'
]

mutual
  unfolding visit_ids HasDistinctIds

  visit_ids-Distinct :
      (label : String) (steps : Definitions) (seen : Seen)
      → (visit_ids label steps seen).1 ≡ []
      → Grew seen (visit_ids label steps seen) × IsFresh label seen.0 steps × HasDistinctIds steps
  visit_ids-Distinct label nil seen h = ((h, λ key i. i), tt, tt)
  visit_ids-Distinct label (cons s rest) seen h =
      let key = label +++ ":" +++ id_of s in
      let issue = "Duplicate step ID '" +++ id_of s +++ "' in " +++ label +++ "." in
      let one = see key issue seen in
      let two = visit_inner label s one in
      let (grew, fresh, distinct) = visit_ids-Distinct label rest two h in
      let (grew', inner) = visit_inner-Distinct label s one grew.0 in
      let (grew'', new, held) = see-fresh key issue seen grew'.0 in
      let so_far = Grew-trans seen one two grew'' grew' in
      (
        Grew-trans seen two (visit_ids label rest two) so_far grew,
        (new, IsFresh-fewer label seen.0 two.0 rest so_far.1 fresh),
        (IsFresh-IsAbsent label (id_of s) two.0 rest (grew'.1 key held) fresh, inner, distinct),
      )

  visit_inner-Distinct :
      (label : String) (s : StepDefinition) (seen : Seen)
      → (visit_inner label s seen).1 ≡ []
      → Grew seen (visit_inner label s seen) × InnerDistinct s
  visit_inner-Distinct label (plain s) seen h = visit_nested-Distinct label s seen h
  visit_inner-Distinct label (fragment _ _ _) seen h = ((h, λ key i. i), tt)

  visit_nested-Distinct :
      (label : String) (s : PlainStep) (seen : Seen)
      → (visit_nested label s seen).1 ≡ []
      → Grew seen (visit_nested label s seen) × NestedDistinct s
  visit_nested-Distinct label (task _) seen h = ((h, λ key i. i), tt)
  visit_nested-Distinct label (poll _) seen h = ((h, λ key i. i), tt)
  visit_nested-Distinct label (parallel id _ steps) seen h =
      let (grew, _, distinct) = visit_ids-Distinct (label +++ "." +++ id) steps seen h in
      (grew, distinct)
  visit_nested-Distinct label (repeat id _ _ steps) seen h =
      let (grew, _, distinct) = visit_ids-Distinct (label +++ "." +++ id) steps seen h in
      (grew, distinct)
  visit_nested-Distinct label (condition id _ _ steps) seen h =
      let (grew, _, distinct) =
        visit_ids-Distinct (label +++ "." +++ id +++ ".then") steps seen h in
      (grew, distinct)
  visit_nested-Distinct label (condition_else id _ _ steps others) seen h =
      let one = visit_ids (label +++ "." +++ id +++ ".then") steps seen in
      let (grew, _, distinct) =
        visit_ids-Distinct (label +++ "." +++ id +++ ".else") others one h in
      let (grew', _, distinct') =
        visit_ids-Distinct (label +++ "." +++ id +++ ".then") steps seen grew.0 in
      (
        Grew-trans seen one (visit_ids (label +++ "." +++ id +++ ".else") others one) grew' grew,
        (distinct', distinct),
      )

visit_all-Distinct :
    (kind : String) (t : Table Definitions) (seen : Seen)
    → (visit_all kind t seen).1 ≡ []
    → (seen.1 ≡ []) × All (λ e. HasDistinctIds e.1) t
unfolding visit_all
visit_all-Distinct kind [] seen h = (h, tt)
visit_all-Distinct kind ((name, steps) ∷ rest) seen h =
    let label = kind +++ " '" +++ name +++ "'" in
    let (none_left, later) = visit_all-Distinct kind rest (visit_ids label steps seen) h in
    let (grew, _, distinct) = visit_ids-Distinct label steps seen none_left in
    (grew.0, (distinct, later))

-- If the validation of the step identities finds nothing, then no two steps of one list have one
-- identity: in the phases that are there, in the fragments, and in every list inside a step.
pub validate_unique_step_ids-HasDistinctIds :
    (config : ScenarioConfig)
    → validate_unique_step_ids config ≡ []
    → All (λ e. HasDistinctIds e.1) (present (phases_of config.phases))
      × All (λ e. HasDistinctIds e.1) config.fragments
unfolding validate_unique_step_ids
validate_unique_step_ids-HasDistinctIds config h =
    let phases = present (phases_of config.phases) in
    let (none_left, fragments) =
      visit_all-Distinct "fragment" config.fragments (visit_all "phase" phases ([], [])) h in
    ((visit_all-Distinct "phase" phases ([], []) none_left).1, fragments)
