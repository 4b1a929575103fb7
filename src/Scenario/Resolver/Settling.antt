-- ===== src/Scenario/Resolver/Settling.antt =====
-- The expansion of validated steps comes to an end.
use testy_mc_testface.Prelude.{
  ℕ, suc, ◌+◌, ◌≤◌, ◌≡◌, refl, ap, String, Bool, true, false, ◌||◌, List, [], ◌∷◌, ◌++◌, some,
  is_some, str_eq, eq_iff, any, length, Table, lookup, if◌then◌else◌, arith, Bool-cases, inl, inr,
}
use testy_mc_testface.Scenario.Resolver.{Definitions, Failure, unsubstituted, fragment_cycle}
use testy_mc_testface.Scenario.Resolver.Results.{
  Result, ok, err, Run, done, threw, lift, and_then, Returns, returns, fails,
}
use testy_mc_testface.Scenario.Resolver.Validate.{visit_references, visit_tables}
use testy_mc_testface.Scenario.Resolver.Resolve.{depth, deepest}

-- The failures that are left for validated steps.
pub data IsKnown : Failure → Type 0 where
  substitution : {e : _} → IsKnown (unsubstituted e)
  cycle : {names : List String} → IsKnown (fragment_cycle names)

pub data Settled {ℓ} {A : Type ℓ} : Run A → Type ℓ where
  finished : {a : A} → Settled (done a)
  failed : {e : Failure} → IsKnown e → Settled (threw e)

pub and_then-Settled {ℓ κ} :
    {A : Type ℓ} {B : Type κ} {m : Run A} (f : A → Run B)
    → Settled m
    → ((a : A) → Settled (f a))
    → Settled (and_then m f)
and_then-Settled f (finished {a}) k = k a
and_then-Settled f (failed h) k = failed h

pub lift-Settled {ℓ} : {A : Type ℓ} (m : Result A) → Settled (lift m)
lift-Settled (ok a) = finished
lift-Settled (err e) = failed substitution

pub lift-then-Settled {ℓ κ ι} :
    {A : Type ℓ} {B : Type κ} {P : A → Type ι} {m : Result A} (f : A → Run B)
    → Returns P m
    → ((a : A) → P a → Settled (f a))
    → Settled (and_then (lift m) f)
lift-then-Settled f (returns {a} p) k = k a p
lift-then-Settled f fails k = failed substitution

pub append-eq-nil {ℓ} : {A : Type ℓ} (xs ys : List A) → (xs ++ ys) ≡ [] → (xs ≡ []) × (ys ≡ [])
append-eq-nil [] ys h = (refl, h)
append-eq-nil (x ∷ xs) ys h = cc

-- The fragments that no call has entered yet.
unfoldable pub remaining : List String → Table Definitions → ℕ
remaining stack [] = 0
remaining stack ((name, _) ∷ rest) =
    let later = remaining stack rest in if any (str_eq name) stack then later else suc later

any-append {ℓ} :
    {A : Type ℓ} (p : A → Bool) (xs ys : List A) → any p (xs ++ ys) ≡ (any p xs || any p ys)
any-append p [] ys = refl
any-append p (x ∷ xs) ys = ground (arith, any-append p xs ys)

remaining_mono :
    (stack : List String) (name : String) (t : Table Definitions)
    → remaining (stack ++ name ∷ []) t ≤ remaining stack t
unfolding remaining
remaining_mono stack name [] = omega arith
remaining_mono stack name ((other, _) ∷ rest) =
    ground (arith, any-append (str_eq other) stack (name ∷ []), remaining_mono stack name rest)

pub remaining_falls :
    (stack : List String) (name : String) (t : Table Definitions)
    → any (str_eq name) stack ≡ false
    → is_some (lookup name t) ≡ true
    → remaining (stack ++ name ∷ []) t + 1 ≤ remaining stack t
unfolding remaining lookup
remaining_falls stack name [] h k = cc
remaining_falls stack name ((other, steps) ∷ rest) h k = elim (Bool-cases (str_eq other name)) [
  | inl same ↦
      let e : other ≡ name = (eq_iff other name).0 same in
      let new : any (str_eq other) stack ≡ false = rw e h in
      ground (arith, any-append (str_eq other) stack (name ∷ []), remaining_mono stack name rest)
  | inr away ↦
      let later = remaining_falls stack name rest h (rw (away, lookup) at k) in
      ground (arith, any-append (str_eq other) stack (name ∷ []), later)
]

pub remaining_nil : (t : Table Definitions) → remaining [] t ≡ length t
unfolding remaining
remaining_nil [] = refl
remaining_nil ((name, _) ∷ rest) = ap suc (remaining_nil rest)

-- A fragment that is found is no deeper than the deepest, and refers to what is there.
pub found-le-deepest :
    (name : String) (steps : Definitions) (t : Table Definitions)
    → lookup name t ≡ some steps
    → depth steps ≤ deepest t
unfolding lookup deepest
found-le-deepest name steps [] h = ground arith
found-le-deepest name steps ((other, s) ∷ rest) h = ground (arith, found-le-deepest name steps rest)

module _ (fragments : Table Definitions) where
  pub found-refers :
      (name : String) (steps : Definitions) (t : Table Definitions)
      → lookup name t ≡ some steps
      → visit_tables fragments t ≡ []
      → visit_references fragments steps ≡ []
  unfolding lookup visit_tables
  found-refers name steps [] h k = ground arith
  found-refers name steps ((other, s) ∷ rest) h k = elim (Bool-cases (str_eq other name)) [
    | inl same ↦
        let e : s ≡ steps = ground (arith, h, same) in
        rw (← e) (append-eq-nil (visit_references fragments s) _ k).0
    | inr away ↦ found-refers name steps rest (rw (away, lookup) at h) (append-eq-nil _ _ k).1
  ]
