-- ===== src/Traffic/Slots.antt =====
-- Lists that are read and written by index.
use testy_mc_testface.Prelude.{
  ℕ, suc, zero, ◌+◌, ◌<◌, ◌≤◌, ◌≡◌, refl, List, [], ◌∷◌, none, some, length, ◌==◌, if◌then◌else◌,
  arith,
}
use testy_mc_testface.Traffic.Batch.{get_elem?, set, replicate}

module _ {ℓ} {A : Type ℓ} where
  pub length-set : (xs : List A) (j : ℕ) (v : A) → length (set xs j v) ≡ length xs
  length-set [] j v = refl
  length-set (x ∷ xs) zero v = refl
  length-set (x ∷ xs) (suc j) v = omega (arith, length-set xs j v)

  pub get_elem?-set :
      (xs : List A) (i j : ℕ) (v : A)
      → j < length xs
      → get_elem? (set xs j v) i ≡ (if i == j then some v else get_elem? xs i)
  get_elem?-set [] i j v h = elim h [ ]
  get_elem?-set (x ∷ xs) zero zero v h = refl
  get_elem?-set (x ∷ xs) (suc i) zero v h = ground arith
  get_elem?-set (x ∷ xs) zero (suc j) v h = ground arith
  get_elem?-set (x ∷ xs) (suc i) (suc j) v h = ground (arith, get_elem?-set xs i j v)

  pub get_elem?-some : (xs : List A) (i : ℕ) → i < length xs → (x : A) × (get_elem? xs i ≡ some x)
  get_elem?-some [] i h = elim h [ ]
  get_elem?-some (x ∷ xs) zero h = (x, refl)
  get_elem?-some (x ∷ xs) (suc i) h = get_elem?-some xs i (omega arith)

  pub get_elem?-lt : (xs : List A) (i : ℕ) (x : A) → get_elem? xs i ≡ some x → i < length xs
  get_elem?-lt [] i x h = cc
  get_elem?-lt (y ∷ xs) zero x h = omega arith
  get_elem?-lt (y ∷ xs) (suc i) x h = omega (arith, get_elem?-lt xs i x h)

  pub get_elem?-none : (xs : List A) (i : ℕ) → get_elem? xs i ≡ none → length xs ≤ i
  get_elem?-none [] i h = omega arith
  get_elem?-none (x ∷ xs) zero h = cc
  get_elem?-none (x ∷ xs) (suc i) h = omega (arith, get_elem?-none xs i h)

  pub length-replicate : (n : ℕ) (v : A) → length (replicate n v) ≡ n
  length-replicate zero v = refl
  length-replicate (suc n) v = omega (arith, length-replicate n v)

  -- A sum over the elements.
  abbrev pub sum_of : (A → ℕ) → List A → ℕ
  sum_of f [] = 0
  sum_of f (x ∷ xs) = f x + sum_of f xs

  pub sum_of-set :
      (f : A → ℕ) (xs : List A) (j : ℕ) (old new : A)
      → get_elem? xs j ≡ some old
      → sum_of f (set xs j new) + f old ≡ sum_of f xs + f new
  sum_of-set f [] j old new h = cc
  sum_of-set f (x ∷ xs) zero old new h = let same : f x ≡ f old = cc in omega arith
  sum_of-set f (x ∷ xs) (suc j) old new h = omega (arith, sum_of-set f xs j old new h)

  pub sum_of-zero : (f : A → ℕ) (n : ℕ) (v : A) → f v ≡ 0 → sum_of f (replicate n v) ≡ 0
  sum_of-zero f zero v h = refl
  sum_of-zero f (suc n) v h = omega (arith, sum_of-zero f n v h)

  pub sum_of-one : (f : A → ℕ) (n : ℕ) (v : A) → f v ≡ 1 → sum_of f (replicate n v) ≡ n
  sum_of-one f zero v h = refl
  sum_of-one f (suc n) v h = omega (arith, sum_of-one f n v h)
