-- ===== src/Traffic/Results.antt =====
-- Results that may be errors of the package, and what holds of the value of one.
use testy_mc_testface.Prelude.{
  ◌≡◌, refl, Bool, true, false, Option, none, some, List, [], ◌∷◌, All, subst,
}
use testy_mc_testface.Traffic.{Thrown, traffic_error, invalid_config}

pub data Result {ℓ} (A : Type ℓ) : Type ℓ where
  err : (thrown : Thrown) → Result A
  ok : (value : A) → Result A

abbrev pub invalid {ℓ} : {A : Type ℓ} → Result A
invalid = err (traffic_error invalid_config)

-- `if (!test) throw trafficError("invalid-config", ...)`.
abbrev pub require : Bool → Result (Unit {0})
require true = ok tt
require false = invalid

-- What comes after, unless something was thrown.
infixl 5 ◌>>=◌
abbrev pub ◌>>=◌ {κ ℓ} : {B : Type ℓ} {C : Type κ} → Result B → (B → Result C) → Result C
(err thrown) >>= next = err thrown
(ok value) >>= next = next value

infixl 5 ◌>>◌
abbrev pub ◌>>◌ {κ} : {C : Type κ} → (check : Result (Unit {0})) (next : Result C) → Result C
check >> next = check >>= λ _. next

-- `value === undefined ? undefined : f(value)`.
abbrev pub optional {ℓ κ} :
    {A : Type ℓ} {B : Type κ} → (A → Result B) → Option A → Result (Option B)
optional f none = ok none
optional f (some a) = f a >>= λ b. ok (some b)

-- `values.map(f)`, which ends at the first error.
unfoldable pub each {ℓ κ} : {A : Type ℓ} {B : Type κ} → (A → Result B) → List A → Result (List B)
each f [] = ok []
each f (x ∷ xs) = f x >>= λ y. each f xs >>= λ ys. ok (y ∷ ys)

pub data Returns {ℓ κ} {A : Type ℓ} (P : A → Type κ) : Result A → Type (ℓ ⊔ κ) where
  returns : {a : A} → P a → Returns P (ok a)
  fails : {e : Thrown} → Returns P (err e)

pub >>=-Returns {ℓ κ ℓ' κ'} :
    {A : Type ℓ} {B : Type ℓ'} {P : A → Type κ} {Q : B → Type κ'} {m : Result A} (f : A → Result B)
    → Returns P m
    → ((a : A) → P a → Returns Q (f a))
    → Returns Q (m >>= f)
>>=-Returns f (returns {a} p) k = k a p
>>=-Returns f fails k = fails

-- The same rule with the first part given, so that the second is found.
pub after-Returns {ℓ κ ℓ' κ'} :
    {A : Type ℓ} {B : Type ℓ'} {P : A → Type κ} {Q : B → Type κ'} (m : Result A) {f : A → Result B}
    → Returns P m
    → ((a : A) → P a → Returns Q (f a))
    → Returns Q (m >>= f)
after-Returns m {f} h k = >>=-Returns f h k

pub Returns-any {ℓ} : {A : Type ℓ} (m : Result A) → Returns (λ _. Unit {0}) m
Returns-any (ok a) = returns tt
Returns-any (err e) = fails

pub require-Returns : (b : Bool) → Returns (λ _. b ≡ true) (require b)
require-Returns true = returns refl
require-Returns false = fails

pub Returns-ok {ℓ κ} :
    {A : Type ℓ} {P : A → Type κ} {m : Result A} {a : A} → Returns P m → m ≡ ok a → P a
Returns-ok {P = P} (returns {a = x} q) e = subst P (cc) q
Returns-ok fails e = cc

pub each-Returns {ℓ κ ℓ'} :
    {A : Type ℓ} {B : Type ℓ'} (P : B → Type κ) (f : A → Result B) (xs : List A)
    → ((x : A) → Returns P (f x))
    → Returns (All P) (each f xs)
unfolding each
each-Returns P f [] h = returns tt
each-Returns P f (x ∷ xs) h =
    >>=-Returns (λ y. each f xs >>= λ ys. ok (y ∷ ys)) (h x)
      λ y p. >>=-Returns (λ ys. ok (y ∷ ys)) (each-Returns P f xs h) λ ys q. returns (p, q)

-- A chain that succeeds has succeeded before.
pub >>=-parts {ℓ κ} :
    {A : Type ℓ} {B : Type κ} (first : Result A) (rest : A → Result B) {value : B}
    → (first >>= rest) ≡ ok value
    → (middle : A) × (first ≡ ok middle) × (rest middle ≡ ok value)
>>=-parts (err thrown) rest succeeds = cc
>>=-parts (ok middle) rest succeeds = (middle, refl, succeeds)

-- The property of an optional value, if it is there.
abbrev pub Optional {ℓ κ} : {A : Type ℓ} → (A → Type κ) → Option A → Type κ
Optional P none = Unit
Optional P (some a) = P a

pub optional-Returns {ℓ κ ℓ'} :
    {A : Type ℓ} {B : Type ℓ'} (P : B → Type κ) (f : A → Result B) (x : Option A)
    → ((a : A) → Returns P (f a))
    → Returns (Optional P) (optional f x)
optional-Returns P f none h = returns tt
optional-Returns P f (some a) h = >>=-Returns (λ b. ok (some b)) (h a) λ b p. returns p
