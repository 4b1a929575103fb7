-- ===== src/Scenario/Resolver/Results.antt =====
-- The result of a substitution, and that of an expansion, which takes fuel.
use testy_mc_testface.Scenario.Resolver.{Unsubstituted, Failure, unsubstituted}

pub data Result {ℓ} (A : Type ℓ) : Type ℓ where
  ok : A → Result A
  err : Unsubstituted → Result A

infixl 5 ◌>>=◌
abbrev pub ◌>>=◌ {ℓ κ} : {A : Type ℓ} {B : Type κ} → Result A → (A → Result B) → Result B
ok a >>= f = f a
err e >>= f = err e

-- `unfinished`: the fuel ran out.
pub data Run {ℓ} (A : Type ℓ) : Type ℓ where
  done : A → Run A
  threw : Failure → Run A
  unfinished : Run A

abbrev pub lift {ℓ} : {A : Type ℓ} → Result A → Run A
lift (ok a) = done a
lift (err e) = threw (unsubstituted e)

abbrev pub and_then {ℓ κ} : {A : Type ℓ} {B : Type κ} → Run A → (A → Run B) → Run B
and_then (done a) f = f a
and_then (threw e) f = threw e
and_then unfinished f = unfinished

-- What holds of the value, if there is one.
pub data Returns {ℓ κ} {A : Type ℓ} (P : A → Type κ) : Result A → Type (ℓ ⊔ κ) where
  returns : {a : A} → P a → Returns P (ok a)
  fails : {e : Unsubstituted} → Returns P (err e)

pub >>=-Returns {ℓ κ ℓ' κ'} :
    {A : Type ℓ} {B : Type ℓ'} {P : A → Type κ} {Q : B → Type κ'} {m : Result A} (f : A → Result B)
    → Returns P m
    → ((a : A) → P a → Returns Q (f a))
    → Returns Q (m >>= f)
>>=-Returns f (returns {a} p) k = k a p
>>=-Returns f fails k = fails

pub Returns-any {ℓ} : {A : Type ℓ} (m : Result A) → Returns (λ _. Unit {0}) m
Returns-any (ok a) = returns tt
Returns-any (err e) = fails
