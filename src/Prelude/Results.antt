-- ===== src/Prelude/Results.antt =====
-- Errors as values, with the bind that `do` blocks use. A dispatchable that returns an error is
-- rolled back whole, so an error carries no state.
use mathlib.Core.Path.{refl, ◌≡◌, subst}
use mathlib.Core.Logic.{◌⊎◌, inl, inr}
use mathlib.Core.Bool.{Bool, true, false}
use mathlib.Core.Option.{Option, none, some}

pub data Result (E : Type 0) (A : Type 0) : Type 0 where
  ok : A → Result E A
  err : E → Result E A

infixl 5 ◌>>=◌ ◌>>◌
abbrev pub ◌>>=◌ : {E A B : Type 0} → Result E A → (A → Result E B) → Result E B
ok a >>= f = f a
err e >>= f = err e

abbrev pub ◌>>◌ : {E B : Type 0} → Result E (Unit {0}) → Result E B → Result E B
m >> k = m >>= λ _. k

-- `ensure!(b, e)`
abbrev pub guard : {E : Type 0} → Bool → E → Result E (Unit {0})
guard true e = ok tt
guard false e = err e

-- `ok_or(e)`, and `map_err(|_| e)` on what the model returns as an option.
abbrev pub or_fail : {E A : Type 0} → Option A → E → Result E A
or_fail none e = err e
or_fail (some a) e = ok a

-- `map_err(|_| e)`
abbrev pub map_err : {E F A : Type 0} → Result E A → F → Result F A
map_err (ok a) e = ok a
map_err (err x) e = err e

-- What holds of the value of a call that succeeds.
abbrev pub Returns : {E A : Type 0} → (A → Type 0) → Result E A → Type 0
Returns P (ok a) = P a
Returns P (err e) = Unit

abbrev pub is_ok : {E A : Type 0} → Result E A → Bool
is_ok (ok a) = true
is_ok (err e) = false

-- A call made for its effect alone: the error is dropped, and what it wrote is rolled back.
abbrev pub after : {E A : Type 0} → A → Result E A → A
after a (ok b) = b
after a (err e) = a

-- A fact of the successful results, at one of them.
pub of_Returns :
    {E A : Type 0} (P : A → Type 0) (r : Result E A) {a : A} → Returns P r → r ≡ ok a → P a
of_Returns P (ok b) p e = subst P (cc) p
of_Returns P (err x) p e = cc

pub is_ok-value : {E A : Type 0} (r : Result E A) → is_ok r ≡ true → (a : A) × (r ≡ ok a)
is_ok-value (ok a) h = (a, refl)
is_ok-value (err e) h = cc

-- A fact of the results of a sequence follows from the fact of its second part.
pub Returns-bind :
    {E A B : Type 0} (P : B → Type 0) (m : Result E A) (f : A → Result E B)
    → ((a : A) → m ≡ ok a → Returns P (f a))
    → Returns P (m >>= f)
Returns-bind P (ok a) f h = h a refl
Returns-bind P (err e) f h = tt

pub Result-cases :
    {E A : Type 0} (r : Result E A) → ((e : E) × (r ≡ err e)) ⊎ ((a : A) × (r ≡ ok a))
Result-cases (ok a) = inr (a, refl)
Result-cases (err e) = inl (e, refl)

pub Returns-map :
    {E A : Type 0} {P Q : A → Type 0} (r : Result E A)
    → ((a : A) → P a → Q a)
    → Returns P r
    → Returns Q r
Returns-map (ok a) f p = f a p
Returns-map (err e) f p = tt
