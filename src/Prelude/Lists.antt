-- ===== src/Prelude/Lists.antt =====
-- Lists over the native numbers: length, membership, the list operations of bounded vectors.
use Prim.Native.Nat.{ℕ, zero, suc, ◌+◌, ◌≤◌}
use mathlib.Core.Path.{◌≡◌}
use mathlib.Core.Bool.{Bool, false, ◌||◌}
use mathlib.Core.List.{List, [], ◌∷◌, ◌++◌}
use native.Mathlib.Omega.{arith}
use mathlib.Core.Option.{Option, none, some}
use deep_brain_chain.Prelude.Tests.{ltb, leb, ◌==◌, if◌then◌else◌}

module _ {ℓ} {A : Type ℓ} where
  abbrev pub length : List A → ℕ
  length [] = 0
  length (x ∷ xs) = suc (length xs)

  pub length-append : (xs ys : List A) → length (xs ++ ys) ≡ length xs + length ys
  length-append [] ys = omega arith
  length-append (x ∷ xs) ys = omega (arith, length-append xs ys)

  -- `Vec::retain`
  abbrev pub retain : (A → Bool) → List A → List A
  retain p [] = []
  retain p (x ∷ xs) = if p x then x ∷ retain p xs else retain p xs

-- `Vec::contains` on identifiers.
abbrev pub contains : ℕ → List ℕ → Bool
contains a [] = false
contains a (x ∷ xs) = a == x || contains a xs

pub contains-append_one :
    (a y : ℕ) (xs : List ℕ) → contains a (xs ++ y ∷ []) ≡ (contains a xs || (a == y))
contains-append_one a y [] = ground arith
contains-append_one a y (x ∷ xs) = ground (arith, contains-append_one a y xs)

pub contains-retain :
    (a : ℕ) (p : ℕ → Bool) (xs : List ℕ)
    → contains a (retain p xs) ≡ (if p a then contains a xs else false)
contains-retain a p [] = ground arith
contains-retain a p (x ∷ xs) = ground (arith, contains-retain a p xs)

module _ {ℓ} {A : Type ℓ} where
  -- `BoundedVec::try_from` and `BoundedVec::try_push`, at the bound `n`.
  abbrev pub try_into : ℕ → List A → Option (List A)
  try_into n xs = if leb (length xs) n then some xs else none

  abbrev pub try_push : ℕ → List A → A → Option (List A)
  try_push n xs x = if ltb (length xs) n then some (xs ++ x ∷ []) else none

pub length-retain-le {ℓ} :
    {A : Type ℓ} (p : A → Bool) (xs : List A) → length (retain p xs) ≤ length xs
length-retain-le p [] = omega arith
length-retain-le p (x ∷ xs) = ground (arith, length-retain-le p xs)

abbrev pub replicate {ℓ} : {A : Type ℓ} → ℕ → A → List A
replicate zero a = []
replicate (suc n) a = a ∷ replicate n a

-- What holds of every item.
abbrev pub Each {ℓ} : {A : Type ℓ} → (A → Type 0) → List A → Type 0
Each P [] = Unit
Each P (x ∷ xs) = P x × Each P xs

pub Each-append_one {ℓ} :
    {A : Type ℓ} (P : A → Type 0) (xs : List A) (x : A) → Each P xs → P x → Each P (xs ++ x ∷ [])
Each-append_one P [] x each p = (p, tt)
Each-append_one P (y ∷ ys) x each p = (each.0, Each-append_one P ys x each.1 p)

pub Each-map {ℓ} :
    {A : Type ℓ} (P Q : A → Type 0) (xs : List A) → ((x : A) → P x → Q x) → Each P xs → Each Q xs
Each-map P Q [] f each = tt
Each-map P Q (x ∷ xs) f each = (f x each.0, Each-map P Q xs f each.1)
