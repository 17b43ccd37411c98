-- ===== src/Frame/Escrow.antt =====
-- Amounts that a pallet holds in reserve: every entry of an indexed storage map may bind an amount
-- of some account, and the entries below the next identifier are summed up.
use native.Mathlib.Numerals.{add-one}
use deep_brain_chain.Prelude.{
  ℕ, zero, suc, ◌+◌, ◌≤◌, ◌<◌, ◌≡◌, refl, Option, none, some, arith, ◌==◌, insert, remove,
  Bool-cases, inl, inr,
}

module _ {ℓ} {V : Type ℓ} (owed : V → ℕ → ℕ) where
  -- What an entry binds of the account `a`.
  abbrev pub bound : Option V → ℕ → ℕ
  bound none a = 0
  bound (some v) a = owed v a

  -- What the entries below `n` bind of the account `a`.
  pub held : (ℕ → Option V) → ℕ → ℕ → ℕ
  held m zero a = 0
  held m (suc n) a = held m n a + bound (m n) a

  -- The sum does not see an entry at or above its end.
  pub held-insert_above :
      (m : ℕ → Option V) (n k a : ℕ) (v : V) → n ≤ k → held (insert m k v) n a ≡ held m n a
  unfolding held
  held-insert_above m zero k a v h = refl
  held-insert_above m (suc n) k a v h = ground (arith, held-insert_above m n k a v (omega arith))

  -- Writing an entry replaces what the old one bound by what the new one binds.
  pub held-insert :
      (m : ℕ → Option V) (n k a : ℕ) (v : V)
      → k < n
      → held (insert m k v) n a + bound (m k) a ≡ held m n a + owed v a
  unfolding held
  held-insert m zero k a v h = elim h [ ]
  held-insert m (suc n) k a v h = elim (Bool-cases (n == k)) [
    | inl e ↦ ground (arith, held-insert_above m n k a v)
    | inr e ↦ ground (arith, held-insert m n k a v)
  ]

  -- The same for an entry that is removed.
  pub held-remove_above :
      (m : ℕ → Option V) (n k a : ℕ) → n ≤ k → held (remove m k) n a ≡ held m n a
  unfolding held
  held-remove_above m zero k a h = refl
  held-remove_above m (suc n) k a h = ground (arith, held-remove_above m n k a (omega arith))

  pub held-remove :
      (m : ℕ → Option V) (n k a : ℕ) → k < n → held (remove m k) n a + bound (m k) a ≡ held m n a
  unfolding held
  held-remove m zero k a h = elim h [ ]
  held-remove m (suc n) k a h = elim (Bool-cases (n == k)) [
    | inl e ↦ ground (arith, held-remove_above m n k a)
    | inr e ↦ ground (arith, held-remove m n k a)
  ]

  -- A new entry at the end adds what it binds.
  pub held-push :
      (m : ℕ → Option V) (n a : ℕ) (v : V) → held (insert m n v) (n + 1) a ≡ held m n a + owed v a
  unfolding held
  held-push m n a v = rw add-one (ground (arith, held-insert_above m n n a v))

  -- One entry binds no more than all do.
  pub bound-le-held : (m : ℕ → Option V) (n k a : ℕ) → k < n → bound (m k) a ≤ held m n a
  unfolding held
  bound-le-held m zero k a h = elim h [ ]
  bound-le-held m (suc n) k a h = elim (Bool-cases (n == k)) [
    | inl e ↦ ground arith
    | inr e ↦ ground (arith, bound-le-held m n k a)
  ]

  -- An identifier that is consumed with no entry binds nothing.
  pub held-skip : (m : ℕ → Option V) (n a : ℕ) → m n ≡ none → held m (n + 1) a ≡ held m n a
  unfolding held
  held-skip m n a e = rw add-one (ground arith)

  pub held-zero : (m : ℕ → Option V) (a : ℕ) → held m 0 a ≡ 0
  unfolding held
  held-zero m a = refl
