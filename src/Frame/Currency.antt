-- ===== src/Frame/Currency.antt =====
-- The reservable currency of the pallets (`frame_support::traits::{Currency, ReservableCurrency}`),
-- which the pallets call and the repository does not hold. It is a parameter: its calls are a
-- record over an arbitrary ledger, and what its documentation promises is `IsLawful`.
use deep_brain_chain.Prelude.{ℕ, ◌+◌, ◌-◌, min, ◌≡◌, Bool, Option, some, ◌==◌, if◌then◌else◌}

pub data ExistenceRequirement : Type 0 where
  keep_alive allow_death : ExistenceRequirement

pub record Currency (L : Type 0) : Type 0 where
  pub free : L → ℕ → ℕ
  pub reserved : L → ℕ → ℕ
  -- `reserve(who, amount)`; `none` is an error.
  pub reserve : ℕ → ℕ → L → Option L
  pub can_reserve : ℕ → ℕ → L → Bool
  -- `unreserve(who, amount)`, whose result no caller reads.
  pub unreserve : ℕ → ℕ → L → L
  -- `repatriate_reserved(from, to, amount, Free)`: the part that could not be moved, and the ledger.
  pub repatriate_reserved : ℕ → ℕ → ℕ → L → Option (ℕ × L)
  -- `slash_reserved(who, amount)`; the imbalance is dropped.
  pub slash_reserved : ℕ → ℕ → L → L
  -- The part of that amount which could not be taken, which the call returns too.
  pub unslashed : ℕ → ℕ → L → ℕ
  pub transfer : ℕ → ℕ → ℕ → ExistenceRequirement → L → Option L
  pub deposit_into_existing : ℕ → ℕ → L → Option L

-- The amount `v` at the account `who`, nothing elsewhere.
abbrev pub at : ℕ → ℕ → ℕ → ℕ
at who v a = if a == who then v else 0

-- What the traits document: a call moves its amount between the named accounts' balances, calls on
-- a reserve that is too small move what is there, and no other balance changes.
pub record IsLawful {L : Type 0} (c : Currency L) : Type 0 where
  pub reserve_reserved :
      (who v a : ℕ) (l : L) {l' : L}
      → c.reserve who v l ≡ some l'
      → c.reserved l' a ≡ c.reserved l a + at who v a
  pub reserve_free :
      (who v a : ℕ) (l : L) {l' : L}
      → c.reserve who v l ≡ some l'
      → c.free l' a + at who v a ≡ c.free l a
  pub unreserve_reserved :
      (who v a : ℕ) (l : L) → c.reserved (c.unreserve who v l) a ≡ c.reserved l a - at who v a
  pub unreserve_free :
      (who v a : ℕ) (l : L)
      → c.free (c.unreserve who v l) a ≡ c.free l a + at who (min v (c.reserved l who)) a
  pub repatriate_rest :
      (src dst v : ℕ) (l : L) {rest : ℕ} {l' : L}
      → c.repatriate_reserved src dst v l ≡ some (rest, l')
      → rest ≡ v - c.reserved l src
  pub repatriate_reserved_reserved :
      (src dst v a : ℕ) (l : L) {rest : ℕ} {l' : L}
      → c.repatriate_reserved src dst v l ≡ some (rest, l')
      → c.reserved l' a ≡ c.reserved l a - at src v a
  pub repatriate_reserved_free :
      (src dst v a : ℕ) (l : L) {rest : ℕ} {l' : L}
      → c.repatriate_reserved src dst v l ≡ some (rest, l')
      → c.free l' a ≡ c.free l a + at dst (min v (c.reserved l src)) a
  pub slash_reserved_reserved :
      (who v a : ℕ) (l : L) → c.reserved (c.slash_reserved who v l) a ≡ c.reserved l a - at who v a
  pub slash_reserved_unslashed : (who v : ℕ) (l : L) → c.unslashed who v l ≡ v - c.reserved l who
  pub slash_reserved_free : (who v a : ℕ) (l : L) → c.free (c.slash_reserved who v l) a ≡ c.free l a
  pub transfer_reserved :
      (src dst v a : ℕ) (r : ExistenceRequirement) (l : L) {l' : L}
      → c.transfer src dst v r l ≡ some l'
      → c.reserved l' a ≡ c.reserved l a
  pub transfer_free :
      (src dst v a : ℕ) (r : ExistenceRequirement) (l : L) {l' : L}
      → c.transfer src dst v r l ≡ some l'
      → c.free l' a + at src v a ≡ c.free l a + at dst v a
  pub deposit_reserved :
      (who v a : ℕ) (l : L) {l' : L}
      → c.deposit_into_existing who v l ≡ some l'
      → c.reserved l' a ≡ c.reserved l a
  pub deposit_free :
      (who v a : ℕ) (l : L) {l' : L}
      → c.deposit_into_existing who v l ≡ some l'
      → c.free l' a ≡ c.free l a + at who v a
