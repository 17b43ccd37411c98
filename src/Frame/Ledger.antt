-- ===== src/Frame/Ledger.antt =====
-- A ledger of free and reserved balances, at which the laws of the currency hold; an amount is a
-- `u128`, and the greatest of them is never reserved. The tests use it.
use deep_brain_chain.Prelude.{
  refl, ◌&&◌, ltb, u128_max, ℕ, ◌+◌, ◌-◌, min, some, none, arith, leb, if◌then◌else◌,
}
use deep_brain_chain.Frame.Currency.{Currency, IsLawful, at}

pub record Ledger : Type 0 where
  pub free : ℕ → ℕ
  pub reserved : ℕ → ℕ

-- Changes of one balance.
abbrev pub credit : ℕ → ℕ → Ledger → Ledger
credit who v l = record l { free = λ a. l.free a + at who v a }

abbrev pub debit : ℕ → ℕ → Ledger → Ledger
debit who v l = record l { free = λ a. l.free a - at who v a }

abbrev pub hold : ℕ → ℕ → Ledger → Ledger
hold who v l = record l { reserved = λ a. l.reserved a + at who v a }

abbrev pub release : ℕ → ℕ → Ledger → Ledger
release who v l = record l { reserved = λ a. l.reserved a - at who v a }

abbrev pub ledger_currency : Currency Ledger
ledger_currency = record {
  free = λ l. l.free;
  reserved = λ l. l.reserved;
  reserve = λ who v l.
      if leb v (l.free who) && ltb v u128_max then some (hold who v (debit who v l)) else none;
  can_reserve = λ who v l. leb v (l.free who);
  unreserve = λ who v l. credit who (min v (l.reserved who)) (release who v l);
  repatriate_reserved = λ src dst v l.
      some (v - l.reserved src, credit dst (min v (l.reserved src)) (release src v l));
  slash_reserved = λ who v l. release who v l;
  unslashed = λ who v l. v - l.reserved who;
  transfer =
      λ src dst v r l. if leb v (l.free src) then some (credit dst v (debit src v l)) else none;
  deposit_into_existing = λ who v l. some (credit who v l);
}

pub ledger_currency-IsLawful : IsLawful ledger_currency
ledger_currency-IsLawful = record {
  reserve_reserved = λ who v a l e. ground arith;
  reserve_free = λ who v a l e. ground arith;
  unreserve_reserved = λ who v a l. ground arith;
  unreserve_free = λ who v a l. ground arith;
  repatriate_rest = λ src dst v l e. ground arith;
  repatriate_reserved_reserved = λ src dst v a l e. ground arith;
  repatriate_reserved_free = λ src dst v a l e. ground arith;
  slash_reserved_reserved = λ who v a l. ground arith;
  slash_reserved_unslashed = λ who v l. refl;
  slash_reserved_free = λ who v a l. ground arith;
  transfer_reserved = λ src dst v a r l e. ground arith;
  transfer_free = λ src dst v a r l e. ground arith;
  deposit_reserved = λ who v a l e. ground arith;
  deposit_free = λ who v a l e. ground arith;
}

-- Every account has 1000 units free, and none reserved.
abbrev pub start_ledger : Ledger
start_ledger = record { free = λ a. 1000; reserved = λ a. 0 }
