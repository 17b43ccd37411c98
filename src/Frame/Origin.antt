-- ===== src/Frame/Origin.antt =====
-- The origins of a dispatchable (`frame_system::{RawOrigin, ensure_signed, ensure_root,
-- ensure_none}`). The error is the pallet's name for `DispatchError::BadOrigin`.
use deep_brain_chain.Prelude.{ℕ, Result, ok, err}

pub data Origin : Type 0 where
  root : Origin
  signed : ℕ → Origin
  unsigned : Origin

abbrev pub ensure_signed : {E : Type 0} → E → Origin → Result E ℕ
ensure_signed e root = err e
ensure_signed e (signed who) = ok who
ensure_signed e unsigned = err e

abbrev pub ensure_root : {E : Type 0} → E → Origin → Result E (Unit {0})
ensure_root e root = ok tt
ensure_root e (signed who) = err e
ensure_root e unsigned = err e

abbrev pub ensure_none : {E : Type 0} → E → Origin → Result E (Unit {0})
ensure_none e root = err e
ensure_none e (signed who) = err e
ensure_none e unsigned = ok tt
