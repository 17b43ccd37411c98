-- ===== src/OnlineCommittee/Steps.antt =====
-- Histories of pallets/online-committee/src: its calls, its block hooks, and what other pallets do between
-- them.
use deep_brain_chain.Prelude.{
  ℕ, ◌≡◌, refl, sym, ap, ◌∙◌, arith, Bool, true, false, not, Option, some, none, List, [], ◌∷◌,
  Result, ok, err, Returns, of_Returns, Result-cases, Returns-bind, inl, inr,
}
use deep_brain_chain.Frame.Origin.{Origin, root, signed, unsigned}
use deep_brain_chain.Support.Online.{
  CommitteeUploadInfo, OcMachineCommitteeList, submit_hash, submit_raw,
}
use deep_brain_chain.Support.Online.Members.{
  IsStaffed, submit_hash-IsOrderly, submit_raw-IsOrderly, submit_hash-booked, submit_raw-booked,
}
use deep_brain_chain.OnlineCommittee.{
  Outside, State, Error, submit_confirm_hash, submit_confirm_raw, apply_slash_review,
}
use deep_brain_chain.OnlineCommittee.Slash.{cancel_slash, on_initialize}
use deep_brain_chain.OnlineCommittee.Slash.Members.{cancel_slash-members, on_initialize-members}
use deep_brain_chain.OnlineCommittee.Booking.Draw.{IsFair}
use deep_brain_chain.OnlineCommittee.Booking.Staff.{AreStaffed, update-AreStaffed, IsListed}
use deep_brain_chain.OnlineCommittee.Summaries.{on_finalize}
use deep_brain_chain.OnlineCommittee.Summaries.Total.{on_finalize-Ends}
pub mod Total
pub mod Spent
pub mod Once

pub data Call : Type 0 where
  hash : (machine_id hash : ℕ) → Call
  raw : CommitteeUploadInfo → Call
  apply : (slash_id : ℕ) (reason : List ℕ) → Call
  cancel : (slash_id : ℕ) → Call

unfoldable pub dispatch :
    {O : Type 0} → Outside O → Origin → ℕ → Call → State O → Result Error (State O)
dispatch out o now (hash id h) s = submit_confirm_hash out o now id h s
dispatch out o now (raw info) s = submit_confirm_raw out o now info s
dispatch out o now (apply id reason) s = apply_slash_review out o now id reason s
dispatch out o now (cancel id) s = cancel_slash out o now id s

-- Before the end of a block: the calls, the start of a block, and anything that another pallet does.
pub data Step {O : Type 0} (out : Outside O) (s t : State O) : Type 0 where
  call : (o : Origin) (now : ℕ) (c : Call) → dispatch out o now c s ≡ ok t → Step out s t
  begin_block :
      (keys : State O → List ℕ) (now : ℕ) → t ≡ on_initialize out keys now s → Step out s t
  others : (o : O) → t ≡ record s { outside = o } → Step out s t

-- A history up to the end of a block.
pub data Within {O : Type 0} (out : Outside O) (s : State O) : State O → Type 0 where
  start : Within out s s
  step : {t u : State O} → Within out s t → Step out t u → Within out s u

-- A history over any blocks.
pub data Reach {O : Type 0} (out : Outside O) (s : State O) : State O → Type 0 where
  here : Reach out s s
  next : {t u : State O} → Reach out s t → Step out t u → Reach out s u
  end_block :
      {t u : State O} (booked_machine confirmed_machine : O → List ℕ) (now : ℕ)
      → Reach out s t
      → on_finalize out booked_machine confirmed_machine now t ≡ some u
      → Reach out s u
