-- ===== src/Committee/Exit.antt =====
-- How a member leaves the committee of pallets/committee/src.
use deep_brain_chain.Prelude.{ℕ, ◌+◌, ◌≡◌, arith, false, ok}
use deep_brain_chain.Frame.Origin.{signed}
use deep_brain_chain.Frame.Currency.{IsLawful, at}
use deep_brain_chain.Support.ItemList.{rm_item, contains-rm_item}
use deep_brain_chain.Committee.{Config, State, exit_committee, is_committee}
use deep_brain_chain.Committee.Lists.{is_chill_lem, is_committee_lem, left-IsArranged}
use deep_brain_chain.Committee.Steps.{IsValid}

module _ {L : Type 0} (cfg : Config L) where
  open cfg use {currency}

  -- What a member leaves behind.
  pub record IsReleased (who : ℕ) (s t : State L) : Type 0 where
    pub absent : is_committee t.committee who ≡ false
    pub unstaked : (t.committee_stake who).staked_amount ≡ 0
    pub free :
        (a : ℕ)
        → currency.free t.ledger a
          ≡ currency.free s.ledger a + at who ((s.committee_stake who).staked_amount) a

module _ {L : Type 0} (cfg : Config L) (lawful : IsLawful cfg.currency) where
  open cfg use {currency}

  -- From a valid state, a member who exits gets the whole stake back and is in no list any more.
  pub exit-IsReleased :
      (who : ℕ) (s t : State L)
      → IsValid cfg s
      → exit_committee cfg (signed who) s ≡ ok t
      → IsReleased cfg who s t
  unfolding exit_committee
  exit-IsReleased who s t v e =
      let l = s.committee in
      record {
        absent = ground (
          arith,
          v.arranged.exclusive who,
          is_chill_lem l v.arranged who,
          contains-rm_item l.chill_list who who v.arranged.chill_list,
          is_committee_lem (record l { chill_list = rm_item l.chill_list who })
              (left-IsArranged l v.arranged who) who,
        );
        unstaked = ground arith;
        free = λ a. ground (
          arith,
          v.backed who,
          lawful.unreserve_free who ((s.committee_stake who).staked_amount) a s.ledger,
        );
      }
