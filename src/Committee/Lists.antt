-- ===== src/Committee/Lists.antt =====
-- The four lists of pallets/committee/src: each is ordered, and no account stands in two of them.
use deep_brain_chain.Prelude.{
  ℕ, ◌+◌, ◌≤◌, ◌≡◌, arith, Bool, true, false, ◌==◌, if◌then◌else◌, contains,
}
use deep_brain_chain.Support.ItemList.{
  add_item, rm_item, IsSorted, binary_search_lem, contains-add_item, contains-rm_item,
  add_item-IsSorted, rm_item-IsSorted,
}
use deep_brain_chain.Committee.{
  CommitteeList, CommitteeStakeInfo, Config, State, is_normal, is_chill, is_waiting_puk,
  is_fulfilling, is_committee, do_change_status_when_stake_changed,
}

abbrev pub one_if : Bool → ℕ
one_if true = 1
one_if false = 0

-- In how many lists an account stands.
abbrev pub places : CommitteeList → ℕ → ℕ
places l a =
    one_if (contains a l.normal)
    + one_if (contains a l.chill_list)
    + one_if (contains a l.waiting_box_pubkey)
    + one_if (contains a l.fulfilling_list)

pub record IsArranged (l : CommitteeList) : Type 0 where
  pub normal : IsSorted l.normal
  pub chill_list : IsSorted l.chill_list
  pub waiting_box_pubkey : IsSorted l.waiting_box_pubkey
  pub fulfilling_list : IsSorted l.fulfilling_list
  pub exclusive : (a : ℕ) → places l a ≤ 1

module _ (l : CommitteeList) (v : IsArranged l) (who : ℕ) where
  pub is_normal_lem : is_normal l who ≡ contains who l.normal
  unfolding is_normal
  is_normal_lem = binary_search_lem l.normal who v.normal

  pub is_chill_lem : is_chill l who ≡ contains who l.chill_list
  unfolding is_chill
  is_chill_lem = binary_search_lem l.chill_list who v.chill_list

  pub is_waiting_puk_lem : is_waiting_puk l who ≡ contains who l.waiting_box_pubkey
  unfolding is_waiting_puk
  is_waiting_puk_lem = binary_search_lem l.waiting_box_pubkey who v.waiting_box_pubkey

  pub is_fulfilling_lem : is_fulfilling l who ≡ contains who l.fulfilling_list
  unfolding is_fulfilling
  is_fulfilling_lem = binary_search_lem l.fulfilling_list who v.fulfilling_list

  -- An account is a member exactly if it stands in one of the lists.
  pub is_committee_lem : is_committee l who ≡ (if places l who == 0 then false else true)
  unfolding is_committee
  is_committee_lem =
      ground (arith, is_normal_lem, is_chill_lem, is_waiting_puk_lem, is_fulfilling_lem)

  pub added-IsArranged :
      is_committee l who ≡ false
      → IsArranged (record l { waiting_box_pubkey = add_item l.waiting_box_pubkey who })
  added-IsArranged absent = record {
    normal = v.normal;
    chill_list = v.chill_list;
    waiting_box_pubkey = add_item-IsSorted l.waiting_box_pubkey who v.waiting_box_pubkey;
    fulfilling_list = v.fulfilling_list;
    exclusive = λ a.
        ground
          (arith, v.exclusive a, is_committee_lem, contains-add_item l.waiting_box_pubkey who a);
  }

  pub entered-IsArranged :
      is_waiting_puk l who ≡ true
      → IsArranged (record l {
        waiting_box_pubkey = rm_item l.waiting_box_pubkey who;
        normal = add_item l.normal who;
      })
  entered-IsArranged stands = record {
    normal = add_item-IsSorted l.normal who v.normal;
    chill_list = v.chill_list;
    waiting_box_pubkey = rm_item-IsSorted l.waiting_box_pubkey who v.waiting_box_pubkey;
    fulfilling_list = v.fulfilling_list;
    exclusive = λ a. ground (
      arith,
      v.exclusive a,
      is_waiting_puk_lem,
      contains-rm_item l.waiting_box_pubkey who a v.waiting_box_pubkey,
      contains-add_item l.normal who a,
    );
  }

  pub promoted-IsArranged :
      is_fulfilling l who ≡ true
      → IsArranged (record l {
        fulfilling_list = rm_item l.fulfilling_list who;
        normal = add_item l.normal who;
      })
  promoted-IsArranged stands = record {
    normal = add_item-IsSorted l.normal who v.normal;
    chill_list = v.chill_list;
    waiting_box_pubkey = v.waiting_box_pubkey;
    fulfilling_list = rm_item-IsSorted l.fulfilling_list who v.fulfilling_list;
    exclusive = λ a. ground (
      arith,
      v.exclusive a,
      is_fulfilling_lem,
      contains-rm_item l.fulfilling_list who a v.fulfilling_list,
      contains-add_item l.normal who a,
    );
  }

  pub demoted-IsArranged :
      is_normal l who ≡ true
      → IsArranged (record l {
        normal = rm_item l.normal who;
        fulfilling_list = add_item l.fulfilling_list who;
      })
  demoted-IsArranged stands = record {
    normal = rm_item-IsSorted l.normal who v.normal;
    chill_list = v.chill_list;
    waiting_box_pubkey = v.waiting_box_pubkey;
    fulfilling_list = add_item-IsSorted l.fulfilling_list who v.fulfilling_list;
    exclusive = λ a. ground (
      arith,
      v.exclusive a,
      is_normal_lem,
      contains-rm_item l.normal who a v.normal,
      contains-add_item l.fulfilling_list who a,
    );
  }

  pub returned-IsArranged :
      is_chill l who ≡ true
      → IsArranged
          (record l { chill_list = rm_item l.chill_list who; normal = add_item l.normal who })
  returned-IsArranged stands = record {
    normal = add_item-IsSorted l.normal who v.normal;
    chill_list = rm_item-IsSorted l.chill_list who v.chill_list;
    waiting_box_pubkey = v.waiting_box_pubkey;
    fulfilling_list = v.fulfilling_list;
    exclusive = λ a. ground (
      arith,
      v.exclusive a,
      is_chill_lem,
      contains-rm_item l.chill_list who a v.chill_list,
      contains-add_item l.normal who a,
    );
  }

  pub chilled-IsArranged :
      is_committee l who ≡ true
      → is_waiting_puk l who ≡ false
      → IsArranged (record l {
        normal = rm_item l.normal who;
        fulfilling_list = rm_item l.fulfilling_list who;
        chill_list = add_item l.chill_list who;
      })
  chilled-IsArranged stands set = record {
    normal = rm_item-IsSorted l.normal who v.normal;
    chill_list = add_item-IsSorted l.chill_list who v.chill_list;
    waiting_box_pubkey = v.waiting_box_pubkey;
    fulfilling_list = rm_item-IsSorted l.fulfilling_list who v.fulfilling_list;
    exclusive = λ a. ground (
      arith,
      v.exclusive a,
      is_committee_lem,
      is_waiting_puk_lem,
      contains-rm_item l.normal who a v.normal,
      contains-rm_item l.fulfilling_list who a v.fulfilling_list,
      contains-add_item l.chill_list who a,
    );
  }

  pub left-IsArranged : IsArranged (record l { chill_list = rm_item l.chill_list who })
  left-IsArranged = record {
    normal = v.normal;
    chill_list = rm_item-IsSorted l.chill_list who v.chill_list;
    waiting_box_pubkey = v.waiting_box_pubkey;
    fulfilling_list = v.fulfilling_list;
    exclusive =
        λ a. ground (arith, v.exclusive a, contains-rm_item l.chill_list who a v.chill_list);
  }

module _ {L : Type 0} (cfg : Config L) where
  -- The status that follows the stake keeps the lists in order.
  pub do_change_status-IsArranged :
      (who : ℕ) (l : CommitteeList) (stake : CommitteeStakeInfo) (s : State L)
      → IsArranged l
      → IsArranged (do_change_status_when_stake_changed cfg who l stake s)
  unfolding do_change_status_when_stake_changed
  do_change_status-IsArranged who l stake s v =
      ground (arith, promoted-IsArranged l v who, demoted-IsArranged l v who)
