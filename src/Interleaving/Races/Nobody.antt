-- ===== src/Interleaving/Races/Nobody.antt =====
-- A request for a group and the departure of its last member, at the same time.
use p2p_distributed_file_sha.Prelude.{◌≡◌, ap, true, false, some, [], ◌∷◌, arith}
use p2p_distributed_file_sha.Text.{Text, ◌==◌, ==_refl, mem-nil, mem}
use p2p_distributed_file_sha.Map
use p2p_distributed_file_sha.Map.{get-put, get-remove}
use p2p_distributed_file_sha.TextSet
use p2p_distributed_file_sha.TextSet.{TextSet}
use p2p_distributed_file_sha.Groups
use p2p_distributed_file_sha.Groups.{GroupManager, GroupInfo, default_group, index_drop}
use p2p_distributed_file_sha.Groups.Membership.{member_of, leave_group_alone}
use p2p_distributed_file_sha.Replies.{join_placed, left_group}
use p2p_distributed_file_sha.Commands.{State}
use p2p_distributed_file_sha.Commands.Calls as C
use p2p_distributed_file_sha.Interleaving.{
  is_group_available, is_member_of_group, is_group_owner, leave_group, request_to_join,
  get_owner_name, perform,
}
use p2p_distributed_file_sha.Interleaving.Handlers.{
  handler, when_available, join_group_handler, leave_group_handler, left_reply,
}
use p2p_distributed_file_sha.Interleaving.Schedule.{thread}
use p2p_distributed_file_sha.Interleaving.Races.{Turns, stays, replied, first_calls, second_calls}

module _ (s : State) (u v n : Text) (pending : TextSet) where
  -- The group with this one member.
  abbrev pub alone : GroupInfo
  alone = record { owner = u; members = u ∷ []; pending = pending }

  -- The state with the group gone, with what `isMemberOfGroup` makes of that, and with the request.
  abbrev gone : State
  gone = record s {
    gm = record {
      groups = Map.remove n s.gm.groups;
      owner_groups = index_drop u n s.gm.owner_groups;
    };
  }

  abbrev touched : State
  touched = record gone {
    gm = record (gone.gm) { groups = Map.put n default_group gone.gm.groups };
  }

  abbrev asked : State
  asked = record touched {
    gm = record (touched.gm) {
      groups = Map.put n (record default_group { pending = TextSet.insert v [] }) touched.gm.groups;
    };
  }

  module _ (only : Map.get n s.gm.groups ≡ some alone)
      (owner : Groups.is_group_owner s.gm u n ≡ true)
      (stranger : Groups.is_group_owner s.gm v n ≡ false) where
    found_group : perform s (is_group_available n) ≡ (s, true)
    unfolding perform Groups.is_group_available
    found_group = ground (arith, only)

    found_member : perform s (is_member_of_group u n) ≡ (s, true)
    unfolding perform Groups.is_member_of_group Groups.touch_group mem
    found_member = ground (arith, only, ==_refl u)

    is_owner : perform s (is_group_owner u n) ≡ (s, true)
    unfolding perform
    is_owner = ap (λ b. (s, b)) owner

    no_owner : perform s (is_group_owner v n) ≡ (s, false)
    unfolding perform
    no_owner = ap (λ b. (s, b)) stranger

    leaves : perform s (leave_group u n) ≡ (gone, true)
    unfolding perform
    leaves = cc (leave_group_alone s.gm u n pending only)

    finds_nobody : perform gone (is_member_of_group v n) ≡ (touched, false)
    unfolding perform Groups.is_member_of_group Groups.touch_group
    finds_nobody = ground (arith, get-remove n n s.gm.groups, ==_refl n, mem-nil v)

    now_there : Map.get n touched.gm.groups ≡ some default_group
    now_there = ground (arith, get-put n n default_group gone.gm.groups, ==_refl n)

    asks : perform touched (request_to_join v n) ≡ (asked, true)
    unfolding perform Groups.request_to_join
    asks = ground (arith, now_there, mem-nil v)

    waits :
        Map.get n asked.gm.groups ≡ some (record default_group { pending = TextSet.insert v [] })
    waits = ground (
      arith,
      get-put n n (record default_group { pending = TextSet.insert v [] }) touched.gm.groups,
      ==_refl n,
    )

    still_there : perform asked (is_group_available n) ≡ (asked, true)
    unfolding perform Groups.is_group_available
    still_there = ground (arith, waits)

    nobody_owns : perform asked (get_owner_name n) ≡ (asked, [])
    unfolding perform Groups.get_owner_name
    nobody_owns = ground (arith, waits)

    -- If the only member of a group, its owner, leaves it while another user asks to join it, both
    -- commands can succeed and leave a group of that name that has no member and that nobody can
    -- create.
    pub nobody_race :
        (t : State) × Turns s (thread (C.join_group v n) ∷ thread (C.leave_group u n) ∷ []) t (
          replied (C.join_group v n) (join_placed n)
          ∷ replied (C.leave_group u n) (left_group n)
          ∷ [])
        × (Groups.is_group_available t.gm n ≡ true)
        × ((w : Text) → member_of t.gm w n ≡ false)
        × ((w : Text) → (Groups.create_group t.gm w n).1 ≡ false)
    unfolding handler when_available join_group_handler leave_group_handler left_reply
        Groups.is_group_available Groups.create_group ◌==◌
    nobody_race = (
      asked,
      first_calls (is_group_available n) found_group (
          first_calls (is_group_owner v n) no_owner (
            second_calls (is_group_available n) found_group (
              second_calls (is_member_of_group u n) found_member (
                second_calls (is_group_owner u n) is_owner (
                  second_calls (leave_group u n) leaves (
                    first_calls (is_member_of_group v n) finds_nobody (
                      first_calls (request_to_join v n) asks (
                        second_calls (is_group_available n) still_there
                          (second_calls (get_owner_name n) nobody_owns stays))))))))),
      ground (arith, waits),
      λ w. ground (arith, waits, mem-nil w),
      λ w. ground (arith, waits),
    )
