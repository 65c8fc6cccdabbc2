-- ===== src/Commands/Membership.antt =====
-- The commands on groups: create_group, list_groups, join_group, list_requests, accept_request,
-- leave_group.
use p2p_distributed_file_sha.Prelude.{Bool, not, ◌&&◌, [], ◌∷◌, get_or, if◌then◌else◌}
use p2p_distributed_file_sha.Text.{Text, ◌==◌}
use p2p_distributed_file_sha.Map
use p2p_distributed_file_sha.Groups
use p2p_distributed_file_sha.Commands.{State, Outcome, fail, succeed}
use p2p_distributed_file_sha.Replies.{
  group_registered_before, group_registered, no_group, list_lines, group_not_available,
  already_owner, already_member, join_placed, not_owner, no_request, is_member_before, not_pending,
  request_accepted, not_member, left_and_removed, left_with_owner, left_group,
}

-- `gm->isMemberOfGroup(username, group_id)`, with the state that it leaves.
unfoldable pub ask_member : State → Text → Text → State × Bool
ask_member s username group_id =
    let (gm', member) = Groups.is_member_of_group s.gm username group_id in
    (record s { gm = gm' }, member)

unfoldable pub create_group_command : State → Text → Text → Outcome
create_group_command s username group_id =
    if Groups.is_group_available s.gm group_id
    then fail s group_registered_before
    else succeed (record s { gm = (Groups.create_group s.gm username group_id).0 })
        (group_registered group_id)

unfoldable pub list_group_command : State → Outcome
list_group_command s = elim (Groups.group_list s.gm) [
  | [] ↦ succeed s no_group
  | name ∷ names ↦ succeed s (list_lines (name ∷ names))
]

unfoldable pub join_group_command : State → Text → Text → Outcome
join_group_command s username group_id =
    if not (Groups.is_group_available s.gm group_id)
    then fail s (group_not_available group_id)
    else if Groups.is_group_owner s.gm username group_id
    then fail s (already_owner group_id)
    else let (s1, member) = ask_member s username group_id in
      if member
      then fail s1 (already_member group_id)
      else succeed (record s1 { gm = (Groups.request_to_join s1.gm username group_id).0 })
          (join_placed group_id)

unfoldable pub list_request_command : State → Text → Text → Outcome
list_request_command s username group_id =
    if not (Groups.is_group_available s.gm group_id)
    then fail s (group_not_available group_id)
    else if not (Groups.is_group_owner s.gm username group_id)
    then fail s (not_owner group_id)
    else elim (get_or (Map.get group_id (Groups.show_pending_requests s.gm username group_id)) []) [
      | [] ↦ succeed s no_request
      | user ∷ users ↦ succeed s (list_lines (user ∷ users))
    ]

unfoldable pub accept_request_command : State → Text → Text → Text → Outcome
accept_request_command s ownername requestedname group_id =
    if not (Groups.is_group_available s.gm group_id)
    then fail s (group_not_available group_id)
    else if not (Groups.is_group_owner s.gm ownername group_id)
    then fail s (not_owner group_id)
    else let (s1, member) = ask_member s requestedname group_id in
      if member
      then fail s1 (is_member_before requestedname group_id)
      else if not (Groups.is_pending_request s1.gm requestedname group_id)
      then fail s1 (not_pending requestedname group_id)
      else succeed
          (record s1 { gm = (Groups.approve_request s1.gm ownername requestedname group_id).0 })
          (request_accepted requestedname group_id)

unfoldable pub leave_group_command : State → Text → Text → Outcome
leave_group_command s username group_id =
    if not (Groups.is_group_available s.gm group_id)
    then fail s (group_not_available group_id)
    else let (s1, member) = ask_member s username group_id in
      if not member
      then fail s1 (not_member group_id)
      else let is_owner = Groups.is_group_owner s1.gm username group_id in
        let s2 = record s1 { gm = (Groups.leave_group s1.gm username group_id).0 } in
        if not (Groups.is_group_available s2.gm group_id)
        then succeed s2 (left_and_removed group_id)
        else let new_owner = Groups.get_owner_name s2.gm group_id in
          if is_owner && not (new_owner == [])
          then succeed s2 (left_with_owner group_id new_owner)
          else succeed s2 (left_group group_id)
