-- ===== src/Interleaving/Handlers.antt =====
-- The handlers of `CommandManager`, with the calls of the managers' methods in the source's order.
use p2p_distributed_file_sha.Prelude.{
  Bool, true, false, not, ◌&&◌, List, [], ◌∷◌, get_or, if◌then◌else◌,
}
use p2p_distributed_file_sha.Text.{Text, ◌==◌}
use p2p_distributed_file_sha.Map
use p2p_distributed_file_sha.Map.{Map}
use p2p_distributed_file_sha.Address.{Address}
use p2p_distributed_file_sha.FileInfo.{FileInfo}
use p2p_distributed_file_sha.FileInfo.Print.{to_string}
use p2p_distributed_file_sha.Commands.Calls as C
use p2p_distributed_file_sha.Commands.Calls.{Call}
use p2p_distributed_file_sha.Interleaving.{
  Handler, returns, calls, is_user, register_user, login, logout, is_logged_in, create_group,
  get_owner_name, is_group_available, group_list, request_to_join, is_member_of_group,
  show_pending_requests, is_group_owner, approve_request, is_pending_request, leave_group, add_file,
  is_file_exist, get_file_info, list_files_in_group, seeder_list, add_new_seeder, remove_seeder,
}
use p2p_distributed_file_sha.Replies.{
  user_exists, user_created, user_not_created, already_logged_in, login_successful, wrong_password,
  not_a_user, not_logged_in, logout_successful, logout_unsuccessful, group_registered_before,
  group_registered, no_group, list_lines, group_not_available, already_owner, already_member,
  join_placed, not_owner, no_request, is_member_before, not_pending, request_accepted, not_member,
  left_and_removed, left_with_owner, left_group, file_exists, send_all_data, file_added,
  file_not_added, no_file, file_missing, no_seeder, file_data, path_updated, path_not_updated,
  share_stopped, share_not_stopped,
}

unfoldable pub create_user_handler : Text → Text → Handler
create_user_handler username password = calls (is_user username) (λ known.
    if known
    then returns user_exists false
    else calls (register_user username password) (λ registered.
      if registered then returns user_created true else returns user_not_created false))

unfoldable pub login_handler : Text → Text → Address → Handler
login_handler username password client_address = calls (is_logged_in username) (λ inside.
    if inside
    then returns already_logged_in false
    else calls (login username password client_address) (λ admitted.
      if admitted
      then returns login_successful true
      else calls (is_user username)
          (λ known. if known then returns wrong_password false else returns not_a_user false)))

unfoldable pub logout_handler : Text → Handler
logout_handler username = calls (is_logged_in username) (λ inside.
    if not inside
    then returns not_logged_in true
    else calls (logout username) (λ done.
      if done then returns logout_successful true else returns logout_unsuccessful false))

unfoldable pub create_group_handler : Text → Text → Handler
create_group_handler username group_id = calls (is_group_available group_id) (λ available.
    if available
    then returns group_registered_before false
    else calls (create_group username group_id)
        (λ created. returns (group_registered group_id) true))

unfoldable pub list_reply : Text → List Text → Handler
list_reply none_left [] = returns none_left true
list_reply none_left (line ∷ lines) = returns (list_lines (line ∷ lines)) true

unfoldable pub list_group_handler : Handler
unfolding list_reply
list_group_handler = calls group_list (λ result. list_reply no_group result)

-- `if (!gm->isGroupAvailabel(group_id))`, with which the other handlers begin
unfoldable pub when_available : Text → Handler → Handler
when_available group_id next =
    calls (is_group_available group_id)
      (λ available. if not available then returns (group_not_available group_id) false else next)

unfoldable pub join_group_handler : Text → Text → Handler
join_group_handler username group_id = when_available group_id (
    calls (is_group_owner username group_id) (λ owner.
      if owner
      then returns (already_owner group_id) false
      else calls (is_member_of_group username group_id) (λ member.
        if member
        then returns (already_member group_id) false
        else calls (request_to_join username group_id)
            (λ placed. returns (join_placed group_id) true))))

unfoldable pub list_request_handler : Text → Text → Handler
unfolding list_reply
list_request_handler username group_id = when_available group_id (
    calls (is_group_owner username group_id) (λ owner.
      if not owner
      then returns (not_owner group_id) false
      else calls (show_pending_requests username group_id)
          (λ requests. list_reply no_request (get_or (Map.get group_id requests) []))))

unfoldable pub accept_request_handler : Text → Text → Text → Handler
accept_request_handler ownername requestedname group_id = when_available group_id (
    calls (is_group_owner ownername group_id) (λ owner.
      if not owner
      then returns (not_owner group_id) false
      else calls (is_member_of_group requestedname group_id) (λ member.
        if member
        then returns (is_member_before requestedname group_id) false
        else calls (is_pending_request requestedname group_id) (λ asked.
          if not asked
          then returns (not_pending requestedname group_id) false
          else calls (approve_request ownername requestedname group_id)
              (λ approved. returns (request_accepted requestedname group_id) true)))))

unfoldable pub left_reply : Text → Bool → Text → Handler
left_reply group_id is_owner new_owner =
    if is_owner && not (new_owner == [])
    then returns (left_with_owner group_id new_owner) true
    else returns (left_group group_id) true

unfoldable pub leave_group_handler : Text → Text → Handler
unfolding left_reply
leave_group_handler username group_id = when_available group_id (
    calls (is_member_of_group username group_id) (λ member.
      if not member
      then returns (not_member group_id) false
      else calls (is_group_owner username group_id) (λ is_owner.
        calls (leave_group username group_id) (λ left.
          calls (is_group_available group_id) (λ available.
            if not available
            then returns (left_and_removed group_id) true
            else calls (get_owner_name group_id)
                (λ new_owner. left_reply group_id is_owner new_owner))))))

-- `if (!gm->isMemberOfGroup(...) && !gm->isGroupOwner(...))`
unfoldable pub when_access : Text → Text → Handler → Handler
when_access username group_id next = calls (is_member_of_group username group_id) (λ member.
    if member
    then next
    else calls (is_group_owner username group_id)
        (λ owner. if owner then next else returns (not_member group_id) false))

-- `upload_file_command`, with what its caller does when it returns true.
unfoldable pub upload_check : Text → Text → Text → Handler → Handler
upload_check username group_id filename next = when_available group_id (
    when_access username group_id (
      calls (is_file_exist group_id filename)
        (λ exists. if exists then returns (file_exists filename group_id) false else next)))

unfoldable pub upload_file_handler : Text → Text → Text → Handler
unfolding upload_check
upload_file_handler username group_id filename =
    upload_check username group_id filename (returns send_all_data true)

unfoldable pub upload_data_handler : Text → Text → Text → FileInfo → Handler
unfolding upload_check
upload_data_handler username group_id filename info = upload_check username group_id filename (
    calls (add_file group_id filename info) (λ added.
      if added
      then returns (file_added filename group_id) true
      else returns (file_not_added filename group_id) false))

-- The loop over the seeders, which ends at the first that is logged in.
unfoldable pub any_live : Map Address → (Bool → Handler) → Handler
any_live [] next = next false
any_live ((username, addr) ∷ seeders) next =
    let others = any_live seeders next in
    calls (is_logged_in username) (λ live. if live then next true else others)

-- The loop over the files: those with a seeder who is logged in.
unfoldable pub extract_files : Text → List Text → (List Text → Handler) → Handler
extract_files group_id [] next = next []
extract_files group_id (file_entry ∷ file_list) next =
    calls (seeder_list group_id file_entry) (λ seeders. any_live seeders (λ live.
      extract_files group_id file_list
        (λ result. next (if live then file_entry ∷ result else result))))

unfoldable pub list_files_handler : Text → Text → Handler
unfolding list_reply
list_files_handler username group_id = when_available group_id (
    when_access username group_id (
      calls (list_files_in_group group_id) (λ file_list.
        extract_files group_id file_list (λ result. list_reply (no_file group_id) result))))

-- The loop of `get_available_seeders`.
unfoldable pub available_seeders : Map Address → (Map Address → Handler) → Handler
available_seeders [] next = next []
available_seeders ((username, addr) ∷ seeders) next = calls (is_logged_in username) (λ live.
    available_seeders seeders
      (λ available. next (if live then Map.put username addr available else available)))

unfoldable pub send_record : Text → Text → Text → Handler
send_record username group_id filename = calls (get_file_info group_id filename) (λ info.
    available_seeders info.seeder_users (λ available.
      returns (file_data (to_string (record info { seeder_users = Map.remove username available })))
        true))

unfoldable pub download_reply : Text → Text → Text → List Text → Handler
unfolding send_record
download_reply username group_id filename [] = returns (no_seeder filename group_id) false
download_reply username group_id filename (file ∷ files) = send_record username group_id filename

unfoldable pub download_file_handler : Text → Text → Text → Handler
unfolding download_reply
download_file_handler username group_id filename = when_available group_id (
    calls (is_member_of_group username group_id) (λ member.
      if not member
      then returns (not_member group_id) false
      else calls (is_file_exist group_id filename) (λ exists.
        if not exists
        then returns (file_missing filename group_id) false
        else extract_files group_id (filename ∷ [])
            (λ file_list. download_reply username group_id filename file_list))))

unfoldable pub update_file_handler : Text → Text → Text → Text → Address → Handler
update_file_handler username group_id filename new_file_path client_address =
    when_available group_id (
      when_access username group_id (
        calls (is_file_exist group_id filename) (λ exists.
          if not exists
          then returns (file_missing filename group_id) false
          else calls (add_new_seeder group_id filename username client_address new_file_path)
              (λ updated.
                if updated
                then returns (path_updated filename group_id) true
                else returns (path_not_updated filename group_id) false))))

unfoldable pub stop_share_handler : Text → Text → Text → Handler
stop_share_handler username group_id filename = when_available group_id (
    when_access username group_id (
      calls (is_file_exist group_id filename) (λ exists.
        if not exists
        then returns (file_missing filename group_id) false
        else calls (remove_seeder username group_id filename) (λ removed.
          if removed
          then returns (share_stopped filename group_id) true
          else returns (share_not_stopped filename group_id) false))))

unfoldable pub handler : Call → Handler
handler (C.create_user username password) = create_user_handler username password
handler (C.login username password addr) = login_handler username password addr
handler (C.logout username) = logout_handler username
handler (C.create_group username group_id) = create_group_handler username group_id
handler C.list_group = list_group_handler
handler (C.join_group username group_id) = join_group_handler username group_id
handler (C.list_request username group_id) = list_request_handler username group_id
handler (C.accept_request ownername requestedname group_id) =
    accept_request_handler ownername requestedname group_id
handler (C.leave_group username group_id) = leave_group_handler username group_id
handler (C.upload_file username group_id filename) = upload_file_handler username group_id filename
handler (C.upload_data username group_id filename info) =
    upload_data_handler username group_id filename info
handler (C.list_files username group_id) = list_files_handler username group_id
handler (C.download_file username group_id filename) =
    download_file_handler username group_id filename
handler (C.update_file username group_id filename path addr) =
    update_file_handler username group_id filename path addr
handler (C.stop username group_id filename) = stop_share_handler username group_id filename
