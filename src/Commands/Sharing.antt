-- ===== src/Commands/Sharing.antt =====
-- The commands on files: upload_file, upload_file_data, list_files, download_file,
-- update_file_info, stop_share.
use p2p_distributed_file_sha.Prelude.{Bool, true, false, not, ◌||◌, List, [], ◌∷◌, if◌then◌else◌}
use p2p_distributed_file_sha.Text.{Text}
use p2p_distributed_file_sha.Map
use p2p_distributed_file_sha.Map.{Map}
use p2p_distributed_file_sha.Address.{Address}
use p2p_distributed_file_sha.Users
use p2p_distributed_file_sha.Users.{UserManager}
use p2p_distributed_file_sha.Groups
use p2p_distributed_file_sha.Files
use p2p_distributed_file_sha.FileInfo.{FileInfo}
use p2p_distributed_file_sha.FileInfo.Print.{to_string}
use p2p_distributed_file_sha.Commands.{State, Outcome, fail, succeed}
use p2p_distributed_file_sha.Commands.Membership.{ask_member}
use p2p_distributed_file_sha.Replies.{
  group_not_available, not_member, file_exists, send_all_data, file_added, file_not_added, no_file,
  list_lines, file_missing, no_seeder, file_data, path_updated, path_not_updated, share_stopped,
  share_not_stopped,
}

-- `gm->isMemberOfGroup(username, group_id) || gm->isGroupOwner(username, group_id)`
unfoldable pub ask_access : State → Text → Text → State × Bool
ask_access s username group_id =
    let (s1, member) = ask_member s username group_id in
    (s1, member || Groups.is_group_owner s1.gm username group_id)

unfoldable pub upload_file_command : State → Text → Text → Text → Outcome
upload_file_command s username group_id filename =
    if not (Groups.is_group_available s.gm group_id)
    then fail s (group_not_available group_id)
    else let (s1, access) = ask_access s username group_id in
      if not access
      then fail s1 (not_member group_id)
      else if Files.is_file_exist s1.fm group_id filename
      then fail s1 (file_exists filename group_id)
      else succeed s1 send_all_data

unfoldable pub upload_file_data : State → Text → Text → Text → FileInfo → Outcome
upload_file_data s username group_id filename info =
    let checked = upload_file_command s username group_id filename in
    if not checked.success
    then fail checked.state checked.reply
    else let (fm', added) = Files.add_file checked.state.fm group_id filename info in
      let s' = record (checked.state) { fm = fm' } in
      if added
      then succeed s' (file_added filename group_id)
      else fail s' (file_not_added filename group_id)

-- One of the seeders is logged in.
unfoldable pub has_live_seeder : UserManager → Map Address → Bool
has_live_seeder um [] = false
has_live_seeder um ((username, addr) ∷ seeders) =
    let others = has_live_seeder um seeders in
    if Users.is_logged_in um username then true else others

unfoldable pub extract_files_which_have_one_or_more_seeders : State → Text → List Text → List Text
extract_files_which_have_one_or_more_seeders s group_id [] = []
extract_files_which_have_one_or_more_seeders s group_id (file_entry ∷ file_list) =
    let result = extract_files_which_have_one_or_more_seeders s group_id file_list in
    if has_live_seeder s.um (Files.seeder_list s.fm group_id file_entry)
    then file_entry ∷ result
    else result

unfoldable pub list_files_command : State → Text → Text → Outcome
list_files_command s username group_id =
    if not (Groups.is_group_available s.gm group_id)
    then fail s (group_not_available group_id)
    else let (s1, access) = ask_access s username group_id in
      if not access
      then fail s1 (not_member group_id)
      else elim (extract_files_which_have_one_or_more_seeders s1 group_id
          (Files.list_files_in_group s1.fm group_id)) [
            | [] ↦ succeed s1 (no_file group_id)
            | file ∷ files ↦ succeed s1 (list_lines (file ∷ files))
          ]

unfoldable pub get_available_seeders : UserManager → Map Address → Map Address
get_available_seeders um [] = []
get_available_seeders um ((username, addr) ∷ seeders) =
    let others = get_available_seeders um seeders in
    if Users.is_logged_in um username then Map.put username addr others else others

-- The record that is sent: the seeders that are logged in, but for the user who asks.
unfoldable pub download_record : State → Text → Text → Text → FileInfo
download_record s username group_id filename =
    let info = Files.get_file_info s.fm group_id filename in
    record info {
      seeder_users = Map.remove username (get_available_seeders s.um info.seeder_users);
    }

unfoldable pub download_file_command : State → Text → Text → Text → Outcome
download_file_command s username group_id filename =
    if not (Groups.is_group_available s.gm group_id)
    then fail s (group_not_available group_id)
    else let (s1, member) = ask_member s username group_id in
      if not member
      then fail s1 (not_member group_id)
      else if not (Files.is_file_exist s1.fm group_id filename)
      then fail s1 (file_missing filename group_id)
      else elim (extract_files_which_have_one_or_more_seeders s1 group_id (filename ∷ [])) [
        | [] ↦ fail s1 (no_seeder filename group_id)
        | _ ↦ succeed s1 (file_data (to_string (download_record s1 username group_id filename)))
      ]

unfoldable pub update_file_info : State → Text → Text → Text → Text → Address → Outcome
update_file_info s username group_id filename new_file_path client_address =
    if not (Groups.is_group_available s.gm group_id)
    then fail s (group_not_available group_id)
    else let (s1, access) = ask_access s username group_id in
      if not access
      then fail s1 (not_member group_id)
      else if not (Files.is_file_exist s1.fm group_id filename)
      then fail s1 (file_missing filename group_id)
      else let (fm', updated) =
          Files.add_new_seeder s1.fm group_id filename username client_address new_file_path in
        let s' = record s1 { fm = fm' } in
        if updated
        then succeed s' (path_updated filename group_id)
        else fail s' (path_not_updated filename group_id)

unfoldable pub stop_share : State → Text → Text → Text → Outcome
stop_share s username group_id filename =
    if not (Groups.is_group_available s.gm group_id)
    then fail s (group_not_available group_id)
    else let (s1, access) = ask_access s username group_id in
      if not access
      then fail s1 (not_member group_id)
      else if not (Files.is_file_exist s1.fm group_id filename)
      then fail s1 (file_missing filename group_id)
      else let (fm', removed) = Files.remove_seeder s1.fm username group_id filename in
        let s' = record s1 { fm = fm' } in
        if removed
        then succeed s' (share_stopped filename group_id)
        else fail s' (share_not_stopped filename group_id)
