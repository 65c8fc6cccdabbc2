-- ===== src/Commands/Calls.antt =====
-- The handlers of `CommandManager` as one function of a call, and runs of calls.
use p2p_distributed_file_sha.Prelude.{List, [], ◌∷◌}
use p2p_distributed_file_sha.Text.{Text}
use p2p_distributed_file_sha.Address.{Address}
use p2p_distributed_file_sha.FileInfo.{FileInfo}
use p2p_distributed_file_sha.Commands.{State, Outcome}
use p2p_distributed_file_sha.Commands.Accounts.{create_user_command, login_command, logout_command}
use p2p_distributed_file_sha.Commands.Membership.{
  create_group_command, list_group_command, join_group_command, list_request_command,
  accept_request_command, leave_group_command,
}
use p2p_distributed_file_sha.Commands.Sharing.{
  upload_file_command, upload_file_data, list_files_command, download_file_command,
  update_file_info, stop_share,
}

-- The arguments stand in the order of the handlers' parameters.
pub data Call : Type 0 where
  create_user : (username password : Text) → Call
  login : (username password : Text) → Address → Call
  logout : (username : Text) → Call
  create_group : (username group_id : Text) → Call
  list_group : Call
  join_group : (username group_id : Text) → Call
  list_request : (username group_id : Text) → Call
  accept_request : (ownername requestedname group_id : Text) → Call
  leave_group : (username group_id : Text) → Call
  upload_file : (username group_id filename : Text) → Call
  upload_data : (username group_id filename : Text) → FileInfo → Call
  list_files : (username group_id : Text) → Call
  download_file : (username group_id filename : Text) → Call
  update_file : (username group_id filename new_file_path : Text) → Address → Call
  stop : (username group_id filename : Text) → Call

unfoldable pub execute : State → Call → Outcome
execute s (create_user username password) = create_user_command s username password
execute s (login username password addr) = login_command s username password addr
execute s (logout username) = logout_command s username
execute s (create_group username group_id) = create_group_command s username group_id
execute s list_group = list_group_command s
execute s (join_group username group_id) = join_group_command s username group_id
execute s (list_request username group_id) = list_request_command s username group_id
execute s (accept_request ownername requestedname group_id) =
    accept_request_command s ownername requestedname group_id
execute s (leave_group username group_id) = leave_group_command s username group_id
execute s (upload_file username group_id filename) =
    upload_file_command s username group_id filename
execute s (upload_data username group_id filename info) =
    upload_file_data s username group_id filename info
execute s (list_files username group_id) = list_files_command s username group_id
execute s (download_file username group_id filename) =
    download_file_command s username group_id filename
execute s (update_file username group_id filename path addr) =
    update_file_info s username group_id filename path addr
execute s (stop username group_id filename) = stop_share s username group_id filename

-- The calls of all sessions, in the order in which they happen.
unfoldable pub run : State → List Call → State
run s [] = s
run s (c ∷ cs) = run (execute s c).state cs
