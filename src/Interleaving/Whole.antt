-- ===== src/Interleaving/Whole.antt =====
-- A handler that runs with nobody between its calls.
use p2p_distributed_file_sha.Prelude.{◌≡◌, refl, ◌∙◌, Bool, List, [], ◌∷◌, arith}
use p2p_distributed_file_sha.Text.{Text}
use p2p_distributed_file_sha.Map.{Map}
use p2p_distributed_file_sha.Address.{Address}
use p2p_distributed_file_sha.Files
use p2p_distributed_file_sha.FileInfo.{FileInfo}
use p2p_distributed_file_sha.FileInfo.Print.{to_string}
use p2p_distributed_file_sha.Replies.{no_file, list_lines, file_data, no_seeder}
use p2p_distributed_file_sha.Commands.{State, fail, succeed}
use p2p_distributed_file_sha.Commands.Accounts.{create_user_command, login_command, logout_command}
use p2p_distributed_file_sha.Commands.Membership.{
  ask_member, create_group_command, list_group_command, join_group_command, list_request_command,
  accept_request_command, leave_group_command,
}
use p2p_distributed_file_sha.Commands.Sharing.{
  ask_access, has_live_seeder, extract_files_which_have_one_or_more_seeders, get_available_seeders,
  download_record, upload_file_command, upload_file_data, list_files_command, download_file_command,
  update_file_info, stop_share,
}
use p2p_distributed_file_sha.Commands.Calls as C
use p2p_distributed_file_sha.Commands.Calls.{Call, execute}
use p2p_distributed_file_sha.Interleaving.{Handler, complete, perform}
use p2p_distributed_file_sha.Interleaving.Handlers.{
  any_live, extract_files, available_seeders, handler, create_user_handler, login_handler,
  logout_handler, create_group_handler, list_reply, list_group_handler, when_available,
  join_group_handler, list_request_handler, accept_request_handler, left_reply, leave_group_handler,
  when_access, upload_check, upload_file_handler, upload_data_handler, list_files_handler,
  send_record, download_reply, download_file_handler, update_file_handler, stop_share_handler,
}

module _ (s : State) where
  complete-any_live :
      (seeders : Map Address) (next : Bool → Handler)
      → complete s (any_live seeders next) ≡ complete s (next (has_live_seeder s.um seeders))
  unfolding complete perform any_live has_live_seeder
  complete-any_live [] next = refl
  complete-any_live ((u, addr) ∷ seeders) next = ground (arith, complete-any_live seeders next)

  complete-extract_files :
      (group_id : Text) (file_list : List Text) (next : List Text → Handler)
      → complete s (extract_files group_id file_list next)
        ≡ complete s (next (extract_files_which_have_one_or_more_seeders s group_id file_list))
  unfolding complete perform extract_files extract_files_which_have_one_or_more_seeders
  complete-extract_files n [] next = refl
  complete-extract_files n (f ∷ fs) next =
      complete-any_live (Files.seeder_list s.fm n f) _ ∙ complete-extract_files n fs _

  complete-available_seeders :
      (seeders : Map Address) (next : Map Address → Handler)
      → complete s (available_seeders seeders next)
        ≡ complete s (next (get_available_seeders s.um seeders))
  unfolding complete perform available_seeders get_available_seeders
  complete-available_seeders [] next = refl
  complete-available_seeders ((u, addr) ∷ seeders) next = complete-available_seeders seeders _

  create_user_whole :
      (u p : Text) → complete s (create_user_handler u p) ≡ create_user_command s u p
  unfolding complete perform create_user_handler create_user_command
  create_user_whole u p = ground arith

  login_whole :
      (u p : Text) (addr : Address) → complete s (login_handler u p addr) ≡ login_command s u p addr
  unfolding complete perform login_handler login_command
  login_whole u p addr = ground arith

  logout_whole : (u : Text) → complete s (logout_handler u) ≡ logout_command s u
  unfolding complete perform logout_handler logout_command
  logout_whole u = ground arith

  create_group_whole :
      (u n : Text) → complete s (create_group_handler u n) ≡ create_group_command s u n
  unfolding complete perform create_group_handler create_group_command
  create_group_whole u n = ground arith

  list_group_whole : complete s list_group_handler ≡ list_group_command s
  unfolding complete perform list_group_handler list_reply list_group_command
  list_group_whole = ground arith

  join_group_whole : (u n : Text) → complete s (join_group_handler u n) ≡ join_group_command s u n
  unfolding complete perform join_group_handler when_available join_group_command ask_member
  join_group_whole u n = ground arith

  list_request_whole :
      (u n : Text) → complete s (list_request_handler u n) ≡ list_request_command s u n
  unfolding complete perform list_request_handler list_reply when_available list_request_command
  list_request_whole u n = ground arith

  accept_request_whole :
      (o u n : Text) → complete s (accept_request_handler o u n) ≡ accept_request_command s o u n
  unfolding complete perform accept_request_handler when_available accept_request_command ask_member
  accept_request_whole o u n = ground arith

  leave_group_whole :
      (u n : Text) → complete s (leave_group_handler u n) ≡ leave_group_command s u n
  unfolding complete perform leave_group_handler left_reply when_available leave_group_command
      ask_member
  leave_group_whole u n = ground arith

  upload_file_whole :
      (u n f : Text) → complete s (upload_file_handler u n f) ≡ upload_file_command s u n f
  unfolding complete perform upload_file_handler upload_check when_available when_access
      upload_file_command ask_access ask_member
  upload_file_whole u n f = ground arith

  upload_data_whole :
      (u n f : Text) (info : FileInfo)
      → complete s (upload_data_handler u n f info) ≡ upload_file_data s u n f info
  unfolding complete perform upload_data_handler upload_check when_available when_access
      upload_file_data upload_file_command ask_access ask_member
  upload_data_whole u n f info = ground arith

  update_file_whole :
      (u n f path : Text) (addr : Address)
      → complete s (update_file_handler u n f path addr) ≡ update_file_info s u n f path addr
  unfolding complete perform update_file_handler when_available when_access update_file_info
      ask_access ask_member
  update_file_whole u n f path addr = ground arith

  stop_share_whole : (u n f : Text) → complete s (stop_share_handler u n f) ≡ stop_share s u n f
  unfolding complete perform stop_share_handler when_available when_access stop_share ask_access
      ask_member
  stop_share_whole u n f = ground arith

files_listed :
    (s : State) (n : Text)
    → complete s (
        extract_files n
          (Files.list_files_in_group s.fm n)
          (λ result. list_reply (no_file n) result))
      ≡ elim (extract_files_which_have_one_or_more_seeders s n (Files.list_files_in_group s.fm n)) [
        | [] ↦ succeed s (no_file n)
        | file ∷ files ↦ succeed s (list_lines (file ∷ files))
      ]
unfolding complete list_reply
files_listed s n = complete-extract_files s n (Files.list_files_in_group s.fm n) _ ∙ ground arith

record_sent :
    (s : State) (u n f : Text)
    → complete s (send_record u n f) ≡ succeed s (file_data (to_string (download_record s u n f)))
unfolding complete perform send_record download_record
record_sent s u n f = complete-available_seeders s (Files.get_file_info s.fm n f).seeder_users _

file_sent :
    (s : State) (u n f : Text)
    → complete s (extract_files n (f ∷ []) (λ file_list. download_reply u n f file_list))
      ≡ elim (extract_files_which_have_one_or_more_seeders s n (f ∷ [])) [
        | [] ↦ fail s (no_seeder f n)
        | _ ↦ succeed s (file_data (to_string (download_record s u n f)))
      ]
unfolding complete download_reply
file_sent s u n f = complete-extract_files s n (f ∷ []) _ ∙ ground (arith, record_sent s u n f)

list_files_whole :
    (s : State) (u n : Text) → complete s (list_files_handler u n) ≡ list_files_command s u n
unfolding complete perform list_files_handler when_available when_access list_files_command
    ask_access ask_member
list_files_whole s u n = ground (arith, files_listed (ask_member s u n).0 n)

download_file_whole :
    (s : State) (u n f : Text)
    → complete s (download_file_handler u n f) ≡ download_file_command s u n f
unfolding complete perform download_file_handler when_available download_file_command ask_member
download_file_whole s u n f = ground (arith, file_sent (ask_member s u n).0 u n f)

-- A handler whose calls of the managers' methods follow each other with nothing in between leaves
-- the state, sends the reply and returns the value that the handler as one step does.
complete-handler : (s : State) (c : Call) → complete s (handler c) ≡ execute s c
unfolding handler execute
complete-handler s (C.create_user u p) = create_user_whole s u p
complete-handler s (C.login u p addr) = login_whole s u p addr
complete-handler s (C.logout u) = logout_whole s u
complete-handler s (C.create_group u n) = create_group_whole s u n
complete-handler s C.list_group = list_group_whole s
complete-handler s (C.join_group u n) = join_group_whole s u n
complete-handler s (C.list_request u n) = list_request_whole s u n
complete-handler s (C.accept_request o u n) = accept_request_whole s o u n
complete-handler s (C.leave_group u n) = leave_group_whole s u n
complete-handler s (C.upload_file u n f) = upload_file_whole s u n f
complete-handler s (C.upload_data u n f info) = upload_data_whole s u n f info
complete-handler s (C.list_files u n) = list_files_whole s u n
complete-handler s (C.download_file u n f) = download_file_whole s u n f
complete-handler s (C.update_file u n f path addr) = update_file_whole s u n f path addr
complete-handler s (C.stop u n f) = stop_share_whole s u n f
