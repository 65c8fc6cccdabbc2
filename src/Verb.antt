-- ===== src/Verb.antt =====
-- The first word of a command, as the ladders of `tokens[0] == "…"` in
-- tracker/managers/client_manager.cpp and of `tokens[3] == "…"` in command_manager.cpp tell it.
use p2p_distributed_file_sha.Prelude.{if◌then◌else◌}
use p2p_distributed_file_sha.Text.{Text, codes, ◌==◌}

pub data Verb : Type 0 where
  login create_user logout exit : Verb
  create_group list_groups join_group list_requests accept_request leave_group : Verb
  list_files upload_file upload_file_data download_file update_file_info stop_share : Verb
  sync unknown : Verb

unfoldable pub verb_of : Text → Verb
verb_of word =
    if word == codes "login"
    then login
    else if word == codes "create_user"
    then create_user
    else if word == codes "logout"
    then logout
    else if word == codes "exit"
    then exit
    else if word == codes "create_group"
    then create_group
    else if word == codes "list_groups"
    then list_groups
    else if word == codes "join_group"
    then join_group
    else if word == codes "list_requests"
    then list_requests
    else if word == codes "accept_request"
    then accept_request
    else if word == codes "leave_group"
    then leave_group
    else if word == codes "list_files"
    then list_files
    else if word == codes "upload_file"
    then upload_file
    else if word == codes "upload_file_data"
    then upload_file_data
    else if word == codes "download_file"
    then download_file
    else if word == codes "update_file_info"
    then update_file_info
    else if word == codes "stop_share"
    then stop_share
    else if word == codes "sync"
    then sync
    else unknown
