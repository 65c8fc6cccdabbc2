-- ===== src/Session/Commanding.antt =====
-- `while_loop`: the commands of a client that has logged in.
use p2p_distributed_file_sha.Prelude.{Option, none, some, List, [], ◌∷◌, ◌++◌, if◌then◌else◌}
use p2p_distributed_file_sha.Text.{Text, codes}
use p2p_distributed_file_sha.Words.{trim_whitespace, tokenize, base_name}
use p2p_distributed_file_sha.FileInfo.{FileInfo}
use p2p_distributed_file_sha.FileInfo.Parse.{from_string}
use p2p_distributed_file_sha.Split.{split_at}
use p2p_distributed_file_sha.Result.{Result, ok, fault, uncaught_exception}
use p2p_distributed_file_sha.Verb.{Verb, verb_of}
use p2p_distributed_file_sha.Sync.{after_first, Handled, sync_handler}
use p2p_distributed_file_sha.Commands.{State, Outcome}
use p2p_distributed_file_sha.Commands.Accounts.{logout_command}
use p2p_distributed_file_sha.Commands.Membership.{
  create_group_command, list_group_command, join_group_command, list_request_command,
  accept_request_command, leave_group_command,
}
use p2p_distributed_file_sha.Commands.Sharing.{
  upload_file_command, upload_file_data, list_files_command, download_file_command,
  update_file_info, stop_share,
}
use p2p_distributed_file_sha.Session.{
  commanding, awaiting_data, Session, Action, sends, sends_counted, notifies, Round, login_phase,
  c_string, invalid_command, logout_line,
}
use p2p_distributed_file_sha.Session.Authenticating.{leave}

abbrev pub usage : Text → Text
usage form = codes "Usage: " ++ (form ++ codes "\n")

abbrev pub logged_in_already : Text
logged_in_already =
    codes "You are already logged in. Please logout first to login/create another user.\n"

abbrev pub invalid_sync : Text
invalid_sync = codes "Invalid SYNC command. Please try again.\n"

abbrev pub enter_valid : Text
enter_valid = codes "Please, Enter valid command.\n"

abbrev pub data_empty : Text
data_empty = codes "File data is empty. Please try again.\n"

-- A round after which the loop goes on.
abbrev round : State → Session → List Action → Result Round
round s c actions = ok (record { phase = commanding; session = c; state = s; actions = actions })

abbrev say : State → Session → Text → Result Round
say s c reply = round s c (sends reply ∷ [])

-- A command that the peers are told of if it succeeded, with the user's name behind it.
abbrev pub tell : Session → Text → Outcome → Result Round
tell c message o = round o.state c (
    if o.success
    then sends o.reply ∷ notifies (message ++ b' ' ∷ c.username) ∷ []
    else sends o.reply ∷ [])

-- stop_share notifies first.
abbrev pub tell_first : Session → Text → Outcome → Result Round
tell_first c message o = round o.state c (
    if o.success
    then notifies (message ++ b' ' ∷ c.username) ∷ sends o.reply ∷ []
    else sends o.reply ∷ [])

-- A command that changes nothing.
abbrev show : Session → Outcome → Result Round
show c o = say o.state c o.reply

-- The session goes into `login_loop`, whose test is `!logged_in`.
log_out : State → Session → Result Round
log_out s c =
    let o = logout_command s c.username in
    ok (record {
      phase = login_phase c;
      session = c;
      state = o.state;
      actions = sends o.reply ∷ notifies (logout_line c.username) ∷ [];
    })

unfoldable pub begin_upload : Session → Text → Text → Outcome → Result Round
begin_upload c group_id file_name o =
    if o.success
    then ok (record {
      phase = awaiting_data group_id file_name;
      session = c;
      state = o.state;
      actions = sends o.reply ∷ [];
    })
    else show c o

unfoldable pub after_sync : Session → Result Handled → Result Round
after_sync c (ok (s, done)) = round s c []
after_sync c (fault f) = fault f

unfoldable pub run_sync : State → Session → Text → Result Round
run_sync s c [] = say s c invalid_sync
run_sync s c (x ∷ cmd) = after_sync c (sync_handler s (x ∷ cmd))

-- `message.find("sync")` finds the first word at the latest.
unfoldable pub sync_behind : State → Session → Option Text → Result Round
sync_behind s c none = say s c invalid_sync
sync_behind s c (some rest) = run_sync s c (trim_whitespace rest)

-- The branches on `tokens[0]`; the tests of the size are the patterns.
unfoldable pub command : State → Session → Text → Verb → List Text → Result Round
unfolding log_out
command s c message Verb.exit args = ok (leave s c)
command s c message Verb.logout args = log_out s c
command s c message Verb.create_group (group_id ∷ []) =
    tell c message (create_group_command s c.username group_id)
command s c message Verb.create_group args = say s c (usage (codes "create_group <group_id>"))
command s c message Verb.list_groups args = show c (list_group_command s)
command s c message Verb.join_group (group_id ∷ []) =
    tell c message (join_group_command s c.username group_id)
command s c message Verb.join_group args = say s c (usage (codes "join_group <group_id>"))
command s c message Verb.list_requests (group_id ∷ []) =
    show c (list_request_command s c.username group_id)
command s c message Verb.list_requests args = say s c (usage (codes "list_requests <group_id>"))
command s c message Verb.accept_request (group_id ∷ requestedname ∷ []) =
    tell c message (accept_request_command s c.username requestedname group_id)
command s c message Verb.accept_request args =
    say s c (usage (codes "accept_request <group_id> <user_id>"))
command s c message Verb.leave_group (group_id ∷ []) =
    tell c message (leave_group_command s c.username group_id)
command s c message Verb.leave_group args = say s c (usage (codes "leave_group <group_id>"))
command s c message Verb.list_files (group_id ∷ []) =
    show c (list_files_command s c.username group_id)
command s c message Verb.list_files args = say s c (usage (codes "list_files <group_id>"))
command s c message Verb.upload_file (group_id ∷ file_path ∷ []) =
    begin_upload c group_id (base_name file_path)
      (upload_file_command s c.username group_id (base_name file_path))
command s c message Verb.upload_file args =
    say s c (usage (codes "upload_file <group_id> <file_name>"))
command s c message Verb.download_file (group_id ∷ file_name ∷ []) =
    let o = download_file_command s c.username group_id file_name in
    round o.state c (sends_counted o.reply ∷ [])
command s c message Verb.download_file args =
    say s c (usage (codes "download_file <group_id> <file_name>"))
command s c message Verb.update_file_info (group_id ∷ file_path ∷ new_file_path ∷ []) =
    tell c message
      (update_file_info s c.username group_id (base_name file_path) new_file_path c.client_address)
command s c message Verb.update_file_info args =
    say s c (usage (codes "update_file_info <group_id> <file_name> <new_file_path>"))
command s c message Verb.stop_share (group_id ∷ file_path ∷ []) =
    tell_first c message (stop_share s c.username group_id (base_name file_path))
command s c message Verb.stop_share args =
    say s c (usage (codes "stop_share <group_id> <file_name>"))
command s c message Verb.sync args = sync_behind s c (after_first (codes "sync") message)
command s c message Verb.login args = say s c logged_in_already
command s c message Verb.create_user args = say s c logged_in_already
command s c message verb args = say s c enter_valid

unfoldable pub command_tokens : State → Session → Text → List Text → Result Round
command_tokens s c message [] = say s c invalid_command
command_tokens s c message (word ∷ args) = command s c message (verb_of word) args

-- A line without a word has no tokens either, so the two tests of the source are one.
unfoldable pub command_line : State → Session → Text → Result Round
command_line s c raw =
    let message = trim_whitespace (c_string raw) in command_tokens s c message (tokenize message)

-- `substr(find(' ') + 1)`: everything, where no blank is found.
unfoldable pub behind_blank : Text → Text
behind_blank text = elim (split_at b' ' text) [ none ↦ text | some (word, rest) ↦ rest ]

unfoldable pub store_data : State → Session → Text → Text → Text → Option FileInfo → Result Round
store_data s c group_id file_name message none = fault uncaught_exception
store_data s c group_id file_name message (some info) =
    let o = upload_file_data s c.username group_id file_name info in
    round o.state c (sends o.reply ∷ notifies message ∷ [])

unfoldable pub read_data : State → Session → Text → Text → Text → Text → Result Round
read_data s c group_id file_name message [] = say s c data_empty
read_data s c group_id file_name message (x ∷ info) =
    store_data s c group_id file_name message (from_string (x ∷ info))

unfoldable pub take_data : State → Session → Text → Text → Text → Result Round
take_data s c group_id file_name [] = say s c data_empty
take_data s c group_id file_name (x ∷ message) =
    read_data s c group_id file_name (x ∷ message) (trim_whitespace (behind_blank (x ∷ message)))

-- The rest of `upload_file`, once the bytes of the record have come.
unfoldable pub upload_data : State → Session → Text → Text → Text → Result Round
upload_data s c group_id file_name payload =
    take_data s c group_id file_name (trim_whitespace payload)
