-- ===== src/Sync.antt =====
-- The messages between trackers: `ClientManager::notify_sync`, which writes one, and
-- `CommandManager::sync_handler`, which carries one out.
pub mod Tokens
pub mod Calls
pub mod Records
use p2p_distributed_file_sha.Prelude.{
  ℤ, Bool, false, Option, none, some, List, [], ◌∷◌, ◌++◌, eqb, if◌then◌else◌,
}
use p2p_distributed_file_sha.Text.{Text, codes}
use p2p_distributed_file_sha.Address.{Address}
use p2p_distributed_file_sha.Number.{show_int, stoi}
use p2p_distributed_file_sha.Words.{trim_whitespace, tokenize, base_name}
use p2p_distributed_file_sha.FileInfo.{FileInfo}
use p2p_distributed_file_sha.FileInfo.Parse.{from_string}
use p2p_distributed_file_sha.Result.{Result, ok, fault, uncaught_exception, out_of_range}
use p2p_distributed_file_sha.Verb.{Verb, verb_of}
use p2p_distributed_file_sha.Commands.{State, Outcome}
use p2p_distributed_file_sha.Commands.Accounts.{create_user_command, login_command, logout_command}
use p2p_distributed_file_sha.Commands.Membership.{
  create_group_command, join_group_command, accept_request_command, leave_group_command,
}
use p2p_distributed_file_sha.Commands.Sharing.{upload_file_data, update_file_info, stop_share}

-- "SYNC <ip> <port> <message>"
unfoldable pub notify_text : Address → Text → Text
notify_text addr message =
    codes "SYNC" ++ b' ' ∷ (addr.ip ++ b' ' ∷ (show_int addr.port ++ b' ' ∷ message))

-- What is left of `s` behind the prefix.
strip : Text → Text → Option Text
strip [] s = some s
strip (c ∷ prefix) [] = none
strip (c ∷ prefix) (d ∷ s) = let rest = strip prefix s in if eqb c d then rest else none

-- `s.substr(s.find(needle) + strlen(needle))`, where the needle is found
unfoldable pub after_first : Text → Text → Option Text
unfolding strip
after_first needle [] = strip needle []
after_first needle (c ∷ s) =
    let later = after_first needle s in
    elim (strip needle (c ∷ s)) [ none ↦ later | some rest ↦ some rest ]

-- The state after a message, and the value that the handler returns.
abbrev pub Handled : Type 0
Handled = State × Bool

abbrev pub handled : Outcome → Result Handled
handled o = ok (o.state, o.success)

abbrev pub ignored : State → Result Handled
ignored s = ok (s, false)

store_upload : State → Option FileInfo → Result Handled
store_upload s none = fault uncaught_exception
store_upload s (some info) = handled (upload_file_data s info.owner info.group info.name info)

-- `find` with no hit cannot be: the word is one of the tokens.
upload_behind : State → Option Text → Result Handled
upload_behind s none = fault out_of_range
upload_behind s (some rest) = store_upload s (from_string (trim_whitespace rest))

-- The branches on `tokens[3]`; `first` is `tokens[4]` and `rest` are the tokens behind it.
-- The tests of the size let `update_file_info` and `stop_share` through with one token too few.
unfoldable pub carry_out : State → Text → Address → Verb → Text → List Text → Result Handled
unfolding store_upload upload_behind
carry_out s cmd addr Verb.login first (password ∷ rest) =
    handled (login_command s first password addr)
carry_out s cmd addr Verb.create_user first (password ∷ rest) =
    handled (create_user_command s first password)
carry_out s cmd addr Verb.logout first rest = handled (logout_command s first)
carry_out s cmd addr Verb.create_group first (username ∷ rest) =
    handled (create_group_command s username first)
carry_out s cmd addr Verb.join_group first (username ∷ rest) =
    handled (join_group_command s username first)
carry_out s cmd addr Verb.accept_request first (requestname ∷ username ∷ rest) =
    handled (accept_request_command s username requestname first)
carry_out s cmd addr Verb.leave_group first (username ∷ rest) =
    handled (leave_group_command s username first)
carry_out s cmd addr Verb.upload_file_data first rest =
    upload_behind s (after_first (codes "upload_file_data") cmd)
carry_out s cmd addr Verb.update_file_info first (file_name ∷ path ∷ []) = fault out_of_range
carry_out s cmd addr Verb.update_file_info first (file_name ∷ path ∷ username ∷ rest) =
    handled (update_file_info s username first (base_name file_name) path addr)
carry_out s cmd addr Verb.stop_share first (file_name ∷ []) = fault out_of_range
carry_out s cmd addr Verb.stop_share first (file_name ∷ username ∷ rest) =
    handled (stop_share s username first (base_name file_name))
carry_out s cmd addr verb first rest = ignored s

-- `stoi` in its `try` block
with_port : State → Text → Text → Option ℤ → Text → Text → List Text → Result Handled
with_port s cmd ip none word first rest = ignored s
with_port s cmd ip (some port) word first rest =
    carry_out s cmd (record { ip = ip; port = port }) (verb_of word) first rest

-- Fewer than five tokens are ignored.
unfoldable pub sync_tokens : State → Text → List Text → Result Handled
unfolding with_port
sync_tokens s cmd (t0 ∷ ip ∷ port_str ∷ word ∷ first ∷ rest) =
    with_port s cmd ip (stoi port_str) word first rest
sync_tokens s cmd tokens = ignored s

unfoldable pub sync_handler : State → Text → Result Handled
sync_handler s cmd = sync_tokens s cmd (tokenize cmd)
