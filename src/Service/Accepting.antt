-- ===== src/Service/Accepting.antt =====
-- `Tracker::handle_client` and `send_sync_message` of tracker/headers/tracker_sckelton.cpp, and the
-- line with which `connect_to_tracker` of client/headers/client_skelton.cpp begins: what a tracker
-- makes of a new connection.
pub mod First
use p2p_distributed_file_sha.Prelude.{
  ℕ, ℤ, Bool, true, false, Option, none, some, List, [], ◌∷◌, ◌++◌, ◌*◌, length, take, drop,
  if◌then◌else◌,
}
use p2p_distributed_file_sha.Text.{Text, codes, ◌==◌}
use p2p_distributed_file_sha.Number.{show_nat, show_int, stoi, stoull}
use p2p_distributed_file_sha.Words.{tokenize}
use p2p_distributed_file_sha.Address.{Address}
use p2p_distributed_file_sha.Result.{Result, ok, fault, uncaught_exception, out_of_range}
use p2p_distributed_file_sha.Sync.{Handled, sync_handler}
use p2p_distributed_file_sha.Commands.{State}
use p2p_distributed_file_sha.Client.Seeding.{sent_then}
use p2p_distributed_file_sha.Client.Fetching.{receive_bytes}

-- The connection of a client, for which a session starts; the message of another tracker, with what
-- `sync_handler` comes to; or a message that does not arrive whole. `reply` is what the other tracker
-- is sent first.
pub data Accepted : Type 0 where
  opens : Address → Accepted
  synced : (reply : Text) → Result Handled → Accepted
  hangs_up : (reply : Text) → Accepted

-- The answer to the line with the length.
abbrev pub sync_reply : Text
sync_reply = codes "ACK\n"

-- "<ip>  <port>\n"
abbrev pub greeting : Address → Text
greeting own = own.ip ++ (codes "  " ++ (show_int own.port ++ codes "\n"))

-- "SYNC_SIZE <length>\n"
abbrev pub size_command : Text → Text
size_command message = codes "SYNC_SIZE " ++ (show_nat (length message) ++ codes "\n")

-- The loop of `send_sync_message`: the results of `send` come from the list, where 0 stands for every
-- result that is not positive, and the end of the list for a connection that is lost. What is
-- returned is what the other side is sent.
unfoldable pub send_message : List ℕ → Text → Text
send_message results [] = []
send_message [] (c ∷ message) = []
send_message (n ∷ results) (c ∷ message) =
    let sent = take n (take (64 * 1024) (c ∷ message)) in
    sent_then sent (send_message results (drop (length sent) (c ∷ message)))

-- `send_sync_message`: the line and the bytes that the other tracker is sent. It may accept the
-- connection or not, and answer the line or not.
unfoldable pub send_sync_message : (connects answers : Bool) → List ℕ → Text → Text × Text
send_sync_message false answers results message = ([], [])
send_sync_message true false results message = (size_command message, [])
send_sync_message true true results message = (size_command message, send_message results message)

greet : Text → Option ℤ → Result Accepted
greet ip none = fault uncaught_exception
greet ip (some port) = ok (opens (record { ip = ip; port = port }))

-- The tokens of a client's first line.
greet_tokens : List Text → Result Accepted
unfolding greet
greet_tokens (ip ∷ port_str ∷ tokens) = greet ip (stoi port_str)
greet_tokens tokens = fault out_of_range

carry : State → Option Text → Accepted
carry s none = hangs_up sync_reply
carry s (some sync_mess) = synced sync_reply (sync_handler s sync_mess)

-- `while (total_received < msg_len)`
receive_message : State → List Text → Option ℕ → Result Accepted
unfolding carry
receive_message s segments none = fault uncaught_exception
receive_message s segments (some msg_len) = ok (carry s (receive_bytes msg_len segments))

size_tokens : State → List Text → List Text → Result Accepted
unfolding receive_message
size_tokens s segments [] = fault out_of_range
size_tokens s segments (size ∷ tokens) = receive_message s segments (stoull size)

first_tokens : State → List Text → List Text → Result Accepted
unfolding size_tokens greet_tokens
first_tokens s segments [] = fault out_of_range
first_tokens s segments (word ∷ tokens) =
    if word == codes "SYNC_SIZE"
    then size_tokens s segments tokens
    else greet_tokens (word ∷ tokens)

-- `client_info` is what the first `recv` delivers, up to a NUL, or the empty text; the segments are
-- what the further ones deliver.
unfoldable pub accept_client : State → Text → List Text → Result Accepted
unfolding first_tokens
accept_client s client_info segments = first_tokens s segments (tokenize client_info)
