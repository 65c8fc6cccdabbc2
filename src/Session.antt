-- ===== src/Session.antt =====
-- `ClientManager` of tracker/managers/client_manager.cpp: one client's session with the tracker, as
-- a step function of what the socket delivers. A step is one round of `login_loop` or `while_loop`.
pub mod Authenticating
pub mod Commanding
pub mod Step
pub mod Calls
pub mod Logout
pub mod Messages
pub mod Replication
pub mod Uploads
use p2p_distributed_file_sha.Prelude.{Bool, true, false, List, [], ◌∷◌, ◌++◌, eqb, if◌then◌else◌}
use p2p_distributed_file_sha.Text.{Text, codes}
use p2p_distributed_file_sha.Address.{Address}
use p2p_distributed_file_sha.Commands.{State}

-- Where the thread of the session stands. `awaiting_data` is the wait inside `upload_file` for the
-- length and the bytes of the file record; it keeps the group and the file name of the command.
pub data Phase : Type 0 where
  authenticating commanding finished : Phase
  awaiting_data : (group_id file_name : Text) → Phase

-- The members of the class that a session changes, and the address that the client announced.
pub record Session : Type 0 where
  pub client_address : Address
  pub logged_in : Bool
  pub username : Text
  pub socket_closed : Bool

-- What the session does outside: `send_message`, `notify_sync`, `close`.
pub data Action : Type 0 where
  sends : Text → Action
  -- `download_file` sends the length of its reply in front of it.
  sends_counted : Text → Action
  notifies : Text → Action
  closes : Action

-- What `recv` delivers: a line, the end or an error, or the counted bytes of a file record.
pub data Input : Type 0 where
  line : Text → Input
  disconnected : Input
  counted : Text → Input

pub record Round : Type 0 where
  pub phase : Phase
  pub session : Session
  pub state : State
  pub actions : List Action

-- `while (!logged_in)`, at the entry of `login_loop` and after each of its rounds.
abbrev pub login_phase : Session → Phase
login_phase c = if c.logged_in then commanding else authenticating

-- The bytes of the buffer up to a NUL: `message = buffer;`
unfoldable pub c_string : Text → Text
c_string [] = []
c_string (c ∷ s) = let rest = c_string s in if eqb c 0 then [] else c ∷ rest

-- `if (!socket_closed) { close(socket_id); socket_closed = true; }`
abbrev pub close_socket : Session → List Action
close_socket c = if c.socket_closed then [] else closes ∷ []

abbrev pub invalid_command : Text
invalid_command = codes "Invalid command. Please try again.\n"

-- "logout <username>"
abbrev pub logout_line : Text → Text
logout_line username = codes "logout" ++ b' ' ∷ username
