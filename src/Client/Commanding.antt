-- ===== src/Client/Commanding.antt =====
-- `Client::handle_command`, `start_client_command_loop` and `reset_tracker` of
-- client/headers/client_skelton.cpp.
pub mod Login
pub mod Lockout
pub mod Reset
use p2p_distributed_file_sha.Prelude.{
  ℕ, Bool, true, false, not, ◌||◌, ◌&&◌, Option, none, some, is_some, List, [], ◌∷◌, ◌++◌, eqb,
  if◌then◌else◌,
}
use p2p_distributed_file_sha.Text.{Text, codes, ◌==◌}
use p2p_distributed_file_sha.Number.{show_nat}
use p2p_distributed_file_sha.Words.{trim_whitespace, tokenize}
use p2p_distributed_file_sha.Sync.{after_first}
use p2p_distributed_file_sha.Client.Downloading.{pop_line_end, not_started}

-- `struct DownloadTask` of client/headers/client_header.h.
pub record DownloadTask : Type 0 where
  pub result : Text
  pub done : Bool
  pub total_pieces : ℕ
  pub completed_pieces : ℕ

-- The members of the class that the commands change.
pub record ClientState : Type 0 where
  pub username : Text
  pub password : Text
  pub logged_in : Bool
  pub download_history : List DownloadTask

-- What a command does besides: it returns a text, it goes on to `file_upload_command`, it starts
-- `file_download_command` in a thread of its own, or the connection is lost and `reset_tracker` runs.
pub data Reaction : Type 0 where
  returns : Text → Reaction
  uploads downloads : Text → Reaction
  resets : Reaction

unfoldable pub starts_with : Text → Text → Bool
starts_with [] s = true
starts_with (c ∷ prefix) [] = false
starts_with (c ∷ prefix) (d ∷ s) = eqb c d && starts_with prefix s

abbrev pub contains : Text → Text → Bool
contains needle s = is_some (after_first needle s)

abbrev pub fresh_task : DownloadTask
fresh_task = record { result = not_started; done = false; total_pieces = 0; completed_pieces = 0 }

-- One line of `show_downloads`, or two.
show_task : DownloadTask → Text
show_task t =
    if t.done
    then t.result ++ codes "\n"
    else codes "Download Status: "
      ++ (show_nat t.completed_pieces
          ++ codes "/"
          ++ (show_nat t.total_pieces ++ codes " pieces completed.\n" ++ (t.result ++ codes "\n")))

show_history : List DownloadTask → Text
unfolding show_task
show_history [] = []
show_history (t ∷ history) = show_task t ++ show_history history

or_no_history : Text → Text
or_no_history [] = codes "No download history available.\n"
or_no_history (c ∷ out) = c ∷ out

-- `tokens.size() >= 3`: the second token and the third become the user's name and password.
unfoldable pub keep_credentials : ClientState → List Text → ClientState
keep_credentials k (word ∷ username ∷ password ∷ tokens) = record k {
  username = username;
  password = password;
}
keep_credentials k tokens = k

-- What the answer of the tracker changes.
unfoldable pub after_response : ClientState → Text → Text → ClientState
after_response k command response =
    if starts_with (codes "login") command
    then (if contains (codes "Login successful") response
        then record (keep_credentials k (tokenize command)) { logged_in = true }
        else k)
    else if starts_with (codes "create_user") command
    then (if contains (codes "User created successfully") response
        then record (keep_credentials k (tokenize command)) { logged_in = false }
        else k)
    else if starts_with (codes "logout") command
    then (if contains (codes "Logout successful") response
        then record k { logged_in = false }
        else k)
    else k

-- The command goes to the tracker; none is a connection that is lost.
to_tracker : ClientState → Text → Option Text → ClientState × Reaction
unfolding after_response
to_tracker k command none = (k, resets)
to_tracker k command (some response) = (after_response k command response, returns response)

upload_tokens : (Text → Bool) → ClientState → Text → List Text → ClientState × Reaction
upload_tokens exists k command (word ∷ group ∷ file_path ∷ []) =
    if exists (trim_whitespace (pop_line_end file_path))
    then (k, uploads command)
    else (k, returns (codes "File does not exist. Please check the file path.\n"))
upload_tokens exists k command tokens =
    (k, returns (codes "Invalid command format. Usage: upload_file <group id> <file path>\n"))

download_tokens : ClientState → Text → List Text → ClientState × Reaction
download_tokens k command (word ∷ group ∷ file_path ∷ dest ∷ []) =
    (record k { download_history = k.download_history ++ fresh_task ∷ [] }, downloads command)
download_tokens k command tokens = (
  k,
  returns
      (codes "Invalid command format. Usage: download_file <group id> <file path> <destination>\n"),
)

-- `exists` is `validate_file_existence`; `response` is what the tracker answers to a command that is
-- sent to it, up to the first NUL.
unfoldable pub handle_command :
    (Text → Bool) → ClientState → Option Text → Text → ClientState × Reaction
unfolding to_tracker upload_tokens download_tokens show_history or_no_history starts_with
handle_command exists k response command =
    if starts_with (codes "upload_file") command
    then (if k.logged_in
        then upload_tokens exists k command (tokenize command)
        else (k, returns (codes "Please login first to upload file.\n")))
    else if starts_with (codes "download_file") command
    then (if k.logged_in
        then download_tokens k command (tokenize command)
        else (k, returns (codes "Please login first to download file.\n")))
    else if starts_with (codes "show_downloads") command
    then (k, returns (or_no_history (show_history k.download_history)))
    else to_tracker k command response

-- A round of the loop: an empty line is passed over, exit is sent and ends the loop.
pub data Turn : Type 0 where
  skips : Turn
  exits : (sent : Text) → Turn
  handles : (client : ClientState) (reaction : Reaction) → Turn

turn_on : (Text → Bool) → ClientState → Option Text → Text → Turn
unfolding handle_command
turn_on exists k response [] = skips
turn_on exists k response (c ∷ command) =
    let line = (c ∷ command) ++ codes "\n" in
    if (c ∷ command) == codes "exit"
    then exits line
    else let handled = handle_command exists k response line in handles handled.0 handled.1

unfoldable pub start_client_command_loop : (Text → Bool) → ClientState → Option Text → Text → Turn
unfolding turn_on
start_client_command_loop exists k response input =
    turn_on exists k response (trim_whitespace input)

unfoldable pub yes_answer : Text → Bool
yes_answer [] = false
yes_answer (c ∷ answer) = eqb c b'Y' || eqb c b'y'

unfoldable pub is_empty : Text → Bool
is_empty [] = true
is_empty (c ∷ s) = false

-- `connected` is whether `connect_to_tracker` succeeds, `answer` the line that the user types, and
-- `login_response` what the new tracker answers to the login. The texts are those that are sent to
-- it behind the line that `connect_to_tracker` sends.
unfoldable pub reset_tracker : ClientState → Bool → Text → Text → ClientState × List Text
unfolding yes_answer is_empty
reset_tracker k connected answer login_response =
    let known = not (is_empty k.username) && (not (is_empty k.password) && k.logged_in) in
    if connected && (known && yes_answer answer)
    then (
      record k { logged_in = contains (codes "successful") login_response },
      (codes "logout " ++ (k.username ++ codes "\n"))
          ∷ (codes "login " ++ (k.username ++ codes " " ++ (k.password ++ codes "\n")))
          ∷ [],
    )
    else (k, [])
