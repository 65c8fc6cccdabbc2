-- ===== src/Session/Authenticating.antt =====
-- `login_loop`: until the client has logged in.
use p2p_distributed_file_sha.Prelude.{true, false, List, [], ◌∷◌, if◌then◌else◌}
use p2p_distributed_file_sha.Text.{Text, codes}
use p2p_distributed_file_sha.Words.{trim_whitespace, tokenize}
use p2p_distributed_file_sha.Verb.{Verb, verb_of}
use p2p_distributed_file_sha.Commands.{State}
use p2p_distributed_file_sha.Commands.Accounts.{create_user_command, login_command, logout_command}
use p2p_distributed_file_sha.Session.{
  finished, Session, sends, notifies, Round, login_phase, c_string, close_socket, invalid_command,
  logout_line,
}

abbrev pub login_usage : Text
login_usage = codes "Usage: login <username> <password>\n"

abbrev pub create_user_usage : Text
create_user_usage = codes "Usage: create_user <username> <password>\n"

abbrev pub logout_usage : Text
logout_usage = codes "Usage: logout <username>\n"

abbrev pub login_first : Text
login_first = codes "Please login/Create first using the login/create_user command.\n"

-- A round that changes nothing but sends a message: `send_message(…); continue;`
abbrev stay : State → Session → Text → Round
stay s c reply = record {
  phase = login_phase c;
  session = c;
  state = s;
  actions = sends reply ∷ [];
}

-- The client is gone or says exit: whoever `username` names is logged out, here and at the peers.
unfoldable pub leave : State → Session → Round
leave s c = record {
  phase = finished;
  session = record c { socket_closed = true };
  state = (logout_command s c.username).state;
  actions = notifies (logout_line c.username) ∷ close_socket c;
}

-- `username` is set before the password is tried.
unfoldable pub try_login : State → Session → Text → Text → Text → Round
try_login s c message username password =
    let o = login_command s username password c.client_address in
    let c' = record c { username = username; logged_in = o.success } in
    record {
      phase = login_phase c';
      session = c';
      state = o.state;
      actions = if o.success then notifies message ∷ sends o.reply ∷ [] else sends o.reply ∷ [];
    }

unfoldable pub try_create : State → Session → Text → Text → Text → Round
try_create s c message username password =
    let o = create_user_command s username password in
    let c' = record c { username = username } in
    record {
      phase = login_phase c';
      session = c';
      state = o.state;
      actions = if o.success then sends o.reply ∷ notifies message ∷ [] else sends o.reply ∷ [];
    }

unfoldable pub log_out : State → Session → Text → Round
log_out s c username =
    let o = logout_command s username in
    let c' = record c { username = username; logged_in = false } in
    record {
      phase = login_phase c';
      session = c';
      state = o.state;
      actions = sends o.reply ∷ notifies (logout_line username) ∷ [];
    }

-- The branches on `tokens[0]`; the tests of the size are the patterns.
unfoldable pub answer : State → Session → Text → Verb → List Text → Round
answer s c message Verb.login (username ∷ password ∷ []) = try_login s c message username password
answer s c message Verb.login args = stay s c login_usage
answer s c message Verb.create_user (username ∷ password ∷ []) =
    try_create s c message username password
answer s c message Verb.create_user args = stay s c create_user_usage
answer s c message Verb.exit args = leave s c
answer s c message Verb.logout (username ∷ []) = log_out s c username
answer s c message Verb.logout args = stay s c logout_usage
answer s c message verb args = stay s c login_first

unfoldable pub answer_tokens : State → Session → Text → List Text → Round
answer_tokens s c message [] = stay s c invalid_command
answer_tokens s c message (word ∷ args) = answer s c message (verb_of word) args

-- A line without a word has no tokens either, so the two tests of the source are one.
unfoldable pub login_line : State → Session → Text → Round
login_line s c raw =
    let message = trim_whitespace (c_string raw) in answer_tokens s c message (tokenize message)
