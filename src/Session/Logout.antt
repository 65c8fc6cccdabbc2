-- ===== src/Session/Logout.antt =====
-- A session of `ClientManager` and the record of who is logged in, after a logout and after a login
-- that fails.
use p2p_distributed_file_sha.Prelude.{◌≡◌, refl, true, false, List, [], ◌∷◌, arith}
use p2p_distributed_file_sha.Text.{Text, codes, ◌==◌, ==_refl}
use p2p_distributed_file_sha.Users
use p2p_distributed_file_sha.Users.Sessions.{is_logged_in-logout}
use p2p_distributed_file_sha.Words.{trim_whitespace, tokenize}
use p2p_distributed_file_sha.Result.{ok}
use p2p_distributed_file_sha.Verb.{verb_of}
use p2p_distributed_file_sha.Commands.{State}
use p2p_distributed_file_sha.Commands.Accounts.{login_command, logout_command}
use p2p_distributed_file_sha.Commands.Effects.{logout_effect}
use p2p_distributed_file_sha.Session.{
  authenticating, commanding, Session, line, disconnected, Round, c_string, login_phase,
  logout_line, sends, notifies,
}
use p2p_distributed_file_sha.Session.Authenticating.{
  leave, login_line, answer, answer_tokens, try_login,
}
use p2p_distributed_file_sha.Replies.{already_logged_in}
use p2p_distributed_file_sha.Session.Commanding.{command_line, command, command_tokens}
use p2p_distributed_file_sha.Session.Step.{step}

-- After a logout the user is not logged in.
logged_out :
    (s : State) (user : Text) → Users.is_logged_in (logout_command s user).state.um user ≡ false
logged_out s user =
    ground (arith, logout_effect s user, is_logged_in-logout s.um user user, ==_refl user)

abbrev pub words : Text → List Text
words raw = tokenize (trim_whitespace (c_string raw))

-- A client that has logged in and sends logout is logged out at the tracker, but its session stays
-- in the loop of commands, with logged_in still set and under the same name.
pub logout_keeps_commanding :
    (s : State) (c : Session) (raw : Text) (rest : List Text)
    → c.logged_in ≡ true
    → words raw ≡ codes "logout" ∷ rest
    → (r : Round) × (step commanding c s (line raw) ≡ ok r)
      × (r.phase ≡ commanding)
      × (r.session ≡ c)
      × (Users.is_logged_in r.state.um c.username ≡ false)
unfolding step command_line command command_tokens verb_of ◌==◌
logout_keeps_commanding s c raw rest h e = (
  (record {
    phase = login_phase c;
    session = c;
    state = (logout_command s c.username).state;
    actions = sends (logout_command s c.username).reply ∷ notifies (logout_line c.username) ∷ [];
  }),
  rw e refl,
  rw h refl,
  refl,
  logged_out s c.username,
)

abbrev named : Session → Text → Session
named c user = record c { username = user; logged_in = false }

abbrev refused : State → Session → Text → Round
refused s c victim = record {
  phase = authenticating;
  session = named c victim;
  state = s;
  actions = sends already_logged_in ∷ [];
}

-- A client that has not logged in, and fails to log in under the name of a user who is logged in
-- elsewhere, logs that user out by hanging up.
pub failed_login_logs_out :
    (s : State) (c : Session) (raw victim password : Text)
    → Users.is_logged_in s.um victim ≡ true
    → words raw ≡ codes "login" ∷ victim ∷ password ∷ []
    → (r q : Round) × (step authenticating c s (line raw) ≡ ok r)
      × (r.phase ≡ authenticating)
      × (r.state ≡ s)
      × (step r.phase r.session r.state disconnected ≡ ok q)
      × (Users.is_logged_in q.state.um victim ≡ false)
unfolding step login_line answer_tokens answer try_login verb_of ◌==◌ login_command leave
failed_login_logs_out s c raw victim password on e = (
  refused s c victim,
  leave s (named c victim),
  rw (e, on) refl,
  refl,
  refl,
  refl,
  logged_out s victim,
)
