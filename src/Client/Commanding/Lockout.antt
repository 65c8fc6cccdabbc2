-- ===== src/Client/Commanding/Lockout.antt =====
-- A login of a client behind its logout.
use p2p_distributed_file_sha.Prelude.{◌≡◌, refl, ap, ◌∙◌, Bool, true, false, some, List, [], ◌∷◌}
use p2p_distributed_file_sha.Text.{Text, codes, ◌==◌}
use p2p_distributed_file_sha.Words.{tokenize}
use p2p_distributed_file_sha.Words.Trimmed.{tokenize-trim_whitespace}
use p2p_distributed_file_sha.Users
use p2p_distributed_file_sha.Sync.{after_first}
use p2p_distributed_file_sha.Verb.{verb_of}
use p2p_distributed_file_sha.Commands.{State}
use p2p_distributed_file_sha.Result.{ok}
use p2p_distributed_file_sha.Session.{Session, Round, line, commanding, sends, c_string}
use p2p_distributed_file_sha.Session.Commanding.{
  command_line, command_tokens, command, logged_in_already,
}
use p2p_distributed_file_sha.Session.Step.{step}
use p2p_distributed_file_sha.Session.Logout.{words, logout_keeps_commanding}
use p2p_distributed_file_sha.Client.Commanding.{ClientState, handle_command}
use p2p_distributed_file_sha.Client.Commanding.Login.{
  login_text, reply_of, says_success, client_side,
}

already_refused : says_success logged_in_already ≡ false
unfolding after_first
already_refused = refl

module _ (exists : Text → Bool) (k : ClientState) (c : Session) (rest username password : Text)
    (whole : c_string (login_text rest) ≡ login_text rest)
    (tokens : tokenize (login_text rest) ≡ codes "login" ∷ username ∷ password ∷ []) where
  -- The round of a session in the loop of commands on a login.
  abbrev refused : State → Round
  refused s = record {
    phase = commanding;
    session = c;
    state = s;
    actions = sends logged_in_already ∷ [];
  }

  login_refused : (s : State) → step commanding c s (line (login_text rest)) ≡ ok (refused s)
  unfolding step command_line command_tokens command verb_of ◌==◌
  login_refused s = rw (whole, tokenize-trim_whitespace (login_text rest), tokens) refl

  stays_out :
      (s : State)
      → (handle_command exists k (some (reply_of (refused s).actions)) (login_text rest)).0 ≡ k
  unfolding reply_of
  stays_out s =
      client_side s c k exists rest username password logged_in_already tokens
      ∙ rw already_refused refl

  -- If a client that has logged in sends logout, and then a login of whatever user, the session
  -- refuses the login as it still holds itself logged in, while its user is not logged in at the
  -- tracker and the client, as before, holds itself logged out.
  pub logout_locks_out :
      (s : State) (raw : Text) (args : List Text)
      → c.logged_in ≡ true
      → words raw ≡ codes "logout" ∷ args
      → k.logged_in ≡ false
      → (r : Round) × (q : Round) × (step commanding c s (line raw) ≡ ok r)
        × (step r.phase r.session r.state (line (login_text rest)) ≡ ok q)
        × (q.session.logged_in ≡ true)
        × (Users.is_logged_in q.state.um c.username ≡ false)
        × ((handle_command exists k (some (reply_of q.actions)) (login_text rest)).0.logged_in
            ≡ false)
  logout_locks_out s raw args inside asks out =
      let (r, goes, same_phase, same_session, outside) =
        logout_keeps_commanding s c raw args inside asks in
      (
        r,
        refused r.state,
        goes,
        rw (same_phase, same_session) (login_refused r.state),
        inside,
        outside,
        ap (λ (x : ClientState). x.logged_in) (stays_out r.state) ∙ out,
      )
