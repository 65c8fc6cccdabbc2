-- ===== src/Client/Commanding/Login.antt =====
-- The login of a client at a tracker: what both then hold for true.
use p2p_distributed_file_sha.Prelude.{
  ◌≡◌, refl, ap, ◌∙◌, inl, inr, Bool-cases, Bool, true, false, some, List, [], ◌∷◌, ◌++◌, is_some,
  if◌then◌else◌,
}
use p2p_distributed_file_sha.Text.{Text, codes, ◌==◌}
use p2p_distributed_file_sha.Words.{tokenize, trim_whitespace}
use p2p_distributed_file_sha.Words.Trimmed.{tokenize-trim_whitespace}
use p2p_distributed_file_sha.Address.{Address}
use p2p_distributed_file_sha.Users
use p2p_distributed_file_sha.Sync.{after_first}
use p2p_distributed_file_sha.Verb.{verb_of}
use p2p_distributed_file_sha.Commands.{State}
use p2p_distributed_file_sha.Commands.Accounts.{login_command}
use p2p_distributed_file_sha.Replies.{
  login_successful, already_logged_in, wrong_password, not_a_user,
}
use p2p_distributed_file_sha.Result.{ok}
use p2p_distributed_file_sha.Session.{Session, Action, sends, c_string, Round, line, authenticating}
use p2p_distributed_file_sha.Session.Step.{step}
use p2p_distributed_file_sha.Session.Authenticating.{login_line, answer_tokens, answer, try_login}
use p2p_distributed_file_sha.Client.Commanding.{
  ClientState, keep_credentials, starts_with, after_response, to_tracker, handle_command,
}

-- The first text that is sent.
unfoldable pub reply_of : List Action → Text
reply_of [] = []
reply_of (sends reply ∷ actions) = reply
reply_of (action ∷ actions) = reply_of actions

abbrev pub says_success : Text → Bool
says_success reply = is_some (after_first (codes "Login successful") reply)

success_said : says_success login_successful ≡ true
unfolding after_first
success_said = refl

already_said : says_success already_logged_in ≡ false
unfolding after_first
already_said = refl

wrong_said : says_success wrong_password ≡ false
unfolding after_first
wrong_said = refl

stranger_said : says_success not_a_user ≡ false
unfolding after_first
stranger_said = refl

-- The reply says that the login is successful exactly when it is.
login_says :
    (s : State) (username password : Text) (addr : Address)
    → says_success (login_command s username password addr).reply
      ≡ (login_command s username password addr).success
unfolding login_command
login_says s username password addr =
    let tried = Users.login s.um username password addr in
    elim (Bool-cases (Users.is_logged_in s.um username)) [
      | inl before ↦ rw before already_said
      | inr not_before ↦ elim (Bool-cases tried.1) [
        | inl admitted ↦ rw (not_before, admitted) success_said
        | inr refused ↦ elim (Bool-cases (Users.is_user tried.0 username)) [
          | inl known ↦ rw (not_before, refused, known) wrong_said
          | inr stranger ↦ rw (not_before, refused, stranger) stranger_said
        ]
      ]
    ]

-- A line that starts with the word.
abbrev pub login_text : Text → Text
login_text rest = codes "login" ++ rest

module _ (s : State) (c : Session) (k : ClientState) (exists : Text → Bool)
    (rest username password : Text) where
  tracker_side :
      c_string (login_text rest) ≡ login_text rest
      → tokenize (login_text rest) ≡ codes "login" ∷ username ∷ password ∷ []
      → login_line s c (login_text rest)
        ≡ try_login s c (trim_whitespace (login_text rest)) username password
  unfolding login_line answer_tokens answer verb_of ◌==◌
  tracker_side whole tokens = rw (whole, tokenize-trim_whitespace (login_text rest), tokens) refl

  reply_sent :
      reply_of (try_login s c (trim_whitespace (login_text rest)) username password).actions
      ≡ (login_command s username password c.client_address).reply
  unfolding try_login reply_of
  reply_sent = elim (Bool-cases (login_command s username password c.client_address).success) [
    | inl done ↦ rw done refl
    | inr failed ↦ rw failed refl
  ]

  pub client_side :
      (response : Text)
      → tokenize (login_text rest) ≡ codes "login" ∷ username ∷ password ∷ []
      → (handle_command exists k (some response) (login_text rest)).0 ≡ (
          if says_success response
          then record k { username = username; password = password; logged_in = true }
          else k)
  unfolding handle_command to_tracker after_response keep_credentials starts_with
  client_side response tokens = rw tokens refl

  -- After a client that is not logged in has sent a login to a session in the loop for logins, and
  -- has taken in the tracker's reply, it holds itself logged in exactly if its session does; it then
  -- goes by the session's user name, and else by the name it had.
  pub login_agrees :
      c_string (login_text rest) ≡ login_text rest
      → tokenize (login_text rest) ≡ codes "login" ∷ username ∷ password ∷ []
      → k.logged_in ≡ false
      → (r : Round) × (step authenticating c s (line (login_text rest)) ≡ ok r)
        × ((handle_command exists k (some (reply_of r.actions)) (login_text rest)).0.logged_in
            ≡ r.session.logged_in)
        × ((handle_command exists k (some (reply_of r.actions)) (login_text rest)).0.username
            ≡ (if r.session.logged_in then r.session.username else k.username))
  unfolding try_login step
  login_agrees whole tokens out =
      let o = login_command s username password c.client_address in
      let r = try_login s c (trim_whitespace (login_text rest)) username password in
      let said = ap says_success reply_sent ∙ login_says s username password c.client_address in
      let client = client_side (reply_of r.actions) tokens in
      (
        r,
        ap ok (tracker_side whole tokens),
        rw client (
            rw said (elim (Bool-cases o.success) [
              | inl done ↦ rw done refl
              | inr failed ↦ rw failed out
            ])),
        rw client (
            rw said (elim (Bool-cases o.success) [
              | inl done ↦ rw done refl
              | inr failed ↦ rw failed refl
            ])),
      )
