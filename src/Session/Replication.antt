-- ===== src/Session/Replication.antt =====
-- What a session tells the other trackers, carried out by a tracker in the same state.
use p2p_distributed_file_sha.Prelude.{
  ◌≡◌, refl, subst, Bool-cases, List, [], ◌∷◌, ◌++◌, All, inl, inr, Option, none, some,
}
use p2p_distributed_file_sha.Text.{Text, codes}
use p2p_distributed_file_sha.Words.{trim_whitespace, tokenize, base_name}
use p2p_distributed_file_sha.Words.Tokens.{IsToken, tokenize-IsToken}
use p2p_distributed_file_sha.Result.{Result, ok, fault}
use p2p_distributed_file_sha.Verb.{Verb, verb_of}
use p2p_distributed_file_sha.Sync.{
  Handled, notify_text, carry_out, sync_handler, handled, after_first,
}
use p2p_distributed_file_sha.Commands.{State, Outcome}
use p2p_distributed_file_sha.Commands.Accounts.{create_user_command, login_command}
use p2p_distributed_file_sha.Session.{
  Phase, authenticating, commanding, Session, notifies, Input, line, disconnected, counted,
}
use p2p_distributed_file_sha.Session.Authenticating.{
  answer, answer_tokens, login_line, try_login, try_create, log_out,
}
use p2p_distributed_file_sha.Session.Commanding.{
  begin_upload, after_sync, run_sync, sync_behind, command, command_tokens, command_line, tell,
  tell_first,
}
use p2p_distributed_file_sha.Session.Step.{step}
use p2p_distributed_file_sha.Session.Messages.{
  Carried, Replicated, IsReadable, IsNamed, IsKnown, IsLine, tokenize_signed, received,
  logout_line-Carried, leave-Replicated,
}

module _ (s : State) (c : Session) (m : Text) (o : Outcome)
    (e : sync_handler s (notify_text c.client_address (m ++ b' ' ∷ c.username)) ≡ handled o) where
  tell-Replicated : Replicated s c.client_address (tell c m o)
  tell-Replicated = elim (Bool-cases o.success) [
    | inl sent ↦ rw sent (tt, ((o.success, e), tt))
    | inr refused ↦ rw refused (tt, tt)
  ]

  tell_first-Replicated : Replicated s c.client_address (tell_first c m o)
  tell_first-Replicated = elim (Bool-cases o.success) [
    | inl sent ↦ rw sent ((o.success, e), (tt, tt))
    | inr refused ↦ rw refused (tt, tt)
  ]

begin_upload-Replicated :
    (s : State) (c : Session) (g f : Text) (o : Outcome)
    → Replicated s c.client_address (begin_upload c g f o)
unfolding begin_upload
begin_upload-Replicated s c g f o = elim (Bool-cases o.success) [
  | inl sent ↦ rw (sent, begin_upload) (tt, tt)
  | inr refused ↦ rw (refused, begin_upload) (tt, tt)
]

after_sync-Replicated :
    (s : State) (c : Session) (r : Result Handled) → Replicated s c.client_address (after_sync c r)
unfolding after_sync
after_sync-Replicated s c (ok (t, done)) = tt
after_sync-Replicated s c (fault f) = tt

run_sync-Replicated :
    (s : State) (c : Session) (cmd : Text) → Replicated s c.client_address (run_sync s c cmd)
unfolding run_sync
run_sync-Replicated s c [] = (tt, tt)
run_sync-Replicated s c (x ∷ cmd) = after_sync-Replicated s c _

sync_behind-Replicated :
    (s : State) (c : Session) (o : Option Text) → Replicated s c.client_address (sync_behind s c o)
unfolding sync_behind
sync_behind-Replicated s c none = (tt, tt)
sync_behind-Replicated s c (some rest) = run_sync-Replicated s c (trim_whitespace rest)

module _ (s : State) (c : Session) (m word : Text) (h : IsReadable c) (u : IsToken c.username) where
  -- The handler's branch for a message with the user's name behind it.
  signed :
      (first : Text) (rest : List Text) (verb : Verb)
      → tokenize m ≡ word ∷ first ∷ rest
      → verb_of word ≡ verb
      → sync_handler s (notify_text c.client_address (m ++ b' ' ∷ c.username))
        ≡ carry_out s
            (notify_text c.client_address (m ++ b' ' ∷ c.username))
            c.client_address
            verb
            first
            (rest ++ c.username ∷ [])
  signed first rest verb e v =
      received s c (m ++ b' ' ∷ c.username) word first (rest ++ c.username ∷ []) verb h
        (tokenize_signed m c.username _ u e) v

  command-Replicated :
      (verb : Verb) (args : List Text)
      → tokenize m ≡ word ∷ args
      → verb_of word ≡ verb
      → Replicated s c.client_address (command s c m verb args)
  unfolding command carry_out
  command-Replicated Verb.exit args e v = leave-Replicated s c h (inl u)
  command-Replicated Verb.logout args e v = (tt, (logout_line-Carried s c c.username h u, tt))
  command-Replicated Verb.create_group (g ∷ []) e v =
      tell-Replicated s c m _ (signed g [] Verb.create_group e v)
  command-Replicated Verb.join_group (g ∷ []) e v =
      tell-Replicated s c m _ (signed g [] Verb.join_group e v)
  command-Replicated Verb.accept_request (g ∷ w ∷ []) e v =
      tell-Replicated s c m _ (signed g (w ∷ []) Verb.accept_request e v)
  command-Replicated Verb.leave_group (g ∷ []) e v =
      tell-Replicated s c m _ (signed g [] Verb.leave_group e v)
  command-Replicated Verb.upload_file (g ∷ f ∷ []) e v =
      begin_upload-Replicated s c g (base_name f) _
  command-Replicated Verb.update_file_info (g ∷ f ∷ p ∷ []) e v =
      tell-Replicated s c m _ (signed g (f ∷ p ∷ []) Verb.update_file_info e v)
  command-Replicated Verb.stop_share (g ∷ f ∷ []) e v =
      tell_first-Replicated s c m _ (signed g (f ∷ []) Verb.stop_share e v)
  command-Replicated Verb.sync args e v = sync_behind-Replicated s c (after_first (codes "sync") m)
  command-Replicated Verb.list_requests (g ∷ []) e v = (tt, tt)
  command-Replicated Verb.list_files (g ∷ []) e v = (tt, tt)
  command-Replicated Verb.download_file (g ∷ f ∷ []) e v = (tt, tt)
  command-Replicated verb args e v = (tt, tt)

command_tokens-Replicated :
    (s : State) (c : Session) (m : Text) (tokens : List Text)
    → IsReadable c
    → IsToken c.username
    → tokenize m ≡ tokens
    → Replicated s c.client_address (command_tokens s c m tokens)
unfolding command_tokens
command_tokens-Replicated s c m [] h u e = (tt, tt)
command_tokens-Replicated s c m (word ∷ args) h u e =
    command-Replicated s c m word h u (verb_of word) args e refl

-- A message as it came, after a login or a new account.
verbatim :
    (s : State) (c : Session) (m : Text) (o : Outcome)
    → sync_handler s (notify_text c.client_address m) ≡ handled o
    → Carried s c.client_address o.state (notifies m)
verbatim s c m o e = (o.success, e)

module _ (s : State) (c : Session) (m word : Text) (h : IsReadable c) (u : IsNamed s c) where
  try_login-Replicated :
      (name password : Text)
      → tokenize m ≡ word ∷ name ∷ password ∷ []
      → verb_of word ≡ Verb.login
      → Replicated s c.client_address (ok (try_login s c m name password))
  unfolding try_login carry_out
  try_login-Replicated name password e v =
      let o = login_command s name password c.client_address in
      let told = received s c m word name (password ∷ []) Verb.login h e v in
      elim (Bool-cases o.success) [
        | inl sent ↦ rw sent ((o.success, told), (tt, tt))
        | inr refused ↦ rw refused (tt, tt)
      ]

  try_create-Replicated :
      (name password : Text)
      → tokenize m ≡ word ∷ name ∷ password ∷ []
      → verb_of word ≡ Verb.create_user
      → Replicated s c.client_address (ok (try_create s c m name password))
  unfolding try_create carry_out
  try_create-Replicated name password e v =
      let o = create_user_command s name password in
      let told = received s c m word name (password ∷ []) Verb.create_user h e v in
      elim (Bool-cases o.success) [
        | inl sent ↦ rw sent (tt, ((o.success, told), tt))
        | inr refused ↦ rw refused (tt, tt)
      ]

  answer-Replicated :
      (verb : Verb) (args : List Text)
      → tokenize m ≡ word ∷ args
      → verb_of word ≡ verb
      → Replicated s c.client_address (ok (answer s c m verb args))
  unfolding answer log_out
  answer-Replicated Verb.login (name ∷ password ∷ []) e v = try_login-Replicated name password e v
  answer-Replicated Verb.create_user (name ∷ password ∷ []) e v =
      try_create-Replicated name password e v
  answer-Replicated Verb.exit args e v = leave-Replicated s c h u
  answer-Replicated Verb.logout (name ∷ []) e v =
      let tokens = subst (All IsToken) e (tokenize-IsToken m) in
      (tt, (logout_line-Carried s c name h tokens.1.0, tt))
  answer-Replicated verb args e v = (tt, tt)

answer_tokens-Replicated :
    (s : State) (c : Session) (m : Text) (tokens : List Text)
    → IsReadable c
    → IsNamed s c
    → tokenize m ≡ tokens
    → Replicated s c.client_address (ok (answer_tokens s c m tokens))
unfolding answer_tokens
answer_tokens-Replicated s c m [] h u e = (tt, tt)
answer_tokens-Replicated s c m (word ∷ args) h u e =
    answer-Replicated s c m word h u (verb_of word) args e refl

-- In a round of a session on a line or on the end of the connection, every message to the other
-- trackers, at a tracker that is in the state before the round, makes the state after the round
-- and no fault; the client's address has to be readable, and the session's user to have a name or,
-- outside the loop of commands, none while nobody is logged in under the empty name; an upload's
-- record is left out.
pub step-Replicated :
    (phase : Phase) (c : Session) (s : State) (input : Input)
    → IsReadable c
    → IsKnown phase s c
    → IsLine input
    → Replicated s c.client_address (step phase c s input)
unfolding step login_line command_line
step-Replicated authenticating c s (line raw) h u i = answer_tokens-Replicated s c _ _ h u refl
step-Replicated authenticating c s disconnected h u i = leave-Replicated s c h u
step-Replicated commanding c s (line raw) h u i = command_tokens-Replicated s c _ _ h u refl
step-Replicated commanding c s disconnected h u i = leave-Replicated s c h (inl u)
step-Replicated phase c s (counted payload) h u i = absurd i
step-Replicated phase c s input h u i = tt
