-- ===== src/Session/Calls.antt =====
-- The commands of `CommandManager` that a round of `ClientManager` carries out.
use p2p_distributed_file_sha.Prelude.{
  ◌≡◌, ◌≢◌, refl, ◌⊎◌, inl, inr, Bool-cases, Option, none, some, List, [], ◌∷◌,
}
use p2p_distributed_file_sha.Text.{Text, codes}
use p2p_distributed_file_sha.FileInfo.{FileInfo}
use p2p_distributed_file_sha.FileInfo.Parse.{from_string}
use p2p_distributed_file_sha.Words.{trim_whitespace, base_name}
use p2p_distributed_file_sha.Result.{Result, ok, fault}
use p2p_distributed_file_sha.Verb.{Verb, verb_of}
use p2p_distributed_file_sha.Sync.{Handled, after_first}
use p2p_distributed_file_sha.Sync.Calls.{ByCall, Then, sync_handler-ByCall}
use p2p_distributed_file_sha.Commands.{State, Outcome}
use p2p_distributed_file_sha.Commands.Effects.{list_group_state}
use p2p_distributed_file_sha.Commands.Calls.{
  Call, create_user, login, logout, create_group, list_group, join_group, list_request,
  accept_request, leave_group, upload_file, upload_data, list_files, download_file, update_file,
  stop, execute,
}
use p2p_distributed_file_sha.Session.{
  Phase, authenticating, commanding, awaiting_data, Session, Input, line, disconnected, counted,
  Round,
}
use p2p_distributed_file_sha.Session.Authenticating.{
  leave, answer, answer_tokens, login_line, try_login, try_create, log_out,
}
use p2p_distributed_file_sha.Session.Commanding.{
  begin_upload, after_sync, run_sync, sync_behind, command, command_tokens, command_line,
  store_data, read_data, take_data, behind_blank, upload_data as session_data,
}
use p2p_distributed_file_sha.Session.Step.{step}

-- In whose name a command is given.
abbrev pub user_of : Call → Option Text
user_of (create_user u p) = some u
user_of (login u p a) = some u
user_of (logout u) = some u
user_of (create_group u g) = some u
user_of list_group = none
user_of (join_group u g) = some u
user_of (list_request u g) = some u
user_of (accept_request u v g) = some u
user_of (leave_group u g) = some u
user_of (upload_file u g f) = some u
user_of (upload_data u g f i) = some u
user_of (list_files u g) = some u
user_of (download_file u g f) = some u
user_of (update_file u g f p a) = some u
user_of (stop u g f) = some u

-- The state is the old one, or what one command of this user makes of it.
abbrev pub ByUser : State → Text → State → Type 0
ByUser s user t = (t ≡ s) ⊎ ((k : Call) × (user_of k ≡ some user) × (t ≡ (execute s k).state))

-- What holds of the state after a round, unless the process faults.
abbrev pub After : (State → Type 0) → Result Round → Type 0
After P (ok r) = P r.state
After P (fault f) = Unit

begin_upload-After :
    (P : State → Type 0) (c : Session) (g f : Text) (o : Outcome)
    → P o.state
    → After P (begin_upload c g f o)
unfolding begin_upload
begin_upload-After P c g f o h = elim (Bool-cases o.success) [
  | inl sent ↦ rw (sent, begin_upload) h
  | inr refused ↦ rw (refused, begin_upload) h
]

-- A command of a logged-in session, other than sync, leaves the shared state as it was, or turns it
-- into what one command of the command manager, given in the session's user name, makes of it.
pub command-ByUser :
    (s : State) (c : Session) (message : Text) (verb : Verb) (args : List Text)
    → verb ≢ Verb.sync
    → After (ByUser s c.username) (command s c message verb args)
unfolding command execute leave
command-ByUser s c m Verb.exit args h = inr (logout c.username, refl, refl)
command-ByUser s c m Verb.logout args h = inr (logout c.username, refl, refl)
command-ByUser s c m Verb.create_group (g ∷ []) h = inr (create_group c.username g, refl, refl)
command-ByUser s c m Verb.list_groups args h = inl (list_group_state s)
command-ByUser s c m Verb.join_group (g ∷ []) h = inr (join_group c.username g, refl, refl)
command-ByUser s c m Verb.list_requests (g ∷ []) h = inr (list_request c.username g, refl, refl)
command-ByUser s c m Verb.accept_request (g ∷ v ∷ []) h =
    inr (accept_request c.username v g, refl, refl)
command-ByUser s c m Verb.leave_group (g ∷ []) h = inr (leave_group c.username g, refl, refl)
command-ByUser s c m Verb.list_files (g ∷ []) h = inr (list_files c.username g, refl, refl)
command-ByUser s c m Verb.upload_file (g ∷ f ∷ []) h =
    begin_upload-After (ByUser s c.username) c g (base_name f) _
      (inr (upload_file c.username g (base_name f), refl, refl))
command-ByUser s c m Verb.download_file (g ∷ f ∷ []) h =
    inr (download_file c.username g f, refl, refl)
command-ByUser s c m Verb.update_file_info (g ∷ f ∷ p ∷ []) h =
    inr (update_file c.username g (base_name f) p c.client_address, refl, refl)
command-ByUser s c m Verb.stop_share (g ∷ f ∷ []) h =
    inr (stop c.username g (base_name f), refl, refl)
command-ByUser s c m Verb.sync args h = absurd (h refl)
command-ByUser s c m verb args h = inl refl

after_sync-ByCall :
    (s : State) (c : Session) (r : Result Handled)
    → Then (ByCall s) r
    → After (ByCall s) (after_sync c r)
unfolding after_sync
after_sync-ByCall s c (ok (t, done)) h = h
after_sync-ByCall s c (fault f) h = tt

run_sync-ByCall : (s : State) (c : Session) (cmd : Text) → After (ByCall s) (run_sync s c cmd)
unfolding run_sync
run_sync-ByCall s c [] = inl refl
run_sync-ByCall s c (x ∷ cmd) = after_sync-ByCall s c _ (sync_handler-ByCall s (x ∷ cmd))

sync_behind-ByCall :
    (s : State) (c : Session) (o : Option Text) → After (ByCall s) (sync_behind s c o)
unfolding sync_behind
sync_behind-ByCall s c none = inl refl
sync_behind-ByCall s c (some rest) = run_sync-ByCall s c (trim_whitespace rest)

forget_user : (s t : State) (user : Text) → ByUser s user t → ByCall s t
forget_user s t user (inl e) = inl e
forget_user s t user (inr (k, _, e)) = inr (k, e)

forget_round :
    (s : State) (user : Text) (r : Result Round) → After (ByUser s user) r → After (ByCall s) r
forget_round s user (ok r) h = forget_user s r.state user h
forget_round s user (fault f) h = tt

command-ByCall :
    (s : State) (c : Session) (message : Text) (verb : Verb) (args : List Text)
    → After (ByCall s) (command s c message verb args)
command-ByCall s c m Verb.sync args =
    unfold command in sync_behind-ByCall s c (after_first (codes "sync") m)
command-ByCall s c m verb args =
    forget_round s c.username _ (command-ByUser s c m verb args (λ e. cc))

command_tokens-ByCall :
    (s : State) (c : Session) (message : Text) (tokens : List Text)
    → After (ByCall s) (command_tokens s c message tokens)
unfolding command_tokens
command_tokens-ByCall s c m [] = inl refl
command_tokens-ByCall s c m (word ∷ args) = command-ByCall s c m (verb_of word) args

answer-ByCall :
    (s : State) (c : Session) (message : Text) (verb : Verb) (args : List Text)
    → ByCall s (answer s c message verb args).state
unfolding answer execute leave try_login try_create log_out
answer-ByCall s c m Verb.login (u ∷ p ∷ []) = inr (login u p c.client_address, refl)
answer-ByCall s c m Verb.create_user (u ∷ p ∷ []) = inr (create_user u p, refl)
answer-ByCall s c m Verb.exit args = inr (logout c.username, refl)
answer-ByCall s c m Verb.logout (u ∷ []) = inr (logout u, refl)
answer-ByCall s c m verb args = inl refl

answer_tokens-ByCall :
    (s : State) (c : Session) (message : Text) (tokens : List Text)
    → ByCall s (answer_tokens s c message tokens).state
unfolding answer_tokens
answer_tokens-ByCall s c m [] = inl refl
answer_tokens-ByCall s c m (word ∷ args) = answer-ByCall s c m (verb_of word) args

store_data-ByCall :
    (s : State) (c : Session) (g f m : Text) (o : Option FileInfo)
    → After (ByCall s) (store_data s c g f m o)
unfolding store_data execute
store_data-ByCall s c g f m none = tt
store_data-ByCall s c g f m (some i) = inr (upload_data c.username g f i, refl)

read_data-ByCall :
    (s : State) (c : Session) (g f m info : Text) → After (ByCall s) (read_data s c g f m info)
unfolding read_data
read_data-ByCall s c g f m [] = inl refl
read_data-ByCall s c g f m (x ∷ info) = store_data-ByCall s c g f m (from_string (x ∷ info))

take_data-ByCall : (s : State) (c : Session) (g f m : Text) → After (ByCall s) (take_data s c g f m)
unfolding take_data
take_data-ByCall s c g f [] = inl refl
take_data-ByCall s c g f (x ∷ m) =
    read_data-ByCall s c g f (x ∷ m) (trim_whitespace (behind_blank (x ∷ m)))

leave-ByCall : (s : State) (c : Session) → ByCall s (leave s c).state
unfolding leave execute
leave-ByCall s c = inr (logout c.username, refl)

-- Whatever the socket delivers, a round of a session leaves the shared state as it was, or turns
-- it into what one command of the command manager makes of it, unless the process faults.
pub step-ByCall :
    (phase : Phase) (c : Session) (s : State) (input : Input)
    → After (ByCall s) (step phase c s input)
unfolding step login_line command_line session_data
step-ByCall authenticating c s (line raw) = answer_tokens-ByCall s c _ _
step-ByCall authenticating c s disconnected = leave-ByCall s c
step-ByCall commanding c s (line raw) = command_tokens-ByCall s c _ _
step-ByCall commanding c s disconnected = leave-ByCall s c
step-ByCall (awaiting_data g f) c s (counted payload) =
    take_data-ByCall s c g f (trim_whitespace payload)
step-ByCall phase c s input = tt
