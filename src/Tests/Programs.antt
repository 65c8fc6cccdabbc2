-- ===== src/Tests/Programs.antt =====
-- The pool of threads, the tracker file and the login of a client.
use p2p_distributed_file_sha.Map.{get}
use p2p_distributed_file_sha.Users.{is_logged_in, is_user, login}
use p2p_distributed_file_sha.Prelude.{
  ◌<◌, none, ◌≡◌, refl, sym, ◌∙◌, true, false, some, Bool, [], ◌∷◌, ◌++◌, if◌then◌else◌, arith,
}
use p2p_distributed_file_sha.Text.{Text, codes, ◌==◌}
use p2p_distributed_file_sha.Words.{tokenize}
use p2p_distributed_file_sha.Result.{ok}
use p2p_distributed_file_sha.Session.{Session, Round, c_string}
use p2p_distributed_file_sha.Pool.{
  Pool, fresh_pool, claim, spawn, end_task, count, Reached, starts, claims, spawns, ends,
  all_available, get_available_thread, no_threads, take_slot, is_joinable, set_joinable, remove_one,
}
use p2p_distributed_file_sha.Pool.Joins.{overwrite_race}
use p2p_distributed_file_sha.Pool.Slots.{Exclusive, Reached-Exclusive}
use p2p_distributed_file_sha.Client.Commanding.{ClientState, handle_command}
use p2p_distributed_file_sha.Client.Commanding.Login.{reply_of, login_text, login_agrees}
use p2p_distributed_file_sha.Commands.Accounts.{login_command}
use p2p_distributed_file_sha.Replies.{not_a_user}
use p2p_distributed_file_sha.Client.Fetching.Receiving.{together}
use p2p_distributed_file_sha.Client.Responses.{receive_full_message}
use p2p_distributed_file_sha.Client.Commanding.{is_empty, yes_answer, reset_tracker}
use p2p_distributed_file_sha.Client.Commanding.Reset.{reset_agrees}
use p2p_distributed_file_sha.Session.{line, authenticating, commanding}
use p2p_distributed_file_sha.Session.Step.{step}
use p2p_distributed_file_sha.Session.Logout.{words}
use p2p_distributed_file_sha.Users.{is_logged_in}
use p2p_distributed_file_sha.Words.{trim_whitespace}
use p2p_distributed_file_sha.Client.Commanding.Lockout.{logout_locks_out}
use p2p_distributed_file_sha.Sync.{sync_handler}
use p2p_distributed_file_sha.Service.Accepting.{
  send_sync_message, opens, synced, sync_reply, greeting, size_command, send_message, accept_client,
}
use p2p_distributed_file_sha.Service.Accepting.First.{send_sync_message-whole, accepts}
use p2p_distributed_file_sha.Tests.Data.{session, home-IsToken, home-IsInt, password, asked, home}

-- One of two threads is to be given to a task.
abbrev chosen : Pool
chosen = record {
  thread_available = false ∷ true ∷ [];
  joinable = false ∷ false ∷ [];
  claimed = 0 ∷ [];
  detaching = [];
  running = [];
}

chosen-Reached : Reached 2 chosen
unfolding claim get_available_thread all_available no_threads take_slot
chosen-Reached = claims (fresh_pool 2) chosen starts refl

-- Its task runs.
abbrev busy : Pool
busy = record {
  thread_available = false ∷ true ∷ [];
  joinable = true ∷ false ∷ [];
  claimed = [];
  detaching = 0 ∷ [];
  running = 0 ∷ [];
}

busy-Reached : Reached 2 busy
unfolding spawn count is_joinable set_joinable remove_one
busy-Reached = spawns chosen busy 0 chosen-Reached (omega arith) refl

freed-Reached : Reached 2 (end_task 0 busy)
unfolding count
freed-Reached = ends busy 0 busy-Reached (omega arith)

Reached-Exclusive_example : Exclusive (end_task 0 busy)
Reached-Exclusive_example = Reached-Exclusive 2 (end_task 0 busy) freed-Reached

overwrite_race_example :
    (p : Pool) × Reached 2 p × (0 < count 0 p.claimed) × (p.running ≡ []) × (spawn 0 p ≡ none)
overwrite_race_example = overwrite_race 1

-- A client before its login, and its session at the tracker.
abbrev stranger : ClientState
stranger = record { username = []; password = []; logged_in = false; download_history = [] }

abbrev opened : Session
opened = record { client_address = home; logged_in = false; username = []; socket_closed = false }

abbrev no_path : Text → Bool
no_path path = false

login_whole : c_string (codes "login" ++ codes " c p\n") ≡ codes "login" ++ codes " c p\n"
unfolding c_string
login_whole = refl

login_tokens :
    tokenize (codes "login" ++ codes " c p\n") ≡ codes "login" ∷ codes "c" ∷ codes "p" ∷ []
unfolding tokenize
login_tokens = refl

login_agrees_example :
    (r : Round) × (step authenticating opened asked (line (login_text (codes " c p\n"))) ≡ ok r)
    × ((handle_command no_path stranger
          (some (reply_of r.actions))
          (login_text (codes " c p\n"))).0.logged_in
        ≡ r.session.logged_in)
    × ((handle_command no_path stranger
          (some (reply_of r.actions))
          (login_text (codes " c p\n"))).0.username
        ≡ (if r.session.logged_in then r.session.username else stranger.username))
login_agrees_example =
    login_agrees asked opened stranger no_path (codes " c p\n") (codes "c") password login_whole
      login_tokens refl

logout_words : words (codes "logout a\n") ≡ codes "logout" ∷ codes "a" ∷ []
unfolding c_string trim_whitespace tokenize
logout_words = refl

logout_locks_out_example :
    (r : Round) × (q : Round) × (step commanding session asked (line (codes "logout a\n")) ≡ ok r)
    × (step r.phase r.session r.state (line (login_text (codes " c p\n"))) ≡ ok q)
    × (q.session.logged_in ≡ true)
    × (is_logged_in q.state.um session.username ≡ false)
    × ((handle_command no_path stranger
          (some (reply_of q.actions))
          (login_text (codes " c p\n"))).0.logged_in
        ≡ false)
logout_locks_out_example =
    logout_locks_out no_path stranger session (codes " c p\n") (codes "c") password login_whole
      login_tokens asked (codes "logout a\n") (codes "a" ∷ []) refl logout_words refl

home_no_size : (home.ip == codes "SYNC_SIZE") ≡ false
unfolding ◌==◌
home_no_size = refl

sent_whole : codes "SYNC" ≡ send_message (2 ∷ 1 ∷ 9 ∷ 9 ∷ []) (codes "SYNC")
unfolding send_message
sent_whole = refl

accepts_example :
    (accept_client asked (greeting home) (codes "SYNC" ∷ []) ≡ ok (opens home))
    × (accept_client asked (size_command (codes "SYNC")) (codes "SYNC" ∷ [])
        ≡ ok (synced sync_reply (sync_handler asked (codes "SYNC"))))
accepts_example =
    accepts asked (codes "SYNC" ∷ []) home (codes "SYNC") (2 ∷ 1 ∷ 9 ∷ 9 ∷ []) home-IsToken
      home_no_size home-IsInt (omega arith)
      (omega arith, (omega arith, (omega arith, (omega arith, tt)))) ((λ e. cc), tt) sent_whole
      (omega arith)

send_sync_message-whole_example :
    send_sync_message true true (2 ∷ 1 ∷ 9 ∷ 9 ∷ []) (codes "SYNC")
    ≡ (size_command (codes "SYNC"), codes "SYNC")
send_sync_message-whole_example =
    send_sync_message-whole (2 ∷ 1 ∷ 9 ∷ 9 ∷ []) (codes "SYNC") (omega arith)
      (omega arith, (omega arith, (omega arith, (omega arith, tt))))

-- A client that was logged in at a tracker that is gone.
abbrev moved : ClientState
moved = record {
  username = codes "c";
  password = codes "p";
  logged_in = true;
  download_history = [];
}

no_account : (login_command asked moved.username moved.password home).reply ≡ not_a_user
unfolding login_command ◌==◌ is_logged_in get login is_user
no_account = refl

is_given : (is_empty moved.username ≡ false) × (is_empty moved.password ≡ false)
unfolding is_empty
is_given = (refl, refl)

agreed : yes_answer (codes "Y") ≡ true
unfolding yes_answer
agreed = refl

answer_cut :
    together (codes "You are not a user. " ∷ codes "First call create_user command.\n" ∷ [])
    ≡ not_a_user
answer_cut = refl

reset_agrees_example :
    ((reset_tracker moved true (codes "Y") (
        receive_full_message (
          (codes "You are not a user. " ∷ codes "First call create_user command.\n" ∷ [])
          ++ codes "x" ∷ []))).0.logged_in
      ≡ (login_command asked moved.username moved.password home).success)
    × ((reset_tracker moved true (codes "Y") (
          receive_full_message (
            (codes "You are not a user. " ∷ codes "First call create_user command.\n" ∷ [])
            ++ codes "x" ∷ []))).1
        ≡ (codes "logout " ++ (moved.username ++ codes "\n"))
          ∷ (codes "login " ++ (moved.username ++ codes " " ++ (moved.password ++ codes "\n")))
          ∷ [])
reset_agrees_example =
    reset_agrees moved (codes "Y") asked home
      (codes "You are not a user. " ∷ codes "First call create_user command.\n" ∷ [])
      (codes "x" ∷ []) is_given.0 is_given.1 refl agreed ((λ e. cc), ((λ e. cc), tt))
      (answer_cut ∙ sym no_account)
