-- ===== src/Tests/Sessions.antt =====
-- Sessions, the messages between trackers, and the tracker as a whole.
use p2p_distributed_file_sha.Prelude.{◌≡◌, ◌≢◌, refl, ◌⊎◌, true, false, [], ◌∷◌, ◌++◌}
use p2p_distributed_file_sha.Text.{Text, codes, ◌==◌}
use p2p_distributed_file_sha.Users.{is_logged_in}
use p2p_distributed_file_sha.Groups
use p2p_distributed_file_sha.Words.{tokenize, trim_whitespace}
use p2p_distributed_file_sha.Result.{ok}
use p2p_distributed_file_sha.Verb.{Verb, verb_of}
use p2p_distributed_file_sha.Sync.{notify_text, carry_out}
use p2p_distributed_file_sha.Commands.{State, start}
use p2p_distributed_file_sha.Commands.Membership.{create_group_command, leave_group_command}
use p2p_distributed_file_sha.Commands.Soundness.{IsSound}
use p2p_distributed_file_sha.Session.{
  authenticating, commanding, Session, sends, notifies, line, disconnected, Round, c_string,
}
use p2p_distributed_file_sha.Session.Authenticating.{login_line}
use p2p_distributed_file_sha.Session.Commanding.{command, after_sync}
use p2p_distributed_file_sha.Session.Step.{step}
use p2p_distributed_file_sha.Session.Calls.{After, ByUser, command-ByUser}
use p2p_distributed_file_sha.Session.Messages.{Replicated}
use p2p_distributed_file_sha.Session.Replication.{step-Replicated}
use p2p_distributed_file_sha.Session.Logout.{logout_keeps_commanding, failed_login_logs_out}
use p2p_distributed_file_sha.Service.{Served, begins, serves}
use p2p_distributed_file_sha.Service.Soundness.{Served-IsSound}
use p2p_distributed_file_sha.Service.Authority.{session_admits, session_removes}
use p2p_distributed_file_sha.Service.Impersonation.{sync_line_in_any_name}
use p2p_distributed_file_sha.Tests.Data.{
  ann, bob, club, home, asked, session, ann-IsToken, home-IsToken, home-IsInt,
}

step-Replicated_example :
    Replicated asked home (step commanding session asked (line (codes "leave_group g\n")))
step-Replicated_example =
    step-Replicated commanding session asked (line (codes "leave_group g\n"))
      (home-IsToken, home-IsInt) ann-IsToken tt

-- A session before its login.
abbrev fresh : Session
fresh = record { client_address = home; logged_in = false; username = []; socket_closed = false }

abbrev registered : State
registered = (login_line start fresh (codes "create_user a p\n")).state

registered-Served : Served registered
unfolding step
registered-Served =
    serves authenticating fresh (line (codes "create_user a p\n"))
      (login_line start fresh (codes "create_user a p\n")) begins refl

Served-IsSound_example : IsSound registered
Served-IsSound_example = Served-IsSound registered registered-Served

-- `ann` makes the group.
abbrev made : Round
made = record {
  phase = commanding;
  session = session;
  state = (create_group_command start ann club).state;
  actions =
      sends (create_group_command start ann club).reply
      ∷ notifies (codes "create_group g" ++ b' ' ∷ ann)
      ∷ [];
}

-- `ann` leaves it.
abbrev gone : Round
gone = record {
  phase = commanding;
  session = session;
  state = (leave_group_command made.state ann club).state;
  actions =
      sends (leave_group_command made.state ann club).reply
      ∷ notifies (codes "leave_group g" ++ b' ' ∷ ann)
      ∷ [];
}

made_words :
    tokenize (trim_whitespace (c_string (codes "create_group g")))
    ≡ codes "create_group" ∷ club ∷ []
unfolding tokenize c_string
made_words = refl

gone_words :
    tokenize (trim_whitespace (c_string (codes "leave_group g"))) ≡ codes "leave_group" ∷ club ∷ []
unfolding tokenize c_string
gone_words = refl

made_verb : verb_of (codes "create_group") ≢ Verb.sync
unfolding verb_of ◌==◌
made_verb = λ e. cc

gone_verb : verb_of (codes "leave_group") ≢ Verb.sync
unfolding verb_of ◌==◌
gone_verb = λ e. cc

made-step : step commanding session start (line (codes "create_group g")) ≡ ok made
unfolding step p2p_distributed_file_sha.Session.Commanding.command_line
    p2p_distributed_file_sha.Session.Commanding.command_tokens tokenize c_string command verb_of
    ◌==◌ create_group_command Groups.is_group_available p2p_distributed_file_sha.Map.get
made-step = refl

gone-step : step commanding session made.state (line (codes "leave_group g")) ≡ ok gone
unfolding step p2p_distributed_file_sha.Session.Commanding.command_line
    p2p_distributed_file_sha.Session.Commanding.command_tokens tokenize c_string command verb_of
    ◌==◌ leave_group_command Groups.is_group_available p2p_distributed_file_sha.Map.get
    create_group_command Groups.create_group p2p_distributed_file_sha.Map.put
    p2p_distributed_file_sha.Commands.Membership.ask_member Groups.is_member_of_group
    p2p_distributed_file_sha.Text.mem Groups.leave_group p2p_distributed_file_sha.Text.erase_first
    p2p_distributed_file_sha.Map.remove
gone-step = refl

made-Served : Served made.state
made-Served = serves commanding session (line (codes "create_group g")) made begins made-step

session_admits_example :
    ((ann ≡ ann) × (Groups.is_group_available start.gm club ≡ false))
    ⊎ ((Groups.is_group_owner start.gm ann club ≡ true)
        × (Groups.is_pending_request start.gm ann club ≡ true))
unfolding p2p_distributed_file_sha.Text.mem p2p_distributed_file_sha.Map.get create_group_command
    Groups.is_group_available Groups.create_group p2p_distributed_file_sha.Map.put ◌==◌
session_admits_example =
    session_admits start session (codes "create_group g") (codes "create_group") (club ∷ []) made
      begins made_words made_verb made-step ann club refl refl

session_removes_example : ann ≡ ann
unfolding p2p_distributed_file_sha.Text.mem p2p_distributed_file_sha.Map.get create_group_command
    Groups.is_group_available Groups.create_group p2p_distributed_file_sha.Map.put ◌==◌
    leave_group_command p2p_distributed_file_sha.Commands.Membership.ask_member
    Groups.is_member_of_group Groups.leave_group p2p_distributed_file_sha.Text.erase_first
    p2p_distributed_file_sha.Map.remove
session_removes_example =
    session_removes made.state session (codes "leave_group g") (codes "leave_group") (club ∷ [])
      gone made-Served gone_words gone_verb gone-step ann club refl refl

command-ByUser_example :
    After
      (ByUser asked ann)
      (command asked session (codes "leave_group g") Verb.leave_group (club ∷ []))
command-ByUser_example =
    command-ByUser asked session (codes "leave_group g") Verb.leave_group (club ∷ []) (λ e. cc)

logout_keeps_commanding_example :
    (r : Round) × (step commanding session asked (line (codes "logout\n")) ≡ ok r)
    × (r.phase ≡ commanding)
    × (r.session ≡ session)
    × (is_logged_in r.state.um ann ≡ false)
unfolding tokenize c_string
logout_keeps_commanding_example =
    logout_keeps_commanding asked session (codes "logout\n") [] refl refl

failed_login_logs_out_example :
    (r q : Round) × (step authenticating fresh asked (line (codes "login a x\n")) ≡ ok r)
    × (r.phase ≡ authenticating)
    × (r.state ≡ asked)
    × (step r.phase r.session r.state disconnected ≡ ok q)
    × (is_logged_in q.state.um ann ≡ false)
unfolding is_logged_in p2p_distributed_file_sha.Map.get ◌==◌ tokenize c_string
failed_login_logs_out_example =
    failed_login_logs_out asked fresh (codes "login a x\n") ann (codes "x") refl refl

sync_line_in_any_name_example :
    step commanding session asked (line (codes "sync SYNC 1.2 80 logout b"))
    ≡ after_sync session (
        carry_out asked
          (notify_text home (codes "logout b"))
          home
          (verb_of (codes "logout"))
          bob
          [])
unfolding tokenize c_string notify_text p2p_distributed_file_sha.Number.show_int
    p2p_distributed_file_sha.Number.show_nat
sync_line_in_any_name_example =
    sync_line_in_any_name asked session (codes "sync SYNC 1.2 80 logout b") home (codes "logout b")
      (codes "logout") bob [] home-IsToken home-IsInt refl refl refl
