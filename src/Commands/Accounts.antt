-- ===== src/Commands/Accounts.antt =====
-- The commands on accounts: create_user, login, logout.
use p2p_distributed_file_sha.Prelude.{not, if◌then◌else◌}
use p2p_distributed_file_sha.Text.{Text}
use p2p_distributed_file_sha.Address.{Address}
use p2p_distributed_file_sha.Users
use p2p_distributed_file_sha.Commands.{State, Outcome, fail, succeed}
use p2p_distributed_file_sha.Replies.{
  user_exists, user_created, user_not_created, already_logged_in, login_successful, wrong_password,
  not_a_user, not_logged_in, logout_successful, logout_unsuccessful,
}

unfoldable pub create_user_command : State → Text → Text → Outcome
create_user_command s username password =
    if Users.is_user s.um username
    then fail s user_exists
    else let (um', registered) = Users.register_user s.um username password in
      let s' = record s { um = um' } in
      if registered then succeed s' user_created else fail s' user_not_created

unfoldable pub login_command : State → Text → Text → Address → Outcome
login_command s username password client_address =
    if Users.is_logged_in s.um username
    then fail s already_logged_in
    else let (um', admitted) = Users.login s.um username password client_address in
      let s' = record s { um = um' } in
      if admitted
      then succeed s' login_successful
      else if Users.is_user um' username
      then fail s' wrong_password
      else fail s' not_a_user

unfoldable pub logout_command : State → Text → Outcome
logout_command s username =
    if not (Users.is_logged_in s.um username)
    then succeed s not_logged_in
    else let (um', done) = Users.logout s.um username in
      let s' = record s { um = um' } in
      if done then succeed s' logout_successful else fail s' logout_unsuccessful
