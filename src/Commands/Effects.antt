-- ===== src/Commands/Effects.antt =====
-- The change that each handler of `CommandManager` makes to the shared state, and its guards.
use p2p_distributed_file_sha.Prelude.{Bool, true, false, ◌||◌, ◌≡◌, ◌⊎◌, arith}
use p2p_distributed_file_sha.Text.{Text}
use p2p_distributed_file_sha.Address.{Address}
use p2p_distributed_file_sha.FileInfo.{FileInfo}
use p2p_distributed_file_sha.Users
use p2p_distributed_file_sha.Groups
use p2p_distributed_file_sha.Groups.{GroupManager}
use p2p_distributed_file_sha.Groups.Invariant.{is_member_of_group_present}
use p2p_distributed_file_sha.Groups.Membership.{member_of}
use p2p_distributed_file_sha.Files
use p2p_distributed_file_sha.Files.Seeders.{remove_seeder_refused}
use p2p_distributed_file_sha.Commands.{State, Outcome}
use p2p_distributed_file_sha.Commands.Accounts.{create_user_command, login_command, logout_command}
use p2p_distributed_file_sha.Commands.Membership.{
  ask_member, create_group_command, list_group_command, join_group_command, list_request_command,
  accept_request_command, leave_group_command,
}
use p2p_distributed_file_sha.Commands.Sharing.{
  ask_access, upload_file_command, upload_file_data, list_files_command, download_file_command,
  update_file_info, stop_share,
}

-- The test that guards the commands on files.
abbrev pub has_access : GroupManager → Text → Text → Bool
has_access gm user name = member_of gm user name || Groups.is_group_owner gm user name

abbrev pub Refused : State → Outcome → Type 0
Refused s o = (o.success ≡ false) × (o.state ≡ s)

abbrev pub Done : State → Outcome → Type 0
Done s o = (o.success ≡ true) × (o.state ≡ s)

pub ask_member_present :
    (s : State) (user name : Text)
    → Groups.is_group_available s.gm name ≡ true
    → ask_member s user name ≡ (s, member_of s.gm user name)
unfolding ask_member Groups.is_member_of_group
ask_member_present s user name h = ground (arith, is_member_of_group_present s.gm user name h)

pub ask_access_present :
    (s : State) (user name : Text)
    → Groups.is_group_available s.gm name ≡ true
    → ask_access s user name ≡ (s, has_access s.gm user name)
unfolding ask_access
ask_access_present s user name h = ground (arith, ask_member_present s user name h)

module _ (s : State) (user : Text) where
  pub create_user_effect :
      (password : Text)
      → let o = create_user_command s user password in
        (Refused s o × (Users.is_user s.um user ≡ true))
        ⊎ (Done (record s { um = (Users.register_user s.um user password).0 }) o
            × (Users.is_user s.um user ≡ false))
  unfolding create_user_command Users.is_user Users.register_user
  create_user_effect password = ground arith

  pub login_effect :
      (password : Text) (addr : Address)
      → let o = login_command s user password addr in
        Refused s o
        ⊎ (Done (record s { um = (Users.login s.um user password addr).0 }) o
            × (Users.is_logged_in s.um user ≡ false)
            × ((Users.login s.um user password addr).1 ≡ true))
  unfolding login_command Users.login
  login_effect password addr = ground arith

  pub logout_effect :
      let o = logout_command s user in
      (o.success ≡ true)
      × ((o.state ≡ s) × (Users.is_logged_in s.um user ≡ false)
          ⊎ (o.state ≡ record s { um = (Users.logout s.um user).0 })
            × (Users.is_logged_in s.um user ≡ true))
  unfolding logout_command Users.logout
  logout_effect = ground arith

-- A listing changes nothing.
pub list_group_state : (s : State) → (list_group_command s).state ≡ s
unfolding list_group_command
list_group_state s = ground arith

module _ (s : State) (user name : Text) where
  pub create_group_effect :
      let o = create_group_command s user name in
      (Refused s o × (Groups.is_group_available s.gm name ≡ true))
      ⊎ (Done (record s { gm = (Groups.create_group s.gm user name).0 }) o
          × (Groups.is_group_available s.gm name ≡ false))
  unfolding create_group_command
  create_group_effect = ground arith

  pub join_group_effect :
      let o = join_group_command s user name in
      Refused s o
      ⊎ (Done (record s { gm = (Groups.request_to_join s.gm user name).0 }) o
          × (Groups.is_group_available s.gm name ≡ true)
          × (member_of s.gm user name ≡ false))
  unfolding join_group_command
  join_group_effect = ground (arith, ask_member_present s user name)

  pub leave_group_effect :
      let o = leave_group_command s user name in
      Refused s o
      ⊎ (Done (record s { gm = (Groups.leave_group s.gm user name).0 }) o
          × (Groups.is_group_available s.gm name ≡ true)
          × (member_of s.gm user name ≡ true))
  unfolding leave_group_command
  leave_group_effect = ground (arith, ask_member_present s user name)

  pub accept_request_effect :
      (requested : Text)
      → let o = accept_request_command s user requested name in
        Refused s o
        ⊎ (Done (record s { gm = (Groups.approve_request s.gm user requested name).0 }) o
            × (Groups.is_group_available s.gm name ≡ true)
            × (Groups.is_group_owner s.gm user name ≡ true)
            × (member_of s.gm requested name ≡ false)
            × (Groups.is_pending_request s.gm requested name ≡ true))
  unfolding accept_request_command
  accept_request_effect requested = ground (arith, ask_member_present s requested name)

  pub list_request_state : (list_request_command s user name).state ≡ s
  unfolding list_request_command
  list_request_state = ground arith

  pub list_files_effect :
      let o = list_files_command s user name in
      (o.state ≡ s) × (o.success ≡ true → has_access s.gm user name ≡ true)
  unfolding list_files_command
  list_files_effect = ground (arith, ask_access_present s user name)

  pub upload_file_effect :
      (file : Text)
      → let o = upload_file_command s user name file in
        (o.state ≡ s)
        × (o.success ≡ true
            → (Groups.is_group_available s.gm name ≡ true)
              × (has_access s.gm user name ≡ true)
              × (Files.is_file_exist s.fm name file ≡ false))
  unfolding upload_file_command
  upload_file_effect file = ground (arith, ask_access_present s user name)

  pub upload_file_data_effect :
      (file : Text) (info : FileInfo)
      → let o = upload_file_data s user name file info in
        Refused s o
        ⊎ (Done (record s { fm = (Files.add_file s.fm name file info).0 }) o
            × (has_access s.gm user name ≡ true)
            × (Files.is_file_exist s.fm name file ≡ false))
  unfolding upload_file_data Files.is_file_exist Files.add_file
  upload_file_data_effect file info = ground (arith, upload_file_effect file)

  pub download_file_effect :
      (file : Text)
      → let o = download_file_command s user name file in
        (o.state ≡ s)
        × (o.success ≡ true
            → (member_of s.gm user name ≡ true) × (Files.is_file_exist s.fm name file ≡ true))
  unfolding download_file_command
  download_file_effect file = ground (arith, ask_member_present s user name)

  pub update_file_info_effect :
      (file path : Text) (addr : Address)
      → let o = update_file_info s user name file path addr in
        Refused s o
        ⊎ (Done (record s { fm = (Files.add_new_seeder s.fm name file user addr path).0 }) o
            × (has_access s.gm user name ≡ true)
            × (Files.is_file_exist s.fm name file ≡ true))
  unfolding update_file_info Files.is_file_exist Files.add_new_seeder
  update_file_info_effect file path addr = ground (arith, ask_access_present s user name)

  pub stop_share_effect :
      (file : Text)
      → let o = stop_share s user name file in
        Refused s o
        ⊎ (Done (record s { fm = (Files.remove_seeder s.fm user name file).0 }) o
            × (has_access s.gm user name ≡ true)
            × ((Files.remove_seeder s.fm user name file).1 ≡ true))
  unfolding stop_share
  stop_share_effect file =
      ground (arith, ask_access_present s user name, remove_seeder_refused s.fm user name file)
