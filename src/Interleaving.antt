-- ===== src/Interleaving.antt =====
-- The handlers of tracker/managers/command_manager.cpp call by call: each method of a manager holds
-- that manager's mutex, but nothing holds a mutex over a whole handler, so the calls of handlers
-- that run at the same time come in any order.
pub mod Handlers
pub mod Whole
pub mod Schedule
pub mod Origins
pub mod Invariant
pub mod Authority
pub mod Races
use p2p_distributed_file_sha.Prelude.{Bool, List}
use p2p_distributed_file_sha.Text.{Text}
use p2p_distributed_file_sha.TextSet.{TextSet}
use p2p_distributed_file_sha.Map.{Map}
use p2p_distributed_file_sha.Address.{Address}
use p2p_distributed_file_sha.FileInfo.{FileInfo}
use p2p_distributed_file_sha.Users
use p2p_distributed_file_sha.Groups
use p2p_distributed_file_sha.Files
use p2p_distributed_file_sha.Commands.{State, Outcome}

-- The methods of `UserManager`, `GroupManager` and `FileManager` that the handlers call.
pub data Method : Type 0 where
  is_user : (username : Text) → Method
  register_user : (username password : Text) → Method
  login : (username password : Text) → Address → Method
  logout : (username : Text) → Method
  is_logged_in : (username : Text) → Method
  create_group : (owner group_name : Text) → Method
  get_owner_name : (group_name : Text) → Method
  is_group_available : (group_name : Text) → Method
  group_list : Method
  request_to_join : (user group_name : Text) → Method
  is_member_of_group : (user group_name : Text) → Method
  show_pending_requests : (user group_name : Text) → Method
  is_group_owner : (user group_name : Text) → Method
  approve_request : (approver user group_name : Text) → Method
  is_pending_request : (user group_name : Text) → Method
  leave_group : (user group_name : Text) → Method
  add_file : (group filename : Text) → FileInfo → Method
  is_file_exist : (group filename : Text) → Method
  get_file_info : (group filename : Text) → Method
  list_files_in_group : (group : Text) → Method
  seeder_list : (group filename : Text) → Method
  add_new_seeder : (group filename username : Text) → Address → (new_file_path : Text) → Method
  remove_seeder : (username group filename : Text) → Method

-- What the method returns.
abbrev pub Returned : Method → Type 0
Returned (get_owner_name _) = Text
Returned group_list = List Text
Returned (show_pending_requests _ _) = Map TextSet
Returned (get_file_info _ _) = FileInfo
Returned (list_files_in_group _) = List Text
Returned (seeder_list _ _) = Map Address
Returned _ = Bool

set_um : State → Users.UserManager × Bool → State × Bool
set_um s (um, b) = (record s { um = um }, b)

set_gm : State → Groups.GroupManager × Bool → State × Bool
set_gm s (gm, b) = (record s { gm = gm }, b)

set_fm : State → Files.FileManager × Bool → State × Bool
set_fm s (fm, b) = (record s { fm = fm }, b)

-- One call of a method, from the lock of its mutex to the release.
unfoldable pub perform : State → (m : Method) → State × Returned m
unfolding set_um set_gm set_fm
perform s (is_user u) = (s, Users.is_user s.um u)
perform s (register_user u p) = set_um s (Users.register_user s.um u p)
perform s (login u p addr) = set_um s (Users.login s.um u p addr)
perform s (logout u) = set_um s (Users.logout s.um u)
perform s (is_logged_in u) = (s, Users.is_logged_in s.um u)
perform s (create_group u n) = set_gm s (Groups.create_group s.gm u n)
perform s (get_owner_name n) = (s, Groups.get_owner_name s.gm n)
perform s (is_group_available n) = (s, Groups.is_group_available s.gm n)
perform s group_list = (s, Groups.group_list s.gm)
perform s (request_to_join u n) = set_gm s (Groups.request_to_join s.gm u n)
perform s (is_member_of_group u n) = set_gm s (Groups.is_member_of_group s.gm u n)
perform s (show_pending_requests u n) = (s, Groups.show_pending_requests s.gm u n)
perform s (is_group_owner u n) = (s, Groups.is_group_owner s.gm u n)
perform s (approve_request o u n) = set_gm s (Groups.approve_request s.gm o u n)
perform s (is_pending_request u n) = (s, Groups.is_pending_request s.gm u n)
perform s (leave_group u n) = set_gm s (Groups.leave_group s.gm u n)
perform s (add_file n f info) = set_fm s (Files.add_file s.fm n f info)
perform s (is_file_exist n f) = (s, Files.is_file_exist s.fm n f)
perform s (get_file_info n f) = (s, Files.get_file_info s.fm n f)
perform s (list_files_in_group n) = (s, Files.list_files_in_group s.fm n)
perform s (seeder_list n f) = (s, Files.seeder_list s.fm n f)
perform s (add_new_seeder n f u addr path) = set_fm s (Files.add_new_seeder s.fm n f u addr path)
perform s (remove_seeder u n f) = set_fm s (Files.remove_seeder s.fm u n f)

-- What a handler has still to do: it returns, with its reply, or it calls a method, and goes on by
-- what that returns.
pub data Handler : Type 0 where
  returns : (reply : Text) (success : Bool) → Handler
  calls : (m : Method) → (Returned m → Handler) → Handler

-- The handler with nobody between its calls.
unfoldable pub complete : State → Handler → Outcome
complete s (returns reply success) = record { state = s; reply = reply; success = success }
complete s (calls m next) = let (s', value) = perform s m in complete s' (next value)
