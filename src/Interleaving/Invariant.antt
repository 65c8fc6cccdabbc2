-- ===== src/Interleaving/Invariant.antt =====
-- What holds of the managers however the calls of handlers that run at the same time are interleaved.
use p2p_distributed_file_sha.Prelude.{◌≢◌, sym, subst, List, []}
use p2p_distributed_file_sha.Users.{UserManager}
use p2p_distributed_file_sha.Groups.{GroupManager}
use p2p_distributed_file_sha.Files.{FileManager}
use p2p_distributed_file_sha.Users.Sessions.{
  Registered, empty-Registered, register_user-Registered, login-Registered, logout-Registered,
}
use p2p_distributed_file_sha.Groups.Held as Held
use p2p_distributed_file_sha.Groups.Held.Members as Members
use p2p_distributed_file_sha.Files.Invariant.{
  IsShared, AllShared, empty-AllShared, add_file-AllShared, add_new_seeder-AllShared,
  remove_seeder-AllShared,
}
use p2p_distributed_file_sha.Commands.{State, start}
use p2p_distributed_file_sha.Commands.Calls as C
use p2p_distributed_file_sha.Commands.Calls.{Call}
use p2p_distributed_file_sha.Interleaving.{
  Method, register_user, login, logout, create_group, request_to_join, is_member_of_group,
  approve_request, leave_group, add_file, add_new_seeder, remove_seeder, is_user, is_logged_in,
  get_owner_name, is_group_available, group_list, show_pending_requests, is_group_owner,
  is_pending_request, is_file_exist, get_file_info, list_files_in_group, seeder_list, perform,
}
use p2p_distributed_file_sha.Interleaving.Schedule.{Thread, Reached, boots, begins, turns}
use p2p_distributed_file_sha.Interleaving.Origins.{IsFor, Turn-Comes, Reached-Honest}

-- Only accounts are logged in; every group is sound, or has no member and no owner; the index says
-- of the groups with members exactly who owns them; every file's owner seeds it, and every seeder
-- has a path.
pub record Inv (s : State) : Type 0 where
  pub accounts : Registered s.um
  pub groups : Held.Inv s.gm
  pub files : AllShared s.fm

-- A file record that is uploaded names its owner among its seeders, with paths for just these, and
-- whoever accepts a request has a name.
abbrev pub Admitted : Call → Type 0
Admitted (C.upload_data username group_id filename info) = IsShared info
Admitted (C.accept_request ownername requestedname group_id) = ownername ≢ []
Admitted _ = Unit

-- What a method is called with.
abbrev Fits : Method → Type 0
Fits (add_file n f info) = IsShared info
Fits (approve_request o u n) = o ≢ []
Fits _ = Unit

module _ (c : Call) (p : Admitted c) where
  IsFor-Fits : (m : Method) → IsFor c m → Fits m
  IsFor-Fits (add_file n f info) (u, e) = subst Admitted e p
  IsFor-Fits (approve_request o u n) e = subst Admitted e p
  IsFor-Fits _ own = tt

module _ (s : State) (inv : Inv s) where
  with_um : (um : UserManager) → Registered um → Inv (record s { um = um })
  with_um um ok = record { accounts = ok; groups = inv.groups; files = inv.files }

  with_gm : (gm : GroupManager) → Held.Inv gm → Inv (record s { gm = gm })
  with_gm gm ok = record { accounts = inv.accounts; groups = ok; files = inv.files }

  with_fm : (fm : FileManager) → AllShared fm → Inv (record s { fm = fm })
  with_fm fm ok = record { accounts = inv.accounts; groups = inv.groups; files = ok }

  perform-Inv : (m : Method) → Fits m → Inv (perform s m).0
  unfolding perform
  perform-Inv (register_user u p) fits = with_um _ (register_user-Registered s.um u inv.accounts p)
  perform-Inv (login u p addr) fits = with_um _ (login-Registered s.um u inv.accounts p addr)
  perform-Inv (logout u) fits = with_um _ (logout-Registered s.um u inv.accounts)
  perform-Inv (create_group u n) fits = with_gm _ (Held.create_group-Inv s.gm u n inv.groups)
  perform-Inv (request_to_join u n) fits = with_gm _ (Held.request_to_join-Inv s.gm u n inv.groups)
  perform-Inv (is_member_of_group u n) fits =
      with_gm _ (Held.is_member_of_group-Inv s.gm u n inv.groups)
  perform-Inv (approve_request o u n) fits =
      with_gm _ (Members.approve_request-Inv s.gm o u n fits inv.groups)
  perform-Inv (leave_group u n) fits = with_gm _ (Members.leave_group-Inv s.gm u n inv.groups)
  perform-Inv (add_file n f info) fits = with_fm _ (add_file-AllShared s.fm n f info fits inv.files)
  perform-Inv (add_new_seeder n f u addr path) fits =
      with_fm _ (add_new_seeder-AllShared s.fm n f u addr path inv.files)
  perform-Inv (remove_seeder u n f) fits = with_fm _ (remove_seeder-AllShared s.fm u n f inv.files)
  perform-Inv (is_user _) fits = inv
  perform-Inv (is_logged_in _) fits = inv
  perform-Inv (get_owner_name _) fits = inv
  perform-Inv (is_group_available _) fits = inv
  perform-Inv group_list fits = inv
  perform-Inv (show_pending_requests _ _) fits = inv
  perform-Inv (is_group_owner _ _) fits = inv
  perform-Inv (is_pending_request _ _) fits = inv
  perform-Inv (is_file_exist _ _) fits = inv
  perform-Inv (get_file_info _ _) fits = inv
  perform-Inv (list_files_in_group _) fits = inv
  perform-Inv (seeder_list _ _) fits = inv

start-Inv : Inv start
start-Inv = record { accounts = empty-Registered; groups = Held.empty-Inv; files = empty-AllShared }

-- However the calls of any number of handlers are interleaved, if whoever accepts a request has a
-- name and every record that is uploaded names its owner among its seeders with paths for just
-- these: only accounts are logged in; every group has its owner among its members, lists no member
-- twice and has no member waiting, or has no owner and no member; the index says of the groups with
-- members exactly who owns them; every file's owner seeds it, and every seeder has a path.
pub Reached-Inv : {s : State} {ts : List Thread} → Reached Admitted s ts → Inv s
Reached-Inv boots = start-Inv
Reached-Inv (begins c p r) = Reached-Inv r
Reached-Inv (turns {s} {c} {m} r turn) =
    let comes = Turn-Comes Admitted turn (Reached-Honest Admitted r) in
    subst Inv (sym comes.to)
      (perform-Inv s (Reached-Inv r) m (IsFor-Fits c comes.permitted m comes.own))
