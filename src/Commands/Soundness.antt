-- ===== src/Commands/Soundness.antt =====
-- Accounts and groups under the handlers of `CommandManager`, whatever records are uploaded.
use p2p_distributed_file_sha.Prelude.{◌≡◌, sym, subst, inl, inr}
use p2p_distributed_file_sha.Users.{UserManager}
use p2p_distributed_file_sha.Users.Sessions.{
  Registered, empty-Registered, register_user-Registered, login-Registered, logout-Registered,
}
use p2p_distributed_file_sha.Groups.{GroupManager}
use p2p_distributed_file_sha.Groups.Invariant as GroupInv
use p2p_distributed_file_sha.Files.{FileManager}
use p2p_distributed_file_sha.Commands.{State, start}
use p2p_distributed_file_sha.Commands.Effects.{
  create_user_effect, login_effect, logout_effect, create_group_effect, join_group_effect,
  leave_group_effect, accept_request_effect, list_group_state, list_request_state,
  list_files_effect, upload_file_effect, upload_file_data_effect, download_file_effect,
  update_file_info_effect, stop_share_effect,
}
use p2p_distributed_file_sha.Commands.Calls.{
  Call, create_user, login, logout, create_group, list_group, join_group, list_request,
  accept_request, leave_group, upload_file, upload_data, list_files, download_file, update_file,
  stop, execute,
}

-- Only accounts are logged in; every group is sound and indexed under its owner.
pub record IsSound (s : State) : Type 0 where
  pub accounts : Registered s.um
  pub groups : GroupInv.Inv s.gm

pub start-IsSound : IsSound start
start-IsSound = record { accounts = empty-Registered; groups = GroupInv.empty-Inv }

module _ (s : State) (inv : IsSound s) where
  with_um : (um : UserManager) → Registered um → IsSound (record s { um = um })
  with_um um ok = record { accounts = ok; groups = inv.groups }

  with_gm : (gm : GroupManager) → GroupInv.Inv gm → IsSound (record s { gm = gm })
  with_gm gm ok = record { accounts = inv.accounts; groups = ok }

  with_fm : (fm : FileManager) → IsSound (record s { fm = fm })
  with_fm fm = record { accounts = inv.accounts; groups = inv.groups }

  same : {t : State} → t ≡ s → IsSound t
  same e = subst IsSound (sym e) inv

  moved : {t u : State} → t ≡ u → IsSound u → IsSound t
  moved e h = subst IsSound (sym e) h

  pub execute-IsSound : (c : Call) → IsSound (execute s c).state
  unfolding execute
  execute-IsSound (create_user u p) = elim (create_user_effect s u p) [
    | inl (r, _) ↦ same r.1
    | inr (d, _) ↦ moved d.1 (with_um _ (register_user-Registered s.um u inv.accounts p))
  ]
  execute-IsSound (login u p addr) = elim (login_effect s u p addr) [
    | inl r ↦ same r.1
    | inr (d, _, _) ↦ moved d.1 (with_um _ (login-Registered s.um u inv.accounts p addr))
  ]
  execute-IsSound (logout u) = elim (logout_effect s u).1 [
    | inl (e, _) ↦ same e
    | inr (e, _) ↦ moved e (with_um _ (logout-Registered s.um u inv.accounts))
  ]
  execute-IsSound (create_group u n) = elim (create_group_effect s u n) [
    | inl (r, _) ↦ same r.1
    | inr (d, _) ↦ moved d.1 (with_gm _ (GroupInv.create_group-Inv s.gm u n inv.groups))
  ]
  execute-IsSound list_group = same (list_group_state s)
  execute-IsSound (join_group u n) = elim (join_group_effect s u n) [
    | inl r ↦ same r.1
    | inr (d, _, _) ↦ moved d.1 (with_gm _ (GroupInv.request_to_join-Inv s.gm u n inv.groups))
  ]
  execute-IsSound (list_request u n) = same (list_request_state s u n)
  execute-IsSound (accept_request o u n) = elim (accept_request_effect s o n u) [
    | inl r ↦ same r.1
    | inr (d, _, _, _, _) ↦
        moved d.1 (with_gm _ (GroupInv.approve_request-Inv s.gm o u n inv.groups))
  ]
  execute-IsSound (leave_group u n) = elim (leave_group_effect s u n) [
    | inl r ↦ same r.1
    | inr (d, _, _) ↦ moved d.1 (with_gm _ (GroupInv.leave_group-Inv s.gm u n inv.groups))
  ]
  execute-IsSound (upload_file u n f) = same (upload_file_effect s u n f).0
  execute-IsSound (upload_data u n f info) = elim (upload_file_data_effect s u n f info) [
    | inl r ↦ same r.1
    | inr (d, _, _) ↦ moved d.1 (with_fm _)
  ]
  execute-IsSound (list_files u n) = same (list_files_effect s u n).0
  execute-IsSound (download_file u n f) = same (download_file_effect s u n f).0
  execute-IsSound (update_file u n f p addr) = elim (update_file_info_effect s u n f p addr) [
    | inl r ↦ same r.1
    | inr (d, _, _) ↦ moved d.1 (with_fm _)
  ]
  execute-IsSound (stop u n f) = elim (stop_share_effect s u n f) [
    | inl r ↦ same r.1
    | inr (d, _, _) ↦ moved d.1 (with_fm _)
  ]
