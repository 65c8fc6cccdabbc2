-- ===== src/Commands/Invariant.antt =====
-- The invariant of the state that the handlers of `CommandManager` share.
use p2p_distributed_file_sha.Prelude.{◌≡◌, sym, subst, inl, inr, List, [], ◌∷◌, arith, All}
use p2p_distributed_file_sha.Files.{FileManager}
use p2p_distributed_file_sha.Files.Invariant.{
  IsShared, AllShared, empty-AllShared, add_file-AllShared, add_new_seeder-AllShared,
  remove_seeder-AllShared,
}
use p2p_distributed_file_sha.Commands.{State, start}
use p2p_distributed_file_sha.Commands.Soundness.{IsSound, start-IsSound, execute-IsSound}
use p2p_distributed_file_sha.Commands.Effects.{
  create_user_effect, login_effect, logout_effect, create_group_effect, join_group_effect,
  leave_group_effect, accept_request_effect, list_group_state, list_request_state,
  list_files_effect, upload_file_effect, upload_file_data_effect, download_file_effect,
  update_file_info_effect, stop_share_effect,
}
use p2p_distributed_file_sha.Commands.Calls.{
  Call, create_user, login, logout, create_group, list_group, join_group, list_request,
  accept_request, leave_group, upload_file, upload_data, list_files, download_file, update_file,
  stop, execute, run,
}

-- Only accounts are logged in; every group is sound and indexed under its owner; every file has
-- an owner who seeds it, and a path for each seeder.
pub record Inv (s : State) : Type 0 where
  pub sound : IsSound s
  pub files : AllShared s.fm

-- A file record that is uploaded names its owner among its seeders, with paths for just these.
abbrev pub Accepts : Call → Type 0
Accepts (upload_data username group_id filename info) = IsShared info
Accepts _ = Unit

module _ (s : State) (files : AllShared s.fm) where
  moved : {t u : State} → t ≡ u → AllShared u.fm → AllShared t.fm
  moved e h = subst (λ t. AllShared t.fm) (sym e) h

  same_fm : {fm : FileManager} → fm ≡ s.fm → AllShared fm
  same_fm e = subst AllShared (sym e) files

  execute-AllShared : (c : Call) → Accepts c → AllShared (execute s c).state.fm
  unfolding execute
  execute-AllShared (upload_data u n f info) a = elim (upload_file_data_effect s u n f info) [
    | inl r ↦ moved r.1 files
    | inr (d, _, _) ↦ moved d.1 (add_file-AllShared s.fm n f info a files)
  ]
  execute-AllShared (update_file u n f p addr) a = elim (update_file_info_effect s u n f p addr) [
    | inl r ↦ moved r.1 files
    | inr (d, _, _) ↦ moved d.1 (add_new_seeder-AllShared s.fm n f u addr p files)
  ]
  execute-AllShared (stop u n f) a = elim (stop_share_effect s u n f) [
    | inl r ↦ moved r.1 files
    | inr (d, _, _) ↦ moved d.1 (remove_seeder-AllShared s.fm u n f files)
  ]
  execute-AllShared (create_user u p) a = same_fm (ground (arith, create_user_effect s u p))
  execute-AllShared (login u p x) a = same_fm (ground (arith, login_effect s u p x))
  execute-AllShared (logout u) a = same_fm (ground (arith, logout_effect s u))
  execute-AllShared (create_group u n) a = same_fm (ground (arith, create_group_effect s u n))
  execute-AllShared list_group a = same_fm (ground (arith, list_group_state s))
  execute-AllShared (join_group u n) a = same_fm (ground (arith, join_group_effect s u n))
  execute-AllShared (list_request u n) a = same_fm (ground (arith, list_request_state s u n))
  execute-AllShared (accept_request o u n) a =
      same_fm (ground (arith, accept_request_effect s o n u))
  execute-AllShared (leave_group u n) a = same_fm (ground (arith, leave_group_effect s u n))
  execute-AllShared (upload_file u n f) a = moved (upload_file_effect s u n f).0 files
  execute-AllShared (list_files u n) a = moved (list_files_effect s u n).0 files
  execute-AllShared (download_file u n f) a = moved (download_file_effect s u n f).0 files

start-Inv : Inv start
start-Inv = record { sound = start-IsSound; files = empty-AllShared }

execute-Inv : (s : State) (c : Call) → Inv s → Accepts c → Inv (execute s c).state
execute-Inv s c inv a = record {
  sound = execute-IsSound s inv.sound c;
  files = execute-AllShared s inv.files c a;
}

run_from-Inv : (s : State) (cs : List Call) → Inv s → All Accepts cs → Inv (run s cs)
unfolding run
run_from-Inv s [] inv a = inv
run_from-Inv s (c ∷ cs) inv a = run_from-Inv (execute s c).state cs (execute-Inv s c inv a.0) a.1

-- After any sequence of commands from the empty state, in which every file record that is
-- uploaded names its owner among its seeders and has paths for just these: whoever is logged in
-- has an account; every group has its owner among its members, lists no member twice and has no
-- member waiting; the index of owners says of each group exactly who owns it; and every file's
-- owner seeds it and every seeder has a path on record.
run-Inv : (cs : List Call) → All Accepts cs → Inv (run start cs)
run-Inv cs a = run_from-Inv start cs start-Inv a
