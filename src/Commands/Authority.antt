-- ===== src/Commands/Authority.antt =====
-- The commands of `CommandManager` and the members of groups: who comes in, who goes out, and who has
-- the use of the files.
use p2p_distributed_file_sha.Prelude.{
  ◌≡◌, ap, ◌⊎◌, inl, inr, Option-cases, true, false, ◌&&◌, Option, none, some, arith,
}
use p2p_distributed_file_sha.Text.{Text, ◌==◌, ==_iff, mem-nil}
use p2p_distributed_file_sha.Map
use p2p_distributed_file_sha.Groups
use p2p_distributed_file_sha.Groups.{GroupManager}
use p2p_distributed_file_sha.Groups.Index.{is_group_owner-eq-owns}
use p2p_distributed_file_sha.Groups.Invariant as GroupInv
use p2p_distributed_file_sha.Groups.Membership.{
  member_of, member_of-create_group, member_of-request_to_join, member_of-approve_request,
  member_of-leave_group,
}
use p2p_distributed_file_sha.Commands.{State, Outcome}
use p2p_distributed_file_sha.Commands.Effects.{
  has_access, create_user_effect, login_effect, logout_effect, create_group_effect,
  join_group_effect, leave_group_effect, accept_request_effect, list_group_state,
  list_request_state, list_files_effect, upload_file_effect, upload_file_data_effect,
  download_file_effect, update_file_info_effect, stop_share_effect,
}
use p2p_distributed_file_sha.Commands.Calls.{
  Call, create_user, login, logout, create_group, list_group, join_group, list_request,
  accept_request, leave_group, upload_file, upload_data, list_files, download_file, update_file,
  stop, execute,
}

-- The ways into a group.
abbrev pub Admitted : State → Call → Text → Text → Type 0
Admitted s c user name =
    ((c ≡ create_group user name) × (Groups.is_group_available s.gm name ≡ false))
    ⊎ ((owner : Text) × (c ≡ accept_request owner user name)
        × (Groups.is_group_owner s.gm owner name ≡ true)
        × (Groups.is_pending_request s.gm user name ≡ true))

-- What a call makes of a membership.
abbrev Changed : State → Call → Text → Text → Type 0
Changed s c user name =
    (member_of (execute s c).state.gm user name ≡ member_of s.gm user name)
    ⊎ ((member_of (execute s c).state.gm user name ≡ true) × Admitted s c user name)
    ⊎ ((member_of (execute s c).state.gm user name ≡ false) × (c ≡ leave_group user name))

module _ (s : State) (v n : Text) where
  kept : (o : Outcome) → o.state.gm ≡ s.gm → member_of o.state.gm v n ≡ member_of s.gm v n
  kept o e = ap (λ gm. member_of gm v n) e

  create_group-Changed : (u m : Text) → Changed s (create_group u m) v n
  unfolding execute Groups.is_group_available
  create_group-Changed u m = ground (
    arith,
    create_group_effect s u m,
    member_of-create_group s.gm u m v n,
    mem-nil v,
    ==_iff m n,
    ==_iff u v,
  )

  approved :
      (o u m : Text)
      → (m == n && u == v) ≡ true
      → Groups.is_group_owner s.gm o m ≡ true
      → Groups.is_pending_request s.gm u m ≡ true
      → Admitted s (accept_request o u m) v n
  approved o u m here owns asked = inr (
    o,
    ground (arith, ==_iff m n, ==_iff u v),
    ground (arith, ==_iff m n, ==_iff u v),
    ground (arith, ==_iff m n, ==_iff u v),
  )

  accept_request-Changed : (o u m : Text) → Changed s (accept_request o u m) v n
  unfolding execute
  accept_request-Changed o u m = ground (
    arith,
    accept_request_effect s o m u,
    member_of-approve_request s.gm u m v n o,
    approved o u m,
    ==_iff m n,
    ==_iff u v,
  )

  leave_group-Changed : (u m : Text) → GroupInv.Inv s.gm → Changed s (leave_group u m) v n
  unfolding execute
  leave_group-Changed u m inv = ground (
    arith,
    leave_group_effect s u m,
    member_of-leave_group s.gm u m inv v n,
    ==_iff m n,
    ==_iff u v,
  )

  join_group-Changed : (u m : Text) → Changed s (join_group u m) v n
  unfolding execute
  join_group-Changed u m =
      ground (arith, join_group_effect s u m, member_of-request_to_join s.gm u m v n)

  -- The calls that touch no group.
  other-Changed : (c : Call) → (execute s c).state.gm ≡ s.gm → Changed s c v n
  other-Changed c e = inl (kept (execute s c) e)

  call-Changed : (c : Call) → GroupInv.Inv s.gm → Changed s c v n
  call-Changed (create_group u m) inv = create_group-Changed u m
  call-Changed (join_group u m) inv = join_group-Changed u m
  call-Changed (accept_request o u m) inv = accept_request-Changed o u m
  call-Changed (leave_group u m) inv = leave_group-Changed u m inv
  call-Changed (create_user u p) inv =
      other-Changed _ (unfold execute in ground (arith, create_user_effect s u p))
  call-Changed (login u p a) inv =
      other-Changed _ (unfold execute in ground (arith, login_effect s u p a))
  call-Changed (logout u) inv =
      other-Changed _ (unfold execute in ground (arith, logout_effect s u))
  call-Changed list_group inv =
      other-Changed _ (unfold execute in ground (arith, list_group_state s))
  call-Changed (list_request u m) inv =
      other-Changed _ (unfold execute in ground (arith, list_request_state s u m))
  call-Changed (upload_file u m f) inv =
      other-Changed _ (unfold execute in ap (λ t. t.gm) (upload_file_effect s u m f).0)
  call-Changed (upload_data u m f i) inv =
      other-Changed _ (unfold execute in ground (arith, upload_file_data_effect s u m f i))
  call-Changed (list_files u m) inv =
      other-Changed _ (unfold execute in ap (λ t. t.gm) (list_files_effect s u m).0)
  call-Changed (download_file u m f) inv =
      other-Changed _ (unfold execute in ap (λ t. t.gm) (download_file_effect s u m f).0)
  call-Changed (update_file u m f p a) inv =
      other-Changed _ (unfold execute in ground (arith, update_file_info_effect s u m f p a))
  call-Changed (stop u m f) inv =
      other-Changed _ (unfold execute in ground (arith, stop_share_effect s u m f))

-- In a state with sound groups, a call by which a user becomes a member of a group either is the
-- creation of that group, which did not exist, by that user, or is the acceptance of the user's
-- pending request by the owner of the group.
pub membership_gained :
    (s : State) (c : Call) (user name : Text)
    → GroupInv.Inv s.gm
    → member_of s.gm user name ≡ false
    → member_of (execute s c).state.gm user name ≡ true
    → Admitted s c user name
membership_gained s c user name inv before after = ground (arith, call-Changed s user name c inv)

-- In a state with sound groups, a call by which a user ceases to be a member of a group is that
-- user's own leave_group on that group.
pub membership_lost :
    (s : State) (c : Call) (user name : Text)
    → GroupInv.Inv s.gm
    → member_of s.gm user name ≡ true
    → member_of (execute s c).state.gm user name ≡ false
    → c ≡ leave_group user name
membership_lost s c user name inv before after = ground (arith, call-Changed s user name c inv)

-- The user and the group of a call on files.
abbrev pub acts_on : Call → Option (Text × Text)
acts_on (upload_file user name f) = some (user, name)
acts_on (upload_data user name f i) = some (user, name)
acts_on (list_files user name) = some (user, name)
acts_on (download_file user name f) = some (user, name)
acts_on (update_file user name f p a) = some (user, name)
acts_on (stop user name f) = some (user, name)
acts_on _ = none

owner-member :
    (gm : GroupManager) (user name : Text)
    → GroupInv.Inv gm
    → Groups.is_group_owner gm user name ≡ true
    → member_of gm user name ≡ true
owner-member gm user name inv h = elim (Option-cases (Map.get name gm.groups)) [
  | inl absent ↦ ground (arith, is_group_owner-eq-owns gm user name, inv.indexed user name)
  | inr (g, present) ↦ ground (
    arith,
    is_group_owner-eq-owns gm user name,
    inv.indexed user name,
    (inv.sound name g present).owner_member,
    ==_iff g.owner user,
  )
]

access-member :
    (gm : GroupManager) (user name : Text)
    → GroupInv.Inv gm
    → has_access gm user name ≡ true
    → member_of gm user name ≡ true
access-member gm user name inv h = ground (arith, owner-member gm user name inv)

-- In a state with sound groups, whoever succeeds with a command on the files of a group (upload,
-- upload data, list, download, update, stop sharing) is a member of the group.
pub file_calls_need_membership :
    (s : State) (c : Call) (user name : Text)
    → GroupInv.Inv s.gm
    → acts_on c ≡ some (user, name)
    → (execute s c).success ≡ true
    → member_of s.gm user name ≡ true
unfolding execute
file_calls_need_membership s (upload_file u n f) user name inv a h =
    ground (arith, upload_file_effect s u n f, access-member s.gm u n inv)
file_calls_need_membership s (upload_data u n f i) user name inv a h =
    ground (arith, upload_file_data_effect s u n f i, access-member s.gm u n inv)
file_calls_need_membership s (list_files u n) user name inv a h =
    ground (arith, list_files_effect s u n, access-member s.gm u n inv)
file_calls_need_membership s (download_file u n f) user name inv a h =
    ground (arith, download_file_effect s u n f)
file_calls_need_membership s (update_file u n f p x) user name inv a h =
    ground (arith, update_file_info_effect s u n f p x, access-member s.gm u n inv)
file_calls_need_membership s (stop u n f) user name inv a h =
    ground (arith, stop_share_effect s u n f, access-member s.gm u n inv)
file_calls_need_membership s _ user name inv a h = cc
