-- ===== src/Commands/Leftovers.antt =====
-- The files of a group that `leave_group_command` deletes.
use p2p_distributed_file_sha.Prelude.{◌≡◌, true, false, inl, inr, arith}
use p2p_distributed_file_sha.Text.{Text, ==_refl}
use p2p_distributed_file_sha.Groups
use p2p_distributed_file_sha.Groups.Membership.{member_of, member_of-create_group}
use p2p_distributed_file_sha.Commands.{State}
use p2p_distributed_file_sha.Commands.Effects.{create_group_effect, leave_group_effect}
use p2p_distributed_file_sha.Commands.Calls.{leave_group, create_group, execute}

-- The state after `user` has left and `next` has made the group again.
abbrev pub made_again : State → Text → Text → Text → State
made_again s user next name =
    (execute (execute s (leave_group user name)).state (create_group next name)).state

-- If a user leaves a group and the group is deleted by this, whoever creates a group of that name is
-- its member and finds all files as they were before.
pub files_outlive_group :
    (s : State) (user next name : Text)
    → (execute s (leave_group user name)).success ≡ true
    → Groups.is_group_available (execute s (leave_group user name)).state.gm name ≡ false
    → (member_of (made_again s user next name).gm next name ≡ true)
      × ((made_again s user next name).fm ≡ s.fm)
unfolding execute
files_outlive_group s user next name left gone = elim (leave_group_effect s user name) [
  | inl refused ↦ cc
  | inr (done, _, _) ↦
      elim (create_group_effect (execute s (leave_group user name)).state next name) [
        | inl (_, there) ↦ cc
        | inr (made, free) ↦ (
          ground (
            arith,
            member_of-create_group (execute s (leave_group user name)).state.gm next name next name
                free,
            ==_refl name,
            ==_refl next,
          ),
          ground arith,
        )
      ]
]
