-- ===== src/Groups/Ghosts.antt =====
-- The entry that `GroupManager::isMemberOfGroup` makes for a name that is not there.
use p2p_distributed_file_sha.Prelude.{◌≡◌, true, false, arith}
use p2p_distributed_file_sha.Text.{Text, ==_refl, mem-nil}
use p2p_distributed_file_sha.Map.{get-put}
use p2p_distributed_file_sha.Groups.{
  GroupManager, default_group, create_group, is_group_available, is_member_of_group,
}

-- Asking whether a user is a member of a group that does not exist answers no, and afterwards the
-- group counts as available and nobody can create it.
asking_makes_group :
    (gm : GroupManager) (user name owner : Text)
    → is_group_available gm name ≡ false
    → ((is_member_of_group gm user name).1 ≡ false)
      × (is_group_available (is_member_of_group gm user name).0 name ≡ true)
      × ((create_group (is_member_of_group gm user name).0 owner name).1 ≡ false)
unfolding is_member_of_group is_group_available create_group
asking_makes_group gm user name owner h =
    ground (arith, get-put name name default_group gm.groups, mem-nil user, ==_refl name)
