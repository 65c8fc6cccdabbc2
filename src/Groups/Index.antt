-- ===== src/Groups/Index.antt =====
-- Laws of the index `owner_groups`: who owns a name after an insertion, an erasure, a pruning.
use p2p_distributed_file_sha.Prelude.{◌≡◌, Bool, not, ◌&&◌, ◌||◌, arith}
use p2p_distributed_file_sha.Text.{Text, ◌==◌, ==_iff, mem}
use p2p_distributed_file_sha.TextSet
use p2p_distributed_file_sha.Map.{Map, get-put, get-remove}
use p2p_distributed_file_sha.TextSet.{TextSet, mem-insert, mem-erase}
use p2p_distributed_file_sha.Groups.{
  GroupManager, owned_by, index_add, index_drop, index_prune, is_group_owner,
}

-- `is_group_owner`, on the index alone
abbrev pub owns : Text → Text → Map TextSet → Bool
owns user group_name index = mem group_name (owned_by user index)

pub is_group_owner-eq-owns :
    (gm : GroupManager) (user name : Text)
    → is_group_owner gm user name ≡ owns user name gm.owner_groups
unfolding is_group_owner mem
is_group_owner-eq-owns gm user name = ground arith

pub owns-index_add :
    (u v m n : Text) (index : Map TextSet)
    → owns v n (index_add u m index) ≡ ((u == v && m == n) || owns v n index)
unfolding index_add
owns-index_add u v m n index =
    let owned = TextSet.insert m (owned_by u index) in
    ground (arith, get-put u v owned index, ==_iff u v, mem-insert m n (owned_by u index))

pub owns-index_drop :
    (u v m n : Text) (index : Map TextSet)
    → owns v n (index_drop u m index) ≡ (not (u == v && m == n) && owns v n index)
unfolding index_drop
owns-index_drop u v m n index =
    let owned = TextSet.erase m (owned_by u index) in
    ground (arith, get-put u v owned index, ==_iff u v, mem-erase m n (owned_by u index))

-- Pruning is not visible to `owns`.
pub owns-index_prune :
    (u v n : Text) (index : Map TextSet) → owns v n (index_prune u index) ≡ owns v n index
unfolding index_prune mem
owns-index_prune u v n index = ground (arith, get-remove u v index, ==_iff u v)
