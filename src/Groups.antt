-- ===== src/Groups.antt =====
-- `GroupManager` of tracker/managers/group_manager.cpp: the groups, and the index from an owner to
-- the groups that he owns. Each method holds the manager's mutex throughout, so it is one step.
pub mod Index
pub mod Sound
pub mod Invariant
pub mod Membership
pub mod Ghosts
pub mod Held
use p2p_distributed_file_sha.Prelude.{
  Bool, true, false, Option, none, some, List, [], ◌∷◌, ◌++◌, get_or, if◌then◌else◌,
}
use p2p_distributed_file_sha.Text.{Text, codes, ◌==◌, mem, erase_first}
use p2p_distributed_file_sha.Map
use p2p_distributed_file_sha.Map.{Map}
use p2p_distributed_file_sha.TextSet
use p2p_distributed_file_sha.TextSet.{TextSet}

pub record GroupInfo : Type 0 where
  pub owner : Text
  pub members : List Text
  pub pending : TextSet

pub record GroupManager : Type 0 where
  pub groups : Map GroupInfo
  pub owner_groups : Map TextSet

abbrev pub empty : GroupManager
empty = record { groups = []; owner_groups = [] }

-- `GroupInfo g;`, which `operator[]` also makes.
abbrev pub default_group : GroupInfo
default_group = record { owner = []; members = []; pending = [] }

-- `owner_groups[owner]`, the empty set if there is no entry
abbrev pub owned_by : Text → Map TextSet → TextSet
owned_by owner index = get_or (Map.get owner index) []

-- `owner_groups[owner].insert(group_name)`
unfoldable pub index_add : Text → Text → Map TextSet → Map TextSet
index_add owner group_name index =
    Map.put owner (TextSet.insert group_name (owned_by owner index)) index

-- `owner_groups[owner].erase(group_name)`
unfoldable pub index_drop : Text → Text → Map TextSet → Map TextSet
index_drop owner group_name index =
    Map.put owner (TextSet.erase group_name (owned_by owner index)) index

-- `if (ownerGroupSet.empty()) owner_groups.erase(owner);`
unfoldable pub index_prune : Text → Map TextSet → Map TextSet
index_prune owner index = elim (owned_by owner index) [ [] ↦ Map.remove owner index | _ ↦ index ]

unfoldable pub create_group : GroupManager → Text → Text → GroupManager × Bool
create_group gm owner group_name = if Map.contains group_name gm.groups then (gm, false) else (
  record {
    groups =
        Map.put group_name (record { owner = owner; members = owner ∷ []; pending = [] }) gm.groups;
    owner_groups = index_add owner group_name gm.owner_groups;
  },
  true,
)

unfoldable pub get_owner_name : GroupManager → Text → Text
get_owner_name gm group_name = elim (Map.get group_name gm.groups) [ none ↦ [] | some g ↦ g.owner ]

unfoldable pub is_group_available : GroupManager → Text → Bool
is_group_available gm group_name = Map.contains group_name gm.groups

-- The source iterates over an unordered map: the order of the names is not specified.
unfoldable pub group_list : GroupManager → List Text
group_list gm = Map.keys gm.groups

request_in : GroupManager → Text → Text → Option GroupInfo → GroupManager × Bool
request_in gm user group_name none = (gm, false)
request_in gm user group_name (some g) = if mem user g.members then (gm, false) else (
  record gm {
    groups = Map.put group_name (record g { pending = TextSet.insert user g.pending }) gm.groups;
  },
  true,
)

unfoldable pub request_to_join : GroupManager → Text → Text → GroupManager × Bool
unfolding request_in
request_to_join gm user group_name = request_in gm user group_name (Map.get group_name gm.groups)

-- `auto &g = groups[group_name];` makes an entry for a name that has none.
unfoldable pub touch_group : GroupManager → Text → GroupManager
touch_group gm group_name = elim (Map.get group_name gm.groups) [
  | none ↦ record gm { groups = Map.put group_name default_group gm.groups }
  | some g ↦ gm
]

unfoldable pub is_member_of_group : GroupManager → Text → Text → GroupManager × Bool
unfolding touch_group
is_member_of_group gm user group_name = (
  touch_group gm group_name,
  mem user (get_or (Map.get group_name gm.groups) default_group).members,
)

-- The loop of `group_name == "all"`, over the groups of the owner.
collect_pending : GroupManager → Text → List Text → Map TextSet
collect_pending gm user [] = []
collect_pending gm user (g_name ∷ rest) =
    let result = collect_pending gm user rest in
    elim (Map.get g_name gm.groups) [
      | none ↦ result
      | some g ↦ if mem user g.pending then Map.put g_name g.pending result else result
    ]

unfoldable pub show_pending_requests : GroupManager → Text → Text → Map TextSet
unfolding collect_pending
show_pending_requests gm user group_name = elim (Map.get user gm.owner_groups) [
  | none ↦ []
  | some owned ↦ elim (Map.get group_name gm.groups) [
    | none ↦ []
    | some g ↦
        if group_name == codes "all"
        then collect_pending gm user owned
        else Map.put group_name g.pending []
  ]
]

unfoldable pub is_group_owner : GroupManager → Text → Text → Bool
is_group_owner gm user group_name = elim (Map.get user gm.owner_groups) [
  | none ↦ false
  | some owned ↦ mem group_name owned
]

approve_in : GroupManager → Text → Text → Text → Option GroupInfo → GroupManager × Bool
approve_in gm approver user group_name none = (gm, false)
approve_in gm approver user group_name (some g) =
    if g.owner == approver
    then (if mem user g.pending
        then (
          record gm {
            groups =
                Map.put group_name
                  (record g {
                    pending = TextSet.erase user g.pending;
                    members = g.members ++ user ∷ [];
                  })
                  gm.groups;
          },
          true,
        )
        else (gm, false))
    else (gm, false)

unfoldable pub approve_request : GroupManager → Text → Text → Text → GroupManager × Bool
unfolding approve_in
approve_request gm approver user group_name =
    approve_in gm approver user group_name (Map.get group_name gm.groups)

unfoldable pub is_pending_request : GroupManager → Text → Text → Bool
is_pending_request gm user group_name = elim (Map.get group_name gm.groups) [
  | none ↦ false
  | some g ↦ mem user g.pending
]

-- What follows `g.members.erase(it)`; the last argument is the list that is left.
after_erase : GroupManager → Text → Text → GroupInfo → List Text → GroupManager
after_erase gm user group_name g [] = record {
  groups = Map.remove group_name gm.groups;
  owner_groups = index_drop g.owner group_name gm.owner_groups;
}
after_erase gm user group_name g (first ∷ others) =
    if user == g.owner
    then record {
      groups = Map.put group_name (record g { members = first ∷ others; owner = first }) gm.groups;
      owner_groups =
          index_add first group_name
            (index_prune g.owner (index_drop g.owner group_name gm.owner_groups));
    }
    else record gm { groups = Map.put group_name (record g { members = first ∷ others }) gm.groups }

leave_in : GroupManager → Text → Text → Option GroupInfo → GroupManager × Bool
leave_in gm user group_name none = (gm, false)
leave_in gm user group_name (some g) =
    if mem user g.members
    then (after_erase gm user group_name g (erase_first user g.members), true)
    else (gm, false)

unfoldable pub leave_group : GroupManager → Text → Text → GroupManager × Bool
unfolding after_erase leave_in
leave_group gm user group_name = leave_in gm user group_name (Map.get group_name gm.groups)
