-- ===== src/Groups/Held.antt =====
-- What holds of all groups when the methods of `GroupManager` are called in any order: a group is
-- sound, or is one that `isMemberOfGroup` has made, in which there is nobody.
pub mod Members
use p2p_distributed_file_sha.Prelude.{
  ◌≡◌, ◌≢◌, ◌⊎◌, refl, sym, subst, ◌∙◌, inl, inr, Bool-cases, Bool, true, false, not, ◌&&◌, Option,
  none, some, List, [], ◌∷◌, ◌++◌, arith, Option-cases,
}
use p2p_distributed_file_sha.Text.{Text, ◌==◌, ==_iff, mem, mem-nil, erase_first}
use p2p_distributed_file_sha.Map
use p2p_distributed_file_sha.Map.{
  Map, get-nil, get-put, get-remove, get-put_same, get-put_other, get-remove_present,
}
use p2p_distributed_file_sha.TextSet
use p2p_distributed_file_sha.TextSet.{TextSet}
use p2p_distributed_file_sha.Groups.{
  GroupInfo, GroupManager, empty, default_group, request_in, approve_in, leave_in, after_erase,
  index_drop, index_prune, touch_group, create_group, request_to_join, is_member_of_group,
  approve_request, leave_group,
}
use p2p_distributed_file_sha.Groups.Sound.{
  IsSound, request-IsSound, approve-IsSound, singleton-IsSound, stay-IsSound, hand_on-IsSound,
}
use p2p_distributed_file_sha.Groups.Index.{owns, owns-index_add, owns-index_drop, owns-index_prune}

-- `GroupInfo g;`, but for requests.
abbrev pub IsGhost : GroupInfo → Type 0
IsGhost g = (g.owner ≡ []) × (g.members ≡ [])

abbrev pub IsHeld : GroupInfo → Type 0
IsHeld g = IsSound g ⊎ IsGhost g

abbrev pub nobody : List Text → Bool
nobody [] = true
nobody (first ∷ others) = false

-- The group has members, and this owner.
abbrev pub owner_holds : Text → Option GroupInfo → Bool
owner_holds user none = false
owner_holds user (some g) = not (nobody g.members) && (g.owner == user)

abbrev pub AllHeld : Map GroupInfo → Type 0
AllHeld groups = (name : Text) (g : GroupInfo) → Map.get name groups ≡ some g → IsHeld g

abbrev pub Indexed : Map GroupInfo → Map TextSet → Type 0
Indexed groups index =
    (user name : Text) → owns user name index ≡ owner_holds user (Map.get name groups)

-- The index says of each group that has members who owns it, and nothing else.
pub record Inv (gm : GroupManager) : Type 0 where
  pub held : AllHeld gm.groups
  pub indexed : Indexed gm.groups gm.owner_groups

pub AllHeld-put :
    (name : Text) (new : GroupInfo) (m : Map GroupInfo)
    → IsHeld new
    → AllHeld m
    → AllHeld (Map.put name new m)
AllHeld-put name new m ok all n g e = elim (Bool-cases (name == n)) [
  | inl same ↦ let now = get-put_same name n new m same in subst IsHeld (cc) ok
  | inr other ↦ all n g (sym (get-put_other name n new m other) ∙ e)
]

pub AllHeld-remove : (name : Text) (m : Map GroupInfo) → AllHeld m → AllHeld (Map.remove name m)
AllHeld-remove name m all n g e = all n g (get-remove_present name n m e)

pub Indexed-put :
    (name : Text) (new : GroupInfo) (m : Map GroupInfo) (index : Map TextSet)
    → ((u : Text) → owner_holds u (some new) ≡ owner_holds u (Map.get name m))
    → Indexed m index
    → Indexed (Map.put name new m) index
Indexed-put name new m index o h u n =
    ground (arith, h u n, o u, get-put name n new m, ==_iff name n)

pub empty-Inv : Inv empty
empty-Inv = record {
  held = λ n g e. cc (get-nil n, e);
  indexed = λ u n. ground (arith, get-nil {V = TextSet} u, get-nil {V = GroupInfo} n, mem-nil n);
}

pub create_group-Inv :
    (gm : GroupManager) (owner name : Text) → Inv gm → Inv (create_group gm owner name).0
unfolding create_group
create_group-Inv gm owner name inv = elim (Option-cases (Map.get name gm.groups)) [
  | inl absent ↦ rw absent (record {
    held = AllHeld-put name _ gm.groups (inl (singleton-IsSound owner)) inv.held;
    indexed = λ u n. ground (
      arith,
      inv.indexed u n,
      owns-index_add owner u name n gm.owner_groups,
      get-put name n (record { owner = owner; members = owner ∷ []; pending = [] }) gm.groups,
      ==_iff name n,
    );
  })
  | inr (g, present) ↦ rw present inv
]

touch_group_cases :
    (gm : GroupManager) (name : Text)
    → (touch_group gm name ≡ gm)
      ⊎ ((Map.get name gm.groups ≡ none)
          × (touch_group gm name ≡ record gm { groups = Map.put name default_group gm.groups }))
unfolding touch_group
touch_group_cases gm name = ground (arith, Option-cases (Map.get name gm.groups))

-- The group that `operator[]` makes is one with nobody in it.
pub is_member_of_group-Inv :
    (gm : GroupManager) (user name : Text) → Inv gm → Inv (is_member_of_group gm user name).0
unfolding is_member_of_group
is_member_of_group-Inv gm user name inv = elim (touch_group_cases gm name) [
  | inl same ↦ subst Inv (sym same) inv
  | inr (absent, made) ↦ subst Inv (sym made) (record {
    held = AllHeld-put name default_group gm.groups (inr (refl, refl)) inv.held;
    indexed =
        Indexed-put name default_group gm.groups gm.owner_groups (λ u. rw absent refl) inv.indexed;
  })
]

request-IsHeld :
    (user : Text) (g : GroupInfo)
    → mem user g.members ≡ false
    → IsHeld g
    → IsHeld (record g { pending = TextSet.insert user g.pending })
request-IsHeld user g stranger (inl sound) = inl (request-IsSound user g stranger sound)
request-IsHeld user g stranger (inr ghost) = inr ghost

request_in-Inv :
    (gm : GroupManager) (user name : Text) (found : Option GroupInfo)
    → Map.get name gm.groups ≡ found
    → Inv gm
    → Inv (request_in gm user name found).0
unfolding request_in
request_in-Inv gm user name none e inv = inv
request_in-Inv gm user name (some g) e inv = elim (Bool-cases (mem user g.members)) [
  | inl member ↦ rw member inv
  | inr stranger ↦ rw stranger (record {
    held =
        AllHeld-put name _ gm.groups (request-IsHeld user g stranger (inv.held name g e)) inv.held;
    indexed = Indexed-put name _ gm.groups gm.owner_groups (λ u. rw e refl) inv.indexed;
  })
]

pub request_to_join-Inv :
    (gm : GroupManager) (user name : Text) → Inv gm → Inv (request_to_join gm user name).0
unfolding request_to_join
request_to_join-Inv gm user name inv = request_in-Inv gm user name _ refl inv
