-- ===== src/Groups/Invariant.antt =====
-- What holds of all groups, and of the index of owners, whatever the methods do.
use p2p_distributed_file_sha.Prelude.{
  ◌≡◌, refl, sym, subst, ◌∙◌, inl, inr, Bool-cases, Bool, true, false, Option, none, some, List, [],
  ◌∷◌, arith, Option-cases,
}
use p2p_distributed_file_sha.Text.{Text, ◌==◌, ==_iff, mem, mem-nil, erase_first}
use p2p_distributed_file_sha.Map
use p2p_distributed_file_sha.Map.{
  Map, get-nil, get-put, get-remove, get-put_same, get-put_other, get-remove_present,
}
use p2p_distributed_file_sha.TextSet.{TextSet}
use p2p_distributed_file_sha.Groups.{
  GroupInfo, GroupManager, empty, request_in, approve_in, leave_in, after_erase, index_drop,
  index_prune, touch_group, create_group, is_group_available, request_to_join, is_member_of_group,
  approve_request, leave_group,
}
use p2p_distributed_file_sha.Groups.Sound.{
  IsSound, request-IsSound, approve-IsSound, singleton-IsSound, stay-IsSound, hand_on-IsSound,
}
use p2p_distributed_file_sha.Groups.Index.{owns, owns-index_add, owns-index_drop, owns-index_prune}

abbrev pub owner_is : Text → Option GroupInfo → Bool
owner_is user none = false
owner_is user (some g) = g.owner == user

abbrev pub AllSound : Map GroupInfo → Type 0
AllSound groups = (name : Text) (g : GroupInfo) → Map.get name groups ≡ some g → IsSound g

abbrev pub Indexed : Map GroupInfo → Map TextSet → Type 0
Indexed groups index =
    (user name : Text) → owns user name index ≡ owner_is user (Map.get name groups)

-- All groups, and the index: it says of each name who owns it, and nothing else.
pub record Inv (gm : GroupManager) : Type 0 where
  pub sound : AllSound gm.groups
  pub indexed : Indexed gm.groups gm.owner_groups

AllSound-put :
    (name : Text) (new : GroupInfo) (m : Map GroupInfo)
    → IsSound new
    → AllSound m
    → AllSound (Map.put name new m)
AllSound-put name new m ok all n g e = elim (Bool-cases (name == n)) [
  | inl same ↦ let now = get-put_same name n new m same in subst IsSound (cc) ok
  | inr other ↦ all n g (sym (get-put_other name n new m other) ∙ e)
]

AllSound-remove : (name : Text) (m : Map GroupInfo) → AllSound m → AllSound (Map.remove name m)
AllSound-remove name m all n g e = all n g (get-remove_present name n m e)

-- A group that keeps its owner needs no change of the index.
Indexed-put :
    (name : Text) (g new : GroupInfo) (m : Map GroupInfo) (index : Map TextSet)
    → Map.get name m ≡ some g
    → new.owner ≡ g.owner
    → Indexed m index
    → Indexed (Map.put name new m) index
Indexed-put name g new m index e o h u n =
    ground (arith, h u n, get-put name n new m, ==_iff name n)

pub empty-Inv : Inv empty
empty-Inv = record {
  sound = λ n g e. cc (get-nil n, e);
  indexed = λ u n. ground (arith, get-nil {V = TextSet} u, get-nil {V = GroupInfo} n, mem-nil n);
}

pub create_group-Inv :
    (gm : GroupManager) (owner name : Text) → Inv gm → Inv (create_group gm owner name).0
unfolding create_group
create_group-Inv gm owner name inv = elim (Option-cases (Map.get name gm.groups)) [
  | inl absent ↦ rw absent (record {
    sound = AllSound-put name _ gm.groups (singleton-IsSound owner) inv.sound;
    indexed = λ u n. ground (
      arith,
      inv.indexed u n,
      owns-index_add owner u name n gm.owner_groups,
      get-put name n (record { owner = owner; members = owner ∷ []; pending = [] }) gm.groups,
      ==_iff name n,
    );
  })
  | inr (g, present) ↦ rw present inv
]

request_in-Inv :
    (gm : GroupManager) (user name : Text) (found : Option GroupInfo)
    → Map.get name gm.groups ≡ found
    → Inv gm
    → Inv (request_in gm user name found).0
unfolding request_in
request_in-Inv gm user name none e inv = inv
request_in-Inv gm user name (some g) e inv = elim (Bool-cases (mem user g.members)) [
  | inl member ↦ rw member inv
  | inr stranger ↦ rw stranger (record {
    sound =
        AllSound-put name _ gm.groups (request-IsSound user g stranger (inv.sound name g e))
          inv.sound;
    indexed = Indexed-put name g _ gm.groups gm.owner_groups e refl inv.indexed;
  })
]

pub request_to_join-Inv :
    (gm : GroupManager) (user name : Text) → Inv gm → Inv (request_to_join gm user name).0
unfolding request_to_join
request_to_join-Inv gm user name inv = request_in-Inv gm user name _ refl inv

approve_in-Inv :
    (gm : GroupManager) (approver user name : Text) (found : Option GroupInfo)
    → Map.get name gm.groups ≡ found
    → Inv gm
    → Inv (approve_in gm approver user name found).0
unfolding approve_in
approve_in-Inv gm approver user name none e inv = inv
approve_in-Inv gm approver user name (some g) e inv = elim (Bool-cases (g.owner == approver)) [
  | inr stranger ↦ rw stranger inv
  | inl owner ↦ elim (Bool-cases (mem user g.pending)) [
    | inr unasked ↦ rw (owner, unasked) inv
    | inl asked ↦
        rw (owner, asked)
          (record {
            sound =
                AllSound-put name _ gm.groups (approve-IsSound user g asked (inv.sound name g e))
                  inv.sound;
            indexed = Indexed-put name g _ gm.groups gm.owner_groups e refl inv.indexed;
          })
  ]
]

pub approve_request-Inv :
    (gm : GroupManager) (approver user name : Text)
    → Inv gm
    → Inv (approve_request gm approver user name).0
unfolding approve_request
approve_request-Inv gm approver user name inv = approve_in-Inv gm approver user name _ refl inv

module _ (gm : GroupManager) (user name : Text) (inv : Inv gm) where
  after_erase-Inv :
      (g : GroupInfo) (left : List Text)
      → Map.get name gm.groups ≡ some g
      → erase_first user g.members ≡ left
      → Inv (after_erase gm user name g left)
  unfolding after_erase
  after_erase-Inv g [] e gone = record {
    sound = AllSound-remove name gm.groups inv.sound;
    indexed = λ u n. ground (
      arith,
      inv.indexed u n,
      owns-index_drop g.owner u name n gm.owner_groups,
      get-remove name n gm.groups,
      ==_iff name n,
    );
  }
  after_erase-Inv g (first ∷ others) e left = elim (Bool-cases (user == g.owner)) [
    | inr other ↦ rw other (record {
      sound =
          AllSound-put name _ gm.groups
            (stay-IsSound user g first others left (inv.sound name g e) other) inv.sound;
      indexed = Indexed-put name g _ gm.groups gm.owner_groups e refl inv.indexed;
    })
    | inl own ↦ rw own (record {
      sound =
          AllSound-put name _ gm.groups
            (hand_on-IsSound user g first others left (inv.sound name g e)) inv.sound;
      indexed = λ u n.
          let dropped = index_drop g.owner name gm.owner_groups in
          ground (
            arith,
            inv.indexed u n,
            owns-index_add first u name n (index_prune g.owner dropped),
            owns-index_prune g.owner u n dropped,
            owns-index_drop g.owner u name n gm.owner_groups,
            get-put name n (record g { members = first ∷ others; owner = first }) gm.groups,
            ==_iff name n,
          );
    })
  ]

  leave_in-Inv :
      (found : Option GroupInfo)
      → Map.get name gm.groups ≡ found
      → Inv (leave_in gm user name found).0
  unfolding leave_in
  leave_in-Inv none e = inv
  leave_in-Inv (some g) e = elim (Bool-cases (mem user g.members)) [
    | inl member ↦ rw member (after_erase-Inv g _ e refl)
    | inr stranger ↦ rw stranger inv
  ]

  pub leave_group-Inv : Inv (leave_group gm user name).0
  unfolding leave_group
  leave_group-Inv = leave_in-Inv _ refl

-- Asking about a group that is there changes nothing.
pub is_member_of_group_present :
    (gm : GroupManager) (user name : Text)
    → is_group_available gm name ≡ true
    → (is_member_of_group gm user name).0 ≡ gm
unfolding is_member_of_group is_group_available touch_group
is_member_of_group_present gm user name h = ground arith
