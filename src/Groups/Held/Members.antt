-- ===== src/Groups/Held/Members.antt =====
-- Groups into which members come, and out of which they go, by calls in any order.
use p2p_distributed_file_sha.Prelude.{
  ◌≡◌, ◌≢◌, refl, sym, ◌∙◌, inl, inr, Bool-cases, true, false, Option, none, some, List, [], ◌∷◌,
  ◌++◌, arith,
}
use p2p_distributed_file_sha.Text.{Text, ◌==◌, ==_iff, mem, mem-nil, erase_first}
use p2p_distributed_file_sha.Map
use p2p_distributed_file_sha.Map.{
  Map, get-nil, get-put, get-remove, get-put_same, get-put_other, get-remove_present,
}
use p2p_distributed_file_sha.Groups.{
  GroupInfo, GroupManager, approve_in, leave_in, after_erase, index_drop, index_prune,
  approve_request, leave_group,
}
use p2p_distributed_file_sha.Groups.Sound.{IsSound, approve-IsSound, stay-IsSound, hand_on-IsSound}
use p2p_distributed_file_sha.Groups.Index.{owns-index_add, owns-index_drop, owns-index_prune}
use p2p_distributed_file_sha.Groups.Held.{
  IsHeld, nobody, Inv, AllHeld-put, AllHeld-remove, Indexed-put,
}

approve-IsHeld :
    (user : Text) (g : GroupInfo) → g.owner ≢ [] → mem user g.pending ≡ true → IsHeld g → IsSound g
approve-IsHeld user g named asked (inl sound) = sound
approve-IsHeld user g named asked (inr ghost) = absurd (named ghost.0)

appended : (l : List Text) (a : Text) → nobody (l ++ a ∷ []) ≡ false
appended [] a = refl
appended (b ∷ l) a = refl

owned_member : (g : GroupInfo) → IsSound g → nobody g.members ≡ false
unfolding mem
owned_member g sound = ground (arith, sound.owner_member)

approve_in-Inv :
    (gm : GroupManager) (approver user name : Text) (found : Option GroupInfo)
    → approver ≢ []
    → Map.get name gm.groups ≡ found
    → Inv gm
    → Inv (approve_in gm approver user name found).0
unfolding approve_in
approve_in-Inv gm approver user name none named e inv = inv
approve_in-Inv gm approver user name (some g) named e inv =
    elim (Bool-cases (g.owner == approver)) [
      | inr stranger ↦ rw stranger inv
      | inl owner ↦ elim (Bool-cases (mem user g.pending)) [
        | inr unasked ↦ rw (owner, unasked) inv
        | inl asked ↦
            let same = (==_iff g.owner approver).0 owner in
            let sound : IsSound g =
              approve-IsHeld user g (λ empty. named (sym same ∙ empty)) asked (inv.held name g e) in
            rw (owner, asked)
              (record {
                held =
                    AllHeld-put name _ gm.groups (inl (approve-IsSound user g asked sound))
                      inv.held;
                indexed =
                    Indexed-put name _ gm.groups gm.owner_groups
                      (λ u. rw (e, appended g.members user, owned_member g sound) refl) inv.indexed;
              })
      ]
    ]

pub approve_request-Inv :
    (gm : GroupManager) (approver user name : Text)
    → approver ≢ []
    → Inv gm
    → Inv (approve_request gm approver user name).0
unfolding approve_request
approve_request-Inv gm approver user name named inv =
    approve_in-Inv gm approver user name _ named refl inv

-- A group that someone leaves has members.
left-IsSound : (user : Text) (g : GroupInfo) → mem user g.members ≡ true → IsHeld g → IsSound g
left-IsSound user g member (inl sound) = sound
left-IsSound user g member (inr ghost) = absurd (ground (arith, ghost.1, mem-nil user))

module _ (gm : GroupManager) (user name : Text) (inv : Inv gm) where
  after_erase-Inv :
      (g : GroupInfo) (left : List Text)
      → Map.get name gm.groups ≡ some g
      → IsSound g
      → erase_first user g.members ≡ left
      → Inv (after_erase gm user name g left)
  unfolding after_erase
  after_erase-Inv g [] e sound gone = record {
    held = AllHeld-remove name gm.groups inv.held;
    indexed = λ u n. ground (
      arith,
      inv.indexed u n,
      owns-index_drop g.owner u name n gm.owner_groups,
      get-remove name n gm.groups,
      owned_member g sound,
      ==_iff name n,
    );
  }
  after_erase-Inv g (first ∷ others) e sound left = elim (Bool-cases (user == g.owner)) [
    | inr other ↦ rw other (record {
      held =
          AllHeld-put name _ gm.groups (inl (stay-IsSound user g first others left sound other))
            inv.held;
      indexed =
          Indexed-put name _ gm.groups gm.owner_groups (λ u. rw (e, owned_member g sound) refl)
            inv.indexed;
    })
    | inl own ↦ rw own (record {
      held =
          AllHeld-put name _ gm.groups (inl (hand_on-IsSound user g first others left sound))
            inv.held;
      indexed = λ u n.
          let dropped = index_drop g.owner name gm.owner_groups in
          ground (
            arith,
            inv.indexed u n,
            owns-index_add first u name n (index_prune g.owner dropped),
            owns-index_prune g.owner u n dropped,
            owns-index_drop g.owner u name n gm.owner_groups,
            get-put name n (record g { members = first ∷ others; owner = first }) gm.groups,
            owned_member g sound,
            ==_iff name n,
          );
    })
  ]

  leave_in-Inv :
      (found : Option GroupInfo)
      → Map.get name gm.groups ≡ found
      → Inv (leave_in gm user name found).0
  unfolding leave_in
  leave_in-Inv none e = inv
  leave_in-Inv (some g) e = elim (Bool-cases (mem user g.members)) [
    | inl member ↦
        rw member (after_erase-Inv g _ e (left-IsSound user g member (inv.held name g e)) refl)
    | inr stranger ↦ rw stranger inv
  ]

  pub leave_group-Inv : Inv (leave_group gm user name).0
  unfolding leave_group
  leave_group-Inv = leave_in-Inv _ refl
