-- ===== src/Interleaving/Authority.antt =====
-- Who comes into a group and out of one while handlers run at the same time.
use p2p_distributed_file_sha.Prelude.{
  ◌≡◌, ◌⊎◌, refl, sym, ap, subst, ◌∙◌, inl, inr, Bool-cases, Option-cases, true, false, not, ◌&&◌,
  List, arith,
}
use p2p_distributed_file_sha.Text.{Text, ◌==◌, ==_iff, mem, Distinct}
use p2p_distributed_file_sha.Map
use p2p_distributed_file_sha.Groups
use p2p_distributed_file_sha.Groups.{GroupInfo, GroupManager}
use p2p_distributed_file_sha.Groups.Held as Held
use p2p_distributed_file_sha.Groups.Held.{IsHeld}
use p2p_distributed_file_sha.Groups.Membership.{
  member_of, member_of-create_group, member_of-request_to_join, member_of-approve_request,
  member_of-leave_group-Distinct, member_of-is_member_of_group,
}
use p2p_distributed_file_sha.Commands.{State}
use p2p_distributed_file_sha.Commands.Calls as C
use p2p_distributed_file_sha.Commands.Calls.{Call}
use p2p_distributed_file_sha.Interleaving.{
  Method, register_user, login, logout, create_group, request_to_join, is_member_of_group,
  approve_request, leave_group, add_file, add_new_seeder, remove_seeder, is_user, is_logged_in,
  get_owner_name, is_group_available, group_list, show_pending_requests, is_group_owner,
  is_pending_request, is_file_exist, get_file_info, list_files_in_group, seeder_list, perform,
}
use p2p_distributed_file_sha.Interleaving.Schedule.{Thread, Turn, Reached}
use p2p_distributed_file_sha.Interleaving.Origins.{IsFor, Turn-Comes, Reached-Honest}
use p2p_distributed_file_sha.Interleaving.Invariant.{Admitted, Reached-Inv}

-- The command is the creation of a group that is not there, or the acceptance of a request that
-- waits, by the owner.
abbrev pub Gained : State → Call → Text → Text → Type 0
Gained s c user name =
    ((c ≡ C.create_group user name) × (Groups.is_group_available s.gm name ≡ false))
    ⊎ ((c ≡ C.accept_request (Groups.get_owner_name s.gm name) user name)
        × (Groups.is_group_available s.gm name ≡ true)
        × (Groups.is_pending_request s.gm user name ≡ true))

pub held-Distinct : (g : GroupInfo) → IsHeld g → Distinct g.members
held-Distinct g (inl sound) = sound.distinct
held-Distinct g (inr ghost) = subst Distinct (sym ghost.1) tt

create_group_present :
    (gm : GroupManager) (user name : Text)
    → Groups.is_group_available gm name ≡ true
    → (Groups.create_group gm user name).0 ≡ gm
unfolding Groups.create_group Groups.is_group_available
create_group_present gm user name h = ground arith

approve_request-true :
    (gm : GroupManager) (o user name : Text)
    → (Groups.approve_request gm o user name).1 ≡ true
    → (o ≡ Groups.get_owner_name gm name)
      × (Groups.is_group_available gm name ≡ true)
      × (Groups.is_pending_request gm user name ≡ true)
unfolding Groups.approve_request Groups.get_owner_name Groups.is_group_available
    Groups.is_pending_request
approve_request-true gm o user name h = elim (Option-cases (Map.get name gm.groups)) [
  | inl absent ↦ ground arith
  | inr (g, present) ↦ ground (arith, ==_iff g.owner o)
]

module _ (s : State) (inv : Held.Inv s.gm) (c : Call) (v n : Text) where
  left :
      (u k : Text)
      → member_of (Groups.leave_group s.gm u k).0 v n
        ≡ (not (k == n && u == v) && member_of s.gm v n)
  left u k =
      member_of-leave_group-Distinct s.gm u k (λ g present. held-Distinct g (inv.held k g present))
        v n

  -- What a call comes to for this user and this group.
  abbrev Moves : Method → Type 0
  Moves m =
      (member_of (perform s m).0.gm v n ≡ member_of s.gm v n)
      ⊎ ((member_of (perform s m).0.gm v n ≡ true) × Gained s c v n)
      ⊎ ((member_of (perform s m).0.gm v n ≡ false) × (c ≡ C.leave_group v n))

  absent_member : Groups.is_group_available s.gm n ≡ false → member_of s.gm v n ≡ false
  unfolding Groups.is_group_available mem
  absent_member h = ground arith

  create-Moves : (u k : Text) → c ≡ C.create_group u k → Moves (create_group u k)
  unfolding perform
  create-Moves u k own = elim (Bool-cases (Groups.is_group_available s.gm k)) [
    | inl there ↦ inl (ap (λ gm. member_of gm v n) (create_group_present s.gm u k there))
    | inr absent ↦
        let after = member_of-create_group s.gm u k v n absent in
        elim (Bool-cases (k == n)) [
          | inr other ↦ inl (ground arith)
          | inl group ↦
              let eg = (==_iff k n).0 group in
              let gone = ap (Groups.is_group_available s.gm) (sym eg) ∙ absent in
              elim (Bool-cases (u == v)) [
                | inr another ↦ inl (ground (arith, absent_member gone))
                | inl user ↦
                    let eu = (==_iff u v).0 user in inr (inl (ground arith, inl (cc, gone)))
              ]
        ]
  ]

  approve-Moves : (o u k : Text) → c ≡ C.accept_request o u k → Moves (approve_request o u k)
  unfolding perform
  approve-Moves o u k own =
      let after = member_of-approve_request s.gm u k v n o in
      elim (Bool-cases ((Groups.approve_request s.gm o u k).1 && (k == n && u == v))) [
        | inr same ↦ inl (ground arith)
        | inl into ↦
            let eg = (==_iff k n).0 (ground arith) in
            let eu = (==_iff u v).0 (ground arith) in
            let (by, there, asked) = approve_request-true s.gm o u k (ground arith) in
            inr (inl (ground arith, inr (cc, cc, cc)))
      ]

  leave-Moves : (u k : Text) → c ≡ C.leave_group u k → Moves (leave_group u k)
  unfolding perform
  leave-Moves u k own = elim (Bool-cases (k == n && u == v)) [
    | inr same ↦ inl (ground (arith, left u k))
    | inl gone ↦
        let eg = (==_iff k n).0 (ground arith) in
        let eu = (==_iff u v).0 (ground arith) in inr (inr (ground (arith, left u k), cc))
  ]

  method-Moves : (m : Method) → IsFor c m → Moves m
  unfolding perform
  method-Moves (create_group u k) own = create-Moves u k own
  method-Moves (approve_request o u k) own = approve-Moves o u k own
  method-Moves (leave_group u k) own = leave-Moves u k own
  method-Moves (request_to_join u k) own = inl (member_of-request_to_join s.gm u k v n)
  method-Moves (is_member_of_group u k) own = inl (member_of-is_member_of_group s.gm u k v n)
  method-Moves (register_user u p) own = inl refl
  method-Moves (login u p addr) own = inl refl
  method-Moves (logout u) own = inl refl
  method-Moves (add_file k f info) own = inl refl
  method-Moves (add_new_seeder k f u addr path) own = inl refl
  method-Moves (remove_seeder u k f) own = inl refl
  method-Moves (is_user _) own = inl refl
  method-Moves (is_logged_in _) own = inl refl
  method-Moves (get_owner_name _) own = inl refl
  method-Moves (is_group_available _) own = inl refl
  method-Moves group_list own = inl refl
  method-Moves (show_pending_requests _ _) own = inl refl
  method-Moves (is_group_owner _ _) own = inl refl
  method-Moves (is_pending_request _ _) own = inl refl
  method-Moves (is_file_exist _ _) own = inl refl
  method-Moves (get_file_info _ _) own = inl refl
  method-Moves (list_files_in_group _) own = inl refl
  method-Moves (seeder_list _ _) own = inl refl

module _ {s t : State} {ts us : List Thread} {c : Call} {m : Method} (r : Reached Admitted s ts)
    (turn : Turn s ts c m t us) (v n : Text) where
  turn_moves :
      (member_of t.gm v n ≡ member_of s.gm v n)
      ⊎ ((member_of t.gm v n ≡ true) × Gained s c v n)
      ⊎ ((member_of t.gm v n ≡ false) × (c ≡ C.leave_group v n))
  turn_moves =
      let comes = Turn-Comes Admitted turn (Reached-Honest Admitted r) in
      let moved = method-Moves s (Reached-Inv r).groups c v n m comes.own in
      elim moved [
        | inl same ↦ inl (ap (λ x. member_of x.gm v n) comes.to ∙ same)
        | inr (inl (into, gained)) ↦
            inr (inl (ap (λ x. member_of x.gm v n) comes.to ∙ into, gained))
        | inr (inr (out, leaves)) ↦ inr (inr (ap (λ x. member_of x.gm v n) comes.to ∙ out, leaves))
      ]

  -- However the calls of handlers that run at the same time are interleaved, a call that makes a
  -- user a member of a group is made either for that user's command to create the group, which is
  -- not there at that moment, or for the acceptance of the user's request, which waits at that
  -- moment, by the user who is the owner of the group at that moment.
  pub turn_admits : member_of s.gm v n ≡ false → member_of t.gm v n ≡ true → Gained s c v n
  turn_admits out into = elim turn_moves [
    | inl same ↦ absurd (cc)
    | inr (inl (now, gained)) ↦ gained
    | inr (inr (now, leaves)) ↦ absurd (cc)
  ]

  -- However the calls of handlers that run at the same time are interleaved, a call by which a user
  -- ceases to be a member of a group is made for that user's own command to leave the group.
  pub turn_removes : member_of s.gm v n ≡ true → member_of t.gm v n ≡ false → c ≡ C.leave_group v n
  turn_removes into out = elim turn_moves [
    | inl same ↦ absurd (cc)
    | inr (inl (now, gained)) ↦ absurd (cc)
    | inr (inr (now, leaves)) ↦ leaves
  ]
