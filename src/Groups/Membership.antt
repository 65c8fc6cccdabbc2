-- ===== src/Groups/Membership.antt =====
-- Who is a member and who waits, after each method.
use p2p_distributed_file_sha.Prelude.{
  ◌≡◌, refl, inl, inr, Option-cases, Bool, true, false, not, ◌&&◌, ◌||◌, Option, none, some, List,
  [], ◌∷◌, ◌++◌, arith, get_or, if◌then◌else◌,
}
use p2p_distributed_file_sha.Text.{
  Text, ◌==◌, ==_refl, ==_iff, mem, mem-nil, mem-cons, mem-append, Distinct, erase_first,
  mem-erase_first,
}
use p2p_distributed_file_sha.Map
use p2p_distributed_file_sha.Map.{Map, get-nil, get-put, get-remove}
use p2p_distributed_file_sha.TextSet
use p2p_distributed_file_sha.TextSet.{TextSet, mem-insert, mem-erase}
use p2p_distributed_file_sha.Groups.{
  GroupInfo, GroupManager, default_group, create_group, is_group_available, request_to_join,
  approve_request, leave_group, after_erase, is_pending_request, is_member_of_group, touch_group,
  leave_in, index_drop,
}
use p2p_distributed_file_sha.Groups.Invariant.{Inv}

-- The user is listed among the members of the group.
abbrev pub member_of : GroupManager → Text → Text → Bool
member_of gm user name = mem user (get_or (Map.get name gm.groups) default_group).members

module _ (gm : GroupManager) (user name v n : Text) where
  pub member_of-create_group :
      is_group_available gm name ≡ false
      → member_of (create_group gm user name).0 v n
        ≡ (if name == n then user == v else member_of gm v n)
  unfolding create_group is_group_available mem
  member_of-create_group h =
      ground (
        arith,
        get-put name n (record { owner = user; members = user ∷ []; pending = [] }) gm.groups,
      )

  pub member_of-request_to_join : member_of (request_to_join gm user name).0 v n ≡ member_of gm v n
  unfolding request_to_join
  member_of-request_to_join = elim (Option-cases (Map.get name gm.groups)) [
    | inl absent ↦ ground arith
    | inr (g, present) ↦ ground (
      arith,
      get-put name n (record g { pending = TextSet.insert user g.pending }) gm.groups,
      ==_iff name n,
    )
  ]

  -- In a group that exists and of which the user is no member, a request makes the user wait in that
  -- group, and changes nothing about who else waits where.
  pending-request_to_join :
      is_group_available gm name ≡ true
      → member_of gm user name ≡ false
      → is_pending_request (request_to_join gm user name).0 v n
        ≡ ((name == n && user == v) || is_pending_request gm v n)
  unfolding request_to_join is_pending_request is_group_available
  pending-request_to_join h k = elim (Option-cases (Map.get name gm.groups)) [
    | inl absent ↦ ground arith
    | inr (g, present) ↦ ground (
      arith,
      get-put name n (record g { pending = TextSet.insert user g.pending }) gm.groups,
      mem-insert user v g.pending,
      ==_iff name n,
    )
  ]

  pub member_of-approve_request :
      (approver : Text)
      → member_of (approve_request gm approver user name).0 v n ≡ (
          ((approve_request gm approver user name).1 && (name == n && user == v))
          || member_of gm v n)
  unfolding approve_request
  member_of-approve_request approver = elim (Option-cases (Map.get name gm.groups)) [
    | inl absent ↦ ground arith
    | inr (g, present) ↦ ground (
      arith,
      get-put name n
          (record g { pending = TextSet.erase user g.pending; members = g.members ++ user ∷ [] })
          gm.groups,
      mem-append v g.members (user ∷ []),
      mem-cons v user [],
      mem-nil v,
      ==_iff name n,
    )
  ]

-- The groups after a member has gone: `left` is what is left of the members.
after_leave : Text → GroupInfo → List Text → Option GroupInfo
after_leave user g [] = none
after_leave user g (first ∷ others) =
    some (record g { members = first ∷ others; owner = if user == g.owner then first else g.owner })

get-after_erase :
    (gm : GroupManager) (user name n : Text) (g : GroupInfo) (left : List Text)
    → Map.get n (after_erase gm user name g left).groups
      ≡ (if name == n then after_leave user g left else Map.get n gm.groups)
unfolding after_erase after_leave
get-after_erase gm user name n g [] = get-remove name n gm.groups
get-after_erase gm user name n g (first ∷ others) = ground (
  arith,
  get-put name n (record g { members = first ∷ others; owner = first }) gm.groups,
  get-put name n (record g { members = first ∷ others }) gm.groups,
)

members-after_leave :
    (user v : Text) (g : GroupInfo) (left : List Text)
    → mem v (get_or (after_leave user g left) default_group).members ≡ mem v left
unfolding after_leave
members-after_leave user v g [] = refl
members-after_leave user v g (first ∷ others) = refl

module _ (gm : GroupManager) (user name : Text) where
  pub member_of-leave_group-Distinct :
      ((g : GroupInfo) → Map.get name gm.groups ≡ some g → Distinct g.members)
      → (v n : Text)
      → member_of (leave_group gm user name).0 v n
        ≡ (not (name == n && user == v) && member_of gm v n)
  unfolding leave_group
  member_of-leave_group-Distinct distinct v n = elim (Option-cases (Map.get name gm.groups)) [
    | inl absent ↦ ground (arith, ==_iff name n, mem-nil v)
    | inr (g, present) ↦
        let left = erase_first user g.members in
        ground (
          arith,
          get-after_erase gm user name n g left,
          members-after_leave user v g left,
          mem-erase_first user v g.members (distinct g present),
          ==_iff name n,
          ==_iff user v,
        )
  ]

  -- With sound groups, leaving takes the user out of the members of that group, and changes no
  -- other membership.
  pub member_of-leave_group :
      Inv gm
      → (v n : Text)
      → member_of (leave_group gm user name).0 v n
        ≡ (not (name == n && user == v) && member_of gm v n)
  member_of-leave_group inv =
      member_of-leave_group-Distinct (λ g present. (inv.sound name g present).distinct)

  -- Asking makes nobody a member.
  pub member_of-is_member_of_group :
      (v n : Text) → member_of (is_member_of_group gm user name).0 v n ≡ member_of gm v n
  unfolding is_member_of_group touch_group
  member_of-is_member_of_group v n = elim (Option-cases (Map.get name gm.groups)) [
    | inl absent ↦ ground (arith, get-put name n default_group gm.groups, ==_iff name n)
    | inr (g, present) ↦ ground arith
  ]

  -- The last member takes the group along.
  pub leave_group_alone :
      (pending : TextSet)
      → Map.get name gm.groups
        ≡ some (record { owner = user; members = user ∷ []; pending = pending })
      → leave_group gm user name ≡ (
        record {
          groups = Map.remove name gm.groups;
          owner_groups = index_drop user name gm.owner_groups;
        },
        true,
      )
  unfolding leave_group after_erase leave_in erase_first mem
  leave_group_alone pending only = ground (arith, ==_refl user)
