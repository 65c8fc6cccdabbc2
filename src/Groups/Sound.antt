-- ===== src/Groups/Sound.antt =====
-- What holds of one group, whatever the methods do to it.
use p2p_distributed_file_sha.Prelude.{
  ◌≡◌, refl, subst, true, false, not, ◌&&◌, List, [], ◌∷◌, ◌++◌, arith,
}
use p2p_distributed_file_sha.Text.{
  Text, ◌==◌, ==_iff, ==_refl, mem, mem-nil, mem-cons, mem-append, Distinct, erase_first,
  mem-erase_first, erase_first-Distinct, append-Distinct,
}
use p2p_distributed_file_sha.TextSet
use p2p_distributed_file_sha.TextSet.{TextSet, mem-insert, mem-erase}
use p2p_distributed_file_sha.Groups.{GroupInfo}

-- One group: the owner is a member, members are listed once, and nobody waits who is a member.
pub record IsSound (g : GroupInfo) : Type 0 where
  pub owner_member : mem g.owner g.members ≡ true
  pub distinct : Distinct g.members
  pub outside : (user : Text) → mem user g.pending ≡ true → mem user g.members ≡ false

pub request-IsSound :
    (user : Text) (g : GroupInfo)
    → mem user g.members ≡ false
    → IsSound g
    → IsSound (record g { pending = TextSet.insert user g.pending })
request-IsSound user g stranger ok = record {
  owner_member = ok.owner_member;
  distinct = ok.distinct;
  outside = λ u. ground (arith, ok.outside u, mem-insert user u g.pending, ==_iff user u);
}

pub approve-IsSound :
    (user : Text) (g : GroupInfo)
    → mem user g.pending ≡ true
    → IsSound g
    → IsSound
        (record g { pending = TextSet.erase user g.pending; members = g.members ++ user ∷ [] })
approve-IsSound user g asked ok = record {
  owner_member = ground (arith, ok.owner_member, mem-append g.owner g.members (user ∷ []));
  distinct = append-Distinct user g.members ok.distinct (ok.outside user asked);
  outside = λ u. ground (
    arith,
    ok.outside u,
    mem-erase user u g.pending,
    mem-append u g.members (user ∷ []),
    mem-cons u user [],
    mem-nil u,
  );
}

pub singleton-IsSound :
    (owner : Text) → IsSound (record { owner = owner; members = owner ∷ []; pending = [] })
unfolding mem
singleton-IsSound owner = record {
  owner_member = ground (arith, ==_refl owner);
  distinct = (refl, tt);
  outside = λ user h. cc;
}

module _ (user : Text) (g : GroupInfo) (first : Text) (others : List Text)
    (left : erase_first user g.members ≡ first ∷ others) (ok : IsSound g) where
  left-Distinct : Distinct (first ∷ others)
  left-Distinct = subst Distinct left (erase_first-Distinct user g.members ok.distinct)

  mem_left : (u : Text) → mem u (first ∷ others) ≡ (not (user == u) && mem u g.members)
  mem_left u = rw (← left) (mem-erase_first user u g.members ok.distinct)

  left_outside : (u : Text) → mem u g.pending ≡ true → mem u (first ∷ others) ≡ false
  left_outside u = ground (arith, mem_left u, ok.outside u)

  pub stay-IsSound : (user == g.owner) ≡ false → IsSound (record g { members = first ∷ others })
  stay-IsSound other = record {
    owner_member = ground (arith, mem_left g.owner, ok.owner_member);
    distinct = left-Distinct;
    outside = left_outside;
  }

  pub hand_on-IsSound : IsSound (record g { members = first ∷ others; owner = first })
  hand_on-IsSound = record {
    owner_member = ground (arith, mem-cons first first others, ==_refl first);
    distinct = left-Distinct;
    outside = left_outside;
  }
