-- ===== src/Interleaving/Races.antt =====
-- What two handlers that run at the same time can come to, where neither alone can.
pub mod Leaving
pub mod Nobody
use p2p_distributed_file_sha.Prelude.{
  ◌≡◌, ◌≢◌, refl, sym, ap, subst, ◌∙◌, Bool, true, false, not, ◌&&◌, Option, none, some, List, [],
  ◌∷◌, arith,
}
use p2p_distributed_file_sha.Text.{Text, ◌==◌, ==_refl, ==_iff, mem, mem-nil, mem-cons}
use p2p_distributed_file_sha.Map
use p2p_distributed_file_sha.Map.{get-put}
use p2p_distributed_file_sha.FileInfo.{FileInfo}
use p2p_distributed_file_sha.Groups
use p2p_distributed_file_sha.Groups.{GroupInfo}
use p2p_distributed_file_sha.Groups.Membership.{member_of, member_of-create_group}
use p2p_distributed_file_sha.Files
use p2p_distributed_file_sha.Files.Lookup.{find_file-put}
use p2p_distributed_file_sha.Replies.{group_registered}
use p2p_distributed_file_sha.Commands.{State}
use p2p_distributed_file_sha.Commands.Calls as C
use p2p_distributed_file_sha.Commands.Calls.{Call}
use p2p_distributed_file_sha.Interleaving.{
  Method, Returned, Handler, returns, calls, create_group, is_group_available, perform,
}
use p2p_distributed_file_sha.Interleaving.Handlers.{handler, create_group_handler}
use p2p_distributed_file_sha.Interleaving.Schedule.{Thread, thread, Turn, here, there}

-- Some turns of the threads, one after the other.
pub data Turns : State → List Thread → State → List Thread → Type 0 where
  stays : {s : State} {ts : List Thread} → Turns s ts s ts
  moves :
      {s t v : State} {ts us ws : List Thread} {c : Call} {m : Method}
      → Turn s ts c m t us
      → Turns t us v ws
      → Turns s ts v ws

module _ {s t v : State} {c : Call} {ws : List Thread} (m : Method) {next : Returned m → Handler}
    {value : Returned m} (does : perform s m ≡ (t, value)) where
  first_calls :
      {ts : List Thread}
      → Turns t (record { call = c; rest = next value } ∷ ts) v ws
      → Turns s (record { call = c; rest = calls m next } ∷ ts) v ws
  first_calls {ts} after =
      moves (here c m)
        (subst (λ p. Turns p.0 (record { call = c; rest = next p.1 } ∷ ts) v ws) (sym does) after)

  second_calls :
      {one : Thread} {ts : List Thread}
      → Turns t (one ∷ record { call = c; rest = next value } ∷ ts) v ws
      → Turns s (one ∷ record { call = c; rest = calls m next } ∷ ts) v ws
  second_calls {one} {ts} after = moves (there one (here c m)) (
      subst (λ p. Turns p.0 (one ∷ record { call = c; rest = next p.1 } ∷ ts) v ws) (sym does)
        after)

-- The thread has ended, and its command has succeeded.
abbrev pub replied : Call → Text → Thread
replied c reply = record { call = c; rest = returns reply true }

available_none :
    (s : State) (n : Text)
    → Groups.is_group_available s.gm n ≡ false
    → perform s (is_group_available n) ≡ (s, false)
unfolding perform
available_none s n h = ap (λ b. (s, b)) h

module _ (s : State) (u v n : Text) (absent : Groups.is_group_available s.gm n ≡ false) where
  abbrev created : State
  created = (perform s (create_group u n)).0

  first_creates : perform s (create_group u n) ≡ (created, true)
  unfolding perform Groups.create_group Groups.is_group_available
  first_creates = ground arith

  second_fails : perform created (create_group v n) ≡ (created, false)
  unfolding perform Groups.create_group Groups.is_group_available
  second_fails = ground (
    arith,
    get-put n n (record { owner = u; members = u ∷ []; pending = [] }) s.gm.groups,
    ==_refl n,
  )

  first_owns : Groups.get_owner_name created.gm n ≡ u
  unfolding perform Groups.create_group Groups.is_group_available Groups.get_owner_name
  first_owns = ground (
    arith,
    get-put n n (record { owner = u; members = u ∷ []; pending = [] }) s.gm.groups,
    ==_refl n,
  )

  -- If two users create a group of the same name at the same time, both can be told that the group
  -- is registered; the group is the first one's, and the second one is no member of it.
  pub creators_race :
      (u == v) ≡ false
      → (t : State) × Turns s (thread (C.create_group u n) ∷ thread (C.create_group v n) ∷ []) t (
          replied (C.create_group u n) (group_registered n)
          ∷ replied (C.create_group v n) (group_registered n)
          ∷ [])
        × (Groups.get_owner_name t.gm n ≡ u)
        × (member_of t.gm v n ≡ false)
  unfolding handler create_group_handler perform
  creators_race other = (
    created,
    first_calls (is_group_available n) (available_none s n absent) (
        second_calls (is_group_available n) (available_none s n absent) (
          first_calls (create_group u n) first_creates
            (second_calls (create_group v n) second_fails stays))),
    first_owns,
    ground (arith, member_of-create_group s.gm u n v n absent, ==_refl n),
  )
