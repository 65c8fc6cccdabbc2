-- ===== src/Tests/Interleavings.antt =====
-- The theorems on handlers that run at the same time, at concrete inputs.
use p2p_distributed_file_sha.Prelude.{
  ◌≡◌, refl, true, false, some, List, [], ◌∷◌, not, if◌then◌else◌,
}
use p2p_distributed_file_sha.Text.{Text, codes, ◌==◌, mem}
use p2p_distributed_file_sha.Map
use p2p_distributed_file_sha.TextSet
use p2p_distributed_file_sha.Groups
use p2p_distributed_file_sha.Groups.Held as Held
use p2p_distributed_file_sha.Groups.Membership.{member_of}
use p2p_distributed_file_sha.Files
use p2p_distributed_file_sha.Replies.{left_and_removed, group_registered, join_placed, left_group}
use p2p_distributed_file_sha.Commands.{State, start}
use p2p_distributed_file_sha.Commands.Calls as C
use p2p_distributed_file_sha.Commands.Calls.{execute}
use p2p_distributed_file_sha.Interleaving.{
  perform, calls, returns, is_group_available, is_member_of_group, is_group_owner, create_group,
  leave_group, get_owner_name, add_file,
}
use p2p_distributed_file_sha.Interleaving.Handlers.{
  handler, create_group_handler, leave_group_handler, when_available, left_reply,
}
use p2p_distributed_file_sha.Interleaving.Schedule.{
  Thread, thread, Turn, here, Reached, boots, begins, turns,
}
use p2p_distributed_file_sha.Interleaving.Invariant.{Inv, Admitted, Reached-Inv}
use p2p_distributed_file_sha.Interleaving.Authority.{Gained, turn_admits, turn_removes}
use p2p_distributed_file_sha.Interleaving.Races.{Turns, replied, creators_race}
use p2p_distributed_file_sha.Interleaving.Races.Leaving.{leaver_uploads}
use p2p_distributed_file_sha.Interleaving.Races.Nobody.{nobody_race}
use p2p_distributed_file_sha.Tests.Data.{ann, bob, club, song}

-- `ann`'s creation of the group, behind its test.
abbrev creating : Thread
creating = record {
  call = C.create_group ann club;
  rest = calls (create_group ann club) (λ created. returns (group_registered club) true);
}

creating-Reached : Reached Admitted start (creating ∷ [])
unfolding handler create_group_handler perform Groups.is_group_available Map.get
creating-Reached =
    turns (begins (C.create_group ann club) tt boots)
      (here (C.create_group ann club) (is_group_available club))

abbrev made : State
made = (perform start (create_group ann club)).0

abbrev created : Thread
created = record { call = C.create_group ann club; rest = returns (group_registered club) true }

creates :
    Turn start (creating ∷ []) (C.create_group ann club) (create_group ann club) made (created ∷ [])
creates = here (C.create_group ann club) (create_group ann club)

turn_admits_example : Gained start (C.create_group ann club) ann club
unfolding mem Map.get perform Groups.create_group Map.put ◌==◌
turn_admits_example = turn_admits creating-Reached creates ann club refl refl

-- `ann`'s departure, behind its tests.
abbrev leaving : Thread
leaving = record {
  call = C.leave_group ann club;
  rest = calls (leave_group ann club) (λ left. calls (is_group_available club) (λ available.
      if not available
      then returns (left_and_removed club) true
      else calls (get_owner_name club) (λ new_owner. left_reply club true new_owner)));
}

leaving-Reached : Reached Admitted made (leaving ∷ created ∷ [])
unfolding handler leave_group_handler when_available perform Groups.is_group_available Map.get
    Groups.create_group Map.put ◌==◌ Groups.is_member_of_group Groups.touch_group mem
    Groups.is_group_owner Groups.index_add p2p_distributed_file_sha.TextSet.insert
leaving-Reached =
    turns
      (turns
        (turns (begins (C.leave_group ann club) tt (turns creating-Reached creates))
          (here (C.leave_group ann club) (is_group_available club)))
        (here (C.leave_group ann club) (is_member_of_group ann club)))
      (here (C.leave_group ann club) (is_group_owner ann club))

abbrev left_thread : Thread
left_thread = record {
  call = C.leave_group ann club;
  rest = calls (is_group_available club) (λ available.
      if not available
      then returns (left_and_removed club) true
      else calls (get_owner_name club) (λ new_owner. left_reply club true new_owner));
}

leaves :
    Turn made
      (leaving ∷ created ∷ [])
      (C.leave_group ann club)
      (leave_group ann club)
      (perform made (leave_group ann club)).0
      (left_thread ∷ created ∷ [])
leaves = here (C.leave_group ann club) (leave_group ann club)

Reached-Inv_example : Inv (perform made (leave_group ann club)).0
Reached-Inv_example = Reached-Inv (turns leaving-Reached leaves)

turn_removes_example : C.leave_group ann club ≡ C.leave_group ann club
unfolding mem Map.get perform Groups.create_group Map.put ◌==◌ Groups.leave_group Groups.index_add
    p2p_distributed_file_sha.Text.erase_first Map.remove
turn_removes_example = turn_removes leaving-Reached leaves ann club refl refl

absent : Groups.is_group_available start.gm club ≡ false
unfolding Groups.is_group_available Map.get
absent = refl

creators_race_example :
    (t : State) × Turns start
      (thread (C.create_group ann club) ∷ thread (C.create_group bob club) ∷ [])
      t
      (replied (C.create_group ann club) (group_registered club)
        ∷ replied (C.create_group bob club) (group_registered club)
        ∷ [])
    × (Groups.get_owner_name t.gm club ≡ ann)
    × (member_of t.gm bob club ≡ false)
unfolding ◌==◌
creators_race_example = creators_race start ann bob club absent refl

made-Inv : Held.Inv made.gm
unfolding perform
made-Inv = Held.create_group-Inv start.gm ann club Held.empty-Inv

leaver_uploads_example :
    (t : State) × (ts : List Thread) × Turns made
      (thread (C.upload_data ann club (codes "f") song) ∷ thread (C.leave_group ann club) ∷ [])
      t
      ts
    × (member_of t.gm ann club ≡ false)
    × (v : State) × (us : List Thread) × Turn t ts
        (C.upload_data ann club (codes "f") song)
        (add_file club (codes "f") song)
        v
        us
    × (Files.find_file v.fm club (codes "f") ≡ some song)
unfolding mem Map.get perform Groups.create_group Map.put ◌==◌ Groups.is_group_available
leaver_uploads_example = leaver_uploads made ann club (codes "f") song made-Inv refl refl refl

nobody_race_example :
    (t : State) × Turns made
      (thread (C.join_group bob club) ∷ thread (C.leave_group ann club) ∷ [])
      t
      (replied (C.join_group bob club) (join_placed club)
        ∷ replied (C.leave_group ann club) (left_group club)
        ∷ [])
    × (Groups.is_group_available t.gm club ≡ true)
    × ((w : Text) → member_of t.gm w club ≡ false)
    × ((w : Text) → (Groups.create_group t.gm w club).1 ≡ false)
unfolding mem Map.get perform Groups.create_group Map.put ◌==◌ Groups.is_group_owner
    Groups.index_add p2p_distributed_file_sha.TextSet.insert
nobody_race_example = nobody_race made ann bob club [] refl refl refl
