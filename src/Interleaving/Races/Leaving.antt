-- ===== src/Interleaving/Races/Leaving.antt =====
-- A command on a group's files and one that leaves the group, at the same time.
use p2p_distributed_file_sha.Prelude.{
  ◌≡◌, refl, ap, true, false, not, none, some, List, [], ◌∷◌, arith, if◌then◌else◌,
}
use p2p_distributed_file_sha.Text.{Text, ==_refl}
use p2p_distributed_file_sha.FileInfo.{FileInfo}
use p2p_distributed_file_sha.Groups
use p2p_distributed_file_sha.Groups.Held as Held
use p2p_distributed_file_sha.Groups.Invariant.{is_member_of_group_present}
use p2p_distributed_file_sha.Groups.Membership.{member_of, member_of-leave_group-Distinct}
use p2p_distributed_file_sha.Files
use p2p_distributed_file_sha.Files.Lookup.{find_file-put}
use p2p_distributed_file_sha.Replies.{file_added, file_not_added, left_and_removed}
use p2p_distributed_file_sha.Commands.{State}
use p2p_distributed_file_sha.Commands.Calls as C
use p2p_distributed_file_sha.Interleaving.{
  is_group_available, is_member_of_group, is_group_owner, is_file_exist, leave_group, add_file,
  calls, returns, get_owner_name, perform,
}
use p2p_distributed_file_sha.Interleaving.Handlers.{
  handler, when_available, when_access, upload_check, upload_data_handler, leave_group_handler,
  left_reply,
}
use p2p_distributed_file_sha.Interleaving.Schedule.{Thread, thread, Turn, here}
use p2p_distributed_file_sha.Interleaving.Authority.{held-Distinct}
use p2p_distributed_file_sha.Interleaving.Races.{Turns, stays, first_calls, second_calls}

module _ (s : State) (u n f : Text) (info : FileInfo) (inv : Held.Inv s.gm)
    (there : Groups.is_group_available s.gm n ≡ true) (member : member_of s.gm u n ≡ true)
    (new : Files.find_file s.fm n f ≡ none) where
  pub found_group : perform s (is_group_available n) ≡ (s, true)
  unfolding perform
  found_group = ap (λ b. (s, b)) there

  pub found_member : perform s (is_member_of_group u n) ≡ (s, true)
  unfolding perform Groups.is_member_of_group
  found_member = cc (is_member_of_group_present s.gm u n there, member)

  no_such_file : perform s (is_file_exist n f) ≡ (s, false)
  unfolding perform Files.is_file_exist
  no_such_file = ground (arith, new)

  abbrev left : State
  left = (perform s (leave_group u n)).0

  -- The thread of the upload, with its checks behind it.
  abbrev uploading : Thread
  uploading = record {
    call = C.upload_data u n f info;
    rest = calls (add_file n f info) (λ added.
        if added then returns (file_added f n) true else returns (file_not_added f n) false);
  }

  -- The other thread, when the user has left.
  abbrev leaving : Thread
  leaving = record {
    call = C.leave_group u n;
    rest = calls (is_group_available n) (λ available.
        if not available
        then returns (left_and_removed n) true
        else calls (get_owner_name n)
            (λ new_owner. left_reply n (Groups.is_group_owner s.gm u n) new_owner));
  }

  owner_or_not : perform s (is_group_owner u n) ≡ (s, Groups.is_group_owner s.gm u n)
  unfolding perform
  owner_or_not = refl

  left_member : member_of left.gm u n ≡ false
  unfolding perform
  left_member = ground (
    arith,
    member_of-leave_group-Distinct s.gm u n (λ g e. held-Distinct g (inv.held n g e)) u n,
    ==_refl n,
    ==_refl u,
  )

  file_there : Files.find_file (perform left (add_file n f info)).0.fm n f ≡ some info
  unfolding perform Files.add_file
  file_there = ground (arith, new, find_file-put s.fm n n f f info, ==_refl n, ==_refl f)

  -- In a group that a user is a member of, and in which there is no file of that name, the user's
  -- upload can add the file at a moment at which the user, who leaves the group at the same time,
  -- is no member of it.
  pub leaver_uploads :
      (t : State) × (ts : List Thread) × Turns s
        (thread (C.upload_data u n f info) ∷ thread (C.leave_group u n) ∷ [])
        t
        ts
      × (member_of t.gm u n ≡ false)
      × (v : State) × (us : List Thread) × Turn t ts
          (C.upload_data u n f info)
          (add_file n f info)
          v
          us
      × (Files.find_file v.fm n f ≡ some info)
  unfolding handler upload_data_handler upload_check when_available when_access leave_group_handler
  leaver_uploads = (
    left,
    uploading ∷ leaving ∷ [],
    first_calls (is_group_available n) found_group (
        first_calls (is_member_of_group u n) found_member (
          first_calls (is_file_exist n f) no_such_file (
            second_calls (is_group_available n) found_group (
              second_calls (is_member_of_group u n) found_member (
                second_calls (is_group_owner u n) owner_or_not
                  (second_calls (leave_group u n) refl stays)))))),
    left_member,
    _,
    _,
    here (C.upload_data u n f info) (add_file n f info),
    file_there,
  )
