-- ===== src/Service/Authority.antt =====
-- The rounds of `while_loop` and the members of groups.
use p2p_distributed_file_sha.Prelude.{
  ◌≡◌, ◌≢◌, refl, sym, subst, ◌⊎◌, inl, inr, true, false, some, List, ◌∷◌,
}
use p2p_distributed_file_sha.Text.{Text}
use p2p_distributed_file_sha.Words.{trim_whitespace, tokenize}
use p2p_distributed_file_sha.Result.{ok}
use p2p_distributed_file_sha.Verb.{Verb, verb_of}
use p2p_distributed_file_sha.Groups
use p2p_distributed_file_sha.Groups.Invariant as GroupInv
use p2p_distributed_file_sha.Groups.Membership.{member_of}
use p2p_distributed_file_sha.Commands.{State}
use p2p_distributed_file_sha.Commands.Calls.{Call, create_group, accept_request, leave_group}
use p2p_distributed_file_sha.Commands.Authority.{membership_gained, membership_lost}
use p2p_distributed_file_sha.Session.{Session, line, commanding, c_string, Round}
use p2p_distributed_file_sha.Session.Calls.{After, ByUser, user_of, command-ByUser}
use p2p_distributed_file_sha.Session.Commanding.{command, command_tokens, command_line}
use p2p_distributed_file_sha.Session.Step.{step}
use p2p_distributed_file_sha.Service.{Served}
use p2p_distributed_file_sha.Service.Soundness.{Served-IsSound}

module _ (s : State) (c : Session) (raw word : Text) (args : List Text) (r : Round)
    (reached : Served s) (e : tokenize (trim_whitespace (c_string raw)) ≡ word ∷ args)
    (v : verb_of word ≢ Verb.sync) (done : step commanding c s (line raw) ≡ ok r) where
  inv : GroupInv.Inv s.gm
  inv = (Served-IsSound s reached).groups

  commanded : command s c (trim_whitespace (c_string raw)) (verb_of word) args ≡ ok r
  unfolding step command_line command_tokens
  commanded = rw (sym done, e) refl

  by_user : ByUser s c.username r.state
  by_user =
      subst (After (ByUser s c.username)) commanded
        (command-ByUser s c (trim_whitespace (c_string raw)) (verb_of word) args v)

  -- A command in the session's name is in no other name.
  issued :
      (u : Text) (k k' : Call)
      → user_of k ≡ some c.username
      → k ≡ k'
      → user_of k' ≡ some u
      → u ≡ c.username
  issued u k k' own same named = cc

  -- In a state that the tracker comes to, whoever comes into a group by a client's command, other
  -- than sync, is that client and the
  -- creator of the group, which did not exist, or had asked and was let in by that client as the
  -- owner of the group.
  pub session_admits :
      (user name : Text)
      → member_of s.gm user name ≡ false
      → member_of r.state.gm user name ≡ true
      → ((user ≡ c.username) × (Groups.is_group_available s.gm name ≡ false))
        ⊎ ((Groups.is_group_owner s.gm c.username name ≡ true)
            × (Groups.is_pending_request s.gm user name ≡ true))
  session_admits user name before after = elim by_user [
    | inl same ↦ cc
    | inr (k, own, t) ↦ elim (membership_gained s k user name inv before (rw (sym t) after)) [
      | inl (created, free) ↦ inl (issued user k (create_group user name) own created refl, free)
      | inr (owner, accepted, owns, asked) ↦
          inr (
            rw (sym (issued owner k (accept_request owner user name) own accepted refl)) owns,
            asked,
          )
    ]
  ]

  -- In a state that the tracker comes to, whoever goes out of a group by a client's command, other
  -- than sync, is that client.
  pub session_removes :
      (user name : Text)
      → member_of s.gm user name ≡ true
      → member_of r.state.gm user name ≡ false
      → user ≡ c.username
  session_removes user name before after = elim by_user [
    | inl same ↦ cc
    | inr (k, own, t) ↦
        issued user k (leave_group user name) own
          (membership_lost s k user name inv before (rw (sym t) after)) refl
  ]
