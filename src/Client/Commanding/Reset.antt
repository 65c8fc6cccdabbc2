-- ===== src/Client/Commanding/Reset.antt =====
-- The login of a client again, after its tracker is lost: `reset_tracker`, with the answer of the
-- new tracker.
use p2p_distributed_file_sha.Prelude.{
  ◌<◌, ◌≡◌, refl, sym, ap, ◌∙◌, inl, inr, Bool-cases, Bool, true, false, not, ◌&&◌, List, [], ◌∷◌,
  ◌++◌, All, eqb, arith,
}
use p2p_distributed_file_sha.Text.{Text, codes}
use p2p_distributed_file_sha.Address.{Address}
use p2p_distributed_file_sha.Users
use p2p_distributed_file_sha.Sync.{after_first}
use p2p_distributed_file_sha.Commands.{State}
use p2p_distributed_file_sha.Commands.Accounts.{login_command}
use p2p_distributed_file_sha.Replies.{
  login_successful, already_logged_in, wrong_password, not_a_user,
}
use p2p_distributed_file_sha.Client.Fetching.Receiving.{together, HasBytes}
use p2p_distributed_file_sha.Client.Responses.{
  has_line, IsLine, receive_full_message, receive_full_message_line,
}
use p2p_distributed_file_sha.Client.Commanding.{
  ClientState, contains, yes_answer, is_empty, reset_tracker,
}

no_nul : Text → Bool
no_nul [] = true
no_nul (c ∷ s) = not (eqb c 0) && no_nul s

no_nul-positive : (s : Text) → no_nul s ≡ true → All (λ c. 0 < c) s
unfolding no_nul
no_nul-positive [] h = tt
no_nul-positive (c ∷ s) h = (ground arith, no_nul-positive s (ground arith))

-- A reply of one line, that says so or not.
abbrev Says : Text → Bool → Type 0
Says reply success =
    ((line : Text) × (reply ≡ line ++ b'\n' ∷ []) × IsLine line)
    × (contains (codes "successful") reply ≡ success)

line-Says :
    (line : Text) (success : Bool)
    → has_line line ≡ false
    → no_nul line ≡ true
    → contains (codes "successful") (line ++ b'\n' ∷ []) ≡ success
    → Says (line ++ b'\n' ∷ []) success
line-Says line success one positive says =
    ((line, refl, (one, no_nul-positive line positive)), says)

success-Says : Says login_successful true
unfolding has_line no_nul after_first
success-Says = line-Says (codes "Login successful.") true refl refl refl

already-Says : Says already_logged_in false
unfolding has_line no_nul after_first
already-Says = line-Says (codes "You are already logged in.") false refl refl refl

wrong-Says : Says wrong_password false
unfolding has_line no_nul after_first
wrong-Says = line-Says (codes "Your password is wrong.") false refl refl refl

stranger-Says : Says not_a_user false
unfolding has_line no_nul after_first
stranger-Says =
    line-Says (codes "You are not a user. First call create_user command.") false refl refl refl

login_command-Says :
    (s : State) (username password : Text) (addr : Address)
    → Says
        (login_command s username password addr).reply
        (login_command s username password addr).success
unfolding login_command
login_command-Says s username password addr =
    let tried = Users.login s.um username password addr in
    elim (Bool-cases (Users.is_logged_in s.um username)) [
      | inl before ↦ rw before already-Says
      | inr not_before ↦ elim (Bool-cases tried.1) [
        | inl admitted ↦ rw (not_before, admitted) success-Says
        | inr refused ↦ elim (Bool-cases (Users.is_user tried.0 username)) [
          | inl known ↦ rw (not_before, refused, known) wrong-Says
          | inr stranger ↦ rw (not_before, refused, stranger) stranger-Says
        ]
      ]
    ]

-- A client that was logged in, and whose user says yes after it has been connected to another
-- tracker, sends this the logout and the login of its user, and then holds itself logged in exactly
-- if that login succeeds at the tracker, in whatever segments that are not empty the reply to it
-- arrives, and whatever arrives behind it.
pub reset_agrees :
    (k : ClientState) (answer : Text) (s : State) (addr : Address) (segments later : List Text)
    → is_empty k.username ≡ false
    → is_empty k.password ≡ false
    → k.logged_in ≡ true
    → yes_answer answer ≡ true
    → All HasBytes segments
    → together segments ≡ (login_command s k.username k.password addr).reply
    → ((reset_tracker k true answer (receive_full_message (segments ++ later))).0.logged_in
        ≡ (login_command s k.username k.password addr).success)
      × ((reset_tracker k true answer (receive_full_message (segments ++ later))).1
          ≡ (codes "logout " ++ (k.username ++ codes "\n"))
            ∷ (codes "login " ++ (k.username ++ codes " " ++ (k.password ++ codes "\n")))
            ∷ [])
unfolding reset_tracker
reset_agrees k answer s addr segments later named with_password inside agreed nonempty arrives =
    let ((line, one_line, is_line), says) = login_command-Says s k.username k.password addr in
    let received =
      receive_full_message_line line segments later is_line nonempty (arrives ∙ one_line) in
    rw (named, with_password, inside, agreed, received)
      (ap (contains (codes "successful")) (sym one_line) ∙ says, refl)
