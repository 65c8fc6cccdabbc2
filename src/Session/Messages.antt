-- ===== src/Session/Messages.antt =====
-- What another tracker makes of a session's messages, and of its logout line.
use p2p_distributed_file_sha.Prelude.{
  ◌≡◌, refl, ◌⊎◌, ◌∙◌, Bool-cases, Bool, true, false, List, [], ◌∷◌, ◌++◌, All, arith, inl, inr,
}
use p2p_distributed_file_sha.Text.{Text, codes, ◌==◌}
use p2p_distributed_file_sha.Users
use p2p_distributed_file_sha.Address.{Address}
use p2p_distributed_file_sha.Number.{is_space}
use p2p_distributed_file_sha.Number.RoundTrip.{IsInt}
use p2p_distributed_file_sha.Words.{tokenize}
use p2p_distributed_file_sha.Words.Tokens.{IsToken, tokenize-append, tokenize_token}
use p2p_distributed_file_sha.Result.{Result, ok, fault}
use p2p_distributed_file_sha.Verb.{Verb, verb_of}
use p2p_distributed_file_sha.Sync.{notify_text, carry_out, sync_tokens, sync_handler}
use p2p_distributed_file_sha.Sync.Tokens.{tokenize-notify_text, sync_handler-notify_text}
use p2p_distributed_file_sha.Commands.{State}
use p2p_distributed_file_sha.Commands.Accounts.{logout_command}
use p2p_distributed_file_sha.Session.{
  Phase, commanding, Session, Action, notifies, Input, counted, Round, logout_line,
}
use p2p_distributed_file_sha.Session.Authenticating.{leave}

-- A tracker in state `s` that gets this message of the client at `addr` comes to state `t`.
abbrev pub Carried : State → Address → State → Action → Type 0
Carried s addr t (notifies m) = (done : Bool) × (sync_handler s (notify_text addr m) ≡ ok (t, done))
Carried s addr t action = Unit

-- Every message to the trackers in this round makes of the state before the round the one after it.
abbrev pub Replicated : State → Address → Result Round → Type 0
Replicated s addr (ok r) = All (Carried s addr r.state) r.actions
Replicated s addr (fault f) = Unit

-- What the trackers can read back.
abbrev pub IsReadable : Session → Type 0
IsReadable c = IsToken c.client_address.ip × IsInt c.client_address.port

-- The session's user has a name, or the session has none yet and nobody without one is logged in.
abbrev pub IsNamed : State → Session → Type 0
IsNamed s c = IsToken c.username ⊎ ((c.username ≡ []) × (Users.is_logged_in s.um [] ≡ false))

-- What a round needs to know of the session's user.
abbrev pub IsKnown : Phase → State → Session → Type 0
IsKnown commanding s c = IsToken c.username
IsKnown phase s c = IsNamed s c

-- The input is no record of a file.
abbrev pub IsLine : Input → Type 0
IsLine (counted payload) = ⊥
IsLine input = Unit

space : is_space b' ' ≡ true
unfolding is_space
space = refl

-- A message with the user's name behind it has this name as its last token.
pub tokenize_signed :
    (m user : Text) (tokens : List Text)
    → IsToken user
    → tokenize m ≡ tokens
    → tokenize (m ++ b' ' ∷ user) ≡ tokens ++ user ∷ []
tokenize_signed m user tokens h e =
    tokenize-append m b' ' user space ∙ rw (e, tokenize_token user h) refl

-- A tracker that gets a message of at least two tokens.
pub received :
    (s : State) (c : Session) (m word first : Text) (rest : List Text) (verb : Verb)
    → IsReadable c
    → tokenize m ≡ word ∷ first ∷ rest
    → verb_of word ≡ verb
    → sync_handler s (notify_text c.client_address m)
      ≡ carry_out s (notify_text c.client_address m) c.client_address verb first rest
received s c m word first rest verb (hi, hp) e v =
    sync_handler-notify_text s c.client_address m word first rest hi hp e ∙ rw v refl

logout_word : verb_of (codes "logout") ≡ Verb.logout
unfolding verb_of ◌==◌
logout_word = refl

logout_word-IsToken : IsToken (codes "logout")
unfolding is_space
logout_word-IsToken = (
  (λ e. cc),
  (
    (refl, omega arith),
    (
      (refl, omega arith),
      (
        (refl, omega arith),
        ((refl, omega arith), ((refl, omega arith), ((refl, omega arith), tt))),
      ),
    ),
  ),
)

pub logout_line-Carried :
    (s : State) (c : Session) (user : Text)
    → IsReadable c
    → IsToken user
    → Carried s c.client_address (logout_command s user).state (notifies (logout_line user))
unfolding carry_out
logout_line-Carried s c user h u = (
  (logout_command s user).success,
  received s c (logout_line user) (codes "logout") user [] Verb.logout h
      (tokenize_signed (codes "logout") user _ u (tokenize_token _ logout_word-IsToken))
      logout_word,
)

tokenize_nil : tokenize [] ≡ []
unfolding tokenize
tokenize_nil = refl

logout_alone : tokenize (logout_line []) ≡ codes "logout" ∷ []
logout_alone =
    tokenize-append (codes "logout") b' ' [] space
    ∙ rw (tokenize_token _ logout_word-IsToken, tokenize_nil) refl

-- The message of a client that has given no name has too few tokens.
nameless-Carried :
    (s : State) (c : Session)
    → IsReadable c
    → Users.is_logged_in s.um [] ≡ false
    → Carried s c.client_address (logout_command s []).state (notifies (logout_line []))
unfolding sync_handler sync_tokens logout_command
nameless-Carried s c (hi, hp) off =
    (false, rw (tokenize-notify_text c.client_address (logout_line []) hi, logout_alone, off) refl)

leave-Carried :
    (s : State) (c : Session)
    → IsReadable c
    → IsNamed s c
    → Carried s c.client_address
        (logout_command s c.username).state
        (notifies (logout_line c.username))
leave-Carried s c h (inl u) = logout_line-Carried s c c.username h u
leave-Carried s c h (inr (e, off)) = rw e (nameless-Carried s c h off)

pub leave-Replicated :
    (s : State) (c : Session)
    → IsReadable c
    → IsNamed s c
    → Replicated s c.client_address (ok (leave s c))
unfolding leave
leave-Replicated s c h u = elim (Bool-cases c.socket_closed) [
  | inl closed ↦ rw closed (leave-Carried s c h u, tt)
  | inr still ↦ rw still (leave-Carried s c h u, (tt, tt))
]
