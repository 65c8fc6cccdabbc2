-- ===== src/Service/Impersonation.antt =====
-- The branch of `while_loop` for a sync line of a client.
use p2p_distributed_file_sha.Prelude.{◌≡◌, refl, ap, ◌∙◌, true, some, List, ◌∷◌, ◌++◌, arith}
use p2p_distributed_file_sha.Text.{Text, codes, ◌==◌}
use p2p_distributed_file_sha.Address.{Address}
use p2p_distributed_file_sha.Number.{is_space}
use p2p_distributed_file_sha.Number.RoundTrip.{IsInt}
use p2p_distributed_file_sha.Words.{trim_whitespace, tokenize}
use p2p_distributed_file_sha.Words.Tokens.{IsToken, tokenize-append, tokenize_token}
use p2p_distributed_file_sha.Verb.{verb_of}
use p2p_distributed_file_sha.Sync.{notify_text, carry_out, after_first}
use p2p_distributed_file_sha.Sync.Tokens.{sync_handler-notify_text}
use p2p_distributed_file_sha.Commands.{State}
use p2p_distributed_file_sha.Session.{Session, line, commanding, c_string}
use p2p_distributed_file_sha.Session.Commanding.{
  after_sync, run_sync, sync_behind, command, command_tokens, command_line,
}
use p2p_distributed_file_sha.Session.Step.{step}

space : is_space b' ' ≡ true
unfolding is_space
space = refl

sync_word-IsToken : IsToken (codes "sync")
unfolding is_space
sync_word-IsToken = (
  (λ e. cc),
  ((refl, omega arith), ((refl, omega arith), ((refl, omega arith), ((refl, omega arith), tt)))),
)

tokenize-sync_line :
    (cmd : Text) → tokenize (codes "sync" ++ b' ' ∷ cmd) ≡ codes "sync" ∷ tokenize cmd
tokenize-sync_line cmd =
    tokenize-append (codes "sync") b' ' cmd space
    ∙ rw (tokenize_token (codes "sync") sync_word-IsToken) refl

behind_sync : (rest : Text) → after_first (codes "sync") (codes "sync" ++ rest) ≡ some rest
unfolding after_first
behind_sync rest = refl

-- A logged-in client that puts the word sync before a message of the kind trackers exchange has it
-- carried out just as if another tracker had sent it, in whatever user's name the message gives.
pub sync_line_in_any_name :
    (s : State) (c : Session) (raw : Text) (addr : Address) (message word first : Text)
    (rest : List Text)
    → IsToken addr.ip
    → IsInt addr.port
    → tokenize message ≡ word ∷ first ∷ rest
    → trim_whitespace (c_string raw) ≡ codes "sync" ++ b' ' ∷ notify_text addr message
    → trim_whitespace (b' ' ∷ notify_text addr message) ≡ notify_text addr message
    → step commanding c s (line raw)
      ≡ after_sync c (carry_out s (notify_text addr message) addr (verb_of word) first rest)
unfolding step command_line command_tokens command verb_of ◌==◌ sync_behind run_sync notify_text
sync_line_in_any_name s c raw addr message word first rest hi hp e m t =
    rw
      (
        m,
        tokenize-sync_line (notify_text addr message),
        behind_sync (b' ' ∷ notify_text addr message),
        t,
      )
      (ap (after_sync c) (sync_handler-notify_text s addr message word first rest hi hp e))
