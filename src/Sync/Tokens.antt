-- ===== src/Sync/Tokens.antt =====
-- `notify_sync` and `sync_handler` together.
use p2p_distributed_file_sha.Prelude.{
  ℕ, suc, pos, negsuc, true, ◌≡◌, refl, ap, ◌∙◌, List, ◌∷◌, arith, All-imp, ℤ,
}
use p2p_distributed_file_sha.Text.{Text, codes}
use p2p_distributed_file_sha.Address.{Address}
use p2p_distributed_file_sha.Number.{show_nat, show_int, is_space}
use p2p_distributed_file_sha.Number.RoundTrip.{
  IsInt, stoi-show_int, IsDigit, show_nat-IsDigit, show_nat-ne-nil,
}
use p2p_distributed_file_sha.Words.{tokenize}
use p2p_distributed_file_sha.Words.Tokens.{IsTokenByte, IsToken, tokenize-append, tokenize_token}
use p2p_distributed_file_sha.Verb.{verb_of}
use p2p_distributed_file_sha.Commands.{State}
use p2p_distributed_file_sha.Sync.{notify_text, carry_out, sync_tokens, sync_handler}

space : is_space b' ' ≡ true
unfolding is_space
space = refl

sync_word-IsToken : IsToken (codes "SYNC")
unfolding is_space
sync_word-IsToken = (
  (λ e. cc),
  ((refl, omega arith), ((refl, omega arith), ((refl, omega arith), ((refl, omega arith), tt)))),
)

digit-IsTokenByte : (c : ℕ) → IsDigit c → IsTokenByte c
unfolding is_space
digit-IsTokenByte c d = ground arith

pub show_nat-IsToken : (n : ℕ) → IsToken (show_nat n)
show_nat-IsToken n = (
  show_nat-ne-nil n,
  All-imp IsDigit IsTokenByte (show_nat n) digit-IsTokenByte (show_nat-IsDigit n),
)

pub show_int-IsToken : (z : ℤ) → IsToken (show_int z)
unfolding show_int is_space
show_int-IsToken (pos n) = show_nat-IsToken n
show_int-IsToken (negsuc n) = ((λ e. cc), ((refl, omega arith), (show_nat-IsToken (suc n)).1))

-- The tokens of a message to a peer: the word SYNC, the client's address, and the tokens of the
-- command.
pub tokenize-notify_text :
    (addr : Address) (message : Text)
    → IsToken addr.ip
    → tokenize (notify_text addr message)
      ≡ codes "SYNC" ∷ addr.ip ∷ show_int addr.port ∷ tokenize message
unfolding notify_text
tokenize-notify_text addr message h =
    tokenize-append (codes "SYNC") b' ' _ space
    ∙ rw (tokenize_token (codes "SYNC") sync_word-IsToken) (
        ap (λ l. codes "SYNC" ∷ l)
          (tokenize-append addr.ip b' ' _ space
            ∙ rw (tokenize_token addr.ip h) (
                ap (λ l. addr.ip ∷ l)
                  (tokenize-append (show_int addr.port) b' ' message space
                    ∙ rw (tokenize_token _ (show_int-IsToken addr.port))))))

-- A peer that gets a client's message of at least two tokens carries out the branch of its first
-- word on the other tokens, for the client's address, if the address has a readable IP and its port
-- is an int.
pub sync_handler-notify_text :
    (s : State) (addr : Address) (message word first : Text) (rest : List Text)
    → IsToken addr.ip
    → IsInt addr.port
    → tokenize message ≡ word ∷ first ∷ rest
    → sync_handler s (notify_text addr message)
      ≡ carry_out s (notify_text addr message) addr (verb_of word) first rest
unfolding sync_handler sync_tokens
sync_handler-notify_text s addr message word first rest hi hp e =
    rw (tokenize-notify_text addr message hi, e, stoi-show_int addr.port hp, sync_tokens) refl
