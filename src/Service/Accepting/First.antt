-- ===== src/Service/Accepting/First.antt =====
-- The first lines of a connection: those that the clients and the other trackers write.
use p2p_distributed_file_sha.Prelude.{
  arith, ℕ, ◌≤◌, ◌<◌, ◌-◌, ◌*◌, zero, suc, take, drop, length-drop, ◌≡◌, refl, ap, sym, ◌∙◌, true,
  false, some, List, [], ◌∷◌, ◌++◌, All, length,
}
use p2p_distributed_file_sha.Text.{Text, codes, ◌==◌, ==_refl}
use p2p_distributed_file_sha.Number.{u64_max, show_nat, show_int, is_space}
use p2p_distributed_file_sha.Number.RoundTrip.{IsInt, stoull-show_nat, stoi-show_int}
use p2p_distributed_file_sha.Words.{tokenize}
use p2p_distributed_file_sha.Words.Tokens.{IsToken, tokenize-append, tokenize_token}
use p2p_distributed_file_sha.Words.Trimmed.{tokenize_space, tokenize_nil}
use p2p_distributed_file_sha.Address.{Address}
use p2p_distributed_file_sha.Result.{ok}
use p2p_distributed_file_sha.Sync.{sync_handler}
use p2p_distributed_file_sha.Sync.Tokens.{show_nat-IsToken, show_int-IsToken}
use p2p_distributed_file_sha.Commands.{State}
use p2p_distributed_file_sha.Client.Seeding.{sent_then}
use p2p_distributed_file_sha.Client.Fetching.{receive_bytes}
use p2p_distributed_file_sha.Client.Fetching.Receiving.{together, HasBytes, received_all}
use p2p_distributed_file_sha.Service.Accepting.{
  opens, synced, sync_reply, greeting, size_command, send_message, send_sync_message, greet,
  greet_tokens, carry, receive_message, size_tokens, first_tokens, accept_client,
}

newline : is_space b'\n' ≡ true
unfolding is_space
newline = refl

blank : is_space b' ' ≡ true
unfolding is_space
blank = refl

-- A token with a newline behind it.
tokenize-last : (t : Text) → IsToken t → tokenize (t ++ b'\n' ∷ []) ≡ t ∷ []
tokenize-last t h = tokenize-append t b'\n' [] newline ∙ rw (tokenize_token t h, tokenize_nil) refl

greeting_tokens :
    (own : Address) → IsToken own.ip → tokenize (greeting own) ≡ own.ip ∷ show_int own.port ∷ []
greeting_tokens own h =
    let tail = show_int own.port ++ b'\n' ∷ [] in
    tokenize-append own.ip b' ' (b' ' ∷ tail) blank
    ∙ rw
        (
          tokenize_token own.ip h,
          tokenize_space b' ' tail blank,
          tokenize-last (show_int own.port) (show_int-IsToken own.port),
        )
        refl

size_word : tokenize (codes "SYNC_SIZE") ≡ codes "SYNC_SIZE" ∷ []
unfolding tokenize is_space
size_word = refl

size_command_tokens :
    (message : Text)
    → tokenize (size_command message) ≡ codes "SYNC_SIZE" ∷ show_nat (length message) ∷ []
size_command_tokens message =
    tokenize-append (codes "SYNC_SIZE") b' ' (show_nat (length message) ++ b'\n' ∷ []) blank
    ∙ rw (size_word, tokenize-last (show_nat (length message)) (show_nat-IsToken (length message)))
        refl

take-take-append_drop {ℓ} :
    {A : Type ℓ} (n k : ℕ) (xs : List A)
    → take n (take k xs) ++ drop (length (take n (take k xs))) xs ≡ xs
take-take-append_drop zero k xs = refl
take-take-append_drop (suc n) zero xs = refl
take-take-append_drop (suc n) (suc k) [] = refl
take-take-append_drop (suc n) (suc k) (x ∷ xs) = ap (◌∷◌ x) (take-take-append_drop n k xs)

-- A `send` that takes a byte and those that follow it.
sent_then_rest :
    (n : ℕ) (c : ℕ) (message rest : Text)
    → 0 < n
    → rest ≡ drop (length (take n (take (64 * 1024) (c ∷ message)))) (c ∷ message)
    → sent_then (take n (take (64 * 1024) (c ∷ message))) rest ≡ c ∷ message
sent_then_rest zero c message rest h e = absurd (omega arith)
sent_then_rest (suc n) c message rest h e =
    ap (λ r. take (suc n) (take (64 * 1024) (c ∷ message)) ++ r) e
    ∙ take-take-append_drop (suc n) (64 * 1024) (c ∷ message)

less_left :
    (n : ℕ) (c : ℕ) (message : Text)
    → 0 < n
    → length (drop (length (take n (take (64 * 1024) (c ∷ message)))) (c ∷ message))
      ≤ length message
less_left zero c message h = absurd (omega arith)
less_left (suc n) c message h =
    omega (arith, length-drop (length (take n (take (64 * 1024 - 1) message))) message)

send_message-whole :
    (results : List ℕ) (message : Text)
    → length message ≤ length results
    → All (λ n. 0 < n) results
    → send_message results message ≡ message
unfolding send_message
send_message-whole [] [] h p = refl
send_message-whole (n ∷ results) [] h p = refl
send_message-whole [] (c ∷ message) h p = absurd (omega arith)
send_message-whole (n ∷ results) (c ∷ message) h p =
    let rest = drop (length (take n (take (64 * 1024) (c ∷ message)))) (c ∷ message) in
    sent_then_rest n c message (send_message results rest) p.0
      (send_message-whole results rest (omega (arith, less_left n c message p.0)) p.1)

-- If the connection is accepted and the line with the length answered, and every send takes a byte,
-- the loop ends, after as many calls as there are bytes at most, and the other tracker is sent that
-- line and the whole message.
pub send_sync_message-whole :
    (results : List ℕ) (message : Text)
    → length message ≤ length results
    → All (λ n. 0 < n) results
    → send_sync_message true true results message ≡ (size_command message, message)
unfolding send_sync_message
send_sync_message-whole results message enough takes =
    ap (λ sent. (size_command message, sent)) (send_message-whole results message enough takes)

module _ (s : State) (segments : List Text) where
  greeting_opens :
      (own : Address)
      → IsToken own.ip
      → (own.ip == codes "SYNC_SIZE") ≡ false
      → IsInt own.port
      → accept_client s (greeting own) segments ≡ ok (opens own)
  unfolding accept_client first_tokens greet_tokens greet
  greeting_opens own h other fits =
      ap (first_tokens s segments) (greeting_tokens own h)
      ∙ rw (other, stoi-show_int own.port fits) refl

  message_carried :
      (message : Text)
      → All HasBytes segments
      → together segments ≡ message
      → length message ≤ u64_max
      → accept_client s (size_command message) segments
        ≡ ok (synced sync_reply (sync_handler s message))
  unfolding accept_client first_tokens size_tokens receive_message carry
  message_carried message h whole fits =
      ap (first_tokens s segments) (size_command_tokens message)
      ∙ rw (==_refl (codes "SYNC_SIZE"), stoull-show_nat (length message) fits)
          (ap (λ m. ok (carry s m))
            (ap (λ n. receive_bytes n segments) (sym (ap length whole))
              ∙ received_all segments h
              ∙ ap some whole))

  -- A tracker starts a session, at the address of the greeting, for a client that sends its
  -- greeting, and carries out the message that another tracker announces with its length and
  -- sends in its loop, whatever part of the bytes each call of send takes, if it takes some, and
  -- in whatever segments that are not empty they arrive. The IP is a token other than SYNC_SIZE,
  -- the port an int, and the length fits 64 bits.
  pub accepts :
      (own : Address) (message : Text) (results : List ℕ)
      → IsToken own.ip
      → (own.ip == codes "SYNC_SIZE") ≡ false
      → IsInt own.port
      → length message ≤ length results
      → All (λ n. 0 < n) results
      → All HasBytes segments
      → together segments ≡ send_message results message
      → length message ≤ u64_max
      → (accept_client s (greeting own) segments ≡ ok (opens own))
        × (accept_client s (size_command message) segments
            ≡ ok (synced sync_reply (sync_handler s message)))
  accepts own message results h other port_fits enough takes nonempty arrives fits = (
    greeting_opens own h other port_fits,
    message_carried message nonempty (arrives ∙ send_message-whole results message enough takes)
        fits,
  )
