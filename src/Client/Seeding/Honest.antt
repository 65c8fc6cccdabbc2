-- ===== src/Client/Seeding/Honest.antt =====
-- `handle_client` on the request of `download_piece`, for a piece that the file has.
use p2p_distributed_file_sha.Prelude.{
  ℕ, zero, suc, ◌+◌, ◌-◌, ◌*◌, ◌%◌, ◌^◌, ◌≤◌, ◌<◌, pos, ◌≡◌, refl, ap, sym, ◌∙◌, true, false, some,
  List, [], ◌∷◌, ◌++◌, arith, append-nil, length, length-take-add, length-take-le, take, take_all,
  take-length-take, drop, eqb, ltb, if◌then◌else◌,
}
use p2p_distributed_file_sha.Text.{Text, codes, ◌==◌}
use p2p_distributed_file_sha.Number.{show_nat, show_int, is_space, stoi}
use p2p_distributed_file_sha.Number.RoundTrip.{stoi-show_int}
use p2p_distributed_file_sha.Words.{tokenize}
use p2p_distributed_file_sha.Words.Tokens.{IsToken, tokenize-append, tokenize_token}
use p2p_distributed_file_sha.Words.Trimmed.{tokenize-trim_whitespace}
use p2p_distributed_file_sha.Sync.Tokens.{show_nat-IsToken}
use p2p_distributed_file_sha.Map
use p2p_distributed_file_sha.Disk.{FileSystem}
use p2p_distributed_file_sha.Client.ByteOrder.{ByteOrder, htonll}
use p2p_distributed_file_sha.Client.Pieces.{global_piece_size, piece_at}
use p2p_distributed_file_sha.Client.Pieces.Cut.{length-piece_at}
use p2p_distributed_file_sha.Client.Seeding.{
  sends, chunk_of, sent_then, piece_request, pieces_of, beyond, send_rest, send_piece, answer_index,
  answer_path, answer_tokens, handle_client,
}

send_rest_zero : (results : List ℕ) (file : Text) → send_rest results 0 file ≡ []
unfolding send_rest
send_rest_zero [] file = refl
send_rest_zero (s ∷ results) file = refl

-- A round in which all `n` bytes that are left are sent.
last_round :
    (results : List ℕ) (n : ℕ) (file r sent : Text)
    → sent ≡ r
    → length r ≡ suc n
    → sent_then sent (send_rest results (suc n - length sent) (drop (length r) file)) ≡ r
last_round results n file r [] e h = absurd (omega (arith, ap length e))
last_round results n file r (c ∷ bytes) e h =
    let none_left : suc n - length (c ∷ bytes) ≡ 0 = omega (arith, ap length e) in
    rw none_left (rw (send_rest_zero results (drop (length r) file)) (append-nil (c ∷ bytes) ∙ e))

-- One `send` that takes all bytes ends the loop.
send_rest_once :
    (s : ℕ) (results : List ℕ) (n : ℕ) (file : Text)
    → n ≤ s
    → n < 1024 * 1024
    → n ≤ length file
    → send_rest (s ∷ results) n file ≡ take n file
unfolding send_rest
send_rest_once s results zero file hs hc hl = refl
send_rest_once s results (suc n) file hs hc hl =
    let whole : chunk_of (suc n) ≡ suc n = ground arith in
    let r = take (suc n) file in
    let all : take s r ≡ r = take_all s r (omega (arith, length-take-le (suc n) file)) in
    rw (whole, send_rest)
      (last_round results n file r (take s r) all (omega (arith, length-take-add (suc n) file)))

module _ (size index : ℕ) (small : size < 2 ^ 49) (inside : index * global_piece_size < size) where
  pub within : beyond index (pieces_of size) ≡ false
  within = ground arith

  -- The length that is announced.
  pub announced :
      (if eqb (index + 1) (pieces_of size % 2 ^ 32)
        then (size + 2 ^ 64 - index * global_piece_size) % 2 ^ 64
        else global_piece_size)
      ≡ (if ltb (index * global_piece_size + global_piece_size) size
          then global_piece_size
          else size - index * global_piece_size)
  announced = ground arith

newline : is_space b'\n' ≡ true
unfolding is_space
newline = refl

blank : is_space b' ' ≡ true
unfolding is_space
blank = refl

tokenize_nil : tokenize [] ≡ []
unfolding tokenize
tokenize_nil = refl

word-IsToken : IsToken (codes "get_piece")
unfolding is_space
word-IsToken = (
  (λ e. cc),
  (
    (refl, omega arith),
    (
      (refl, omega arith),
      (
        (refl, omega arith),
        (
          (refl, omega arith),
          (
            (refl, omega arith),
            (
              (refl, omega arith),
              ((refl, omega arith), ((refl, omega arith), ((refl, omega arith), tt))),
            ),
          ),
        ),
      ),
    ),
  ),
)

pub request_tokens :
    (path : Text) (index : ℕ)
    → IsToken path
    → tokenize (piece_request path index) ≡ codes "get_piece" ∷ path ∷ show_nat index ∷ []
unfolding piece_request
request_tokens path index h =
    let tail = show_nat index ++ b'\n' ∷ [] in
    let last : tokenize tail ≡ show_nat index ∷ [] =
      tokenize-append (show_nat index) b'\n' [] newline
      ∙ rw (tokenize_token _ (show_nat-IsToken index))
          (ap (λ l. show_nat index ∷ l) tokenize_nil) in
    tokenize-append (codes "get_piece") b' ' (path ++ b' ' ∷ tail) blank
    ∙ rw (tokenize_token (codes "get_piece") word-IsToken) (
        ap (λ l. codes "get_piece" ∷ l)
          (tokenize-append path b' ' tail blank ∙ rw (tokenize_token path h, last) refl))

pub index_read :
    (w : Text) (index : ℕ)
    → length w < 2 ^ 49
    → index * global_piece_size < length w
    → stoi (show_nat index) ≡ some (pos index)
unfolding show_int
index_read w index small inside = stoi-show_int (pos index) (omega arith)

module _ (o : ByteOrder) (s : ℕ) (results : List ℕ) (fs : FileSystem) (path w : Text) (index : ℕ)
    (present : Map.get path fs ≡ some w) (readable : IsToken path) (small : length w < 2 ^ 49)
    (inside : index * global_piece_size < length w) (complete : global_piece_size ≤ s) where
  sent_piece :
      send_piece o (s ∷ results) index w
      ≡ sends
          (htonll o (length (piece_at global_piece_size index w)))
          (piece_at global_piece_size index w)
  unfolding send_piece
  sent_piece =
      let p = piece_at global_piece_size index w in
      let rest = drop (index * global_piece_size) w in
      let long = length-piece_at global_piece_size index w inside in
      let size = announced (length w) index small inside ∙ sym long in
      let all =
        send_rest_once s results (length p) rest
          (omega (arith, length-take-le global_piece_size rest))
          (omega (arith, length-take-le global_piece_size rest))
          (omega (arith, length-take-add global_piece_size rest))
        ∙ take-length-take global_piece_size rest in
      rw (within (length w) index small inside, size, all) refl

  -- A client that is asked for a piece of a file that it has, at a path without white space, and
  -- whose first `send` takes all bytes, sends the length of the piece and the piece.
  pub handle_client_honest :
      handle_client o (s ∷ results) fs (piece_request path index)
      ≡ sends
          (htonll o (length (piece_at global_piece_size index w)))
          (piece_at global_piece_size index w)
  unfolding handle_client answer_tokens answer_path answer_index ◌==◌
  handle_client_honest =
      rw
        (
          tokenize-trim_whitespace (piece_request path index),
          request_tokens path index readable,
          index_read w index small inside,
          present,
        )
        sent_piece
