-- ===== src/Client/Seeding.antt =====
-- `Client::handle_client` of client/headers/client_skelton.cpp: what a client sends to another one
-- that asks for a piece.
pub mod Honest
pub mod Partial
use p2p_distributed_file_sha.Prelude.{
  ℕ, zero, suc, ◌+◌, ◌-◌, ◌*◌, ◌/◌, ◌%◌, ◌^◌, ℤ, pos, negsuc, Bool, true, false, ◌||◌, Option, none,
  some, List, [], ◌∷◌, ◌++◌, length, take, drop, eqb, leb, ltb, if◌then◌else◌,
}
use p2p_distributed_file_sha.Text.{Text, codes, ◌==◌}
use p2p_distributed_file_sha.Number.{show_nat, stoi}
use p2p_distributed_file_sha.Words.{trim_whitespace, tokenize}
use p2p_distributed_file_sha.Map
use p2p_distributed_file_sha.Disk.{FileSystem}
use p2p_distributed_file_sha.Client.Pieces.{global_piece_size}
use p2p_distributed_file_sha.Client.ByteOrder.{ByteOrder, htonll}

-- What the one who asks gets: nothing, or a length in network order and bytes behind it. An
-- exception of `stoi` ends the handler with the socket left open.
pub data Answer : Type 0 where
  closes throws : Answer
  sends : (net_len : ℕ) (bytes : Text) → Answer

-- "get_piece <path> <index>\n"
unfoldable pub piece_request : Text → ℕ → Text
piece_request path index = codes "get_piece " ++ (path ++ b' ' ∷ (show_nat index ++ b'\n' ∷ []))

-- `min<uint64_t>(sizeof(buf), remaining)`
abbrev pub chunk_of : ℕ → ℕ
chunk_of remaining = if ltb remaining (1024 * 1024) then remaining else 1024 * 1024

-- `if (s <= 0) break;`, and the next round.
abbrev pub sent_then : Text → Text → Text
sent_then [] rest = []
sent_then (c ∷ sent) rest = (c ∷ sent) ++ rest

-- `while (remaining > 0)`: the results of `send` come from the list, where 0 stands for every result
-- that is not positive; when the list is at its end the connection is. What is returned is what the
-- other side is sent. The file moves on by the bytes that were read, sent or not.
send_rest : List ℕ → ℕ → Text → Text
send_rest results zero file = []
send_rest [] (suc n) file = []
send_rest (s ∷ results) (suc n) file =
    let r = take (chunk_of (suc n)) file in
    let sent = take s r in
    sent_then sent (send_rest results (suc n - length sent) (drop (length r) file))

-- The number of pieces of a file of this size, in 64 bits.
abbrev pub pieces_of : ℕ → ℕ
pieces_of size = ((size + global_piece_size - 1) % 2 ^ 64) / global_piece_size

-- `piece_index >= (int)total_pieces`, for an index that is not negative.
abbrev pub beyond : ℕ → ℕ → Bool
beyond index total = leb (2 ^ 31) (total % 2 ^ 32) || leb (total % 2 ^ 32) index

module _ (o : ByteOrder) (results : List ℕ) where
  send_piece : ℕ → Text → Answer
  unfolding send_rest
  send_piece index file =
      let size = length file in
      let total = pieces_of size in
      if beyond index total
      then closes
      else let piece_size =
          if eqb (index + 1) (total % 2 ^ 32)
          then (size + 2 ^ 64 - index * global_piece_size) % 2 ^ 64
          else global_piece_size in
        sends (htonll o piece_size)
          (send_rest results piece_size (drop (index * global_piece_size) file))

  -- A negative index gets through to `lseek64`, which refuses the negative offset.
  answer_index : Option ℤ → Text → Answer
  unfolding send_piece
  answer_index none file = throws
  answer_index (some (negsuc n)) file = closes
  answer_index (some (pos index)) file = send_piece index file

  -- `stat64`, `open`: a path that leads to no file that can be read.
  answer_path : Option ℤ → Option Text → Answer
  unfolding answer_index
  answer_path index none = elim index [ none ↦ throws | some i ↦ closes ]
  answer_path index (some file) = answer_index index file

  answer_tokens : FileSystem → List Text → Answer
  unfolding answer_path
  answer_tokens fs (word ∷ file_path ∷ index ∷ []) =
      if word == codes "get_piece" then answer_path (stoi index) (Map.get file_path fs) else closes
  answer_tokens fs tokens = closes

  -- The bytes of one `recv`; none is the end of the connection.
  unfoldable pub handle_client : FileSystem → Text → Answer
  unfolding answer_tokens
  handle_client fs client_info = answer_tokens fs (tokenize (trim_whitespace client_info))
