-- ===== src/Client/Pieces.antt =====
-- `calculate_SHA`, `calculate_full_file_SHA` and `calculate_piece_SHA` of
-- client/headers/client_utils.cpp. `sha` is SHA-256 of OpenSSL, printed in hexadecimal digits.
pub mod Cut
use p2p_distributed_file_sha.Prelude.{ℕ, zero, suc, ◌*◌, List, [], ◌∷◌, length, take, drop, map}
use p2p_distributed_file_sha.Text.{Text}

-- The size of all pieces but the last.
abbrev pub global_piece_size : ℕ
global_piece_size = 512 * 1024

-- The buffers that `read(fd, buffer, piece_size)` fills up to the end of the file. With a piece size
-- that is not 0 each round reads a byte, so as many rounds as bytes are enough.
read_pieces : ℕ → ℕ → Text → List Text
read_pieces zero piece_size s = []
read_pieces (suc fuel) piece_size [] = []
read_pieces (suc fuel) piece_size (c ∷ s) =
    take piece_size (c ∷ s) ∷ read_pieces fuel piece_size (drop piece_size (c ∷ s))

-- The piece of this index, counted from 0.
abbrev pub piece_at : ℕ → ℕ → Text → Text
piece_at piece_size index s = take piece_size (drop (index * piece_size) s)

module _ (sha : Text → Text) where
  unfoldable pub calculate_sha : Text → Text
  calculate_sha [] = []
  calculate_sha (c ∷ s) = sha (c ∷ s)

  -- The hash is updated buffer by buffer: it is that of all bytes.
  abbrev pub calculate_full_file_sha : Text → Text
  calculate_full_file_sha s = sha s

  unfoldable pub calculate_piece_sha : Text → ℕ → List Text
  unfolding read_pieces
  calculate_piece_sha s piece_size = map sha (read_pieces (length s) piece_size s)
