-- ===== src/Client/Fetching.antt =====
-- `receive_piece`, `write_content` and `download_piece` of client/headers/client_skelton.cpp.
pub mod Receiving
pub mod Choice
pub mod Writing
use p2p_distributed_file_sha.Prelude.{
  ℕ, zero, suc, ◌+◌, ◌-◌, ◌*◌, ◌/◌, ◌%◌, ◌^◌, Bool, true, false, Option, none, some, List, [], ◌∷◌,
  ◌++◌, length, take, drop, get_elem?, get_or, eqb, if◌then◌else◌,
}
use p2p_distributed_file_sha.Text.{Text, ◌==◌}
use p2p_distributed_file_sha.Address.{Address}
use p2p_distributed_file_sha.Map
use p2p_distributed_file_sha.Map.{Map}
use p2p_distributed_file_sha.Disk.{write_at}
use p2p_distributed_file_sha.Client.ByteOrder.{ByteOrder, ntohll}
use p2p_distributed_file_sha.Client.Pieces.{calculate_sha}
use p2p_distributed_file_sha.Client.Seeding.{piece_request}

-- What a seeder's end of a connection does: it cannot be reached, it takes no request, it sends no
-- whole length, or it sends a length and then bytes, in the segments that the calls of `recv`
-- deliver; an empty segment is a `recv` that fails or finds the end.
pub data Reply : Type 0 where
  unreachable refuses silent : Reply
  answers : (net_len : ℕ) (segments : List Text) → Reply

-- What every address answers to every request.
abbrev pub Network : Type 0
Network = Address → Text → Reply

-- What arrives in front of what the rest of the loop receives.
abbrev pub in_front : Text → Option Text → Option Text
in_front got none = none
in_front got (some rest) = some (got ++ rest)

-- `while (bytes_received < piece_size)`: a `recv` delivers at most what is left to receive.
pub receive_bytes : ℕ → List Text → Option Text
receive_bytes zero segments = some []
receive_bytes (suc n) [] = none
receive_bytes (suc n) ([] ∷ segments) = none
receive_bytes (suc n) ((c ∷ segment) ∷ segments) =
    let got = take (suc n) (c ∷ segment) in
    in_front got (receive_bytes (suc n - length got) segments)

unfoldable pub receive_piece : ByteOrder → Reply → ℕ → Option Text
unfolding receive_bytes
receive_piece o (answers net_len segments) expected_size =
    if eqb (ntohll o net_len) expected_size then receive_bytes expected_size segments else none
receive_piece o reply expected_size = none

-- `while (written < left)`: the results of `write` come from the list, `none` for a negative one;
-- when the list is at its end all further ones are negative. What is returned is the file's bytes
-- and the value of the function.
write_bytes : List (Option ℕ) → ℕ → Text → Text → Text × Bool
write_bytes results offset [] file = (file, true)
write_bytes [] offset (c ∷ left) file = (file, false)
write_bytes (none ∷ results) offset (c ∷ left) file = (file, false)
write_bytes (some w ∷ results) offset (c ∷ left) file =
    let part = take w (c ∷ left) in
    write_bytes results (offset + length part) (drop w (c ∷ left)) (write_at offset part file)

-- `open64` and `lseek64` succeed: the file is the one that `create_file` has made.
unfoldable pub write_content : List (Option ℕ) → ℕ → Text → ℕ → Text → Text × Bool
unfolding write_bytes
write_content results index content piece_size file =
    write_bytes results (index * piece_size) content file

-- `total_pieces`, before its conversion to `int`. (With the size 0 the source divides by 0; `/` is 0
-- there.)
abbrev pub total_pieces : ℕ → ℕ → ℕ
total_pieces total_size piece_size = ((total_size + piece_size + 2 ^ 64 - 1) % 2 ^ 64) / piece_size

-- The size that a seeder has to announce for the piece.
unfoldable pub expected_size : ℕ → ℕ → ℕ → ℕ
expected_size total_size piece_size index =
    if eqb (index + 1) (total_pieces total_size piece_size % 2 ^ 32)
    then (total_size + 2 ^ 64 - (index * piece_size) % 2 ^ 64) % 2 ^ 64
    else piece_size

-- What the piece has to be.
pub record Wanted : Type 0 where
  pub piece_sha : Text
  pub piece_index : ℕ
  pub file_paths : Map Text
  pub piece_size : ℕ
  pub total_size : ℕ

-- The bytes of the destination, and the value of `download_piece`.
unfoldable pub write_chosen : Wanted → List (Option ℕ) → Text → Option Text → Text × Bool
write_chosen wanted results file none = (file, false)
write_chosen wanted results file (some piece) =
    write_content results wanted.piece_index piece wanted.piece_size file

module _ (sha : Text → Text) (o : ByteOrder) (network : Network) (wanted : Wanted) where
  check_sha : Option Text → Option Text
  check_sha none = none
  check_sha (some piece) = if calculate_sha sha piece == wanted.piece_sha then some piece else none

  -- The body of the loop on the seeders, up to the write: the piece, if this seeder gives it. A
  -- seeder without a path is asked for the empty one.
  unfoldable pub fetch : Text × Address → Option Text
  unfolding check_sha
  fetch (seeder, address) =
      let request =
        piece_request (get_or (Map.get seeder wanted.file_paths) []) wanted.piece_index in
      check_sha (
        receive_piece o (network address request)
          (expected_size wanted.total_size wanted.piece_size wanted.piece_index))

  abbrev pub fetch_from : Option (Text × Address) → Option Text
  fetch_from none = none
  fetch_from (some seeder) = fetch seeder

  -- `for (i = 0; i < num_seeders; ++i)`, with `start` for `start_index + i`.
  try_seeders : ℕ → ℕ → Map Address → Option Text
  try_seeders zero start seeders = none
  try_seeders (suc rounds) start seeders =
      elim (fetch_from (get_elem? seeders (start % length seeders))) [
        | none ↦ try_seeders rounds (start + 1) seeders
        | some piece ↦ some piece
      ]

  -- The piece that is written. An empty map of seeders has no rounds.
  unfoldable pub choose_piece : Map Address → Option Text
  unfolding try_seeders
  choose_piece seeders = try_seeders (length seeders) (wanted.piece_index % length seeders) seeders

  unfoldable pub download_piece : Map Address → List (Option ℕ) → Text → Text × Bool
  unfolding write_chosen
  download_piece seeders results file = write_chosen wanted results file (choose_piece seeders)
