-- ===== src/Client/Connecting.antt =====
-- `read_tracker`, `set_tracker_address` and `connect_to_tracker` of
-- client/headers/client_skelton.cpp.
pub mod Reaching
use p2p_distributed_file_sha.Prelude.{
  ℕ, zero, suc, ◌+◌, pos, Bool, true, false, Option, none, some, List, [], ◌∷◌, ◌++◌, if◌then◌else◌,
}
use p2p_distributed_file_sha.Text.{Text}
use p2p_distributed_file_sha.Result.{Result, ok, fault}
use p2p_distributed_file_sha.Address.{Address}
use p2p_distributed_file_sha.TrackerFile.{
  string_address_validation, read_parts, address_parts, read_file_by_line_number,
}

-- The number of lines of the tracker file that are tried.
abbrev pub max_tracker : ℕ
max_tracker = 3

-- `connect(tracker_sock, …) == 0`; a `socket` that fails counts as a `connect` that fails.
module _ (inet_pton : Text → Bool) (connects : Address → Bool) (file : Text) where
  found : Result Address → Result (Option Address)
  found (ok address) = ok (some address)
  found (fault f) = fault f

  read_valid : Text → Result Bool → Result (Option Address)
  unfolding found
  read_valid line (ok true) = found (read_parts inet_pton (address_parts line))
  read_valid line (ok false) = ok none
  read_valid line (fault f) = fault f

  read_line : Text → Result (Option Address)
  unfolding read_valid
  read_line [] = ok none
  read_line (c ∷ line) = read_valid (c ∷ line) (string_address_validation inet_pton (c ∷ line))

  -- The address of `tracker_ip` and `tracker_port`, or none where the function returns false.
  unfoldable pub read_tracker : ℕ → Result (Option Address)
  unfolding read_line
  read_tracker tracker_id = read_line (read_file_by_line_number file (pos (suc tracker_id)))

  try_tracker : Result (Option Address) → Result (Option Address) → Result (Option Address)
  try_tracker (fault f) later = fault f
  try_tracker (ok none) later = later
  try_tracker (ok (some address)) later = if connects address then ok (some address) else later

  -- `for (i = 0; i < max_tracker; ++i)`
  connect_from : ℕ → ℕ → Result (Option Address)
  unfolding try_tracker
  connect_from zero i = ok none
  connect_from (suc rounds) i =
      let later = connect_from rounds (i + 1) in try_tracker (read_tracker i) later

  -- The tracker that is connected to, or none.
  unfoldable pub connect_to_tracker : Result (Option Address)
  unfolding connect_from
  connect_to_tracker = connect_from max_tracker 0
