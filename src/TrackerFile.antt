-- ===== src/TrackerFile.antt =====
-- The tracker file and the arguments of the programs, as tracker/headers/tracker_utils.cpp,
-- tracker/headers/tracker_sckelton.cpp and the client read them.
pub mod Lines
pub mod Start
pub mod Others
use p2p_distributed_file_sha.Prelude.{
  ℕ, zero, suc, ◌+◌, ◌-◌, ◌≤◌, ℤ, pos, negsuc, Bool, true, false, not, ◌&&◌, ◌||◌, Option, none,
  some, List, [], ◌∷◌, ◌++◌, eqb, leb, ltb, if◌then◌else◌,
}
use p2p_distributed_file_sha.Text.{Text, ◌==◌}
use p2p_distributed_file_sha.Number.{stoi}
use p2p_distributed_file_sha.Split.{split_at}
use p2p_distributed_file_sha.Result.{Result, ok, fault, uncaught_exception}
use p2p_distributed_file_sha.Address.{Address}

-- `==` on `int`
unfoldable pub same_int : ℤ → ℤ → Bool
same_int (pos m) (pos n) = eqb m n
same_int (negsuc m) (negsuc n) = eqb m n
same_int a b = false

-- `1024 <= port && port <= 65535`
unfoldable pub port_in_range : ℤ → Bool
port_in_range (pos n) = leb 1024 n && leb n 65535
port_in_range (negsuc n) = false

-- The lines that the loops of the source put together byte by byte: the last one counts only if it
-- has a byte.
unfoldable pub lines_from : Text → Text → List Text
lines_from [] [] = []
lines_from (c ∷ current) [] = (c ∷ current) ∷ []
lines_from current (c ∷ s) =
    let next = lines_from [] s in
    let longer = lines_from (current ++ c ∷ []) s in if eqb c b'\n' then current ∷ next else longer

-- What is left in the file behind its last newline.
unfoldable pub last_line : ℕ → ℕ → Text → Text
last_line line_number current_line [] = []
last_line line_number current_line (c ∷ current) =
    if eqb (current_line + 1) line_number then c ∷ current else []

-- The loop of `read_file_by_line_number`.
unfoldable pub find_line : ℕ → ℕ → Text → Text → Text
unfolding last_line
find_line line_number current_line current [] = last_line line_number current_line current
find_line line_number current_line current (c ∷ s) =
    let next = find_line line_number (current_line + 1) [] s in
    let longer = find_line line_number current_line (current ++ c ∷ []) s in
    if eqb c b'\n' then if eqb (current_line + 1) line_number then current else next else longer

-- No line has a number below 1.
unfoldable pub read_file_by_line_number : Text → ℤ → Text
unfolding find_line
read_file_by_line_number file (pos n) = find_line n 0 [] file
read_file_by_line_number file (negsuc n) = []

-- The loop of `no_entries_in_file`.
unfoldable pub count_lines : ℕ → Bool → Text → ℕ
count_lines count has_data [] = if has_data then count + 1 else count
count_lines count has_data (c ∷ s) =
    let next = count_lines (count + 1) false s in
    let longer = count_lines count true s in if eqb c b'\n' then next else longer

unfoldable pub no_entries_in_file : Text → ℕ
unfolding count_lines
no_entries_in_file file = count_lines 0 false file

-- `line.find(':')`, `line.find(' ', colon_pos)`: the texts for the IP and for the port.
unfoldable pub address_parts : Text → Option (Text × Text)
address_parts line = elim (split_at b':' line) [
  | none ↦ none
  | some (ip, behind) ↦ elim (split_at b' ' behind) [
    | none ↦ none
    | some (port_str, id_str) ↦ some (ip, port_str)
  ]
]

-- A check behind one that returns false where it fails.
unfoldable pub and_then : Result Bool → Result Bool → Result Bool
and_then (ok true) next = next
and_then (ok false) next = ok false
and_then (fault f) next = fault f

-- `inet_pton` is the C library's test of a dotted address.
module _ (inet_pton : Text → Bool) where
  unfoldable pub ip_address_validation : Text → ℤ → Bool
  ip_address_validation ip_address port = port_in_range port && inet_pton ip_address

  unfoldable pub validate_port : Text → Option ℤ → Result Bool
  unfolding ip_address_validation
  validate_port ip none = fault uncaught_exception
  validate_port ip (some port) = ok (ip_address_validation ip port)

  unfoldable pub validate_parts : Option (Text × Text) → Result Bool
  unfolding validate_port
  validate_parts none = ok false
  validate_parts (some (ip, port_str)) = validate_port ip (stoi port_str)

  unfoldable pub string_address_validation : Text → Result Bool
  unfolding validate_parts address_parts
  string_address_validation line = validate_parts (address_parts line)

  -- The loop stops at the first line that is not valid.
  unfoldable pub validate_lines : List Text → Result Bool
  validate_lines [] = ok true
  validate_lines (line ∷ lines) =
      let rest = validate_lines lines in and_then (string_address_validation line) rest

  unfoldable pub tracker_file_entry_validation : Text → Result Bool
  unfolding validate_lines lines_from
  tracker_file_entry_validation file = validate_lines (lines_from [] file)

  validate_number : Text → Option ℤ → Result Bool
  unfolding no_entries_in_file
  validate_number file none = fault uncaught_exception
  validate_number file (some (pos zero)) = ok true
  validate_number file (some (pos (suc n))) = ok (ltb n (no_entries_in_file file))
  validate_number file (some (negsuc n)) = ok true

  -- The checks of the tracker's two arguments; `none` is a path that leads to no file.
  unfoldable pub tracker_argument_validation : Option Text → Text → Result Bool
  unfolding validate_number
  tracker_argument_validation none tracker_no = ok false
  tracker_argument_validation (some []) tracker_no = ok false
  tracker_argument_validation (some (c ∷ file)) tracker_no =
      and_then (tracker_file_entry_validation (c ∷ file))
        (validate_number (c ∷ file) (stoi tracker_no))

  -- `address.find(':')`, and the port behind it.
  validate_own : Option (Text × Text) → Result Bool
  validate_own none = ok false
  validate_own (some (ip, port_str)) = validate_port ip (stoi port_str)

  -- The checks of the client's two arguments.
  unfoldable pub client_argument_validation : Option Text → Text → Result Bool
  unfolding validate_own split_at
  client_argument_validation none address = ok false
  client_argument_validation (some []) address = ok false
  client_argument_validation (some (c ∷ file)) address =
      and_then (tracker_file_entry_validation (c ∷ file)) (validate_own (split_at b':' address))

  set_port : Text → Option ℤ → Result (Option Address)
  set_port ip none = fault uncaught_exception
  set_port ip (some port) =
      ok (if ip_address_validation ip port then some (record { ip = ip; port = port }) else none)

  set_parts : Option (Text × Text) → Result (Option Address)
  unfolding set_port
  set_parts none = ok none
  set_parts (some (ip, port_str)) = set_port ip (stoi port_str)

  -- `Tracker::set_tracker_address`: the address, or none where it returns false.
  unfoldable pub set_tracker_address : Text → ℤ → Result (Option Address)
  unfolding set_parts
  set_tracker_address file tracker_id =
      set_parts (address_parts (read_file_by_line_number file tracker_id))

  unfoldable pub read_port : Text → Option ℤ → Result Address
  read_port ip none = fault uncaught_exception
  read_port ip (some port) = ok (record { ip = ip; port = port })

  -- The parts of a line that is valid.
  unfoldable pub read_parts : Option (Text × Text) → Result Address
  unfolding read_port
  read_parts none = ok (record { ip = []; port = pos 0 })
  read_parts (some (ip, port_str)) = read_port ip (stoi port_str)

  -- The empty IP stands for a line that is not valid.
  unfoldable pub get_address : Text → Result Address
  unfolding read_parts
  get_address line = elim (string_address_validation line) [
    | fault f ↦ fault f
    | ok false ↦ ok (record { ip = []; port = pos 0 })
    | ok true ↦ read_parts (address_parts line)
  ]

  -- `!address.ip.empty() && (address.ip != tracker_ip || address.port != tracker_port)`
  unfoldable pub is_other : Address → Address → Bool
  is_other own address =
      not (address.ip == []) && (not (address.ip == own.ip) || not (same_int address.port own.port))

  add_trackers : Address → List Text → Result (List Address)
  unfolding is_other
  add_trackers own [] = ok []
  add_trackers own (line ∷ lines) = elim (get_address line) [
    | fault f ↦ fault f
    | ok address ↦ elim (add_trackers own lines) [
      | fault f ↦ fault f
      | ok others ↦ ok (if is_other own address then address ∷ others else others)
    ]
  ]

  -- `Tracker::init_sync`: the members of `other_trackers` for a tracker at this address.
  unfoldable pub init_sync : Address → Text → Result (List Address)
  unfolding add_trackers
  init_sync own file = add_trackers own (lines_from [] file)
