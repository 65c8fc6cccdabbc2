-- ===== src/Client/Downloading.antt =====
-- `Client::file_download_command` of client/headers/client_skelton.cpp and `create_file` of
-- client/headers/client_utils.cpp.
pub mod Places
pub mod Recorded
pub mod Assembly
pub mod OneSeeder
pub mod Verdict
pub mod Early
use p2p_distributed_file_sha.Prelude.{
  ℕ, zero, suc, ◌+◌, ◌-◌, ◌*◌, ◌^◌, Bool, true, false, not, ◌||◌, Option, none, some, is_some, List,
  [], ◌∷◌, ◌++◌, length, take, get_elem?, get_or, eqb, ltb, if◌then◌else◌,
}
use p2p_distributed_file_sha.Text.{Text, codes, ◌==◌}
use p2p_distributed_file_sha.Number.{show_nat}
use p2p_distributed_file_sha.Words.{trim_whitespace}
use p2p_distributed_file_sha.Map
use p2p_distributed_file_sha.FileInfo.{FileInfo}
use p2p_distributed_file_sha.FileInfo.Parse.{from_string}
use p2p_distributed_file_sha.Sync.{after_first}
use p2p_distributed_file_sha.Session.Commanding.{behind_blank, data_empty}
use p2p_distributed_file_sha.Disk.{FileSystem, resize}
use p2p_distributed_file_sha.Client.ByteOrder.{ByteOrder, ntohll}
use p2p_distributed_file_sha.Client.Pieces.{calculate_full_file_sha}
use p2p_distributed_file_sha.Client.Fetching.{
  Reply, answers, in_front, Network, Wanted, download_piece,
}

-- One of the tasks that the threads of the pool run: the piece, what the seeders answer while it
-- runs, and the results of its calls of `write`.
pub record Task : Type 0 where
  pub index : ℕ
  pub network : Network
  pub results : List (Option ℕ)

-- `find_last_of(' ')`, as the text before the last blank and the text behind it.
unfoldable pub split_last : Text → Option (Text × Text)
split_last [] = none
split_last (c ∷ s) = elim (split_last s) [
  | some (before, behind) ↦ some (c ∷ before, behind)
  | none ↦ if eqb c b' ' then some ([], s) else none
]

-- `if (back() == '\n' || back() == '\r') pop_back();`. (The text is not empty: the loop on the
-- commands puts a newline behind each.)
unfoldable pub pop_line_end : Text → Text
pop_line_end [] = []
pop_line_end (c ∷ []) = if eqb c b'\n' || eqb c b'\r' then [] else c ∷ []
pop_line_end (c ∷ d ∷ s) = c ∷ pop_line_end (d ∷ s)

ends_in_slash : Text → Bool
ends_in_slash [] = false
ends_in_slash (c ∷ []) = eqb c b'/' || eqb c b'\\'
ends_in_slash (c ∷ d ∷ s) = ends_in_slash (d ∷ s)

-- Where the file goes, if the path is the one of a directory: the name of the file behind it.
unfoldable pub destination : (Text → Bool) → Text → Text → Text
unfolding ends_in_slash
destination is_directory name tail =
    let path = trim_whitespace (pop_line_end tail) in
    trim_whitespace (
      if is_directory path
      then (if ends_in_slash path then path else path ++ codes "/") ++ name
      else path)

-- `open` with `O_CREAT` keeps the bytes of a file that is there.
unfoldable pub create_file : ℕ → Option Text → Text
create_file size none = resize size []
create_file size (some old) = resize size old

-- `while (total < msg_len)`: a `recv` delivers at most 8192 bytes.
receive_chunks : ℕ → List Text → Option Text
receive_chunks zero segments = some []
receive_chunks (suc n) [] = none
receive_chunks (suc n) ([] ∷ segments) = none
receive_chunks (suc n) ((c ∷ segment) ∷ segments) =
    let got = take (if ltb 8192 (suc n) then 8192 else suc n) (c ∷ segment) in
    in_front got (receive_chunks (suc n - length got) segments)

-- The line that the tracker waits for before it sends its message.
abbrev pub acknowledgment : Text
acknowledgment = codes "ACK\n"

-- What is sent to the tracker, and the message of the tracker, which is the empty text where the code
-- gives up. `ack_sends` is whether the `send` of the acknowledgment succeeds.
unfoldable pub receive_full_file_data : ByteOrder → (ack_sends : Bool) → Reply → List Text × Text
unfolding receive_chunks
receive_full_file_data o ack_sends (answers net_len segments) =
    let msg_len = ntohll o net_len in
    if eqb msg_len 0 || ltb (1024 * 1024) msg_len
    then ([], [])
    else if not ack_sends
    then ([], [])
    else (acknowledgment ∷ [], get_or (receive_chunks msg_len segments) [])
receive_full_file_data o ack_sends reply = ([], [])

-- What is wanted from the seeders as the piece of this index.
unfoldable pub wanted_piece : FileInfo → ℕ → Wanted
wanted_piece info index = record {
  piece_sha = get_or (get_elem? info.piece_sha index) [];
  piece_index = index;
  file_paths = info.user_file_map;
  piece_size = info.piece_size;
  total_size = info.size;
}

-- The first piece without success. (The results stand in the order in which the tasks end; which of
-- several failures the unordered map of the source gives first is not modelled.)
pub first_failed : List (ℕ × Bool) → Option ℕ
first_failed [] = none
first_failed ((index, success) ∷ results) = if success then first_failed results else some index

-- The results that are there when the loop on them runs: `recorded` says of which indexes.
unfoldable pub recorded_only : (ℕ → Bool) → List (ℕ × Bool) → List (ℕ × Bool)
recorded_only recorded [] = []
recorded_only recorded ((index, success) ∷ results) =
    let rest = recorded_only recorded results in
    if recorded index then (index, success) ∷ rest else rest

-- How the command ends. An exception is one of `fromString`, which nothing catches.
pub data Download : Type 0 where
  throws : Download
  -- the reply that is printed, the line in the history of downloads, whether it is the last one,
  -- what was sent to the tracker, and the files
  ends :
      (reply : Text) (result : Text) (done : Bool) (sent : List Text) (disk : FileSystem) → Download

-- The line in the history before the tasks are assigned.
abbrev pub not_started : Text
not_started = codes "not started"

-- `mark + " " + group + " " + name`
abbrev pub status : Text → FileInfo → Text
status mark info = mark ++ b' ' ∷ (info.group ++ b' ' ∷ info.name)

module _ (sha : Text → Text) (o : ByteOrder) where
  unfoldable pub run_task : FileInfo → Task → Text → Text × Bool
  unfolding wanted_piece
  run_task info task file =
      download_piece sha o task.network (wanted_piece info task.index) info.seeder_users
        task.results file

  -- The tasks, in the order in which they come to hold the lock on the file: its bytes at the end,
  -- and what each has put into `download_results`.
  unfoldable pub run_tasks : FileInfo → List Task → Text → Text × List (ℕ × Bool)
  unfolding run_task
  run_tasks info [] file = (file, [])
  run_tasks info (task ∷ tasks) file =
      let (file', success) = run_task info task file in
      let (file'', results) = run_tasks info tasks file' in
      (file'', (task.index, success) ∷ results)

  -- `join_all_threads` waits for no task that is detached. `finished` are the tasks that have written
  -- their piece, or have failed, when the file is hashed, and `recorded` says which of them have put
  -- their result into `download_results` when the loop on it runs. `response` is what the tracker has answered to
  -- `update_file_info` when `recv` is called with `MSG_DONTWAIT`.
  module _ (is_directory : Text → Bool) (creatable : Text → Bool) (real_path : Text → Text)
      (finished : List Task) (recorded : ℕ → Bool) (response : Text) (disk : FileSystem) where
    finish : FileInfo → Text → List Text → Text → Download
    finish info dest sent file =
        let update =
          codes "update_file_info "
          ++ (info.group ++ b' ' ∷ (info.name ++ b' ' ∷ real_path dest)) in
        if is_some (after_first (codes "Failed") response)
        then ends response (status (codes "[F]") info) true (sent ++ update ∷ [])
            (Map.remove dest disk)
        else ends response (status (codes "[C]") info) true (sent ++ update ∷ [])
            (Map.put dest file disk)

    compare_full : FileInfo → Text → List Text → Text → Download
    unfolding finish
    compare_full info dest sent file =
        if calculate_full_file_sha sha file == info.full_sha
        then finish info dest sent file
        else ends (codes "[F]" ++ (info.group ++ b' ' ∷ (info.name ++ codes "\n")))
            (status (codes "[F]") info) true sent (Map.put dest file disk)

    -- The loop on `download_results`.
    judge : FileInfo → Text → List Text → Text → Option ℕ → Download
    unfolding compare_full
    judge info dest sent file none = compare_full info dest sent file
    judge info dest sent file (some index) =
        ends
          (codes "Download failed: piece " ++ (show_nat index ++ codes " corrupted or missing\n"))
          (status (codes "[F]") info) true sent (Map.remove dest disk)

    assemble : FileInfo → Text → List Text → Download
    unfolding judge first_failed recorded_only run_tasks create_file
    assemble info dest sent =
        let done = run_tasks info finished (create_file info.size (Map.get dest disk)) in
        judge info dest sent done.0 (first_failed (recorded_only recorded done.1))

    pub prepare : Text → List Text → Option FileInfo → Download
    unfolding assemble destination
    prepare tail sent none = throws
    prepare tail sent (some info) =
        let dest = destination is_directory info.name tail in
        if creatable dest
        then assemble info dest sent
        else ends (codes "Failed to create destination file: " ++ (dest ++ codes "\n")) not_started
            false sent disk

    read_info : Text → List Text → Text → Download
    unfolding prepare
    read_info tail sent [] = ends data_empty not_started false sent disk
    read_info tail sent (c ∷ info) = prepare tail sent (from_string (c ∷ info))

    read_reply : Text → List Text → Text → Download
    unfolding read_info
    read_reply tail sent [] = ends data_empty not_started false sent disk
    read_reply tail sent (c ∷ reply) =
        if is_some (after_first (codes "file_data") (c ∷ reply))
        then read_info tail sent (trim_whitespace (behind_blank (c ∷ reply)))
        else ends ((c ∷ reply) ++ codes "\n") not_started false sent disk

    ask_tracker : (ack_sends : Bool) → Reply → Option (Text × Text) → Download
    unfolding read_reply receive_full_file_data
    ask_tracker ack_sends tracker none =
        ends
          (codes
            "Invalid command format. Usage: download_file <group id> <file path> <destination>\n")
          not_started false [] disk
    ask_tracker ack_sends tracker (some (command, tail)) =
        let (sent, file_info) = receive_full_file_data o ack_sends tracker in
        read_reply tail (command ∷ sent) (trim_whitespace file_info)

    unfoldable pub file_download_command : (ack_sends : Bool) → Reply → Text → Download
    unfolding ask_tracker split_last
    file_download_command ack_sends tracker line = ask_tracker ack_sends tracker (split_last line)
