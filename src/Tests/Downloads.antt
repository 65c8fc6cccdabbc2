-- ===== src/Tests/Downloads.antt =====
-- The download of a file of one piece.
use p2p_distributed_file_sha.Prelude.{
  ℕ, ◌⊎◌, ◌*◌, ◌≡◌, ◌≢◌, refl, sym, ap, ◌∙◌, true, false, Bool, none, some, [], ◌∷◌, ◌++◌, length,
  ltb, get_elem?, if◌then◌else◌, arith,
}
use p2p_distributed_file_sha.Text.{Text, codes}
use p2p_distributed_file_sha.Words.{trim_whitespace}
use p2p_distributed_file_sha.Map
use p2p_distributed_file_sha.Sync.{after_first}
use p2p_distributed_file_sha.FileInfo.Print.{to_string}
use p2p_distributed_file_sha.FileInfo.RoundTrip.{IsPlain, from_string-to_string}
use p2p_distributed_file_sha.Client.ByteOrder.{htonll}
use p2p_distributed_file_sha.Client.Pieces.{
  global_piece_size, piece_at, calculate_piece_sha, calculate_full_file_sha,
}
use p2p_distributed_file_sha.Client.Pieces.Cut.{get_elem?-calculate_piece_sha}
use p2p_distributed_file_sha.Client.Fetching.{Reply, answers}
use p2p_distributed_file_sha.Client.Downloading.{
  ends, acknowledgment, status, create_file, run_tasks, file_download_command, split_last,
  receive_full_file_data, destination,
}
use p2p_distributed_file_sha.Client.Downloading.Assembly.{AllSucceeded, mem_nat, download_assembles}
use p2p_distributed_file_sha.Client.Downloading.Places.{get_elem?-piece_at}
use p2p_distributed_file_sha.Disk.{resize}
use p2p_distributed_file_sha.Client.Downloading.OneSeeder.{download_completes}
use p2p_distributed_file_sha.Client.Downloading.Verdict.{Forged, download_delivers}
use p2p_distributed_file_sha.Client.Downloading.Early.{early_verdict}
use p2p_distributed_file_sha.Tests.Data.{ann, home}
use p2p_distributed_file_sha.Tests.Client.{
  orders, hash, content, path, shared, its_files, task, tasks-Served, tasks-Cover, path-IsToken,
  hashes_match, path_known, file_present,
}

get_elem?-calculate_piece_sha_example : get_elem? (calculate_piece_sha hash (codes "abcde") 2) 1 ≡ (
    if ltb (1 * 2) (length (codes "abcde"))
    then some (hash (piece_at 2 1 (codes "abcde")))
    else none)
get_elem?-calculate_piece_sha_example =
    get_elem?-calculate_piece_sha hash (codes "abcde") 2 1 (omega arith)

download_completes_example :
    (AllSucceeded (run_tasks hash orders shared (task ∷ []) (create_file shared.size none)).1)
    × (length (run_tasks hash orders shared (task ∷ []) (create_file shared.size none)).0
        ≡ shared.size)
    × (calculate_piece_sha hash
          (run_tasks hash orders shared (task ∷ []) (create_file shared.size none)).0
          shared.piece_size
        ≡ shared.piece_sha)
download_completes_example =
    download_completes hash orders content shared refl refl hashes_match (omega arith) ann path home
      its_files 0 refl path_known path-IsToken file_present (task ∷ []) none tasks-Cover
      tasks-Served

download_assembles_example :
    (length (run_tasks hash orders shared (task ∷ []) (create_file shared.size none)).0
      ≡ shared.size)
    × (calculate_piece_sha hash
          (run_tasks hash orders shared (task ∷ []) (create_file shared.size none)).0
          shared.piece_size
        ≡ shared.piece_sha)
download_assembles_example =
    download_assembles hash orders content shared refl refl hashes_match (omega arith) (task ∷ [])
      none tasks-Cover download_completes_example.0

abbrev nowhere : Text → Bool
nowhere s = false

abbrev anywhere : Text → Bool
anywhere s = true

abbrev same_path : Text → Text
same_path s = s

-- "download_file g f /d\n"
abbrev asks_line : Text
asks_line = codes "download_file g f /d\n"

abbrev its_record : Text
its_record = to_string shared

abbrev record_message : Text
record_message = codes "file_data " ++ (its_record ++ b'\n' ∷ [])

abbrev tracker : Reply
tracker = answers (htonll orders (length record_message)) (record_message ∷ [])

pub shared-IsPlain : IsPlain shared
shared-IsPlain = record {
  name = (omega arith, tt);
  path = (omega arith, (omega arith, tt));
  owner = (omega arith, tt);
  group = (omega arith, tt);
  size = omega arith;
  piece_size = omega arith;
  full_sha = (omega arith, (omega arith, tt));
  piece_sha = (((λ e. cc), (omega arith, (omega arith, tt)), (omega arith, (omega arith, tt))), tt);
  seeders = (
    ((
      ((omega arith, omega arith, omega arith), tt),
      (λ e. cc),
      (
        (omega arith, omega arith, omega arith),
        ((omega arith, omega arith, omega arith), ((omega arith, omega arith, omega arith), tt)),
      ),
      omega arith,
    )),
    tt,
  );
  paths = (
    (
      ((omega arith, omega arith, omega arith), tt),
      (omega arith, (omega arith, tt)),
      (omega arith, (omega arith, tt)),
    ),
    tt,
  );
  seeder_order = (tt, tt);
  path_order = (tt, tt);
}

line_split : split_last asks_line ≡ some (codes "download_file g f", codes "/d\n")
unfolding split_last
line_split = refl

record_arrives : receive_full_file_data orders true tracker ≡ (acknowledgment ∷ [], record_message)
unfolding receive_full_file_data p2p_distributed_file_sha.Client.ByteOrder.ntohll htonll to_string
    p2p_distributed_file_sha.Number.show_nat p2p_distributed_file_sha.Split.join
    p2p_distributed_file_sha.FileInfo.Print.show_seeder p2p_distributed_file_sha.Number.show_int
    p2p_distributed_file_sha.FileInfo.Print.show_path
record_arrives = refl

record_whole : trim_whitespace record_message ≡ codes "file_data " ++ its_record
unfolding trim_whitespace to_string p2p_distributed_file_sha.Number.show_nat
    p2p_distributed_file_sha.Split.join p2p_distributed_file_sha.FileInfo.Print.show_seeder
    p2p_distributed_file_sha.Number.show_int p2p_distributed_file_sha.FileInfo.Print.show_path
record_whole = refl

record_trimmed : trim_whitespace its_record ≡ its_record
unfolding trim_whitespace to_string p2p_distributed_file_sha.Number.show_nat
    p2p_distributed_file_sha.Split.join p2p_distributed_file_sha.FileInfo.Print.show_seeder
    p2p_distributed_file_sha.Number.show_int p2p_distributed_file_sha.FileInfo.Print.show_path
record_trimmed = refl

record_there : its_record ≢ []
unfolding to_string
record_there e = cc

not_refused : after_first (codes "Failed") [] ≡ none
unfolding after_first
not_refused = refl

-- Where the file goes.
abbrev place : Text
place = destination nowhere (codes "f") (codes "/d\n")

abbrev none_recorded : ℕ → Bool
none_recorded index = false

download_delivers_example :
    (file_download_command hash orders nowhere anywhere same_path
        (task ∷ [])
        none_recorded
        []
        []
        true
        tracker
        asks_line
      ≡ ends []
          (status (codes "[C]") shared)
          true
          (codes "download_file g f"
            ∷ acknowledgment
            ∷ (codes "update_file_info " ++ (shared.group ++ b' ' ∷ (shared.name ++ b' ' ∷ place)))
            ∷ [])
          (Map.put place content []))
    ⊎ Forged hash content
        (run_tasks hash orders shared (task ∷ []) (create_file shared.size (Map.get place []))).0
download_delivers_example =
    download_delivers hash orders nowhere anywhere same_path (task ∷ []) none_recorded [] [] content
      shared refl refl hashes_match refl (omega arith) ann path home its_files 0 refl path_known
      path-IsToken file_present tasks-Cover tasks-Served not_refused true tracker
      (acknowledgment ∷ []) asks_line (codes "download_file g f") (codes "/d\n") record_message
      its_record its_record line_split refl record_arrives record_whole record_trimmed record_there
      (from_string-to_string shared shared-IsPlain)

-- The place of the file, before there is any task: two bytes 0.
abbrev room : Text
room = create_file shared.size (Map.get (destination nowhere (codes "f") (codes "/d\n")) [])

first_byte : get_elem? room 0 ≡ some 0
unfolding create_file Map.get resize
first_byte = refl

other_byte : get_elem? room 0 ≢ get_elem? content 0
other_byte e = cc first_byte

blank : piece_at global_piece_size 0 room ≢ piece_at global_piece_size 0 content
blank e = other_byte (
    sym (get_elem?-piece_at global_piece_size 0 0 room (omega arith))
    ∙ ap (λ s. get_elem? s 0) e
    ∙ get_elem?-piece_at global_piece_size 0 0 content (omega arith))

early_verdict_example :
    ((file_download_command hash orders nowhere anywhere same_path [] none_recorded [] [] true
          tracker asks_line
        ≡ ends
            (codes "[F]" ++ (shared.group ++ b' ' ∷ (shared.name ++ codes "\n")))
            (status (codes "[F]") shared)
            true
            (codes "download_file g f" ∷ acknowledgment ∷ [])
            (Map.put place
              (run_tasks hash orders shared [] (create_file shared.size (Map.get place []))).0
              []))
      ⊎ (((run_tasks hash orders shared [] (create_file shared.size (Map.get place []))).0
            ≢ content)
          × (calculate_full_file_sha hash
                (run_tasks hash orders shared [] (create_file shared.size (Map.get place []))).0
              ≡ calculate_full_file_sha hash content)))
    × (((run_tasks hash orders shared
            (task ∷ [])
            (run_tasks hash orders shared [] (create_file shared.size (Map.get place []))).0).0
          ≡ content)
        ⊎ Forged hash content
            (run_tasks hash orders shared
              (task ∷ [])
              (run_tasks hash orders shared [] (create_file shared.size (Map.get place []))).0).0)
unfolding mem_nat
early_verdict_example =
    early_verdict hash orders nowhere anywhere same_path [] (task ∷ []) none_recorded [] [] content
      shared refl refl hashes_match refl (omega arith) ann path home its_files 0 refl path_known
      path-IsToken file_present tasks-Cover tasks-Served true tracker (acknowledgment ∷ [])
      asks_line (codes "download_file g f") (codes "/d\n") record_message its_record its_record
      line_split refl record_arrives record_whole record_trimmed record_there
      (from_string-to_string shared shared-IsPlain) 0 refl blank
