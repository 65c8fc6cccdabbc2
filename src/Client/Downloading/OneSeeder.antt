-- ===== src/Client/Downloading/OneSeeder.antt =====
-- A download from seeders one of which is a client of this program that has the file.
use p2p_distributed_file_sha.Prelude.{
  ℕ, ◌*◌, ◌^◌, ◌≤◌, ◌<◌, ◌≡◌, ap, sym, subst, ◌∙◌, true, Option, some, List, [], ◌∷◌, arith, All,
  length, get_elem?,
}
use p2p_distributed_file_sha.Text.{Text, ==_iff}
use p2p_distributed_file_sha.Words.Tokens.{IsToken}
use p2p_distributed_file_sha.Address.{Address}
use p2p_distributed_file_sha.Map
use p2p_distributed_file_sha.FileInfo.{FileInfo}
use p2p_distributed_file_sha.Disk.{FileSystem}
use p2p_distributed_file_sha.Client.ByteOrder.{ByteOrder, htonll}
use p2p_distributed_file_sha.Client.Pieces.{
  global_piece_size, piece_at, calculate_sha, calculate_piece_sha,
}
use p2p_distributed_file_sha.Client.Pieces.Cut.{length-piece_at}
use p2p_distributed_file_sha.Client.Seeding.{
  Answer, closes, throws, sends, piece_request, handle_client,
}
use p2p_distributed_file_sha.Client.Seeding.Honest.{handle_client_honest}
use p2p_distributed_file_sha.Client.Fetching.{
  Reply, silent, answers, Network, receive_piece, fetch, write_chosen, download_piece,
}
use p2p_distributed_file_sha.Client.Fetching.Receiving.{together, HasBytes, receive_piece_whole}
use p2p_distributed_file_sha.Client.Fetching.Choice.{
  fetch_whole, choose_piece_found, choose_piece-Fits,
}
use p2p_distributed_file_sha.Client.Fetching.Writing.{CanWrite, write_content_once}
use p2p_distributed_file_sha.Client.Downloading.{
  Task, create_file, wanted_piece, run_task, run_tasks,
}
use p2p_distributed_file_sha.Client.Downloading.Places.{size_at, length-piece_at_le}
use p2p_distributed_file_sha.Client.Downloading.Recorded.{
  hash_of_some, size_at-positive, hash_on_record, expected_on_record,
}
use p2p_distributed_file_sha.Client.Downloading.Assembly.{
  AllSucceeded, AllInside, Covers, all_inside, download_assembles,
}

-- What an answer is for the one who asks; the bytes come in the segments into which the network
-- cuts them. A socket that stays open sends no length either.
unfoldable pub deliver : (Text → List Text) → Answer → Reply
deliver cut closes = silent
deliver cut throws = silent
deliver cut (sends net_len bytes) = answers net_len (cut bytes)

-- The one who asks at this address is answered by `handle_client` with these files. The network
-- cuts what is sent into segments, and loses none of it; the first `send` takes a whole piece.
pub record Serves (o : ByteOrder) (fs : FileSystem) (address : Address) (network : Network)
    : Type 0 where
  pub cut : Text → List Text
  pub whole : (bytes : Text) → together (cut bytes) ≡ bytes
  pub nonempty : (bytes : Text) → All HasBytes (cut bytes)
  pub sent : ℕ
  pub later : List ℕ
  pub complete : global_piece_size ≤ sent
  pub serves :
      (request : Text)
      → network address request ≡ deliver cut (handle_client o (sent ∷ later) fs request)

-- Each task can reach the seeder and can write.
abbrev pub AllServed : ByteOrder → FileSystem → Address → List Task → Type 0
AllServed o fs address tasks = All (λ t. Serves o fs address t.network × CanWrite t.results) tasks

module _ (sha : Text → Text) (o : ByteOrder) (w : Text) (info : FileInfo)
    (size : info.size ≡ length w) (cut : info.piece_size ≡ global_piece_size)
    (hashes : info.piece_sha ≡ calculate_piece_sha sha w global_piece_size)
    (small_file : length w < 2 ^ 49) (user path : Text) (address : Address) (fs : FileSystem)
    (j : ℕ) (listed : get_elem? info.seeder_users j ≡ some (user, address))
    (at_path : Map.get user info.user_file_map ≡ some path) (readable : IsToken path)
    (present : Map.get path fs ≡ some w) where
  -- What the seeder's end of the connection delivers.
  honest_reply :
      (network : Network) (i : ℕ)
      → Serves o fs address network
      → i * global_piece_size < length w
      → (segments : List Text) × (All HasBytes segments)
        × (together segments ≡ piece_at global_piece_size i w)
        × (network address (piece_request path i)
            ≡ answers (htonll o (length (piece_at global_piece_size i w))) segments)
  unfolding deliver
  honest_reply network i s inside =
      let p = piece_at global_piece_size i w in
      (
        s.cut p,
        s.nonempty p,
        s.whole p,
        s.serves (piece_request path i)
            ∙ ap (deliver s.cut) (
                handle_client_honest o s.sent s.later fs path w i present readable small_file inside
                  s.complete),
      )

  honest_piece :
      (network : Network) (i : ℕ)
      → Serves o fs address network
      → i * global_piece_size < length w
      → receive_piece o (network address (piece_request path i)) (size_at (length w) i)
        ≡ some (piece_at global_piece_size i w)
  honest_piece network i s inside =
      let (segments, nonempty, whole, e) = honest_reply network i s inside in
      let p = piece_at global_piece_size i w in
      let long : length (together segments) ≡ size_at (length w) i =
        ap length whole ∙ length-piece_at global_piece_size i w inside in
      let got =
        receive_piece_whole o segments nonempty
          (omega (arith, ap length whole, length-piece_at_le global_piece_size i w)) in
      ap (λ r. receive_piece o r (size_at (length w) i)) e
      ∙ ap (λ n. receive_piece o (answers (htonll o n) segments) (size_at (length w) i))
          (ap length (sym whole))
      ∙ ap (receive_piece o (answers (htonll o (length (together segments))) segments)) (sym long)
      ∙ got
      ∙ ap some whole

  honest_fetch :
      (network : Network) (i : ℕ)
      → Serves o fs address network
      → i * global_piece_size < length w
      → fetch sha o network (wanted_piece info i) (user, address)
        ≡ some (piece_at global_piece_size i w)
  unfolding wanted_piece
  honest_fetch network i s inside =
      let wanted = wanted_piece info i in
      let p = piece_at global_piece_size i w in
      let some_bytes : 0 < length p =
        subst (λ n. 0 < n) (sym (length-piece_at global_piece_size i w inside))
          (size_at-positive (length w) i inside) in
      fetch_whole sha o network wanted user address path p at_path
        (ap (receive_piece o (network address (piece_request path i)))
            (expected_on_record sha o w info size cut hashes small_file i inside)
          ∙ honest_piece network i s inside)
        ((==_iff (calculate_sha sha p) wanted.piece_sha).1 (
          hash_of_some sha p some_bytes
          ∙ sym (hash_on_record sha o w info size cut hashes small_file i inside)))

  honest_task :
      (task : Task) (f : Text)
      → Serves o fs address task.network
      → CanWrite task.results
      → task.index * global_piece_size < length w
      → (run_task sha o info task f).1 ≡ true
  unfolding run_task download_piece write_chosen
  honest_task task f s c inside =
      let wanted = wanted_piece info task.index in
      let (q, found) =
        choose_piece_found sha o task.network wanted info.seeder_users j (user, address)
          (piece_at global_piece_size task.index w) listed
          (honest_fetch task.network task.index s inside) in
      let fits = choose_piece-Fits sha o task.network wanted info.seeder_users q found in
      let long =
        fits.0 ∙ expected_on_record sha o w info size cut hashes small_file task.index inside in
      ap (λ choice. (write_chosen wanted task.results f choice).1) found
      ∙ write_content_once task.results task.index q wanted.piece_size f c (ground arith)

  honest_tasks :
      (tasks : List Task) (f : Text)
      → AllServed o fs address tasks
      → AllInside w tasks
      → AllSucceeded (run_tasks sha o info tasks f).1
  unfolding run_tasks
  honest_tasks [] f served inside = tt
  honest_tasks (task ∷ tasks) f served inside = (
    honest_task task f served.0.0 served.0.1 inside.0,
    honest_tasks tasks (run_task sha o info task f).0 served.1 inside.1,
  )

  -- A download with the record that the owner of a file of less than 2^49 bytes writes, in
  -- pieces of the global size: if one seeder of the record answers as this client does, from
  -- files among which is that file, then, whatever the other seeders send and in whatever order
  -- the tasks for the pieces end, every task succeeds, and the destination has the size and the
  -- hashes of the pieces that are on record. The seeder's path has no white space, its first
  -- send and the first write of each task take a whole piece, and the network loses nothing.
  pub download_completes :
      (tasks : List Task) (old : Option Text)
      → Covers info tasks
      → AllServed o fs address tasks
      → (AllSucceeded (run_tasks sha o info tasks (create_file info.size old)).1)
        × (length (run_tasks sha o info tasks (create_file info.size old)).0 ≡ info.size)
        × (calculate_piece_sha sha
              (run_tasks sha o info tasks (create_file info.size old)).0
              info.piece_size
            ≡ info.piece_sha)
  download_completes tasks old covers served =
      let inside =
        all_inside sha o w info size cut hashes small_file tasks (λ i m. sym (covers i) ∙ m) in
      let done = honest_tasks tasks (create_file info.size old) served inside in
      let (long, same) =
        download_assembles sha o w info size cut hashes small_file tasks old covers done in
      (done, long, same)
