-- ===== src/Client/Downloading/Early.antt =====
-- A verdict that is given while tasks still run.
use p2p_distributed_file_sha.Prelude.{
  ℕ, ◌*◌, ◌^◌, ◌<◌, ◌≡◌, ◌≢◌, ◌⊎◌, subst, refl, ap, sym, ◌∙◌, Bool, true, false, some, List, [],
  ◌∷◌, ◌++◌, arith, length, get_elem?, map, eqb_iff, Bool-cases, inl, inr,
}
use p2p_distributed_file_sha.Text.{Text, codes, ◌==◌, ==_iff}
use p2p_distributed_file_sha.Words.Tokens.{IsToken}
use p2p_distributed_file_sha.Words.{trim_whitespace}
use p2p_distributed_file_sha.FileInfo.{FileInfo}
use p2p_distributed_file_sha.FileInfo.Parse.{from_string}
use p2p_distributed_file_sha.Address.{Address}
use p2p_distributed_file_sha.Map
use p2p_distributed_file_sha.Disk.{FileSystem}
use p2p_distributed_file_sha.Client.ByteOrder.{ByteOrder}
use p2p_distributed_file_sha.Client.Pieces.{
  global_piece_size, piece_at, calculate_piece_sha, calculate_full_file_sha,
}
use p2p_distributed_file_sha.Client.Fetching.{Reply}
use p2p_distributed_file_sha.Client.Downloading.{
  Task, ends, status, create_file, run_task, run_tasks, destination, compare_full, judge, assemble,
  prepare, split_last, receive_full_file_data, file_download_command,
}
use p2p_distributed_file_sha.Client.Downloading.Places.{size_at, written_elsewhere}
use p2p_distributed_file_sha.Client.Downloading.Recorded.{run_task-Downloaded}
use p2p_distributed_file_sha.Client.Downloading.Assembly.{
  AllSucceeded, AllInside, Covers, mem_nat, all_inside, length-create_file,
}
use p2p_distributed_file_sha.Client.Downloading.OneSeeder.{AllServed, download_completes}
use p2p_distributed_file_sha.Client.Downloading.Verdict.{
  Forged, calculate_piece_sha_inj, no_failure, command_prepares,
}

module _ (sha : Text → Text) (o : ByteOrder) (info : FileInfo) where
  run_tasks-append :
      (first later : List Task) (f : Text)
      → (run_tasks sha o info (first ++ later) f).0
        ≡ (run_tasks sha o info later (run_tasks sha o info first f).0).0
  unfolding run_tasks
  run_tasks-append [] later f = refl
  run_tasks-append (task ∷ first) later f =
      run_tasks-append first later (run_task sha o info task f).0

  first_succeed :
      (first later : List Task) (f : Text)
      → AllSucceeded (run_tasks sha o info (first ++ later) f).1
      → AllSucceeded (run_tasks sha o info first f).1
  unfolding run_tasks
  first_succeed [] later f done = tt
  first_succeed (task ∷ first) later f done =
      (done.0, first_succeed first later (run_task sha o info task f).0 done.1)

first_inside :
    (w : Text) (first later : List Task) → AllInside w (first ++ later) → AllInside w first
first_inside w [] later h = tt
first_inside w (task ∷ first) later h = (h.0, first_inside w first later h.1)

module _ (sha : Text → Text) (o : ByteOrder) (w : Text) (info : FileInfo)
    (size : info.size ≡ length w) (cut : info.piece_size ≡ global_piece_size)
    (hashes : info.piece_sha ≡ calculate_piece_sha sha w global_piece_size)
    (small_file : length w < 2 ^ 49) where
  -- A piece for which there is no task stays as it was.
  untouched :
      (k : ℕ) (tasks : List Task) (f : Text)
      → length f ≡ length w
      → AllInside w tasks
      → AllSucceeded (run_tasks sha o info tasks f).1
      → mem_nat k (map (λ t. t.index) tasks) ≡ false
      → piece_at global_piece_size k (run_tasks sha o info tasks f).0
        ≡ piece_at global_piece_size k f
  unfolding run_tasks mem_nat
  untouched k [] f same inside done missing = refl
  untouched k (task ∷ tasks) f same inside done missing =
      let r = run_task sha o info task f in
      let d =
        run_task-Downloaded sha o w info size cut hashes small_file task f r.0 same inside.0
          (ap (λ b. (r.0, b)) done.0) in
      let long = d.has_size ∙ ap (λ n. size_at n task.index) (sym same) in
      let in_f : task.index * global_piece_size < length f = rw same inside.0 in
      let other : k ≢ task.index = λ e. cc (missing, (eqb_iff k task.index).1 e) in
      untouched k tasks r.0 (d.written.same_length ∙ same) inside.1 done.1 (ground arith)
      ∙ written_elsewhere task.index d.piece f r.0 long d.written in_f k other

module _ (sha : Text → Text) (o : ByteOrder) (is_directory : Text → Bool) (creatable : Text → Bool)
    (real_path : Text → Text) (finished later : List Task) (recorded : ℕ → Bool) (response : Text)
    (disk : FileSystem) (w : Text) (info : FileInfo) (size : info.size ≡ length w)
    (cut : info.piece_size ≡ global_piece_size)
    (hashes : info.piece_sha ≡ calculate_piece_sha sha w global_piece_size)
    (full : info.full_sha ≡ calculate_full_file_sha sha w) (small_file : length w < 2 ^ 49)
    (user path : Text) (address : Address) (fs : FileSystem) (j : ℕ)
    (listed : get_elem? info.seeder_users j ≡ some (user, address))
    (at_path : Map.get user info.user_file_map ≡ some path) (readable : IsToken path)
    (present : Map.get path fs ≡ some w) (covers : Covers info (finished ++ later))
    (served : AllServed o fs address (finished ++ later)) (ack_sends : Bool) (tracker : Reply)
    (sent : List Text) (line command tail message reply text : Text)
    (asks : split_last line ≡ some (command, tail))
    (can_create : creatable (destination is_directory info.name tail) ≡ true)
    (arrives : receive_full_file_data o ack_sends tracker ≡ (sent, message))
    (whole : trim_whitespace message ≡ codes "file_data " ++ reply)
    (record_in : trim_whitespace reply ≡ text) (some_record : text ≢ [])
    (parses : from_string text ≡ some info) (k : ℕ)
    (missing : mem_nat k (map (λ t. t.index) finished) ≡ false)
    (blank : piece_at global_piece_size k
        (create_file info.size (Map.get (destination is_directory info.name tail) disk))
      ≢ piece_at global_piece_size k w) where
  abbrev dest : Text
  dest = destination is_directory info.name tail

  abbrev created : Text
  created = create_file info.size (Map.get dest disk)

  -- The bytes at the destination at the verdict.
  abbrev at_verdict : Text
  at_verdict = (run_tasks sha o info finished created).0

  completes :
      (AllSucceeded (run_tasks sha o info (finished ++ later) created).1)
      × (length (run_tasks sha o info (finished ++ later) created).0 ≡ info.size)
      × (calculate_piece_sha sha
            (run_tasks sha o info (finished ++ later) created).0
            info.piece_size
          ≡ info.piece_sha)
  completes =
      download_completes sha o w info size cut hashes small_file user path address fs j listed
        at_path readable present (finished ++ later) (Map.get dest disk) covers served

  whole_later :
      ((run_tasks sha o info later at_verdict).0 ≡ w)
      ⊎ Forged sha w (run_tasks sha o info later at_verdict).0
  whole_later =
      let (done, long, same) = completes in
      subst (λ g. (g ≡ w) ⊎ Forged sha w g) (run_tasks-append sha o info finished later created)
        (calculate_piece_sha_inj sha _ w (long ∙ size)
          (ap (calculate_piece_sha sha _) (sym cut) ∙ same ∙ hashes))

  succeeded : AllSucceeded (run_tasks sha o info finished created).1
  succeeded = first_succeed sha o info finished later created completes.0

  still_blank : piece_at global_piece_size k at_verdict ≡ piece_at global_piece_size k created
  still_blank =
      untouched sha o w info size cut hashes small_file k finished created
        (length-create_file info.size (Map.get dest disk) ∙ size)
        (first_inside w finished later (
          all_inside sha o w info size cut hashes small_file (finished ++ later)
            (λ i m. sym (covers i) ∙ m)))
        succeeded missing

  not_whole : at_verdict ≢ w
  not_whole = λ e. blank (sym still_blank ∙ ap (piece_at global_piece_size k) e)

  fails :
      (calculate_full_file_sha sha at_verdict == info.full_sha) ≡ false
      → prepare sha o is_directory creatable real_path finished recorded response disk tail
          (command ∷ sent)
          (some info)
        ≡ ends
            (codes "[F]" ++ (info.group ++ b' ' ∷ (info.name ++ codes "\n")))
            (status (codes "[F]") info)
            true
            (command ∷ sent)
            (Map.put dest at_verdict disk)
  unfolding prepare assemble judge compare_full
  fails wrong_hash =
      let judged =
        ap
          (judge sha o is_directory creatable real_path finished recorded response disk info dest
            (command ∷ sent) at_verdict)
          (no_failure recorded _ succeeded) in
      rw can_create (judged ∙ rw wrong_hash refl)

  -- If one seeder of the record answers as this client does, from files among which is the file,
  -- and some task, whose piece the destination does not hold from the start, has not written it
  -- when the file is hashed, between the writes of the tasks, then the download command reports
  -- [F] and leaves the destination, unless the bytes that are there have the hash of the file
  -- without being it; and once the other tasks have run, the destination holds the file's very
  -- bytes, or a piece that is not the one of the file, but has its hash.
  pub early_verdict :
      ((file_download_command sha o is_directory creatable real_path finished recorded response disk
            ack_sends tracker line
          ≡ ends
              (codes "[F]" ++ (info.group ++ b' ' ∷ (info.name ++ codes "\n")))
              (status (codes "[F]") info)
              true
              (command ∷ sent)
              (Map.put
                (destination is_directory info.name tail)
                (run_tasks sha o info finished (
                  create_file info.size (Map.get (destination is_directory info.name tail) disk))).0
                disk))
        ⊎ (((run_tasks sha o info finished
                (create_file info.size (Map.get (destination is_directory info.name tail) disk))).0
              ≢ w)
            × (calculate_full_file_sha sha
                  (run_tasks sha o info finished (
                    create_file info.size
                      (Map.get (destination is_directory info.name tail) disk))).0
                ≡ calculate_full_file_sha sha w)))
      × (((run_tasks sha o info later
              (run_tasks sha o info finished (
                create_file info.size
                  (Map.get (destination is_directory info.name tail) disk))).0).0
            ≡ w)
          ⊎ Forged sha w
              (run_tasks sha o info later
                (run_tasks sha o info finished (
                  create_file info.size
                    (Map.get (destination is_directory info.name tail) disk))).0).0)
  early_verdict = (
    elim (Bool-cases (calculate_full_file_sha sha at_verdict == info.full_sha)) [
      | inl same ↦
          inr (
            not_whole,
            (==_iff (calculate_full_file_sha sha at_verdict) info.full_sha).0 same ∙ full,
          )
      | inr wrong_hash ↦ inl (
          command_prepares sha o is_directory creatable real_path finished recorded response disk
            info command tail sent ack_sends tracker line message reply text asks arrives whole
            record_in some_record parses
          ∙ fails wrong_hash)
    ],
    whole_later,
  )
