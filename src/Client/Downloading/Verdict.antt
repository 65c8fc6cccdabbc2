-- ===== src/Client/Downloading/Verdict.antt =====
-- What `file_download_command` makes of the tasks.
use p2p_distributed_file_sha.Prelude.{
  ℕ, ◌+◌, ◌*◌, ◌/◌, ◌%◌, ◌^◌, ◌<◌, ◌≡◌, ◌≢◌, ◌⊎◌, inl, inr, Bool-cases, zero, suc, subst, eqb,
  eqb_iff, refl, ap, sym, ◌∙◌, Bool, true, none, some, List, [], ◌∷◌, ◌++◌, arith, length,
  get_elem?, list_ext, ltb, if◌then◌else◌,
}
use p2p_distributed_file_sha.Text.{Text, codes, ◌==◌, ==_refl, ==_iff}
use p2p_distributed_file_sha.Words.Tokens.{IsToken}
use p2p_distributed_file_sha.Words.{trim_whitespace}
use p2p_distributed_file_sha.Split.{split_at}
use p2p_distributed_file_sha.FileInfo.Parse.{from_string}
use p2p_distributed_file_sha.Session.Commanding.{behind_blank}
use p2p_distributed_file_sha.Client.Fetching.{Reply}
use p2p_distributed_file_sha.Sync.{after_first}
use p2p_distributed_file_sha.Address.{Address}
use p2p_distributed_file_sha.Map
use p2p_distributed_file_sha.FileInfo.{FileInfo}
use p2p_distributed_file_sha.Disk.{FileSystem}
use p2p_distributed_file_sha.Client.ByteOrder.{ByteOrder}
use p2p_distributed_file_sha.Client.Pieces.{
  global_piece_size, piece_at, calculate_piece_sha, calculate_full_file_sha,
}
use p2p_distributed_file_sha.Client.Pieces.Cut.{get_elem?-calculate_piece_sha}
use p2p_distributed_file_sha.Client.Downloading.{
  Task, ends, status, create_file, run_tasks, first_failed, recorded_only, destination, finish,
  compare_full, judge, assemble, prepare, ask_tracker, read_info, read_reply, split_last,
  receive_full_file_data, file_download_command,
}
use p2p_distributed_file_sha.Client.Downloading.Places.{get_elem?-piece_at}
use p2p_distributed_file_sha.Client.Downloading.Assembly.{AllSucceeded, Covers}
use p2p_distributed_file_sha.Client.Downloading.OneSeeder.{AllServed, download_completes}

-- A piece of the text that is not the piece of the file, but has its hash.
abbrev pub Forged : (Text → Text) → Text → Text → Type 0
Forged sha w g =
    (i : ℕ) × (piece_at global_piece_size i g ≢ piece_at global_piece_size i w)
    × (sha (piece_at global_piece_size i g) ≡ sha (piece_at global_piece_size i w))

some_inj {ℓ} : {A : Type ℓ} (x y : A) → some x ≡ some y → x ≡ y
some_inj x y e = cc

module _ (sha : Text → Text) (g w : Text) (long : length g ≡ length w)
    (same : calculate_piece_sha sha g global_piece_size
      ≡ calculate_piece_sha sha w global_piece_size) where
  same_hash :
      (i : ℕ)
      → i * global_piece_size < length w
      → sha (piece_at global_piece_size i g) ≡ sha (piece_at global_piece_size i w)
  same_hash i inside =
      let in_w : ltb (i * global_piece_size) (length w) ≡ true = ground arith in
      let in_g : ltb (i * global_piece_size) (length g) ≡ true = ground arith in
      some_inj _ _ (
        ap (λ b. if b then some (sha (piece_at global_piece_size i g)) else none) (sym in_g)
        ∙ sym (get_elem?-calculate_piece_sha sha g global_piece_size i (omega arith))
        ∙ ap (λ l. get_elem? l i) same
        ∙ get_elem?-calculate_piece_sha sha w global_piece_size i (omega arith)
        ∙ ap (λ b. if b then some (sha (piece_at global_piece_size i w)) else none) in_w)

  -- The first pieces are the same, or one of them is forged.
  same_pieces :
      (n : ℕ)
      → ((i : ℕ)
          → i < n
          → i * global_piece_size < length w
          → piece_at global_piece_size i g ≡ piece_at global_piece_size i w)
        ⊎ Forged sha w g
  same_pieces zero = inl (λ i before inside. absurd (omega arith))
  same_pieces (suc n) =
      elim (Bool-cases (piece_at global_piece_size n g == piece_at global_piece_size n w)) [
        | inl e ↦ elim (same_pieces n) [
          | inl below ↦ inl (λ i before inside. elim (Bool-cases (eqb i n)) [
            | inl last ↦
                subst (λ k. piece_at global_piece_size k g ≡ piece_at global_piece_size k w)
                  (sym ((eqb_iff i n).0 last))
                  ((==_iff (piece_at global_piece_size n g) (piece_at global_piece_size n w)).0 e)
            | inr other ↦
                let apart : i ≢ n = λ d. cc (other, (eqb_iff i n).1 d) in
                below i (grind arith) inside
          ])
          | inr forged ↦ inr forged
        ]
        | inr differ ↦ elim (Bool-cases (ltb (n * global_piece_size) (length w))) [
          | inl inside ↦ inr (
            n,
            (λ d. cc (
              differ,
              (==_iff (piece_at global_piece_size n g) (piece_at global_piece_size n w)).1 d,
            )),
            same_hash n (ground arith),
          )
          | inr outside ↦ elim (same_pieces n) [
            | inl below ↦ inl (λ i before inside. below i (ground arith) inside)
            | inr forged ↦ inr forged
          ]
        ]
      ]

  -- The hashes of the pieces, with the length, determine the file, if no piece is forged.
  pub calculate_piece_sha_inj : (g ≡ w) ⊎ Forged sha w g
  calculate_piece_sha_inj = elim (same_pieces (suc (length w))) [
    | inr forged ↦ inr forged
    | inl pieces ↦ inl (
        list_ext g w long (λ k h.
          let i = k / global_piece_size in
          let r = k % global_piece_size in
          let e : i * global_piece_size + r ≡ k = omega arith in
          let fits : r < global_piece_size = omega arith in
          let inside : i * global_piece_size < length w = omega arith in
          ap (get_elem? g) (sym e)
          ∙ sym (get_elem?-piece_at global_piece_size i r g fits)
          ∙ ap (λ p. get_elem? p r) (pieces i (omega arith) inside)
          ∙ get_elem?-piece_at global_piece_size i r w fits
          ∙ ap (get_elem? w) e))
  ]

pub no_failure :
    (recorded : ℕ → Bool) (results : List (ℕ × Bool))
    → AllSucceeded results
    → first_failed (recorded_only recorded results) ≡ none
unfolding first_failed recorded_only
no_failure recorded [] h = refl
no_failure recorded ((index, success) ∷ results) h =
    ground (arith, no_failure recorded results h.1, h.0)

-- What is said to the tracker at the end.
abbrev pub update_line : FileInfo → Text → Text
update_line info saved_full_path =
    codes "update_file_info " ++ (info.group ++ b' ' ∷ (info.name ++ b' ' ∷ saved_full_path))

module _ (sha : Text → Text) (o : ByteOrder) (is_directory : Text → Bool) (creatable : Text → Bool)
    (real_path : Text → Text) (finished : List Task) (recorded : ℕ → Bool) (response : Text)
    (disk : FileSystem) (info : FileInfo) (command tail : Text) (sent : List Text) where
  read_record :
      (t : Text)
      → t ≢ []
      → from_string t ≡ some info
      → read_info sha o is_directory creatable real_path finished recorded response disk tail
          (command ∷ sent)
          t
        ≡ prepare sha o is_directory creatable real_path finished recorded response disk tail
            (command ∷ sent)
            (some info)
  unfolding read_info
  read_record [] h e = absurd (h refl)
  read_record (c ∷ t) h e = rw e refl

  -- The tracker's record comes in as it is.
  pub command_prepares :
      (ack_sends : Bool) (tracker : Reply) (line message reply text : Text)
      → split_last line ≡ some (command, tail)
      → receive_full_file_data o ack_sends tracker ≡ (sent, message)
      → trim_whitespace message ≡ codes "file_data " ++ reply
      → trim_whitespace reply ≡ text
      → text ≢ []
      → from_string text ≡ some info
      → file_download_command sha o is_directory creatable real_path finished recorded response disk
          ack_sends tracker line
        ≡ prepare sha o is_directory creatable real_path finished recorded response disk tail
            (command ∷ sent)
            (some info)
  unfolding file_download_command ask_tracker read_reply behind_blank split_at after_first
  command_prepares ack_sends tracker line message reply text asks arrives whole record_in
        some_record parses =
      ap
        (ask_tracker sha o is_directory creatable real_path finished recorded response disk
          ack_sends tracker)
        asks
      ∙ ap
          (λ r.
            read_reply sha o is_directory creatable real_path finished recorded response disk tail
              (command ∷ r.0) (trim_whitespace r.1))
          arrives
      ∙ ap
          (read_reply sha o is_directory creatable real_path finished recorded response disk tail
            (command ∷ sent))
          whole
      ∙ rw record_in (read_record text some_record parses)

module _ (sha : Text → Text) (o : ByteOrder) (is_directory : Text → Bool) (creatable : Text → Bool)
    (real_path : Text → Text) (finished : List Task) (recorded : ℕ → Bool) (response : Text)
    (disk : FileSystem) (w : Text) (info : FileInfo) (size : info.size ≡ length w)
    (cut : info.piece_size ≡ global_piece_size)
    (hashes : info.piece_sha ≡ calculate_piece_sha sha w global_piece_size)
    (full : info.full_sha ≡ calculate_full_file_sha sha w) (small_file : length w < 2 ^ 49)
    (user path : Text) (address : Address) (fs : FileSystem) (j : ℕ)
    (listed : get_elem? info.seeder_users j ≡ some (user, address))
    (at_path : Map.get user info.user_file_map ≡ some path) (readable : IsToken path)
    (present : Map.get path fs ≡ some w) (covers : Covers info finished)
    (served : AllServed o fs address finished)
    (accepted : after_first (codes "Failed") response ≡ none) (ack_sends : Bool) (tracker : Reply)
    (sent : List Text) (line command tail message reply text : Text)
    (asks : split_last line ≡ some (command, tail))
    (can_create : creatable (destination is_directory info.name tail) ≡ true)
    (arrives : receive_full_file_data o ack_sends tracker ≡ (sent, message))
    (whole : trim_whitespace message ≡ codes "file_data " ++ reply)
    (record_in : trim_whitespace reply ≡ text) (some_record : text ≢ [])
    (parses : from_string text ≡ some info) where
  -- The destination after the tasks.
  abbrev assembled : Text
  assembled =
      (run_tasks sha o info finished
        (create_file info.size (Map.get (destination is_directory info.name tail) disk))).0

  completes :
      (AllSucceeded
        (run_tasks sha o info finished
          (create_file info.size (Map.get (destination is_directory info.name tail) disk))).1)
      × (length assembled ≡ info.size)
      × (calculate_piece_sha sha assembled info.piece_size ≡ info.piece_sha)
  completes =
      download_completes sha o w info size cut hashes small_file user path address fs j listed
        at_path readable present finished (Map.get (destination is_directory info.name tail) disk)
        covers served

  original : (assembled ≡ w) ⊎ Forged sha w assembled
  original =
      calculate_piece_sha_inj sha assembled w (completes.1 ∙ size)
        (ap (calculate_piece_sha sha assembled) (sym cut) ∙ completes.2 ∙ hashes)

  prepared :
      assembled ≡ w
      → prepare sha o is_directory creatable real_path finished recorded response disk tail
          (command ∷ sent)
          (some info)
        ≡ ends response
            (status (codes "[C]") info)
            true
            ((command ∷ sent)
              ++ update_line info (real_path (destination is_directory info.name tail)) ∷ [])
            (Map.put (destination is_directory info.name tail) w disk)
  unfolding prepare assemble judge compare_full finish
  prepared same =
      let judged =
        ap
          (judge sha o is_directory creatable real_path finished recorded response disk info
            (destination is_directory info.name tail) (command ∷ sent) assembled)
          (no_failure recorded _ completes.0) in
      rw can_create (judged ∙ rw (same, full, ==_refl (sha w), accepted) refl)

  -- If one seeder of the record answers as this client does from files among which is the file,
  -- all tasks have written their piece when the file is hashed, and the tracker's answer at the
  -- end says nothing of a failure, then the download command, given the tracker's record of the
  -- file, acknowledges it, writes the file's very bytes to the destination, reports [C] and tells
  -- the tracker of the new path, whichever results are recorded by the verdict; or a piece of the
  -- destination is not the one of the file, but has its hash.
  pub download_delivers :
      (file_download_command sha o is_directory creatable real_path finished recorded response disk
          ack_sends tracker line
        ≡ ends response
            (status (codes "[C]") info)
            true
            ((command ∷ sent)
              ++ update_line info (real_path (destination is_directory info.name tail)) ∷ [])
            (Map.put (destination is_directory info.name tail) w disk))
      ⊎ Forged sha w
          (run_tasks sha o info finished
            (create_file info.size (Map.get (destination is_directory info.name tail) disk))).0
  download_delivers = elim original [
    | inr forged ↦ inr forged
    | inl same ↦ inl (
        command_prepares sha o is_directory creatable real_path finished recorded response disk info
          command tail sent ack_sends tracker line message reply text asks arrives whole record_in
          some_record parses
        ∙ prepared same)
  ]
