-- ===== src/Client/Downloading/Recorded.antt =====
-- One task of a download whose record is the one of a file.
use p2p_distributed_file_sha.Prelude.{
  ℕ, ◌+◌, ◌*◌, ◌^◌, ◌≤◌, ◌<◌, ◌≡◌, ◌≢◌, ◌⊎◌, refl, ap, sym, subst, ◌∙◌, inl, inr, Bool-cases, true,
  Option, none, some, [], ◌∷◌, arith, length, get_elem?, get_or, eqb, ltb, if◌then◌else◌, eqb_iff,
}
use p2p_distributed_file_sha.Text.{Text, ==_iff}
use p2p_distributed_file_sha.FileInfo.{FileInfo}
use p2p_distributed_file_sha.Client.ByteOrder.{ByteOrder}
use p2p_distributed_file_sha.Client.Pieces.{
  global_piece_size, piece_at, calculate_sha, calculate_piece_sha,
}
use p2p_distributed_file_sha.Client.Pieces.Cut.{get_elem?-calculate_piece_sha}
use p2p_distributed_file_sha.Client.Fetching.{
  choose_piece, write_chosen, download_piece, expected_size, write_content,
}
use p2p_distributed_file_sha.Client.Fetching.Choice.{choose_piece-Fits}
use p2p_distributed_file_sha.Client.Fetching.Writing.{Written, write_content-Written}
use p2p_distributed_file_sha.Client.Downloading.Places.{
  size_at, expected_size-size_at, written_here, written_elsewhere,
}
use p2p_distributed_file_sha.Client.Downloading.{Task, wanted_piece, run_task}

pub hash_of_some : (sha : Text → Text) (p : Text) → 0 < length p → calculate_sha sha p ≡ sha p
unfolding calculate_sha
hash_of_some sha [] h = absurd (omega arith)
hash_of_some sha (c ∷ p) h = refl

pub size_at-positive : (n i : ℕ) → i * global_piece_size < n → 0 < size_at n i
size_at-positive n i h = ground arith

size_at-inside : (n i : ℕ) → i * global_piece_size < n → i * global_piece_size + size_at n i ≤ n
size_at-inside n i h = ground arith

module _ (sha : Text → Text) (w : Text) where
  -- The hash of this piece is the one of the file that is on record.
  abbrev pub HasPiece : ℕ → Text → Type 0
  HasPiece i g = sha (piece_at global_piece_size i g) ≡ sha (piece_at global_piece_size i w)

  -- What a task that succeeds has written.
  pub record Downloaded (i : ℕ) (f g : Text) : Type 0 where
    pub piece : Text
    pub written : Written (i * global_piece_size) piece f g
    pub has_size : length piece ≡ size_at (length w) i
    pub has_hash : sha piece ≡ sha (piece_at global_piece_size i w)

  pub keeps_length : (i : ℕ) (f g : Text) → Downloaded i f g → length g ≡ length f
  keeps_length i f g d = d.written.same_length

  -- A task that succeeds gives its piece and takes away none.
  pub keeps_piece :
      (task : ℕ) (i : ℕ) (f g : Text)
      → length f ≡ length w
      → task * global_piece_size < length w
      → Downloaded task f g
      → (i ≡ task) ⊎ HasPiece i f
      → HasPiece i g
  keeps_piece task i f g same inside d h =
      let long = d.has_size ∙ ap (λ n. size_at n task) (sym same) in
      let in_f : task * global_piece_size < length f = rw same inside in
      elim (Bool-cases (eqb i task)) [
        | inl here ↦
            subst (λ j. HasPiece j g) (sym ((eqb_iff i task).0 here))
              (ap sha (written_here task d.piece f g long d.written in_f) ∙ d.has_hash)
        | inr elsewhere ↦
            let other : i ≢ task = λ e. cc (elsewhere, (eqb_iff i task).1 e) in
            elim h [
              | inl e ↦ absurd (other e)
              | inr p ↦ ap sha (written_elsewhere task d.piece f g long d.written in_f i other) ∙ p
            ]
      ]

module _ (sha : Text → Text) (o : ByteOrder) (w : Text) (info : FileInfo)
    (size : info.size ≡ length w) (cut : info.piece_size ≡ global_piece_size)
    (hashes : info.piece_sha ≡ calculate_piece_sha sha w global_piece_size)
    (small_file : length w < 2 ^ 49) where
  -- What is wanted for a piece is its hash and its size.
  pub hash_on_record :
      (i : ℕ)
      → i * global_piece_size < length w
      → (wanted_piece info i).piece_sha ≡ sha (piece_at global_piece_size i w)
  unfolding wanted_piece
  hash_on_record i inside =
      let inside_w : ltb (i * global_piece_size) (length w) ≡ true = ground arith in
      ap (λ l. get_or (get_elem? l i) []) hashes
      ∙ ap (λ m. get_or m [])
          (get_elem?-calculate_piece_sha sha w global_piece_size i (omega arith))
      ∙ ap (λ b. get_or (if b then some (sha (piece_at global_piece_size i w)) else none) [])
          inside_w

  pub expected_on_record :
      (i : ℕ)
      → i * global_piece_size < length w
      → expected_size info.size info.piece_size i ≡ size_at (length w) i
  expected_on_record i inside =
      rw (size, cut) (expected_size-size_at (length w) i small_file inside)

  write_chosen-Downloaded :
      (task : Task) (f g : Text) (choice : Option Text)
      → length f ≡ length w
      → task.index * global_piece_size < length w
      → choose_piece sha o task.network (wanted_piece info task.index) info.seeder_users ≡ choice
      → write_chosen (wanted_piece info task.index) task.results f choice ≡ (g, true)
      → Downloaded sha w task.index f g
  unfolding write_chosen wanted_piece
  write_chosen-Downloaded task f g none same inside found e = cc
  write_chosen-Downloaded task f g (some p) same inside found e =
      let fits =
        choose_piece-Fits sha o task.network (wanted_piece info task.index) info.seeder_users p
          found in
      let long : length p ≡ size_at (length w) task.index =
        fits.0 ∙ expected_on_record task.index inside in
      let some_bytes : 0 < length p =
        subst (λ n. 0 < n) (sym long) (size_at-positive (length w) task.index inside) in
      let room : task.index * global_piece_size + length p ≤ length f =
        rw (same, long) (size_at-inside (length w) task.index inside) in
      let at_its_place =
        subst (λ ps. write_content task.results task.index p ps f ≡ (g, true)) cut e in
      record {
        piece = p;
        written =
            write_content-Written task.results task.index global_piece_size p f g room at_its_place;
        has_size = long;
        has_hash =
            sym (hash_of_some sha p some_bytes)
            ∙ (==_iff (calculate_sha sha p) (wanted_piece info task.index).piece_sha).0 fits.1
            ∙ hash_on_record task.index inside;
      }

  pub run_task-Downloaded :
      (task : Task) (f g : Text)
      → length f ≡ length w
      → task.index * global_piece_size < length w
      → run_task sha o info task f ≡ (g, true)
      → Downloaded sha w task.index f g
  unfolding run_task download_piece
  run_task-Downloaded task f g same inside e = write_chosen-Downloaded task f g _ same inside refl e
