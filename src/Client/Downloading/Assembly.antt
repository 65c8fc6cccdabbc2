-- ===== src/Client/Downloading/Assembly.antt =====
-- The destination of a download after its tasks, in whatever order they write.
use p2p_distributed_file_sha.Prelude.{
  ℕ, ◌*◌, ◌^◌, ◌<◌, ◌≡◌, ◌⊎◌, refl, ap, sym, ◌∙◌, inl, inr, Bool-cases, Bool, true, false, ◌||◌,
  Option, none, some, List, [], ◌∷◌, arith, All, length, get_elem?, is_some, list_ext_all, map, eqb,
  ltb, if◌then◌else◌, eqb_iff,
}
use p2p_distributed_file_sha.Text.{Text}
use p2p_distributed_file_sha.FileInfo.{FileInfo}
use p2p_distributed_file_sha.Disk.Bytes.{length-resize}
use p2p_distributed_file_sha.Client.ByteOrder.{ByteOrder}
use p2p_distributed_file_sha.Client.Pieces.{global_piece_size, piece_at, calculate_piece_sha}
use p2p_distributed_file_sha.Client.Pieces.Cut.{is_some-get_elem?, get_elem?-calculate_piece_sha}
use p2p_distributed_file_sha.Client.Downloading.{Task, create_file, run_task, run_tasks}
use p2p_distributed_file_sha.Client.Downloading.Recorded.{
  HasPiece, run_task-Downloaded, keeps_length, keeps_piece,
}

is_some_if {ℓ} : {A : Type ℓ} (b : Bool) (a : A) → is_some (if b then some a else none) ≡ b
is_some_if true a = refl
is_some_if false a = refl

if_same {ℓ} :
    {A : Type ℓ} (b : Bool) (x y : A)
    → (b ≡ true → x ≡ y)
    → (if b then some x else none) ≡ (if b then some y else none)
if_same true x y h = ap some (h refl)
if_same false x y h = refl

pub length-create_file : (size : ℕ) (old : Option Text) → length (create_file size old) ≡ size
unfolding create_file
length-create_file size none = length-resize size []
length-create_file size (some s) = length-resize size s

unfoldable pub mem_nat : ℕ → List ℕ → Bool
mem_nat i [] = false
mem_nat i (j ∷ l) = eqb i j || mem_nat i l

-- Each of the results is a success.
abbrev pub AllSucceeded : List (ℕ × Bool) → Type 0
AllSucceeded results = All (λ r. r.1 ≡ true) results

-- The tasks are for pieces of the file.
abbrev pub AllInside : Text → List Task → Type 0
AllInside w tasks = All (λ t. t.index * global_piece_size < length w) tasks

-- The tasks are for the pieces on record, in any order: `piece_order` has each index once, and the
-- threads end as they like.
abbrev pub Covers : FileInfo → List Task → Type 0
Covers info tasks = (i : ℕ) → mem_nat i (map (λ t. t.index) tasks) ≡ ltb i (length info.piece_sha)

module _ (sha : Text → Text) (o : ByteOrder) (w : Text) (info : FileInfo)
    (size : info.size ≡ length w) (cut : info.piece_size ≡ global_piece_size)
    (hashes : info.piece_sha ≡ calculate_piece_sha sha w global_piece_size)
    (small_file : length w < 2 ^ 49) where
  tasks_done :
      (tasks : List Task) (f : Text)
      → length f ≡ length w
      → AllInside w tasks
      → AllSucceeded (run_tasks sha o info tasks f).1
      → (length (run_tasks sha o info tasks f).0 ≡ length w)
        × ((i : ℕ)
            → HasPiece sha w i f ⊎ (mem_nat i (map (λ t. t.index) tasks) ≡ true)
            → HasPiece sha w i (run_tasks sha o info tasks f).0)
  unfolding run_tasks mem_nat
  tasks_done [] f same inside done = (same, λ i h. elim h [ inl p ↦ p | inr m ↦ absurd (cc m) ])
  tasks_done (task ∷ tasks) f same inside done =
      let r = run_task sha o info task f in
      let d =
        run_task-Downloaded sha o w info size cut hashes small_file task f r.0 same inside.0
          (ap (λ b. (r.0, b)) done.0) in
      let rest =
        tasks_done tasks r.0 (keeps_length sha w task.index f r.0 d ∙ same) inside.1 done.1 in
      (
        rest.0,
        λ i h. rest.1 i (elim h [
          | inl p ↦ inl (keeps_piece sha w task.index i f r.0 same inside.0 d (inr p))
          | inr m ↦ elim (Bool-cases (eqb i task.index)) [
            | inl here ↦ inl (
                keeps_piece sha w task.index i f r.0 same inside.0 d
                  (inl ((eqb_iff i task.index).0 here)))
            | inr later ↦ inr (ground arith)
          ]
        ]),
      )

  -- The pieces on record are those of the file.
  piece_count : (i : ℕ) → ltb i (length info.piece_sha) ≡ ltb (i * global_piece_size) (length w)
  piece_count i =
      sym (is_some-get_elem? info.piece_sha i)
      ∙ ap (λ l. is_some (get_elem? l i)) hashes
      ∙ ap is_some (get_elem?-calculate_piece_sha sha w global_piece_size i (omega arith))
      ∙ is_some_if (ltb (i * global_piece_size) (length w)) (sha (piece_at global_piece_size i w))

  pub all_inside :
      (tasks : List Task)
      → ((i : ℕ)
          → mem_nat i (map (λ t. t.index) tasks) ≡ true
          → ltb i (length info.piece_sha) ≡ true)
      → AllInside w tasks
  unfolding mem_nat
  all_inside [] h = tt
  all_inside (task ∷ tasks) h = (
    let itself = (eqb_iff task.index task.index).1 refl in
        let here = h task.index (ground arith) in
        let d = sym (piece_count task.index) ∙ here in ground arith,
    all_inside tasks (λ i m. h i (ground arith)),
  )

  same_hashes :
      (g : Text)
      → length g ≡ length w
      → ((i : ℕ) → i * global_piece_size < length w → HasPiece sha w i g)
      → calculate_piece_sha sha g info.piece_size ≡ info.piece_sha
  same_hashes g long has =
      ap (calculate_piece_sha sha g) cut
      ∙ list_ext_all (calculate_piece_sha sha g global_piece_size)
          (calculate_piece_sha sha w global_piece_size)
          (λ i.
            get_elem?-calculate_piece_sha sha g global_piece_size i (omega arith)
            ∙ ap
                (λ n.
                  if ltb (i * global_piece_size) n
                  then some (sha (piece_at global_piece_size i g))
                  else none)
                long
            ∙ if_same (ltb (i * global_piece_size) (length w))
                (sha (piece_at global_piece_size i g)) (sha (piece_at global_piece_size i w))
                (λ inside_w. has i (ground arith))
            ∙ sym (get_elem?-calculate_piece_sha sha w global_piece_size i (omega arith)))
      ∙ sym hashes

  -- A download with the record of a file of less than 2^49 bytes, in pieces of the global size:
  -- if the tasks are for the pieces on record and all succeed, then, whoever sent the pieces and
  -- in whatever order they were written, the destination has the size and the hashes of the
  -- pieces that are on record.
  pub download_assembles :
      (tasks : List Task) (old : Option Text)
      → Covers info tasks
      → AllSucceeded (run_tasks sha o info tasks (create_file info.size old)).1
      → (length (run_tasks sha o info tasks (create_file info.size old)).0 ≡ info.size)
        × (calculate_piece_sha sha
              (run_tasks sha o info tasks (create_file info.size old)).0
              info.piece_size
            ≡ info.piece_sha)
  download_assembles tasks old covers done =
      let created = length-create_file info.size old ∙ size in
      let inside = all_inside tasks (λ i m. sym (covers i) ∙ m) in
      let (long, has) = tasks_done tasks (create_file info.size old) created inside done in
      (
        long ∙ sym size,
        same_hashes _ long (λ i h.
            let inside_w : ltb (i * global_piece_size) (length w) ≡ true = ground arith in
            has i (inr (covers i ∙ piece_count i ∙ inside_w))),
      )
