-- ===== src/Client/Downloading/Places.antt =====
-- The pieces of a file after `write_content` has put one of them into its place.
use p2p_distributed_file_sha.Prelude.{
  ℕ, ◌+◌, ◌-◌, ◌*◌, ◌^◌, ◌≤◌, ◌<◌, ◌≡◌, ◌≢◌, ◌⊎◌, ap, sym, subst, ◌∙◌, inl, inr, Bool-cases, arith,
  length, length-take-add, length-take-le, length-drop, drop, get_elem?, list_ext, ltb,
  if◌then◌else◌,
}
use p2p_distributed_file_sha.Text.{Text}
use p2p_distributed_file_sha.Disk.Bytes.{get_elem?-drop, get_elem?-take}
use p2p_distributed_file_sha.Client.Pieces.{global_piece_size, piece_at}
use p2p_distributed_file_sha.Client.Pieces.Cut.{length-piece_at}
use p2p_distributed_file_sha.Client.Fetching.{expected_size}
use p2p_distributed_file_sha.Client.Fetching.Writing.{
  Written, byte_inside, byte_before, byte_behind,
}

pub get_elem?-piece_at :
    (ps i k : ℕ) (s : Text) → k < ps → get_elem? (piece_at ps i s) k ≡ get_elem? s (i * ps + k)
get_elem?-piece_at ps i k s h =
    get_elem?-take ps k (drop (i * ps) s) h ∙ get_elem?-drop (i * ps) k s

-- The number of bytes of a piece of a file of this size.
abbrev pub size_at : ℕ → ℕ → ℕ
size_at size i =
    if ltb (i * global_piece_size + global_piece_size) size
    then global_piece_size
    else size - i * global_piece_size

pub expected_size-size_at :
    (size i : ℕ)
    → size < 2 ^ 49
    → i * global_piece_size < size
    → expected_size size global_piece_size i ≡ size_at size i
unfolding expected_size
expected_size-size_at size i small inside = ground arith

pub length-piece_at_le : (ps i : ℕ) (s : Text) → length (piece_at ps i s) ≤ ps
length-piece_at_le ps i s = length-take-le ps (drop (i * ps) s)

length-piece_at_same :
    (ps i : ℕ) (s t : Text)
    → length s ≡ length t
    → length (piece_at ps i s) ≡ length (piece_at ps i t)
length-piece_at_same ps i s t e =
    let rest_s = drop (i * ps) s in
    let rest_t = drop (i * ps) t in
    let d : length rest_s ≡ length rest_t =
      length-drop (i * ps) s ∙ ap (λ n. n - i * ps) e ∙ sym (length-drop (i * ps) t) in
    omega (arith, length-take-add ps rest_s, length-take-add ps rest_t, d)

apart : (i j : ℕ) → j ≢ i → (j < i) ⊎ (i < j)
apart i j other = elim (Bool-cases (ltb j i)) [
  | inl lower ↦ inl (ground arith)
  | inr higher ↦ inr (ground arith)
]

module _ (i : ℕ) (new f g : Text) (e : length new ≡ size_at (length f) i)
    (w : Written (i * global_piece_size) new f g) (inside : i * global_piece_size < length f) where
  small : length new ≤ global_piece_size
  small =
      subst (λ n. n ≤ global_piece_size) (length-piece_at global_piece_size i f inside ∙ sym e)
        (length-piece_at_le global_piece_size i f)

  -- The piece that is written stands in its place.
  pub written_here : piece_at global_piece_size i g ≡ new
  written_here =
      let size : length (piece_at global_piece_size i g) ≡ length new =
        length-piece_at_same global_piece_size i g f w.same_length
        ∙ length-piece_at global_piece_size i f inside
        ∙ sym e in
      list_ext (piece_at global_piece_size i g) new size (λ k h.
        get_elem?-piece_at global_piece_size i k g (omega (arith, small))
        ∙ byte_inside (i * global_piece_size) new f g w k (omega arith))

  -- The other pieces are as before.
  pub written_elsewhere :
      (j : ℕ) → j ≢ i → piece_at global_piece_size j g ≡ piece_at global_piece_size j f
  written_elsewhere j other =
      list_ext (piece_at global_piece_size j g) (piece_at global_piece_size j f)
        (length-piece_at_same global_piece_size j g f w.same_length)
        (λ k h.
          let fits : k < global_piece_size =
            omega (arith, length-piece_at_le global_piece_size j g) in
          get_elem?-piece_at global_piece_size j k g fits
          ∙ elim (apart i j other) [
            | inl lower ↦
                byte_before (i * global_piece_size) new f g w (j * global_piece_size + k)
                  (omega arith)
            | inr higher ↦
                byte_behind (i * global_piece_size) new f g w (j * global_piece_size + k)
                  (omega (arith, small))
          ]
          ∙ sym (get_elem?-piece_at global_piece_size j k f fits))
