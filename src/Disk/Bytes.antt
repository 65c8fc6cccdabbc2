-- ===== src/Disk/Bytes.antt =====
-- Each byte of a file after `ftruncate` and after a write.
use p2p_distributed_file_sha.Prelude.{
  ℕ, zero, suc, ◌+◌, ◌≤◌, ◌<◌, ◌≡◌, refl, ap, sym, ◌∙◌, [], ◌∷◌, ◌++◌, arith, length, length-append,
  length-drop, take, drop, get_elem?,
}
use p2p_distributed_file_sha.Text.{Text}
use p2p_distributed_file_sha.Disk.{resize, write_at}

pub length-resize : (n : ℕ) (s : Text) → length (resize n s) ≡ n
unfolding resize
length-resize zero s = refl
length-resize (suc n) [] = omega (arith, length-resize n [])
length-resize (suc n) (c ∷ s) = omega (arith, length-resize n s)

-- A write that begins within the file keeps the bytes in front of it.
pub resize_within : (n : ℕ) (s : Text) → n ≤ length s → resize n s ≡ take n s
unfolding resize
resize_within zero s h = refl
resize_within (suc n) [] h = absurd (omega arith)
resize_within (suc n) (c ∷ s) h = ap (◌∷◌ c) (resize_within n s (omega arith))

pub get_elem?-drop : (n i : ℕ) (s : Text) → get_elem? (drop n s) i ≡ get_elem? s (n + i)
get_elem?-drop zero i s = ground arith
get_elem?-drop (suc n) i [] = refl
get_elem?-drop (suc n) i (c ∷ s) = ground (arith, get_elem?-drop n i s)

pub get_elem?-take : (n i : ℕ) (s : Text) → i < n → get_elem? (take n s) i ≡ get_elem? s i
get_elem?-take zero i s h = absurd (omega arith)
get_elem?-take (suc n) i [] h = refl
get_elem?-take (suc n) zero (c ∷ s) h = refl
get_elem?-take (suc n) (suc i) (c ∷ s) h = get_elem?-take n i s (omega arith)

pub get_elem?-append_left :
    (s t : Text) (i : ℕ) → i < length s → get_elem? (s ++ t) i ≡ get_elem? s i
get_elem?-append_left [] t i h = absurd (omega arith)
get_elem?-append_left (c ∷ s) t zero h = refl
get_elem?-append_left (c ∷ s) t (suc i) h = get_elem?-append_left s t i (omega arith)

pub get_elem?-append_right :
    (s t : Text) (i : ℕ) → get_elem? (s ++ t) (length s + i) ≡ get_elem? t i
get_elem?-append_right [] t i = ground arith
get_elem?-append_right (c ∷ s) t i = ground (arith, get_elem?-append_right s t i)

module _ (offset : ℕ) (new old : Text) (h : offset + length new ≤ length old) where
  pub length-write_at : length (write_at offset new old) ≡ length old
  unfolding write_at
  length-write_at = omega (
    arith,
    length-append (resize offset old) (new ++ drop (offset + length new) old),
    length-append new (drop (offset + length new) old),
    length-resize offset old,
    length-drop (offset + length new) old,
  )

  pub write_at_before :
      (i : ℕ) → i < offset → get_elem? (write_at offset new old) i ≡ get_elem? old i
  unfolding write_at
  write_at_before i k =
      get_elem?-append_left (resize offset old) _ i (omega (arith, length-resize offset old))
      ∙ ap (λ s. get_elem? s i) (resize_within offset old (omega arith))
      ∙ get_elem?-take offset i old k

  pub write_at_inside :
      (i : ℕ) → i < length new → get_elem? (write_at offset new old) (offset + i) ≡ get_elem? new i
  unfolding write_at
  write_at_inside i k =
      ap (λ n. get_elem? (write_at offset new old) (n + i)) (sym (length-resize offset old))
      ∙ get_elem?-append_right (resize offset old) (new ++ drop (offset + length new) old) i
      ∙ get_elem?-append_left new (drop (offset + length new) old) i k

  pub write_at_behind :
      (i : ℕ)
      → get_elem? (write_at offset new old) (offset + (length new + i))
        ≡ get_elem? old (offset + (length new + i))
  unfolding write_at
  write_at_behind i =
      ap (λ n. get_elem? (write_at offset new old) (n + (length new + i)))
        (sym (length-resize offset old))
      ∙ get_elem?-append_right (resize offset old) (new ++ drop (offset + length new) old)
          (length new + i)
      ∙ get_elem?-append_right new (drop (offset + length new) old) i
      ∙ get_elem?-drop (offset + length new) i old
      ∙ ap (get_elem? old) (omega arith)
