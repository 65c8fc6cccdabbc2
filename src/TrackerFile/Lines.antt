-- ===== src/TrackerFile/Lines.antt =====
-- The three loops on the bytes of the tracker file.
use p2p_distributed_file_sha.Prelude.{
  ℕ, zero, suc, ◌+◌, pos, ◌≡◌, refl, ap, ◌∙◌, Bool, true, false, List, [], ◌∷◌, ◌++◌, length,
  get_elem?, get_or, arith,
}
use p2p_distributed_file_sha.Text.{Text}
use p2p_distributed_file_sha.TrackerFile.{
  lines_from, last_line, find_line, read_file_by_line_number, count_lines, no_entries_in_file,
}

nonempty : Text → Bool
nonempty [] = false
nonempty (c ∷ s) = true

nonempty-append : (s : Text) (c : ℕ) → nonempty (s ++ c ∷ []) ≡ true
unfolding nonempty
nonempty-append [] c = refl
nonempty-append (d ∷ s) c = refl

count_lines-lines_from :
    (n : ℕ) (current s : Text)
    → count_lines n (nonempty current) s ≡ n + length (lines_from current s)
unfolding count_lines lines_from nonempty
count_lines-lines_from n [] [] = omega arith
count_lines-lines_from n (c ∷ current) [] = omega arith
count_lines-lines_from n [] (d ∷ s) =
    ground (arith, count_lines-lines_from (n + 1) [] s, count_lines-lines_from n (d ∷ []) s)
count_lines-lines_from n (c ∷ current) (d ∷ s) =
    ground (
      arith,
      count_lines-lines_from (n + 1) [] s,
      count_lines-lines_from n (c ∷ current ++ d ∷ []) s,
    )

find_line-lines_from :
    (k n : ℕ) (current s : Text)
    → find_line (n + suc k) n current s ≡ get_or (get_elem? (lines_from current s) k) []
unfolding find_line lines_from last_line
find_line-lines_from k n [] [] = ground arith
find_line-lines_from zero n (c ∷ current) [] = ground arith
find_line-lines_from (suc k) n (c ∷ current) [] = ground arith
find_line-lines_from zero n current (d ∷ s) =
    ground (arith, find_line-lines_from zero n (current ++ d ∷ []) s)
find_line-lines_from (suc k) n current (d ∷ s) =
    let e : n + suc (suc k) ≡ n + 1 + suc k = omega arith in
    let next = ap (λ m. find_line m (n + 1) [] s) e ∙ find_line-lines_from k (n + 1) [] s in
    ground (arith, next, find_line-lines_from (suc k) n (current ++ d ∷ []) s)

find_line_zero : (n : ℕ) (current s : Text) → find_line 0 n current s ≡ []
unfolding find_line last_line
find_line_zero n [] [] = refl
find_line_zero n (c ∷ current) [] = ground arith
find_line_zero n current (c ∷ s) =
    ground (arith, find_line_zero (n + 1) [] s, find_line_zero n (current ++ c ∷ []) s)

-- The lines of the file, as a list.
abbrev pub lines : Text → List Text
lines file = lines_from [] file

-- The line of this number is that item of the lines, or the empty text where there is none.
pub read_file_by_line_number-suc :
    (file : Text) (k : ℕ)
    → read_file_by_line_number file (pos (suc k)) ≡ get_or (get_elem? (lines file) k) []
unfolding read_file_by_line_number
read_file_by_line_number-suc file k =
    let e : suc k ≡ 0 + suc k = omega arith in
    ap (λ m. find_line m 0 [] file) e ∙ find_line-lines_from k 0 [] file

pub read_file_by_line_number-zero : (file : Text) → read_file_by_line_number file (pos 0) ≡ []
unfolding read_file_by_line_number
read_file_by_line_number-zero file = find_line_zero 0 [] file

pub no_entries_in_file-length : (file : Text) → no_entries_in_file file ≡ length (lines file)
unfolding no_entries_in_file nonempty
no_entries_in_file-length file = count_lines-lines_from 0 [] file ∙ omega arith
