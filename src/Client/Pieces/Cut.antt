-- ===== src/Client/Pieces/Cut.antt =====
-- The pieces of a file as its bytes are cut by `calculate_piece_SHA`.
use p2p_distributed_file_sha.Prelude.{
  ℕ, zero, suc, ◌+◌, ◌*◌, ◌-◌, ◌≤◌, ◌<◌, ◌≡◌, refl, ap, ◌∙◌, is_some, length-take-add,
  length-take-le, none, some, List, [], ◌∷◌, arith, length, length-drop, take, drop, drop-drop,
  get_elem?, map, ltb, if◌then◌else◌,
}
use p2p_distributed_file_sha.Text.{Text}
use p2p_distributed_file_sha.Client.Pieces.{read_pieces, piece_at, calculate_piece_sha}

piece_at-suc : (ps i : ℕ) (s : Text) → piece_at ps i (drop ps s) ≡ piece_at ps (suc i) s
piece_at-suc ps i s =
    let e : ps + i * ps ≡ suc i * ps = grind arith in
    ap (take ps) (drop-drop ps (i * ps) s ∙ ap (λ n. drop n s) e)

get_elem?-read_pieces :
    (fuel ps i : ℕ) (s : Text)
    → 0 < ps
    → length s ≤ fuel
    → get_elem? (read_pieces fuel ps s) i
      ≡ (if ltb (i * ps) (length s) then some (piece_at ps i s) else none)
unfolding read_pieces
get_elem?-read_pieces zero ps i [] p h = ground arith
get_elem?-read_pieces zero ps i (c ∷ s) p h = absurd (omega arith)
get_elem?-read_pieces (suc fuel) ps i [] p h = ground arith
get_elem?-read_pieces (suc fuel) ps zero (c ∷ s) p h =
    let e : 0 ≡ 0 * ps = omega arith in
    let whole = ap (λ n. take ps (drop n (c ∷ s))) e in ground arith
get_elem?-read_pieces (suc fuel) ps (suc i) (c ∷ s) p h =
    let e : suc i * ps ≡ ps + i * ps = grind arith in
    let rest = drop ps (c ∷ s) in
    let fits : length rest ≤ fuel = omega (arith, length-drop ps (c ∷ s)) in
    ground (
      arith,
      get_elem?-read_pieces fuel ps i rest p fits,
      length-drop ps (c ∷ s),
      piece_at-suc ps i (c ∷ s),
    )

get_elem?-map {ℓ κ} :
    {A : Type ℓ} {B : Type κ} (f : A → B) (xs : List A) (i : ℕ)
    → get_elem? (map f xs) i ≡ elim (get_elem? xs i) [ none ↦ none | some x ↦ some (f x) ]
get_elem?-map f [] i = refl
get_elem?-map f (x ∷ xs) zero = refl
get_elem?-map f (x ∷ xs) (suc i) = get_elem?-map f xs i

pub is_some-get_elem? {ℓ} :
    {A : Type ℓ} (xs : List A) (i : ℕ) → is_some (get_elem? xs i) ≡ ltb i (length xs)
is_some-get_elem? [] i = ground arith
is_some-get_elem? (x ∷ xs) zero = ground arith
is_some-get_elem? (x ∷ xs) (suc i) = is_some-get_elem? xs i ∙ ground arith

-- For a size of pieces that is not 0, the hashes of the pieces are those of the ranges of that
-- size, in their order: there is one for each index at which the file has a byte.
pub get_elem?-calculate_piece_sha :
    (sha : Text → Text) (s : Text) (ps i : ℕ)
    → 0 < ps
    → get_elem? (calculate_piece_sha sha s ps) i
      ≡ (if ltb (i * ps) (length s) then some (sha (piece_at ps i s)) else none)
unfolding calculate_piece_sha
get_elem?-calculate_piece_sha sha s ps i p = ground (
  arith,
  get_elem?-map sha (read_pieces (length s) ps s) i,
  get_elem?-read_pieces (length s) ps i s p (omega arith),
)

-- The length of a piece.
pub length-piece_at :
    (ps i : ℕ) (s : Text)
    → i * ps < length s
    → length (piece_at ps i s) ≡ (if ltb (i * ps + ps) (length s) then ps else length s - i * ps)
length-piece_at ps i s h = ground (
  arith,
  length-take-add ps (drop (i * ps) s),
  length-drop (i * ps) s,
  length-take-le ps (drop (i * ps) s),
)
