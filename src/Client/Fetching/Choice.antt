-- ===== src/Client/Fetching/Choice.antt =====
-- The seeder whose piece `download_piece` takes.
use p2p_distributed_file_sha.Prelude.{
  ℕ, zero, suc, ◌+◌, ◌-◌, ◌%◌, ◌<◌, ◌≡◌, refl, ap, subst, ◌∙◌, inl, inr, Bool-cases, Option-cases,
  true, Option, none, some, arith, length, get_elem?, ltb,
}
use p2p_distributed_file_sha.Text.{Text, ◌==◌}
use p2p_distributed_file_sha.Address.{Address}
use p2p_distributed_file_sha.Map
use p2p_distributed_file_sha.Map.{Map}
use p2p_distributed_file_sha.Client.Seeding.{piece_request}
use p2p_distributed_file_sha.Client.ByteOrder.{ByteOrder}
use p2p_distributed_file_sha.Client.Pieces.{calculate_sha}
use p2p_distributed_file_sha.Client.Pieces.Cut.{is_some-get_elem?}
use p2p_distributed_file_sha.Client.Fetching.{
  Network, Wanted, receive_piece, expected_size, check_sha, fetch, fetch_from, try_seeders,
  choose_piece,
}
use p2p_distributed_file_sha.Client.Fetching.Receiving.{length-receive_piece}

-- Every seeder has its turn.
turn_of : (start j n : ℕ) → j < n → start < n → (i : ℕ) × (i < n) × ((start + i) % n ≡ j)
turn_of start j n h k = elim (Bool-cases (ltb j start)) [
  | inl wrapped ↦
      let e : start + (j + n - start) ≡ j + n = ground arith in
      (j + n - start, ground arith, rw e (grind arith))
  | inr ahead ↦
      let e : start + (j - start) ≡ j = ground arith in
      (j - start, ground arith, rw e (grind arith))
]

module _ (sha : Text → Text) (o : ByteOrder) (network : Network) (wanted : Wanted) where
  -- What a seeder gives has the size and the hash of the piece.
  abbrev pub Fits : Text → Type 0
  Fits p =
      (length p ≡ expected_size wanted.total_size wanted.piece_size wanted.piece_index)
      × ((calculate_sha sha p == wanted.piece_sha) ≡ true)

  check_sha-Fits :
      (r : Option Text) (p : Text)
      → ((q : Text)
          → r ≡ some q
          → length q ≡ expected_size wanted.total_size wanted.piece_size wanted.piece_index)
      → check_sha sha o network wanted r ≡ some p
      → Fits p
  unfolding check_sha
  check_sha-Fits none p size h = cc
  check_sha-Fits (some q) p size h = ground (arith, size q)

  fetch-Fits :
      (seeder : Text × Address) (p : Text) → fetch sha o network wanted seeder ≡ some p → Fits p
  unfolding fetch
  fetch-Fits (seeder, address) p h = check_sha-Fits _ p (length-receive_piece o _ _) h

  -- A seeder that gives the piece, at the path that is known for it.
  pub fetch_whole :
      (user : Text) (address : Address) (path p : Text)
      → Map.get user wanted.file_paths ≡ some path
      → receive_piece o
          (network address (piece_request path wanted.piece_index))
          (expected_size wanted.total_size wanted.piece_size wanted.piece_index)
        ≡ some p
      → (calculate_sha sha p == wanted.piece_sha) ≡ true
      → fetch sha o network wanted (user, address) ≡ some p
  unfolding fetch check_sha
  fetch_whole user address path p at_path received same = rw (at_path, received, same) refl

  fetch_from-Fits :
      (seeder : Option (Text × Address)) (p : Text)
      → fetch_from sha o network wanted seeder ≡ some p
      → Fits p
  fetch_from-Fits none p h = cc
  fetch_from-Fits (some seeder) p h = fetch-Fits seeder p h

  try_seeders-Fits :
      (rounds start : ℕ) (seeders : Map Address) (p : Text)
      → try_seeders sha o network wanted rounds start seeders ≡ some p
      → Fits p
  unfolding try_seeders
  try_seeders-Fits zero start seeders p h = cc
  try_seeders-Fits (suc rounds) start seeders p h =
      let tried = fetch_from sha o network wanted (get_elem? seeders (start % length seeders)) in
      elim (Option-cases tried) [
        | inl nothing ↦
            try_seeders-Fits rounds (start + 1) seeders p (rw (nothing, try_seeders) at h)
        | inr (q, e) ↦ fetch_from-Fits _ p (e ∙ (rw (e, try_seeders) at h))
      ]

  -- The rounds that find nothing have asked each of the seeders in their turn.
  try_seeders_in_vain :
      (rounds start : ℕ) (seeders : Map Address)
      → try_seeders sha o network wanted rounds start seeders ≡ none
      → (i : ℕ) → i < rounds
      → fetch_from sha o network wanted (get_elem? seeders ((start + i) % length seeders)) ≡ none
  unfolding try_seeders
  try_seeders_in_vain zero start seeders h i k = absurd (omega arith)
  try_seeders_in_vain (suc rounds) start seeders h zero k =
      let e : start + 0 ≡ start = omega arith in
      let tried = fetch_from sha o network wanted (get_elem? seeders (start % length seeders)) in
      rw e (elim (Option-cases tried) [
        | inl nothing ↦ nothing
        | inr (q, found) ↦ cc (rw (found, try_seeders) at h)
      ])
  try_seeders_in_vain (suc rounds) start seeders h (suc i) k =
      let e : start + 1 + i ≡ start + suc i = omega arith in
      let tried = fetch_from sha o network wanted (get_elem? seeders (start % length seeders)) in
      rw (← e) (elim (Option-cases tried) [
        | inl nothing ↦
            try_seeders_in_vain rounds (start + 1) seeders (rw (nothing, try_seeders) at h) i
              (omega arith)
        | inr (q, found) ↦ cc (rw (found, try_seeders) at h)
      ])

  -- Where no piece is chosen, none of the seeders gives one.
  nothing_chosen :
      (seeders : Map Address)
      → choose_piece sha o network wanted seeders ≡ none
      → (j : ℕ) → j < length seeders
      → fetch_from sha o network wanted (get_elem? seeders j) ≡ none
  unfolding choose_piece
  nothing_chosen seeders h j k =
      let n = length seeders in
      let start = wanted.piece_index % n in
      let (i, in_range, e) = turn_of start j n k (omega arith) in
      subst (λ t. fetch_from sha o network wanted (get_elem? seeders t) ≡ none) e
        (try_seeders_in_vain n start seeders h i in_range)

  -- A piece is chosen as soon as one of the seeders, whichever it is, gives one.
  pub choose_piece_found :
      (seeders : Map Address) (j : ℕ) (seeder : Text × Address) (p : Text)
      → get_elem? seeders j ≡ some seeder
      → fetch sha o network wanted seeder ≡ some p
      → (q : Text) × (choose_piece sha o network wanted seeders ≡ some q)
  choose_piece_found seeders j seeder p at_j gives =
      elim (Option-cases (choose_piece sha o network wanted seeders)) [
        | inr found ↦ found
        | inl nothing ↦
            let k : j < length seeders = ground (arith, is_some-get_elem? seeders j) in
            absurd
              (cc (nothing_chosen seeders nothing j k, ap (fetch_from sha o network wanted) at_j))
      ]

  -- The piece that a task takes from a seeder has the size and the hash that are wanted.
  pub choose_piece-Fits :
      (seeders : Map Address) (p : Text)
      → choose_piece sha o network wanted seeders ≡ some p
      → Fits p
  unfolding choose_piece
  choose_piece-Fits seeders p h = try_seeders-Fits _ _ seeders p h
