-- ===== src/Split/RoundTrip.antt =====
-- `join` and the calls that take a text apart together.
use p2p_distributed_file_sha.Prelude.{
  ℕ, ◌≡◌, ◌≢◌, refl, some, List, [], ◌∷◌, ◌++◌, arith, All, All-append,
}
use p2p_distributed_file_sha.Text.{Text}
use p2p_distributed_file_sha.Split.{getline, getlines, split_at, join}

-- The byte does not stand in the text.
abbrev pub Lacks : ℕ → Text → Type 0
Lacks sep = All (λ c. c ≢ sep)

module _ (sep : ℕ) where
  pub getline-append : (s rest : Text) → Lacks sep s → getline sep (s ++ sep ∷ rest) ≡ (s, rest)
  unfolding getline
  getline-append [] rest h = ground arith
  getline-append (c ∷ s) rest h = ground (arith, getline-append s rest h.1)

  pub getline_whole : (s : Text) → Lacks sep s → getline sep s ≡ (s, [])
  unfolding getline
  getline_whole [] h = refl
  getline_whole (c ∷ s) h = ground (arith, getline_whole s h.1)

  pub split_at-append :
      (s rest : Text) → Lacks sep s → split_at sep (s ++ sep ∷ rest) ≡ some (s, rest)
  unfolding split_at
  split_at-append [] rest h = ground arith
  split_at-append (c ∷ s) rest h = ground (arith, split_at-append s rest h.1)

  getlines-append :
      (s rest : Text) → Lacks sep s → getlines sep (s ++ sep ∷ rest) ≡ s ∷ getlines sep rest
  unfolding getlines
  getlines-append [] rest h = ground arith
  getlines-append (c ∷ s) rest h = ground (arith, getlines-append s rest h.1)

  getlines_one : (c : ℕ) (s : Text) → Lacks sep (c ∷ s) → getlines sep (c ∷ s) ≡ (c ∷ s) ∷ []
  unfolding getlines
  getlines_one c [] h = ground arith
  getlines_one c (d ∷ s) h = ground (arith, getlines_one d s h.1)

  -- The items of a separated list: each has a byte, and none holds the separator.
  abbrev pub IsItem : Text → Type 0
  IsItem s = (s ≢ []) × Lacks sep s

  pub getlines-join : (items : List Text) → All IsItem items → getlines sep (join sep items) ≡ items
  unfolding join
  getlines-join [] h = unfold getlines in refl
  getlines-join ([] ∷ []) h = absurd (h.0.0 refl)
  getlines-join ((c ∷ s) ∷ []) h = getlines_one c s h.0.1
  getlines-join (item ∷ next ∷ items) h = ground (
    arith,
    getlines-append item (join sep (next ∷ items)) h.0.1,
    getlines-join (next ∷ items) h.1,
  )

-- A separated list lacks what its items lack.
pub join-Lacks :
    (byte sep : ℕ) (items : List Text)
    → sep ≢ byte
    → All (Lacks byte) items
    → Lacks byte (join sep items)
unfolding join
join-Lacks byte sep [] ne h = tt
join-Lacks byte sep (item ∷ []) ne h = h.0
join-Lacks byte sep (item ∷ next ∷ items) ne h =
    All-append (λ c. c ≢ byte) item _ h.0 (ne, join-Lacks byte sep (next ∷ items) ne h.1)
