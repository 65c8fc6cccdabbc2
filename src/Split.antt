-- ===== src/Split.antt =====
-- The stream and string calls by which the program takes text apart: `getline` with a delimiter,
-- `find` of one byte with `substr`, and the writing of separated lists that these undo.
pub mod RoundTrip
use p2p_distributed_file_sha.Prelude.{
  ℕ, Bool, Option, none, some, List, [], ◌∷◌, ◌++◌, eqb, if◌then◌else◌,
}
use p2p_distributed_file_sha.Text.{Text}

-- One `getline(ss, token, sep)`: the token, and what is left in the stream. A stream at its end
-- leaves the token empty, as it was.
unfoldable pub getline : ℕ → Text → Text × Text
getline sep [] = ([], [])
getline sep (c ∷ s) =
    let rest = getline sep s in if eqb c sep then ([], s) else (c ∷ rest.0, rest.1)

push_char : ℕ → List Text → List Text
push_char c [] = (c ∷ []) ∷ []
push_char c (token ∷ tokens) = (c ∷ token) ∷ tokens

-- The tokens of `while (getline(ss, token, sep))`. Nothing is read behind a last separator.
unfoldable pub getlines : ℕ → Text → List Text
unfolding push_char
getlines sep [] = []
getlines sep (c ∷ s) =
    let rest = getlines sep s in if eqb c sep then [] ∷ rest else push_char c rest

-- `s.find(sep)`, as the text before the first `sep` and the text behind it.
unfoldable pub split_at : ℕ → Text → Option (Text × Text)
split_at sep [] = none
split_at sep (c ∷ s) =
    let rest = split_at sep s in
    if eqb c sep
    then some ([], s)
    else elim rest [ none ↦ none | some (before, behind) ↦ some (c ∷ before, behind) ]

-- The items with `sep` between them, as the loops on `first` write them.
unfoldable pub join : ℕ → List Text → Text
join sep [] = []
join sep (item ∷ []) = item
join sep (item ∷ next ∷ items) = item ++ sep ∷ join sep (next ∷ items)
