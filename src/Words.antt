-- ===== src/Words.antt =====
-- `trim_whitespace`, `sanitize` and `tokenize` of tracker/headers/tracker_utils.cpp and of
-- client/headers/client_utils.cpp, and the file name at the end of a path.
pub mod Tokens
pub mod Trimmed
pub mod Ends
use p2p_distributed_file_sha.Prelude.{
  ℕ, Bool, true, false, ◌||◌, List, [], ◌∷◌, ◌++◌, eqb, if◌then◌else◌,
}
use p2p_distributed_file_sha.Text.{Text}
use p2p_distributed_file_sha.Number.{is_space}

-- One of " \n\r\t". (The client writes "\0" behind them, where the literal ends anyway.)
unfoldable pub is_blank : ℕ → Bool
is_blank c = eqb c b' ' || (eqb c b'\n' || (eqb c b'\r' || eqb c b'\t'))

unfoldable pub trim_start : Text → Text
trim_start [] = []
trim_start (c ∷ s) = let rest = trim_start s in if is_blank c then rest else c ∷ s

trim_end : Text → Text
trim_end [] = []
trim_end (c ∷ s) = elim (trim_end s) [ [] ↦ if is_blank c then [] else c ∷ [] | d ∷ t ↦ c ∷ d ∷ t ]

-- From the first byte that is not blank up to the last.
unfoldable pub trim_whitespace : Text → Text
unfolding trim_start trim_end is_blank
trim_whitespace s = trim_end (trim_start s)

-- `s.erase(remove(s.begin(), s.end(), '\0'), s.end())`
drop_nul : Text → Text
drop_nul [] = []
drop_nul (c ∷ s) = let rest = drop_nul s in if eqb c 0 then rest else c ∷ rest

unfoldable pub sanitize : Text → Text
unfolding drop_nul trim_whitespace
sanitize s = trim_whitespace (drop_nul s)

-- A word that is read, unless the stream ended before it had a byte.
flush : Text → List Text
flush [] = []
flush (c ∷ word) = (c ∷ word) ∷ []

-- `while (ss >> token)`: the runs of bytes that are no white space; `word` is the run so far.
words_from : Text → Text → List Text
words_from word [] = flush word
words_from word (c ∷ s) =
    let after = words_from [] s in
    let longer = words_from (word ++ c ∷ []) s in if is_space c then flush word ++ after else longer

-- The words of a stream, as they are.
unfoldable pub words : Text → List Text
unfolding words_from flush
words s = words_from [] s

-- `sanitize(token); if (!token.empty()) tokens.push_back(token);`
keep_tokens : List Text → List Text
keep_tokens [] = []
keep_tokens (word ∷ words) = flush (sanitize word) ++ keep_tokens words

unfoldable pub tokenize : Text → List Text
unfolding flush words_from keep_tokens sanitize is_space
tokenize s = keep_tokens (words_from [] s)

-- One of "/\\".
is_slash : ℕ → Bool
is_slash c = eqb c b'/' || eqb c b'\\'

base_from : Text → Text → Text
base_from name [] = name
base_from name (c ∷ s) =
    let fresh = base_from [] s in
    let longer = base_from (name ++ c ∷ []) s in if is_slash c then fresh else longer

-- `path.substr(path.find_last_of("/\\") + 1)`: where nothing is found, 0 is the start.
unfoldable pub base_name : Text → Text
unfolding base_from is_slash
base_name path = base_from [] path
