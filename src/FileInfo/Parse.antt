-- ===== src/FileInfo/Parse.antt =====
-- `FileInfo::fromString`. The exceptions of `stoull` and `stoi`, which nothing catches, are `none`.
use p2p_distributed_file_sha.Prelude.{ℕ, Option, none, some, List, [], ◌∷◌}
use p2p_distributed_file_sha.Text.{Text}
use p2p_distributed_file_sha.Map
use p2p_distributed_file_sha.Map.{Map}
use p2p_distributed_file_sha.Address.{Address}
use p2p_distributed_file_sha.Number.{stoull, stoi}
use p2p_distributed_file_sha.Split.{getline, getlines, split_at}
use p2p_distributed_file_sha.FileInfo.{FileInfo}

infixl 5 ◌>>=◌
abbrev ◌>>=◌ {ℓ κ} : {A : Type ℓ} {B : Type κ} → Option A → (A → Option B) → Option B
none >>= f = none
some a >>= f = f a

-- `str.empty() ? 0 : std::stoull(str)`
unfoldable pub read_size : Text → Option ℕ
read_size [] = some 0
read_size (c ∷ s) = stoull (c ∷ s)

-- Empty tokens are skipped.
unfoldable pub keep_nonempty : List Text → List Text
keep_nonempty [] = []
keep_nonempty ([] ∷ pieces) = keep_nonempty pieces
keep_nonempty ((c ∷ s) ∷ pieces) = (c ∷ s) ∷ keep_nonempty pieces

-- One entry `user:ip:port`; an entry with fewer than two colons is passed over.
unfoldable pub add_seeder : Text → Map Address → Option (Map Address)
add_seeder entry seeders = elim (split_at b':' entry) [
  | none ↦ some seeders
  | some (user, behind) ↦ elim (split_at b':' behind) [
    | none ↦ some seeders
    | some (ip, port_text) ↦ do
      port ← stoi port_text
      some (Map.put user (record { ip = ip; port = port }) seeders)
  ]
]

unfoldable pub add_seeders : List Text → Map Address → Option (Map Address)
add_seeders [] seeders = some seeders
add_seeders (entry ∷ entries) seeders = do
  seeders' ← add_seeder entry seeders
  add_seeders entries seeders'

-- One entry `user:file`; an entry with no colon is passed over.
unfoldable pub add_path : Text → Map Text → Map Text
add_path entry paths = elim (split_at b':' entry) [
  | none ↦ paths
  | some (user, file) ↦ Map.put user file paths
]

unfoldable pub add_paths : List Text → Map Text → Map Text
add_paths [] paths = paths
add_paths (entry ∷ entries) paths = add_paths entries (add_path entry paths)

unfoldable pub from_string : Text → Option FileInfo
from_string text = do
  let (name, rest1) = getline b'|' text
  let (path, rest2) = getline b'|' rest1
  let (owner, rest3) = getline b'|' rest2
  let (group, rest4) = getline b'|' rest3
  let (size_str, rest5) = getline b'|' rest4
  let (piece_size_str, rest6) = getline b'|' rest5
  size ← read_size size_str
  piece_size ← read_size piece_size_str
  let (full_sha, rest7) = getline b'|' rest6
  let (piece_sha_str, rest8) = getline b'|' rest7
  let (seeder_str, rest9) = getline b'|' rest8
  seeder_users ← add_seeders (getlines b';' seeder_str) []
  let (ufm_str, rest10) = getline b'|' rest9
  some (record {
    name = name;
    path = path;
    owner = owner;
    group = group;
    size = size;
    piece_size = piece_size;
    full_sha = full_sha;
    piece_sha = keep_nonempty (getlines b',' piece_sha_str);
    seeder_users = seeder_users;
    user_file_map = add_paths (getlines b';' ufm_str) [];
  })
