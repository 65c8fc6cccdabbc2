-- ===== src/Tests/Client.antt =====
-- A client that has a file of one piece, and the tasks of one that fetches it.
use p2p_distributed_file_sha.Prelude.{
  ◌%◌, ◌^◌, ◌≡◌, refl, some, List, [], ◌∷◌, append-nil, All, arith,
}
use p2p_distributed_file_sha.Text.{Text, codes, ◌==◌}
use p2p_distributed_file_sha.Number.{is_space}
use p2p_distributed_file_sha.Words.Tokens.{IsToken}
use p2p_distributed_file_sha.Map
use p2p_distributed_file_sha.FileInfo.{FileInfo}
use p2p_distributed_file_sha.Disk.{FileSystem}
use p2p_distributed_file_sha.Client.ByteOrder.{ByteOrder}
use p2p_distributed_file_sha.Client.Pieces.{global_piece_size, calculate_piece_sha}
use p2p_distributed_file_sha.Client.Seeding.{handle_client}
use p2p_distributed_file_sha.Client.Fetching.{Network}
use p2p_distributed_file_sha.Client.Fetching.Receiving.{together, HasBytes}
use p2p_distributed_file_sha.Client.Fetching.Writing.{CanWrite}
use p2p_distributed_file_sha.Client.Downloading.{Task}
use p2p_distributed_file_sha.Client.Downloading.Assembly.{mem_nat, Covers}
use p2p_distributed_file_sha.Client.Downloading.OneSeeder.{Serves, AllServed, deliver}
use p2p_distributed_file_sha.Tests.Data.{ann, home, club}

-- A machine whose byte order is the network's.
abbrev pub orders : ByteOrder
orders = record {
  htonl = λ v. v % 2 ^ 32;
  ntohl = λ v. v;
  htonl_fits = λ v. omega arith;
  ntohl-htonl = λ v h. omega arith;
}

-- A text is its own hash.
abbrev pub hash : Text → Text
hash s = s

abbrev pub content : Text
content = codes "hi"

abbrev pub path : Text
path = codes "/f"

abbrev pub shared : FileInfo
shared = record {
  name = codes "f";
  path = path;
  owner = ann;
  group = club;
  size = 2;
  piece_size = global_piece_size;
  full_sha = content;
  piece_sha = content ∷ [];
  seeder_users = (ann, home) ∷ [];
  user_file_map = (ann, path) ∷ [];
}

abbrev pub its_files : FileSystem
its_files = (path, content) ∷ []

-- What is sent arrives in one segment.
abbrev uncut : Text → List Text
uncut [] = []
uncut (c ∷ s) = (c ∷ s) ∷ []

uncut_whole : (s : Text) → together (uncut s) ≡ s
uncut_whole [] = refl
uncut_whole (c ∷ s) = append-nil (c ∷ s)

uncut-HasBytes : (s : Text) → All HasBytes (uncut s)
uncut-HasBytes [] = tt
uncut-HasBytes (c ∷ s) = ((λ e. cc), tt)

abbrev net : Network
net address request =
    deliver uncut (handle_client orders (global_piece_size ∷ []) its_files request)

net-Serves : Serves orders its_files home net
net-Serves = record {
  cut = uncut;
  whole = uncut_whole;
  nonempty = uncut-HasBytes;
  sent = global_piece_size;
  later = [];
  complete = omega arith;
  serves = λ request. refl;
}

abbrev pub task : Task
task = record { index = 0; network = net; results = some global_piece_size ∷ [] }

task-CanWrite : CanWrite task.results
task-CanWrite = record { room = global_piece_size; later = []; enough = omega arith; first = refl }

pub tasks-Served : AllServed orders its_files home (task ∷ [])
tasks-Served = ((net-Serves, task-CanWrite), tt)

pub tasks-Cover : Covers shared (task ∷ [])
unfolding mem_nat
tasks-Cover i = ground arith

pub path-IsToken : IsToken path
unfolding is_space
path-IsToken = ((λ e. cc), ((refl, omega arith), ((refl, omega arith), tt)))

pub hashes_match : shared.piece_sha ≡ calculate_piece_sha hash content global_piece_size
unfolding calculate_piece_sha
hashes_match = refl

pub path_known : Map.get ann shared.user_file_map ≡ some path
unfolding Map.get ◌==◌
path_known = refl

pub file_present : Map.get path its_files ≡ some content
unfolding Map.get ◌==◌
file_present = refl
