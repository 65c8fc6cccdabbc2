-- ===== src/Tests/Data.antt =====
-- A tracker with two users, one group and one file, and a session.
use p2p_distributed_file_sha.Prelude.{pos, [], ◌∷◌, true, false, refl, arith}
use p2p_distributed_file_sha.Text.{Text, codes}
use p2p_distributed_file_sha.Address.{Address}
use p2p_distributed_file_sha.FileInfo.{FileInfo}
use p2p_distributed_file_sha.Groups
use p2p_distributed_file_sha.Groups.{create_group, request_to_join}
use p2p_distributed_file_sha.Groups.Invariant as GroupInv
use p2p_distributed_file_sha.Number.{is_space}
use p2p_distributed_file_sha.Number.RoundTrip.{IsInt}
use p2p_distributed_file_sha.Words.Tokens.{IsToken}
use p2p_distributed_file_sha.Commands.{State}
use p2p_distributed_file_sha.Session.{Session}

abbrev pub ann : Text
ann = codes "a"

abbrev pub bob : Text
bob = codes "b"

abbrev pub club : Text
club = codes "g"

abbrev pub password : Text
password = codes "p"

abbrev pub home : Address
home = record { ip = codes "1.2"; port = pos 80 }

abbrev pub song : FileInfo
song = record {
  name = codes "f";
  path = codes "/f";
  owner = codes "a";
  group = codes "g";
  size = 700;
  piece_size = 512;
  full_sha = codes "0";
  piece_sha = codes "1" ∷ codes "2" ∷ [];
  seeder_users = (codes "a", home) ∷ [];
  user_file_map = (codes "a", codes "/f") ∷ [];
}

-- `ann` owns the group and shares the file; `bob` has asked to join.
abbrev pub asked : State
asked = record {
  um = record {
    users = (ann, password) ∷ (bob, password) ∷ [];
    logged_in = (ann, home) ∷ (bob, home) ∷ [];
  };
  gm = (request_to_join (create_group Groups.empty ann club).0 bob club).0;
  fm = record { group_files = (club, (codes "f", song) ∷ []) ∷ [] };
}

pub asked-Inv : GroupInv.Inv asked.gm
asked-Inv =
    GroupInv.request_to_join-Inv (create_group Groups.empty ann club).0 bob club
      (GroupInv.create_group-Inv Groups.empty ann club GroupInv.empty-Inv)

-- The session of `ann`.
abbrev pub session : Session
session = record { client_address = home; logged_in = true; username = ann; socket_closed = false }

pub ann-IsToken : IsToken ann
unfolding is_space
ann-IsToken = ((λ e. cc), ((refl, omega arith), tt))

pub home-IsToken : IsToken home.ip
unfolding is_space
home-IsToken = ((λ e. cc), ((refl, omega arith), ((refl, omega arith), ((refl, omega arith), tt))))

pub home-IsInt : IsInt home.port
home-IsInt = omega arith
