-- ===== src/Tests/Values.antt =====
-- Numbers, words and records of files.
use p2p_distributed_file_sha.Prelude.{◌≡◌, some, negsuc, arith}
use p2p_distributed_file_sha.Number.{show_nat, show_int, stoull, stoi}
use p2p_distributed_file_sha.Number.RoundTrip.{stoull-show_nat, stoi-show_int}
use p2p_distributed_file_sha.FileInfo.Print.{to_string}
use p2p_distributed_file_sha.FileInfo.Parse.{from_string}
use p2p_distributed_file_sha.FileInfo.RoundTrip.{IsPlain, from_string-to_string}
use p2p_distributed_file_sha.Tests.Data.{song}

stoull-show_nat_example : stoull (show_nat 524288) ≡ some 524288
stoull-show_nat_example = stoull-show_nat 524288 (omega arith)

stoi-show_int_example : stoi (show_int (negsuc 41)) ≡ some (negsuc 41)
stoi-show_int_example = stoi-show_int (negsuc 41) (omega arith)

song-IsPlain : IsPlain song
song-IsPlain = record {
  name = (omega arith, tt);
  path = (omega arith, (omega arith, tt));
  owner = (omega arith, tt);
  group = (omega arith, tt);
  size = omega arith;
  piece_size = omega arith;
  full_sha = (omega arith, tt);
  piece_sha = (
    ((λ e. cc), (omega arith, tt), (omega arith, tt)),
    (((λ e. cc), (omega arith, tt), (omega arith, tt)), tt),
  );
  seeders = (
    ((
      ((omega arith, omega arith, omega arith), tt),
      (λ e. cc),
      (
        (omega arith, omega arith, omega arith),
        ((omega arith, omega arith, omega arith), ((omega arith, omega arith, omega arith), tt)),
      ),
      omega arith,
    )),
    tt,
  );
  paths = (
    (
      ((omega arith, omega arith, omega arith), tt),
      (omega arith, (omega arith, tt)),
      (omega arith, (omega arith, tt)),
    ),
    tt,
  );
  seeder_order = (tt, tt);
  path_order = (tt, tt);
}

from_string-to_string_example : from_string (to_string song) ≡ some song
from_string-to_string_example = from_string-to_string song song-IsPlain
