-- ===== src/FileInfo.antt =====
-- `struct FileInfo` of tracker/managers/manager.h and client/headers/file_header.h.
pub mod Print
pub mod Parse
pub mod RoundTrip
use p2p_distributed_file_sha.Prelude.{ℕ, List}
use p2p_distributed_file_sha.Text.{Text}
use p2p_distributed_file_sha.Map.{Map}
use p2p_distributed_file_sha.Address.{Address}

pub record FileInfo : Type 0 where
  pub name : Text
  pub path : Text
  pub owner : Text
  pub group : Text
  pub size : ℕ
  pub piece_size : ℕ
  pub full_sha : Text
  pub piece_sha : List Text
  pub seeder_users : Map Address
  pub user_file_map : Map Text
