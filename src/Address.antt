-- ===== src/Address.antt =====
-- `struct Address` of tracker/managers/manager.h and client/headers/file_header.h.
use p2p_distributed_file_sha.Prelude.{ℤ}
use p2p_distributed_file_sha.Text.{Text}

pub record Address : Type 0 where
  pub ip : Text
  pub port : ℤ
