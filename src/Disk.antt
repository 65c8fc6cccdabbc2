-- ===== src/Disk.antt =====
-- The calls by which the client changes a file: `ftruncate`, and `write` behind an `lseek64`.
pub mod Bytes
use p2p_distributed_file_sha.Prelude.{
  ℕ, zero, suc, ◌+◌, Option, none, some, List, [], ◌∷◌, ◌++◌, length, take, drop, Bool, true, false,
}
use p2p_distributed_file_sha.Text.{Text}
use p2p_distributed_file_sha.Map.{Map}

-- What the paths of a machine lead to, as the bytes of each regular file.
abbrev pub FileSystem : Type 0
FileSystem = Map Text

-- `ftruncate(fd, size)`: the bytes behind the size go, and those that are missing are 0.
unfoldable pub resize : ℕ → Text → Text
resize zero s = []
resize (suc n) [] = 0 ∷ resize n []
resize (suc n) (c ∷ s) = c ∷ resize n s

-- The bytes from the offset on are replaced by the new ones; a gap in front of them is filled by 0.
unfoldable pub write_at : ℕ → Text → Text → Text
unfolding resize
write_at offset new old = resize offset old ++ (new ++ drop (offset + length new) old)
