-- ===== src/Files/Seeders.antt =====
-- The seeders of a file around `FileManager::remove_seeder`.
use p2p_distributed_file_sha.Prelude.{
  ◌≡◌, inl, inr, Option-cases, false, ◌&&◌, Option, none, some, [], ◌∷◌, arith, if◌then◌else◌,
}
use p2p_distributed_file_sha.Text.{Text, ◌==◌, ==_iff, ==_refl}
use p2p_distributed_file_sha.Map
use p2p_distributed_file_sha.Map.{Map, get-nil, get-put, get-remove}
use p2p_distributed_file_sha.Address.{Address}
use p2p_distributed_file_sha.FileInfo.{FileInfo}
use p2p_distributed_file_sha.Files.{
  FileManager, find_file, seeder_list, hand_over, remove_seeder, path_of,
}
use p2p_distributed_file_sha.Files.Lookup.{find_file-put, find_file-remove}

module _ (fm : FileManager) (user group filename : Text) where
  -- A removal that is refused changes nothing.
  pub remove_seeder_refused :
      (remove_seeder fm user group filename).1 ≡ false
      → (remove_seeder fm user group filename).0 ≡ fm
  unfolding remove_seeder
  remove_seeder_refused h = ground arith

-- The file that is left when only the seeders `left` remain.
abbrev heir : FileInfo → Map Address → Map Text → Option FileInfo
heir info [] paths = none
heir info ((first, addr) ∷ others) paths = some (record info {
  owner = first;
  path = (path_of first paths).0;
  seeder_users = (first, addr) ∷ others;
  user_file_map = (path_of first paths).1;
})

find_file-hand_over :
    (fm : FileManager) (group filename g f : Text) (info : FileInfo) (left : Map Address)
    (paths : Map Text)
    → find_file (hand_over fm group filename info left paths) g f
      ≡ (if group == g && filename == f then heir info left paths else find_file fm g f)
unfolding hand_over
find_file-hand_over fm group filename g f info [] paths = find_file-remove fm group g filename f
find_file-hand_over fm group filename g f info ((first, addr) ∷ others) paths =
    find_file-put fm group g filename f _

module _ (fm : FileManager) (user group filename : Text) where
  -- Stopping to share a file takes the user off the seeders of the file, and leaves the address of
  -- every other seeder.
  seeder_list-remove_seeder :
      (v : Text)
      → Map.get v (seeder_list (remove_seeder fm user group filename).0 group filename)
        ≡ (if user == v then none else Map.get v (seeder_list fm group filename))
  unfolding remove_seeder seeder_list
  seeder_list-remove_seeder v = elim (Option-cases (find_file fm group filename)) [
    | inl absent ↦ ground (arith, get-nil {V = Address} v)
    | inr (info, present) ↦
        let left = Map.remove user info.seeder_users in
        let paths = Map.remove user info.user_file_map in
        ground (
          arith,
          find_file-hand_over fm group filename group filename info left paths,
          get-nil {V = Address} v,
          get-remove user v info.seeder_users,
          ==_refl group,
          ==_refl filename,
          ==_iff user v,
        )
  ]

  -- Stopping to share a file leaves the record of every other file as it was.
  find_file-remove_seeder_other :
      (g f : Text)
      → (group == g && filename == f) ≡ false
      → find_file (remove_seeder fm user group filename).0 g f ≡ find_file fm g f
  unfolding remove_seeder
  find_file-remove_seeder_other g f other = elim (Option-cases (find_file fm group filename)) [
    | inl absent ↦ ground arith
    | inr (info, present) ↦ ground (
      arith,
      find_file-hand_over fm group filename g f info (Map.remove user info.seeder_users)
          (Map.remove user info.user_file_map),
    )
  ]
