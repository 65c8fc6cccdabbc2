-- ===== src/Files.antt =====
-- `FileManager` of tracker/managers/file_manager.cpp: the files of each group and their seeders.
-- Each method holds the manager's mutex from its first line to its last, so it is one step.
pub mod Lookup
pub mod Invariant
pub mod Seeders
use p2p_distributed_file_sha.Prelude.{
  Bool, true, false, Option, none, some, List, [], ◌∷◌, get_or, is_some, if◌then◌else◌,
}
use p2p_distributed_file_sha.Text.{Text}
use p2p_distributed_file_sha.Map
use p2p_distributed_file_sha.Map.{Map}
use p2p_distributed_file_sha.Address.{Address}
use p2p_distributed_file_sha.FileInfo.{FileInfo}

pub record FileManager : Type 0 where
  pub group_files : Map (Map FileInfo)

abbrev pub empty : FileManager
empty = record { group_files = [] }

-- `group_files[group]`, the empty map if there is no entry
abbrev pub files_of : FileManager → Text → Map FileInfo
files_of fm group = get_or (Map.get group fm.group_files) []

-- `group_files.count(group) > 0 && group_files[group].count(filename) > 0`, and the entry
abbrev pub find_file : FileManager → Text → Text → Option FileInfo
find_file fm group filename = Map.get filename (files_of fm group)

-- `group_files[group] = files`
unfoldable pub set_files : FileManager → Text → Map FileInfo → FileManager
set_files fm group files = record fm { group_files = Map.put group files fm.group_files }

unfoldable pub add_file : FileManager → Text → Text → FileInfo → FileManager × Bool
add_file fm group filename info =
    if is_some (find_file fm group filename)
    then (fm, false)
    else (set_files fm group (Map.put filename info (files_of fm group)), true)

unfoldable pub is_file_exist : FileManager → Text → Text → Bool
is_file_exist fm group filename = is_some (find_file fm group filename)

-- `FileInfo emptyFile;`. The source leaves its two sizes uninitialised; here they are 0.
abbrev pub empty_file : FileInfo
empty_file = record {
  name = [];
  path = [];
  owner = [];
  group = [];
  size = 0;
  piece_size = 0;
  full_sha = [];
  piece_sha = [];
  seeder_users = [];
  user_file_map = [];
}

unfoldable pub get_file_info : FileManager → Text → Text → FileInfo
get_file_info fm group filename = get_or (find_file fm group filename) empty_file

-- The source iterates over an unordered map: the order of the names is not specified.
unfoldable pub list_files_in_group : FileManager → Text → List Text
list_files_in_group fm group = Map.keys (files_of fm group)

unfoldable pub seeder_list : FileManager → Text → Text → Map Address
seeder_list fm group filename = elim (find_file fm group filename) [
  | none ↦ []
  | some info ↦ info.seeder_users
]

unfoldable pub add_new_seeder :
    FileManager → Text → Text → Text → Address → Text → FileManager × Bool
add_new_seeder fm group filename username addr new_file_path = elim (find_file fm group filename) [
  | none ↦ (fm, false)
  | some info ↦ (
    set_files fm group (
        Map.put filename
          (record info {
            seeder_users = Map.put username addr info.seeder_users;
            user_file_map = Map.put username new_file_path info.user_file_map;
          })
          (files_of fm group)),
    true,
  )
]

-- `user_file_map[user]`, which makes an empty entry for a user that has none
path_of : Text → Map Text → Text × Map Text
path_of user paths = elim (Map.get user paths) [
  | none ↦ ([], Map.put user [] paths)
  | some path ↦ (path, paths)
]

-- The file after `seeder_map.erase(username)`: with no seeder left it goes, else the first seeder
-- in the order of names takes it over. The last two arguments are the maps after the erasures.
hand_over : FileManager → Text → Text → FileInfo → Map Address → Map Text → FileManager
hand_over fm group filename info [] paths =
    set_files fm group (Map.remove filename (files_of fm group))
hand_over fm group filename info ((first, addr) ∷ others) paths =
    let (path, paths') = path_of first paths in
    set_files fm group (
      Map.put filename
        (record info {
          owner = first;
          path = path;
          seeder_users = (first, addr) ∷ others;
          user_file_map = paths';
        })
        (files_of fm group))

remove_in : FileManager → Text → Text → Text → Option FileInfo → FileManager × Bool
remove_in fm username group filename none = (fm, false)
remove_in fm username group filename (some info) =
    if Map.contains username info.seeder_users
    then (
      hand_over fm group filename info (Map.remove username info.seeder_users)
          (Map.remove username info.user_file_map),
      true,
    )
    else (fm, false)

unfoldable pub remove_seeder : FileManager → Text → Text → Text → FileManager × Bool
unfolding hand_over remove_in path_of
remove_seeder fm username group filename =
    remove_in fm username group filename (find_file fm group filename)
