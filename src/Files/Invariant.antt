-- ===== src/Files/Invariant.antt =====
-- The owner, the seeders and the paths of a file under the methods of `FileManager`.
use p2p_distributed_file_sha.Prelude.{
  ◌≡◌, refl, sym, subst, ◌∙◌, inl, inr, Bool-cases, Option-cases, true, ◌&&◌, Option, none, some,
  [], ◌∷◌, arith, is_some,
}
use p2p_distributed_file_sha.Text.{Text, ◌==◌, ==_refl}
use p2p_distributed_file_sha.Map
use p2p_distributed_file_sha.Map.{Map, get-nil, get-cons, get-put, get-remove}
use p2p_distributed_file_sha.Address.{Address}
use p2p_distributed_file_sha.FileInfo.{FileInfo}
use p2p_distributed_file_sha.Files.{
  FileManager, empty, files_of, find_file, set_files, add_file, add_new_seeder, path_of, hand_over,
  remove_in, remove_seeder,
}
use p2p_distributed_file_sha.Files.Lookup.{find_file-put, find_file-remove}

-- The seeders are exactly the users with a path on record, and the owner is one of them.
pub record IsShared (info : FileInfo) : Type 0 where
  pub owner_seeds : Map.contains info.owner info.seeder_users ≡ true
  pub paths :
      (user : Text) → Map.contains user info.seeder_users ≡ Map.contains user info.user_file_map

abbrev pub AllShared : FileManager → Type 0
AllShared fm =
    (group filename : Text) (info : FileInfo)
    → find_file fm group filename ≡ some info
    → IsShared info

AllShared-put :
    (fm : FileManager) (group filename : Text) (new : FileInfo)
    → IsShared new
    → AllShared fm
    → AllShared (set_files fm group (Map.put filename new (files_of fm group)))
AllShared-put fm group filename new ok all g f info e =
    elim (Bool-cases (group == g && filename == f)) [
      | inl here ↦
          let now = find_file-put fm group g filename f new in
          subst IsShared (ground (arith, now)) ok
      | inr there ↦ all g f info (ground (arith, find_file-put fm group g filename f new))
    ]

AllShared-remove :
    (fm : FileManager) (group filename : Text)
    → AllShared fm
    → AllShared (set_files fm group (Map.remove filename (files_of fm group)))
AllShared-remove fm group filename all g f info e =
    all g f info (ground (arith, find_file-remove fm group g filename f))

pub add_file-AllShared :
    (fm : FileManager) (group filename : Text) (info : FileInfo)
    → IsShared info
    → AllShared fm
    → AllShared (add_file fm group filename info).0
unfolding add_file
add_file-AllShared fm group filename info ok all =
    elim (Bool-cases (is_some (find_file fm group filename))) [
      | inl there ↦ rw there all
      | inr new ↦ rw new (AllShared-put fm group filename info ok all)
    ]

add_seeder-IsShared :
    (info : FileInfo) (user : Text) (addr : Address) (path : Text)
    → IsShared info
    → IsShared (record info {
      seeder_users = Map.put user addr info.seeder_users;
      user_file_map = Map.put user path info.user_file_map;
    })
add_seeder-IsShared info user addr path ok = record {
  owner_seeds = ground (arith, ok.owner_seeds, get-put user info.owner addr info.seeder_users);
  paths = λ u. ground (
    arith,
    ok.paths u,
    get-put user u addr info.seeder_users,
    get-put user u path info.user_file_map,
  );
}

pub add_new_seeder-AllShared :
    (fm : FileManager) (group filename user : Text) (addr : Address) (path : Text)
    → AllShared fm
    → AllShared (add_new_seeder fm group filename user addr path).0
unfolding add_new_seeder
add_new_seeder-AllShared fm group filename user addr path all =
    elim (Option-cases (find_file fm group filename)) [
      | inl absent ↦ rw (absent, add_new_seeder) all
      | inr (info, present) ↦
          rw (present, add_new_seeder)
            (AllShared-put fm group filename _
              (add_seeder-IsShared info user addr path (all group filename info present)) all)
    ]

path_of-kept :
    (user : Text) (paths : Map Text)
    → Map.contains user paths ≡ true
    → (path_of user paths).1 ≡ paths
unfolding path_of
path_of-kept user paths h = ground arith

module _ (info : FileInfo) (user first path : Text) (addr : Address) (others : Map Address)
    (left : Map.remove user info.seeder_users ≡ (first, addr) ∷ others) (ok : IsShared info) where
  contains_left :
      (u : Text)
      → Map.contains u ((first, addr) ∷ others)
        ≡ Map.contains u (Map.remove user info.user_file_map)
  contains_left u = rw (← left) (
      ground (
        arith,
        ok.paths u,
        get-remove user u info.seeder_users,
        get-remove user u info.user_file_map,
      ))

  first_seeds : Map.contains first ((first, addr) ∷ others) ≡ true
  first_seeds = ground (arith, get-cons first first addr others, ==_refl first)

  hand_over-IsShared : IsShared (record info {
    owner = first;
    path = path;
    seeder_users = (first, addr) ∷ others;
    user_file_map = (path_of first (Map.remove user info.user_file_map)).1;
  })
  hand_over-IsShared = record {
    owner_seeds = first_seeds;
    paths = λ u.
        rw
          (path_of-kept first (Map.remove user info.user_file_map)
            (sym (contains_left first) ∙ first_seeds))
          (contains_left u);
  }

module _ (fm : FileManager) (user group filename : Text) (all : AllShared fm) where
  hand_over-AllShared :
      (info : FileInfo) (seeders : Map Address)
      → Map.remove user info.seeder_users ≡ seeders
      → IsShared info
      → AllShared (hand_over fm group filename info seeders (Map.remove user info.user_file_map))
  unfolding hand_over
  hand_over-AllShared info [] e ok = AllShared-remove fm group filename all
  hand_over-AllShared info ((first, addr) ∷ others) e ok =
      AllShared-put fm group filename _ (hand_over-IsShared info user first _ addr others e ok) all

  remove_in-AllShared :
      (found : Option FileInfo)
      → find_file fm group filename ≡ found
      → AllShared (remove_in fm user group filename found).0
  unfolding remove_in
  remove_in-AllShared none e = all
  remove_in-AllShared (some info) e = elim (Bool-cases (Map.contains user info.seeder_users)) [
    | inl seeds ↦ rw seeds (hand_over-AllShared info _ refl (all group filename info e))
    | inr stranger ↦ rw stranger all
  ]

  pub remove_seeder-AllShared : AllShared (remove_seeder fm user group filename).0
  unfolding remove_seeder
  remove_seeder-AllShared = remove_in-AllShared _ refl

pub empty-AllShared : AllShared empty
empty-AllShared group filename info e =
    cc (get-nil {V = Map FileInfo} group, get-nil {V = FileInfo} filename)
