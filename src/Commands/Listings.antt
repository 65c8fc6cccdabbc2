-- ===== src/Commands/Listings.antt =====
-- What list_files_command and download_file_command of `CommandManager` show of the files.
use p2p_distributed_file_sha.Prelude.{
  ◌≡◌, refl, ap, ◌∙◌, inl, inr, Bool-cases, Option-cases, Bool, true, not, ◌&&◌, none, List, [],
  ◌∷◌, arith, if◌then◌else◌,
}
use p2p_distributed_file_sha.Text.{Text, ◌==◌, ==_iff, ==_refl, mem}
use p2p_distributed_file_sha.Map
use p2p_distributed_file_sha.Map.{Map, get-nil, get-cons, get-put, get-remove, mem-keys}
use p2p_distributed_file_sha.Address.{Address}
use p2p_distributed_file_sha.FileInfo.Print.{to_string}
use p2p_distributed_file_sha.Users.{UserManager, is_logged_in}
use p2p_distributed_file_sha.Groups
use p2p_distributed_file_sha.Groups.Membership.{member_of}
use p2p_distributed_file_sha.Files
use p2p_distributed_file_sha.Files.{FileManager, seeder_list, is_file_exist}
use p2p_distributed_file_sha.Commands.{State}
use p2p_distributed_file_sha.Commands.Effects.{has_access, ask_member_present, ask_access_present}
use p2p_distributed_file_sha.Commands.Sharing.{
  has_live_seeder, extract_files_which_have_one_or_more_seeders, list_files_command,
  get_available_seeders, download_record, download_file_command,
}
use p2p_distributed_file_sha.Replies.{no_file, list_lines, file_data}

-- A seeder of the file is logged in.
abbrev is_live : State → Text → Text → Bool
is_live s name file = has_live_seeder s.um (seeder_list s.fm name file)

-- The user is logged in and seeds the file.
abbrev pub Serves : State → Text → Text → Text → Type 0
Serves s name file v =
    (Map.contains v (seeder_list s.fm name file) ≡ true) × (is_logged_in s.um v ≡ true)

mem-extract :
    (s : State) (name file : Text) (l : List Text)
    → mem file (extract_files_which_have_one_or_more_seeders s name l)
      ≡ (mem file l && is_live s name file)
unfolding extract_files_which_have_one_or_more_seeders mem
mem-extract s name file [] = refl
mem-extract s name file (f ∷ l) = ground (arith, mem-extract s name file l, ==_iff f file)

mem-list_files_in_group :
    (fm : FileManager) (name file : Text)
    → mem file (Files.list_files_in_group fm name) ≡ is_file_exist fm name file
unfolding Files.list_files_in_group is_file_exist
mem-list_files_in_group fm name file = mem-keys file (Files.files_of fm name)

-- A user who is seeding and logged in makes the file live.
live_of_seeder :
    (um : UserManager) (user : Text) (seeders : Map Address)
    → Map.contains user seeders ≡ true
    → is_logged_in um user ≡ true
    → has_live_seeder um seeders ≡ true
unfolding has_live_seeder
live_of_seeder um user [] h k = ground (arith, get-nil {V = Address} user)
live_of_seeder um user ((j, a) ∷ m) h k =
    ground (arith, live_of_seeder um user m, get-cons user j a m, ==_iff j user)

seeder_of_live :
    (um : UserManager) (seeders : Map Address)
    → has_live_seeder um seeders ≡ true
    → (user : Text) × (Map.contains user seeders ≡ true) × (is_logged_in um user ≡ true)
unfolding has_live_seeder
seeder_of_live um [] h = cc
seeder_of_live um ((j, a) ∷ m) h = elim (Bool-cases (is_logged_in um j)) [
  | inl here ↦ (j, ground (arith, get-cons j j a m, ==_refl j), here)
  | inr not_here ↦
      let (user, seeds, logged) = seeder_of_live um m (ground arith) in
      (user, ground (arith, get-cons user j a m), logged)
]

-- The two sides of what is shown: every file that somebody serves, and no other.
live-Serves :
    (s : State) (name file : Text) (before after : Bool)
    → after ≡ (before && is_live s name file)
    → (after ≡ true → (before ≡ true) × (v : Text) × Serves s name file v)
      × ((v : Text) → before ≡ true → Serves s name file v → after ≡ true)
live-Serves s name file before after e = (
  λ shown.
      let (v, seeds, logged) =
        seeder_of_live s.um (seeder_list s.fm name file) (ground (arith, e, shown)) in
      (ground (arith, e, shown), v, (seeds, logged)),
  λ v there serves.
      let live = live_of_seeder s.um v (seeder_list s.fm name file) serves.0 serves.1 in
      ground (arith, e, there, live),
)

-- The reply to list_files: the names in some order, a line for each.
abbrev pub listing : Text → List Text → Text
listing name [] = no_file name
listing name (file ∷ files) = list_lines (file ∷ files)

module _ (s : State) (user name : Text) where
  -- To a user with access to a group that exists, list_files replies with a line for each of some
  -- files, or that there are none: each of these is in the group, and one of its seeders is logged
  -- in; and every file of the group of which any seeder is logged in is one of these.
  pub list_files_shows_live :
      Groups.is_group_available s.gm name ≡ true
      → has_access s.gm user name ≡ true
      → (files : List Text) × ((list_files_command s user name).reply ≡ listing name files)
        × ((file : Text)
            → (mem file files ≡ true
                → (is_file_exist s.fm name file ≡ true) × (v : Text) × Serves s name file v)
              × ((v : Text)
                  → is_file_exist s.fm name file ≡ true
                  → Serves s name file v
                  → mem file files ≡ true))
  unfolding list_files_command
  list_files_shows_live there access = (
    extract_files_which_have_one_or_more_seeders s name (Files.list_files_in_group s.fm name),
    ground (arith, ask_access_present s user name there),
    λ file. live-Serves s name file (is_file_exist s.fm name file) _ (
        mem-extract s name file (Files.list_files_in_group s.fm name)
        ∙ ap (λ b. b && is_live s name file) (mem-list_files_in_group s.fm name file)),
  )

  extract_one :
      (file : Text)
      → extract_files_which_have_one_or_more_seeders s name (file ∷ [])
        ≡ (if is_live s name file then file ∷ [] else [])
  unfolding extract_files_which_have_one_or_more_seeders
  extract_one file = ground arith

  -- In a group that exists, whoever succeeds with download_file is a member, and the file is in the
  -- group and one of its seeders is logged in; and a member succeeds at every file of the group of
  -- which any seeder is logged in.
  pub download_file_exact :
      (file : Text)
      → Groups.is_group_available s.gm name ≡ true
      → ((download_file_command s user name file).success ≡ true
          → ((member_of s.gm user name && is_file_exist s.fm name file) ≡ true)
            × (v : Text) × Serves s name file v)
        × ((v : Text)
            → (member_of s.gm user name && is_file_exist s.fm name file) ≡ true
            → Serves s name file v
            → (download_file_command s user name file).success ≡ true)
  unfolding download_file_command
  download_file_exact file there =
      live-Serves s name file (member_of s.gm user name && is_file_exist s.fm name file) _
        (ground (arith, ask_member_present s user name there, extract_one file))

  -- A download_file that succeeds in a group that exists replies with the file's record for the user.
  download_file_reply :
      (file : Text)
      → Groups.is_group_available s.gm name ≡ true
      → (download_file_command s user name file).success ≡ true
      → (download_file_command s user name file).reply
        ≡ file_data (to_string (download_record s user name file))
  unfolding download_file_command
  download_file_reply file there done =
      ground (arith, ask_member_present s user name there, extract_one file)

get-get_available_seeders :
    (um : UserManager) (v : Text) (m : Map Address)
    → Map.get v (get_available_seeders um m) ≡ (if is_logged_in um v then Map.get v m else none)
unfolding get_available_seeders
get-get_available_seeders um v [] = ground (arith, get-nil {V = Address} v)
get-get_available_seeders um v ((j, a) ∷ m) = ground (
  arith,
  get-get_available_seeders um v m,
  get-put j v a (get_available_seeders um m),
  get-cons v j a m,
  ==_iff j v,
)

-- The record that a download sends lists, with the address on record, just the seeders of the file
-- that are logged in, but for the user who asks.
download_record_seeders :
    (s : State) (user name file v : Text)
    → Map.get v (download_record s user name file).seeder_users ≡ (
        if not (user == v) && is_logged_in s.um v
        then Map.get v (seeder_list s.fm name file)
        else none)
unfolding download_record Files.get_file_info seeder_list
download_record_seeders s user name file v = elim (Option-cases (Files.find_file s.fm name file)) [
  | inl absent ↦ ground (
    arith,
    get-remove user v (get_available_seeders s.um []),
    get-get_available_seeders s.um v [],
    get-nil {V = Address} v,
  )
  | inr (info, present) ↦ ground (
    arith,
    get-remove user v (get_available_seeders s.um info.seeder_users),
    get-get_available_seeders s.um v info.seeder_users,
  )
]
