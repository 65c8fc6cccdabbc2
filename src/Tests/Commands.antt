-- ===== src/Tests/Commands.antt =====
-- The commands.
use p2p_distributed_file_sha.Prelude.{◌≡◌, refl, true, ◌&&◌, List, [], ◌∷◌, arith}
use p2p_distributed_file_sha.Text.{Text, codes, ◌==◌, mem}
use p2p_distributed_file_sha.Map
use p2p_distributed_file_sha.Users.{is_logged_in}
use p2p_distributed_file_sha.Groups
use p2p_distributed_file_sha.Groups.Membership.{member_of}
use p2p_distributed_file_sha.Files.{seeder_list, is_file_exist}
use p2p_distributed_file_sha.Files.Invariant.{IsShared}
use p2p_distributed_file_sha.Commands.{State, start}
use p2p_distributed_file_sha.Commands.Sharing.{
  list_files_command, download_file_command, download_record,
}
use p2p_distributed_file_sha.Commands.Calls.{
  Call, create_user, create_group, leave_group, upload_data, list_files, execute,
}
use p2p_distributed_file_sha.Commands.Authority.{file_calls_need_membership}
use p2p_distributed_file_sha.Commands.Listings.{
  Serves, listing, list_files_shows_live, download_file_exact,
}
use p2p_distributed_file_sha.Commands.Leftovers.{made_again, files_outlive_group}
use p2p_distributed_file_sha.Tests.Data.{ann, bob, club, password, song, asked, asked-Inv}

abbrev calls : List Call
calls =
    create_user ann password
    ∷ create_group ann club
    ∷ upload_data ann club (codes "f") song
    ∷ leave_group ann club
    ∷ []

song-IsShared : IsShared song
unfolding Map.get ◌==◌
song-IsShared = record { owner_seeds = refl; paths = λ user. ground arith }

file_calls_need_membership_example : member_of asked.gm ann club ≡ true
unfolding execute list_files_command Groups.is_group_available Map.get Groups.request_to_join
    Groups.create_group Map.put ◌==◌ mem p2p_distributed_file_sha.Commands.Sharing.ask_access
    p2p_distributed_file_sha.Commands.Membership.ask_member Groups.is_member_of_group
    p2p_distributed_file_sha.Commands.Sharing.extract_files_which_have_one_or_more_seeders
    p2p_distributed_file_sha.Files.list_files_in_group Map.keys
    p2p_distributed_file_sha.Commands.Sharing.has_live_seeder seeder_list is_logged_in
    Groups.is_group_owner Groups.index_add p2p_distributed_file_sha.TextSet.insert
file_calls_need_membership_example =
    file_calls_need_membership asked (list_files ann club) ann club asked-Inv refl refl

list_files_shows_live_example :
    (files : List Text) × ((list_files_command asked ann club).reply ≡ listing club files)
    × ((file : Text)
        → (mem file files ≡ true
            → (is_file_exist asked.fm club file ≡ true) × (v : Text) × Serves asked club file v)
          × ((v : Text)
              → is_file_exist asked.fm club file ≡ true
              → Serves asked club file v
              → mem file files ≡ true))
unfolding Groups.is_group_available Map.get Groups.request_to_join Groups.create_group Map.put ◌==◌
    mem
list_files_shows_live_example = list_files_shows_live asked ann club refl refl

download_file_exact_example :
    ((download_file_command asked ann club (codes "f")).success ≡ true
      → ((member_of asked.gm ann club && is_file_exist asked.fm club (codes "f")) ≡ true)
        × (v : Text) × Serves asked club (codes "f") v)
    × ((v : Text)
        → (member_of asked.gm ann club && is_file_exist asked.fm club (codes "f")) ≡ true
        → Serves asked club (codes "f") v
        → (download_file_command asked ann club (codes "f")).success ≡ true)
unfolding Groups.is_group_available Map.get Groups.request_to_join Groups.create_group Map.put ◌==◌
    mem
download_file_exact_example = download_file_exact asked ann club (codes "f") refl

files_outlive_group_example :
    (member_of (made_again asked ann bob club).gm bob club ≡ true)
    × ((made_again asked ann bob club).fm ≡ asked.fm)
unfolding execute p2p_distributed_file_sha.Commands.Membership.leave_group_command
    Groups.is_group_available Map.get Groups.request_to_join Groups.create_group Map.put ◌==◌ mem
    p2p_distributed_file_sha.Commands.Membership.ask_member Groups.is_member_of_group
    Groups.leave_group p2p_distributed_file_sha.Text.erase_first Map.remove
files_outlive_group_example = files_outlive_group asked ann bob club refl refl
