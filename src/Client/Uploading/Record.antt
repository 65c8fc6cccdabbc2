-- ===== src/Client/Uploading/Record.antt =====
-- The record that the client writes of a file.
use p2p_distributed_file_sha.Prelude.{
  ℕ, ◌≤◌, ◌≢◌, refl, Option, List, [], ◌∷◌, length, get_or, map, arith, All, All-imp,
}
use p2p_distributed_file_sha.Text.{Text, ==_refl}
use p2p_distributed_file_sha.Words.{is_blank, base_name}
use p2p_distributed_file_sha.Words.Tokens.{IsTokenByte, IsToken}
use p2p_distributed_file_sha.Words.Ends.{
  EndsWell, EndsWell-field, token-EndsWell, StartsWell, token-StartsWell, base_name-All,
}
use p2p_distributed_file_sha.Address.{Address}
use p2p_distributed_file_sha.Number.{u64_max, show_nat}
use p2p_distributed_file_sha.Number.RoundTrip.{IsInt}
use p2p_distributed_file_sha.Map
use p2p_distributed_file_sha.Split.{join}
use p2p_distributed_file_sha.Split.RoundTrip.{Lacks}
use p2p_distributed_file_sha.FileInfo.Print.{to_string, show_path, show_seeder}
use p2p_distributed_file_sha.FileInfo.RoundTrip.{IsPlain, IsPiece, IsWord}
use p2p_distributed_file_sha.Files.Invariant.{IsShared}
use p2p_distributed_file_sha.Client.Pieces.{global_piece_size, calculate_piece_sha}
use p2p_distributed_file_sha.Client.Uploading.{new_record}

map-IsPiece :
    (sha : Text → Text) → ((s : Text) → IsPiece (sha s)) → (l : List Text) → All IsPiece (map sha l)
map-IsPiece sha h [] = tt
map-IsPiece sha h (p ∷ l) = (h p, map-IsPiece sha h l)

calculate_piece_sha-IsPiece :
    (sha : Text → Text)
    → ((s : Text) → IsPiece (sha s))
    → (w : Text) (ps : ℕ) → All IsPiece (calculate_piece_sha sha w ps)
unfolding calculate_piece_sha
calculate_piece_sha-IsPiece sha h w ps = map-IsPiece sha h _

-- What is asked of the file's path, and of the place where the client listens.
pub record Writable (real_path : Text → Option Text) (username group file_path : Text)
    (address : Address) : Type 0 where
  pub user_word : IsWord username
  pub ip_some : address.ip ≢ []
  pub ip_word : IsWord address.ip
  pub port_int : IsInt address.port
  pub group_plain : Lacks b'|' group
  pub path_token : IsToken file_path
  pub path_plain : Lacks b'|' file_path
  pub real_token : IsToken (get_or (real_path file_path) file_path)
  pub real_plain : Lacks b'|' (get_or (real_path file_path) file_path)
  pub real_item : Lacks b';' (get_or (real_path file_path) file_path)

module _ (sha : Text → Text) (digits : (s : Text) → IsPiece (sha s))
    (real_path : Text → Option Text) (username : Text) (address : Address)
    (group file_path w : Text) (writable : Writable real_path username group file_path address)
    (fits : length w ≤ u64_max) where
  word-plain : IsWord username → Lacks b'|' username
  word-plain h = All-imp _ (λ c. c ≢ b'|') username (λ c t. t.2) h

  pub new_record-IsPlain : IsPlain (new_record sha real_path username address group file_path w)
  unfolding new_record Map.put
  new_record-IsPlain = record {
    name = base_name-All (λ c. c ≢ b'|') file_path writable.path_plain;
    path = writable.real_plain;
    owner = word-plain writable.user_word;
    group = writable.group_plain;
    size = fits;
    piece_size = omega arith;
    full_sha = (digits w).2;
    piece_sha = calculate_piece_sha-IsPiece sha digits w global_piece_size;
    seeders = ((writable.user_word, writable.ip_some, writable.ip_word, writable.port_int), tt);
    paths = ((writable.user_word, writable.real_item, writable.real_plain), tt);
    seeder_order = (tt, tt);
    path_order = (tt, tt);
  }

  pub new_record-IsShared : IsShared (new_record sha real_path username address group file_path w)
  unfolding new_record Map.put Map.get
  new_record-IsShared = record {
    owner_seeds = rw (==_refl username) refl;
    paths = λ user. ground arith;
  }

  pub record_starts :
      StartsWell (to_string (new_record sha real_path username address group file_path w))
  unfolding to_string new_record is_blank
  record_starts =
      token-StartsWell (base_name file_path) b'|' _
        (base_name-All IsTokenByte file_path writable.path_token.1) refl

  pub record_ends :
      EndsWell (to_string (new_record sha real_path username address group file_path w))
  unfolding to_string new_record Map.put show_path join
  record_ends =
      let info = new_record sha real_path username address group file_path w in
      EndsWell-field info.name b'|' _ (
        EndsWell-field info.path b'|' _ (
          EndsWell-field info.owner b'|' _ (
            EndsWell-field info.group b'|' _ (
              EndsWell-field (show_nat info.size) b'|' _ (
                EndsWell-field (show_nat info.piece_size) b'|' _ (
                  EndsWell-field info.full_sha b'|' _ (
                    EndsWell-field (join b',' info.piece_sha) b'|' _ (
                      EndsWell-field (show_seeder (username, address)) b'|' _ (
                        EndsWell-field username b':' info.path
                          (token-EndsWell info.path writable.real_token))))))))))
