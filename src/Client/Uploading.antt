-- ===== src/Client/Uploading.antt =====
-- `generate_file_message` of client/headers/client_utils.cpp and `Client::file_upload_command` of
-- client/headers/client_skelton.cpp.
pub mod Record
pub mod Arrival
use p2p_distributed_file_sha.Prelude.{
  ℕ, ℤ, Bool, true, false, Option, none, some, List, [], ◌∷◌, ◌++◌, length, get_or,
}
use p2p_distributed_file_sha.Text.{Text, codes}
use p2p_distributed_file_sha.Words.{words, base_name}
use p2p_distributed_file_sha.Address.{Address}
use p2p_distributed_file_sha.Map
use p2p_distributed_file_sha.FileInfo.{FileInfo}
use p2p_distributed_file_sha.FileInfo.Print.{to_string}
use p2p_distributed_file_sha.Sync.{after_first}
use p2p_distributed_file_sha.Disk.{FileSystem}
use p2p_distributed_file_sha.Client.ByteOrder.{ByteOrder, htonll}
use p2p_distributed_file_sha.Client.Pieces.{
  global_piece_size, calculate_full_file_sha, calculate_piece_sha,
}

-- What is sent to the tracker: a text, and a length in network order with a text behind it.
pub data Sent : Type 0 where
  plain : Text → Sent
  counted : (net_len : ℕ) (text : Text) → Sent

-- How the command ends: the connection is lost and `reset_tracker` runs, or a text is returned.
pub data Uploaded : Type 0 where
  lost : List Sent → Uploaded
  returns : Text → List Sent → Uploaded

-- "upload_file_data <record>\n"
abbrev pub upload_payload : Text → Text
upload_payload file_data = codes "upload_file_data " ++ (file_data ++ b'\n' ∷ [])

module _ (sha : Text → Text) (real_path : Text → Option Text) (username : Text)
    (address : Address) where
  -- The record of a file with these bytes.
  unfoldable pub new_record : Text → Text → Text → FileInfo
  new_record group file_path content =
      let path = get_or (real_path file_path) file_path in
      record {
        name = base_name file_path;
        path = path;
        owner = username;
        group = group;
        size = length content;
        piece_size = global_piece_size;
        full_sha = calculate_full_file_sha sha content;
        piece_sha = calculate_piece_sha sha content global_piece_size;
        seeder_users = Map.put username address [];
        user_file_map = Map.put username path [];
      }

module _ (sha : Text → Text) (real_path : Text → Option Text) (username : Text) (address : Address)
    (disk : FileSystem) where
  -- `stat` fails on a path that leads to no file. (A file is taken to be readable.)
  describe : Text → Text → Option Text → Text
  unfolding new_record
  describe group file_path none = []
  describe group file_path (some content) =
      to_string (new_record sha real_path username address group file_path content)

  generate_from : List Text → Text
  unfolding describe
  generate_from (word ∷ group ∷ file_path ∷ []) = describe group file_path (Map.get file_path disk)
  generate_from tokens = []

  -- The empty text where the code gives up.
  unfoldable pub generate_file_message : Text → Text
  unfolding generate_from
  generate_file_message command = generate_from (words command)

  module _ (o : ByteOrder) where
    -- The answer to the record; none is a connection that is lost.
    finish_upload : List Sent → Option Text → Uploaded
    finish_upload sent none = lost sent
    finish_upload sent (some response) = returns response sent

    send_record : Text → Option Text → Text → Uploaded
    unfolding finish_upload
    send_record command second [] =
        returns (codes "Failed to read file data.\n") (plain command ∷ [])
    send_record command second (c ∷ file_data) =
        let new_command = upload_payload (c ∷ file_data) in
        finish_upload (plain command ∷ counted (htonll o (length new_command)) new_command ∷ [])
          second

    after_answer : Text → Option Text → Text → Option Text → Uploaded
    unfolding send_record
    after_answer command second response none = returns response (plain command ∷ [])
    after_answer command second response (some rest) =
        send_record command second (generate_file_message command)

    -- `first` and `second` are what the two calls of `recv` deliver, up to the first NUL.
    unfoldable pub file_upload_command : Option Text → Option Text → Text → Uploaded
    unfolding after_answer after_first
    file_upload_command none second command = lost (plain command ∷ [])
    file_upload_command (some response) second command =
        after_answer command second response (after_first (codes "send_all_data") response)
