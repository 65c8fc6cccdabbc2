-- ===== src/Client/Uploading/Arrival.antt =====
-- The record of a client at the tracker.
use p2p_distributed_file_sha.Prelude.{Option, [], ◌∷◌, ◌++◌}
use p2p_distributed_file_sha.Text.{Text, codes}
use p2p_distributed_file_sha.Address.{Address}
use p2p_distributed_file_sha.FileInfo.Print.{to_string}
use p2p_distributed_file_sha.Session.{commanding, Session, sends, notifies, Round}
use p2p_distributed_file_sha.Session
use p2p_distributed_file_sha.Client.Uploading.{new_record, upload_payload}
use p2p_distributed_file_sha.Client.ByteOrder.{ByteOrder}
use p2p_distributed_file_sha.Map

-- "upload_file <group> <path>\n"
abbrev pub upload_line : Text → Text → Text
upload_line group file_path = codes "upload_file " ++ (group ++ b' ' ∷ (file_path ++ b'\n' ∷ []))

-- The payload that the client sends.
abbrev pub payload :
    (Text → Text) → (Text → Option Text) → Text → Address → Text → Text → Text → Text
payload sha real_path username address group file_path w =
    upload_payload (to_string (new_record sha real_path username address group file_path w))
