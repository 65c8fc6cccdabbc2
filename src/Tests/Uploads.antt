-- ===== src/Tests/Uploads.antt =====
-- The upload of a file of one piece.
use p2p_distributed_file_sha.Prelude.{none, Option}
use p2p_distributed_file_sha.Text.{Text, codes}
use p2p_distributed_file_sha.Session
use p2p_distributed_file_sha.Client.Uploading.Arrival.{payload}
use p2p_distributed_file_sha.Tests.Data.{ann, home, club}
use p2p_distributed_file_sha.Tests.Client.{content, path}

-- Every text has the same hash.
abbrev one_hash : Text → Text
one_hash s = codes "0"

abbrev unresolved : Text → Option Text
unresolved s = none

abbrev sent_text : Text
sent_text = payload one_hash unresolved ann home club path content
