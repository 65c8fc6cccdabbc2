-- ===== src/Tests/Replication.antt =====
-- The record of a file, at a session and at another tracker.
use p2p_distributed_file_sha.Prelude.{◌≡◌, refl, [], ◌∷◌, ◌++◌}
use p2p_distributed_file_sha.Text.{codes}
use p2p_distributed_file_sha.Words.{tokenize}
use p2p_distributed_file_sha.Words.Ends.{StartsWell, EndsWell, EndsWell-field, token-EndsWell}
use p2p_distributed_file_sha.FileInfo.Print.{to_string, show_path, show_seeder}
use p2p_distributed_file_sha.Split.{join}
use p2p_distributed_file_sha.Number.{show_nat}
use p2p_distributed_file_sha.Sync.Records.{HasNoU}
use p2p_distributed_file_sha.Result.{ok}
use p2p_distributed_file_sha.Sync.{notify_text, sync_handler, handled}
use p2p_distributed_file_sha.Commands.{start}
use p2p_distributed_file_sha.Commands.Sharing.{upload_file_data}
use p2p_distributed_file_sha.Session.{awaiting_data, counted}
use p2p_distributed_file_sha.Session.Step.{step}
use p2p_distributed_file_sha.Session.Messages.{Replicated}
use p2p_distributed_file_sha.Session.Uploads.{stored, upload_in_any_name, upload-Replicated}
use p2p_distributed_file_sha.Client.Uploading.{upload_payload}
use p2p_distributed_file_sha.Tests.Data.{ann, club, asked, session, home, home-IsToken, home-IsInt}
use p2p_distributed_file_sha.Tests.Client.{shared, path, path-IsToken}
use p2p_distributed_file_sha.Tests.Downloads.{shared-IsPlain}

record_start : StartsWell (to_string shared)
unfolding to_string p2p_distributed_file_sha.Words.is_blank
record_start = refl

record_end : EndsWell (to_string shared)
unfolding to_string show_path join
record_end = EndsWell-field shared.name b'|' _ (
    EndsWell-field shared.path b'|' _ (
      EndsWell-field shared.owner b'|' _ (
        EndsWell-field shared.group b'|' _ (
          EndsWell-field (show_nat shared.size) b'|' _ (
            EndsWell-field (show_nat shared.piece_size) b'|' _ (
              EndsWell-field shared.full_sha b'|' _ (
                EndsWell-field (join b',' shared.piece_sha) b'|' _ (
                  EndsWell-field (show_seeder (ann, home)) b'|' _
                    (EndsWell-field ann b':' path (token-EndsWell path path-IsToken))))))))))

record_words : tokenize (to_string shared) ≡ to_string shared ∷ []
unfolding to_string tokenize show_nat join show_seeder p2p_distributed_file_sha.Number.show_int
    show_path
record_words = refl

no_u : HasNoU home.ip
no_u = (refl, (refl, (refl, tt)))

upload_in_any_name_example :
    (step
        (awaiting_data (codes "h") (codes "x"))
        session
        asked
        (counted (upload_payload (to_string shared)))
      ≡ ok (stored asked session (codes "h") (codes "x") shared))
    × (sync_handler start (notify_text home (codes "upload_file_data " ++ to_string shared))
        ≡ handled (upload_file_data start shared.owner shared.group shared.name shared))
upload_in_any_name_example =
    upload_in_any_name asked session shared (home-IsToken, home-IsInt) no_u shared-IsPlain
      record_start record_end (to_string shared) [] record_words (codes "h") (codes "x") start

upload-Replicated_example : Replicated asked home (
    step
      (awaiting_data club (codes "f"))
      session
      asked
      (counted (upload_payload (to_string shared))))
upload-Replicated_example =
    upload-Replicated asked session shared (home-IsToken, home-IsInt) no_u shared-IsPlain
      record_start record_end (to_string shared) [] record_words refl
