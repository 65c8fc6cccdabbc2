-- ===== src/Session/Uploads.antt =====
-- A file's record at the session that waits for it, and at the other trackers.
use p2p_distributed_file_sha.Prelude.{◌≡◌, ◌≢◌, refl, ap, ◌∙◌, some, List, [], ◌∷◌, ◌++◌}
use p2p_distributed_file_sha.Text.{Text, codes}
use p2p_distributed_file_sha.Words.{is_blank, tokenize}
use p2p_distributed_file_sha.Words.Ends.{
  EndsWell-append, trim_whitespace_kept, trim_whitespace_newline, EndsWell, StartsWell,
}
use p2p_distributed_file_sha.Split.{split_at}
use p2p_distributed_file_sha.FileInfo.{FileInfo}
use p2p_distributed_file_sha.FileInfo.Print.{to_string}
use p2p_distributed_file_sha.FileInfo.Parse.{from_string}
use p2p_distributed_file_sha.FileInfo.RoundTrip.{IsPlain, from_string-to_string}
use p2p_distributed_file_sha.Result.{ok}
use p2p_distributed_file_sha.Sync.{notify_text, sync_handler, handled}
use p2p_distributed_file_sha.Sync.Records.{HasNoU, record-Carried}
use p2p_distributed_file_sha.Commands.{State}
use p2p_distributed_file_sha.Commands.Sharing.{upload_file_data}
use p2p_distributed_file_sha.Session.{
  awaiting_data, commanding, Session, counted, sends, notifies, Round,
}
use p2p_distributed_file_sha.Session.Commanding.{
  behind_blank, store_data, read_data, take_data, upload_data,
}
use p2p_distributed_file_sha.Session.Step.{step}
use p2p_distributed_file_sha.Session.Messages.{IsReadable, Replicated}
use p2p_distributed_file_sha.Client.Uploading.{upload_payload}

-- The round of a tracker that has stored this record.
abbrev pub stored : State → Session → Text → Text → FileInfo → Round
stored s c group_id file_name info =
    let o = upload_file_data s c.username group_id file_name info in
    record {
      phase = commanding;
      session = c;
      state = o.state;
      actions = sends o.reply ∷ notifies (codes "upload_file_data " ++ to_string info) ∷ [];
    }

module _ (s : State) (c : Session) (group_id file_name : Text) where
  read_data-some :
      (message t : Text) (info : FileInfo)
      → t ≢ []
      → from_string t ≡ some info
      → read_data s c group_id file_name message t
        ≡ store_data s c group_id file_name message (some info)
  unfolding read_data
  read_data-some message [] info h e = absurd (h refl)
  read_data-some message (x ∷ t) info h e = rw e refl

  pub payload_read :
      (t : Text) (info : FileInfo)
      → StartsWell t
      → EndsWell t
      → from_string t ≡ some info
      → upload_data s c group_id file_name (upload_payload t)
        ≡ store_data s c group_id file_name (codes "upload_file_data " ++ t) (some info)
  unfolding upload_data take_data behind_blank split_at is_blank
  payload_read t info start end e =
      ap (take_data s c group_id file_name) (
        trim_whitespace_newline (codes "upload_file_data " ++ t) refl
          (EndsWell-append (codes "upload_file_data ") t end))
      ∙ ap (read_data s c group_id file_name (codes "upload_file_data " ++ t))
          (trim_whitespace_kept t start end)
      ∙ read_data-some (codes "upload_file_data " ++ t) t info end.some_byte e

module _ (s : State) (c : Session) (info : FileInfo) (readable : IsReadable c)
    (ip : HasNoU c.client_address.ip) (plain : IsPlain info) (start : StartsWell (to_string info))
    (end : EndsWell (to_string info)) (first : Text) (rest : List Text)
    (some_word : tokenize (to_string info) ≡ first ∷ rest) where
  record_round :
      (group_id file_name : Text)
      → step (awaiting_data group_id file_name) c s (counted (upload_payload (to_string info)))
        ≡ ok (stored s c group_id file_name info)
  unfolding step store_data
  record_round group_id file_name =
      payload_read s c group_id file_name (to_string info) info start end
        (from_string-to_string info plain)

  -- A session that waits for a file's record takes one under the session's user, in the group and
  -- under the name of the command, while every other tracker that is told of it carries out the
  -- upload for the owner, in the group and under the name that the record gives. The client's
  -- address has to be readable and without a u, and the record one that is read as it was written.
  pub upload_in_any_name :
      (group_id file_name : Text) (t : State)
      → (step (awaiting_data group_id file_name) c s (counted (upload_payload (to_string info)))
          ≡ ok (stored s c group_id file_name info))
        × (sync_handler t
              (notify_text c.client_address (codes "upload_file_data " ++ to_string info))
            ≡ handled (upload_file_data t info.owner info.group info.name info))
  upload_in_any_name group_id file_name t = (
    record_round group_id file_name,
    record-Carried t c.client_address info readable.0 readable.1 ip plain start end first rest
        some_word,
  )

  -- The round in which a session takes a file's record makes, at every other tracker that is in the
  -- state before the round and is told of it, the state after the round, if the record names the
  -- session's user as its owner and the group and the file of the command. The client's address has
  -- to be readable and without a u, and the record one that is read as it was written.
  pub upload-Replicated :
      info.owner ≡ c.username
      → Replicated s c.client_address (
          step (awaiting_data info.group info.name) c s (counted (upload_payload (to_string info))))
  upload-Replicated owner =
      let o = upload_file_data s c.username info.group info.name info in
      let told =
        record-Carried s c.client_address info readable.0 readable.1 ip plain start end first rest
          some_word in
      rw (record_round info.group info.name) (
        tt,
        (
          (
            o.success,
            told ∙ ap (λ u. handled (upload_file_data s u info.group info.name info)) owner,
          ),
          tt,
        ),
      )
