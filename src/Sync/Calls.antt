-- ===== src/Sync/Calls.antt =====
-- The commands that `sync_handler` carries out.
use p2p_distributed_file_sha.Prelude.{
  ℤ, ◌≡◌, refl, ◌⊎◌, inl, inr, Option, none, some, List, [], ◌∷◌,
}
use p2p_distributed_file_sha.Text.{Text, codes}
use p2p_distributed_file_sha.Address.{Address}
use p2p_distributed_file_sha.FileInfo.{FileInfo}
use p2p_distributed_file_sha.FileInfo.Parse.{from_string}
use p2p_distributed_file_sha.Number.{stoi}
use p2p_distributed_file_sha.Words.{trim_whitespace, tokenize, base_name}
use p2p_distributed_file_sha.Result.{Result, ok, fault}
use p2p_distributed_file_sha.Verb.{Verb, verb_of}
use p2p_distributed_file_sha.Commands.{State}
use p2p_distributed_file_sha.Commands.Calls.{
  Call, create_user, login, logout, create_group, join_group, accept_request, leave_group,
  upload_data, update_file, stop, execute,
}
use p2p_distributed_file_sha.Sync.{
  Handled, after_first, store_upload, upload_behind, carry_out, with_port, sync_tokens,
  sync_handler,
}

-- The state is the old one, or what one command makes of it.
abbrev pub ByCall : State → State → Type 0
ByCall s t = (t ≡ s) ⊎ ((k : Call) × (t ≡ (execute s k).state))

-- What holds of the state after a message, unless the process faults.
abbrev pub Then : (State → Type 0) → Result Handled → Type 0
Then P (ok (t, done)) = P t
Then P (fault f) = Unit

store_upload-ByCall : (s : State) (o : Option FileInfo) → Then (ByCall s) (store_upload s o)
unfolding store_upload execute
store_upload-ByCall s none = tt
store_upload-ByCall s (some i) = inr (upload_data i.owner i.group i.name i, refl)

upload_behind-ByCall : (s : State) (o : Option Text) → Then (ByCall s) (upload_behind s o)
unfolding upload_behind
upload_behind-ByCall s none = tt
upload_behind-ByCall s (some rest) = store_upload-ByCall s (from_string (trim_whitespace rest))

carry_out-ByCall :
    (s : State) (cmd : Text) (addr : Address) (verb : Verb) (first : Text) (rest : List Text)
    → Then (ByCall s) (carry_out s cmd addr verb first rest)
unfolding carry_out execute
carry_out-ByCall s cmd addr Verb.login u (p ∷ rest) = inr (login u p addr, refl)
carry_out-ByCall s cmd addr Verb.create_user u (p ∷ rest) = inr (create_user u p, refl)
carry_out-ByCall s cmd addr Verb.logout u rest = inr (logout u, refl)
carry_out-ByCall s cmd addr Verb.create_group g (u ∷ rest) = inr (create_group u g, refl)
carry_out-ByCall s cmd addr Verb.join_group g (u ∷ rest) = inr (join_group u g, refl)
carry_out-ByCall s cmd addr Verb.accept_request g (v ∷ u ∷ rest) = inr (accept_request u v g, refl)
carry_out-ByCall s cmd addr Verb.leave_group g (u ∷ rest) = inr (leave_group u g, refl)
carry_out-ByCall s cmd addr Verb.upload_file_data first rest =
    upload_behind-ByCall s (after_first (codes "upload_file_data") cmd)
carry_out-ByCall s cmd addr Verb.update_file_info g (f ∷ p ∷ []) = tt
carry_out-ByCall s cmd addr Verb.update_file_info g (f ∷ p ∷ u ∷ rest) =
    inr (update_file u g (base_name f) p addr, refl)
carry_out-ByCall s cmd addr Verb.stop_share g (f ∷ []) = tt
carry_out-ByCall s cmd addr Verb.stop_share g (f ∷ u ∷ rest) = inr (stop u g (base_name f), refl)
carry_out-ByCall s cmd addr verb first rest = inl refl

with_port-ByCall :
    (s : State) (cmd ip : Text) (port : Option ℤ) (word first : Text) (rest : List Text)
    → Then (ByCall s) (with_port s cmd ip port word first rest)
unfolding with_port
with_port-ByCall s cmd ip none word first rest = inl refl
with_port-ByCall s cmd ip (some port) word first rest =
    carry_out-ByCall s cmd (record { ip = ip; port = port }) (verb_of word) first rest

sync_tokens-ByCall :
    (s : State) (cmd : Text) (tokens : List Text) → Then (ByCall s) (sync_tokens s cmd tokens)
unfolding sync_tokens
sync_tokens-ByCall s cmd (t0 ∷ ip ∷ port_str ∷ word ∷ first ∷ rest) =
    with_port-ByCall s cmd ip (stoi port_str) word first rest
sync_tokens-ByCall s cmd tokens = inl refl

pub sync_handler-ByCall : (s : State) (cmd : Text) → Then (ByCall s) (sync_handler s cmd)
unfolding sync_handler
sync_handler-ByCall s cmd = sync_tokens-ByCall s cmd (tokenize cmd)
