-- ===== src/Sync/Records.antt =====
-- The message with a file's record, at another tracker.
use p2p_distributed_file_sha.Prelude.{
  ℕ, ℤ, suc, pos, negsuc, false, true, ◌≡◌, refl, ◌∙◌, some, List, [], ◌∷◌, ◌++◌, All, All-imp,
  arith, eqb,
}
use p2p_distributed_file_sha.Text.{Text, codes, ◌==◌}
use p2p_distributed_file_sha.Address.{Address}
use p2p_distributed_file_sha.Number.{show_nat, show_int, is_space}
use p2p_distributed_file_sha.Number.RoundTrip.{IsInt, IsDigit, show_nat-IsDigit}
use p2p_distributed_file_sha.Words.{tokenize, trim_whitespace, is_blank, trim_start}
use p2p_distributed_file_sha.Words.Tokens.{IsToken, tokenize-append, tokenize_token}
use p2p_distributed_file_sha.Words.Ends.{StartsWell, EndsWell, trim_whitespace_kept}
use p2p_distributed_file_sha.FileInfo.{FileInfo}
use p2p_distributed_file_sha.FileInfo.Print.{to_string}
use p2p_distributed_file_sha.FileInfo.RoundTrip.{IsPlain, from_string-to_string}
use p2p_distributed_file_sha.Verb.{Verb, verb_of}
use p2p_distributed_file_sha.Commands.{State}
use p2p_distributed_file_sha.Commands.Sharing.{upload_file_data}
use p2p_distributed_file_sha.Sync.{
  strip, after_first, handled, notify_text, upload_behind, store_upload, carry_out, sync_handler,
}
use p2p_distributed_file_sha.Sync.Tokens.{sync_handler-notify_text}

-- The word before a record, whose first letter is a `u`.
abbrev pub record_word : Text
record_word = codes "upload_file_data"

-- The text has no `u`, as an IP has none.
abbrev pub HasNoU : Text → Type 0
HasNoU = All (λ b. eqb b b'u' ≡ false)

skipped :
    (b : ℕ) (s : Text)
    → eqb b b'u' ≡ false
    → after_first record_word (b ∷ s) ≡ after_first record_word s
unfolding after_first strip
skipped b s h = ground arith

after_first-append :
    (p s : Text) → HasNoU p → after_first record_word (p ++ s) ≡ after_first record_word s
after_first-append [] s h = refl
after_first-append (b ∷ p) s h = skipped b (p ++ s) h.0 ∙ after_first-append p s h.1

after_first_found : (s : Text) → after_first record_word (record_word ++ s) ≡ some s
unfolding after_first strip
after_first_found s = refl

digit_no_u : (c : ℕ) → IsDigit c → eqb c b'u' ≡ false
digit_no_u c d = ground arith

show_int-HasNoU : (z : ℤ) → HasNoU (show_int z)
unfolding show_int
show_int-HasNoU (pos n) = All-imp IsDigit _ (show_nat n) digit_no_u (show_nat-IsDigit n)
show_int-HasNoU (negsuc n) =
    (refl, All-imp IsDigit _ (show_nat (suc n)) digit_no_u (show_nat-IsDigit (suc n)))

-- Where the record begins in the message to another tracker.
record_found :
    (addr : Address) (t : Text)
    → HasNoU addr.ip
    → after_first record_word (notify_text addr (codes "upload_file_data " ++ t)) ≡ some (b' ' ∷ t)
unfolding notify_text
record_found addr t ip =
    after_first-append (codes "SYNC ") _ (refl, (refl, (refl, (refl, (refl, tt)))))
    ∙ after_first-append addr.ip _ ip
    ∙ skipped b' ' _ refl
    ∙ after_first-append (show_int addr.port) _ (show_int-HasNoU addr.port)
    ∙ skipped b' ' _ refl
    ∙ after_first_found (b' ' ∷ t)

trim_blank : (t : Text) → trim_whitespace (b' ' ∷ t) ≡ trim_whitespace t
unfolding trim_whitespace trim_start is_blank
trim_blank t = refl

space : is_space b' ' ≡ true
unfolding is_space
space = refl

record_word-IsToken : IsToken record_word
unfolding is_space
record_word-IsToken = ((λ e. cc), search (arith))

record_verb : verb_of record_word ≡ Verb.upload_file_data
unfolding verb_of ◌==◌
record_verb = refl

module _ (s : State) (addr : Address) (info : FileInfo) (readable : IsToken addr.ip)
    (port : IsInt addr.port) (ip : HasNoU addr.ip) (plain : IsPlain info)
    (start : StartsWell (to_string info)) (end : EndsWell (to_string info)) where
  -- Another tracker carries out the upload of a record for the owner, the group and the name that
  -- the record gives.
  pub record-Carried :
      (first : Text) (rest : List Text)
      → tokenize (to_string info) ≡ first ∷ rest
      → sync_handler s (notify_text addr (codes "upload_file_data " ++ to_string info))
        ≡ handled (upload_file_data s info.owner info.group info.name info)
  unfolding carry_out upload_behind store_upload
  record-Carried first rest e =
      let t = to_string info in
      let message = codes "upload_file_data " ++ t in
      let tokens : tokenize message ≡ record_word ∷ first ∷ rest =
        tokenize-append record_word b' ' t space
        ∙ rw (tokenize_token record_word record_word-IsToken, e) refl in
      sync_handler-notify_text s addr message record_word first rest readable port tokens
      ∙ rw
          (
            record_verb,
            record_found addr t ip,
            trim_blank t,
            trim_whitespace_kept t start end,
            from_string-to_string info plain,
          )
          refl
