-- ===== src/Words/Tokens.antt =====
-- The tokens that `tokenize` returns, and the tokens of a line that is put together.
use p2p_distributed_file_sha.Prelude.{
  ℕ, Bool-cases, inl, inr, ◌≡◌, ◌≢◌, refl, ap, ◌∙◌, true, false, List, [], ◌∷◌, ◌++◌, append-nil,
  append_assoc, arith, All, All-append, All-imp,
}
use p2p_distributed_file_sha.Text.{Text}
use p2p_distributed_file_sha.Number.{is_space}
use p2p_distributed_file_sha.Words.{
  is_blank, trim_start, trim_end, trim_whitespace, drop_nul, sanitize, flush, words_from,
  keep_tokens, tokenize, words,
}

abbrev pub IsTokenByte : ℕ → Type 0
IsTokenByte c = (is_space c ≡ false) × (c ≢ 0)

abbrev pub IsToken : Text → Type 0
IsToken t = (t ≢ []) × All IsTokenByte t

-- A run of bytes that are no white space.
abbrev IsRun : Text → Type 0
IsRun = All (λ c. is_space c ≡ false)

trim_start_run : (s : Text) → IsRun s → trim_start s ≡ s
unfolding trim_start is_blank is_space
trim_start_run [] h = refl
trim_start_run (c ∷ s) h = ground arith

trim_end_run : (s : Text) → IsRun s → trim_end s ≡ s
unfolding trim_end is_blank is_space
trim_end_run [] h = refl
trim_end_run (c ∷ s) h = ground (arith, trim_end_run s h.1)

trim_whitespace_run : (s : Text) → IsRun s → trim_whitespace s ≡ s
unfolding trim_whitespace
trim_whitespace_run s h = ap trim_end (trim_start_run s h) ∙ trim_end_run s h

drop_nul-IsRun : (s : Text) → IsRun s → All IsTokenByte (drop_nul s)
unfolding drop_nul
drop_nul-IsRun [] h = tt
drop_nul-IsRun (c ∷ s) h = ground (arith, drop_nul-IsRun s h.1)

drop_nul_token : (s : Text) → All IsTokenByte s → drop_nul s ≡ s
unfolding drop_nul
drop_nul_token [] h = refl
drop_nul_token (c ∷ s) h = ground (arith, drop_nul_token s h.1)

IsRun-of_token : (s : Text) → All IsTokenByte s → IsRun s
IsRun-of_token s h = All-imp IsTokenByte (λ c. is_space c ≡ false) s (λ c t. t.0) h

sanitize_run : (s : Text) → IsRun s → sanitize s ≡ drop_nul s
unfolding sanitize
sanitize_run s h = trim_whitespace_run (drop_nul s) (IsRun-of_token _ (drop_nul-IsRun s h))

sanitize_token : (s : Text) → All IsTokenByte s → sanitize s ≡ s
sanitize_token s h = sanitize_run s (IsRun-of_token s h) ∙ drop_nul_token s h

flush-IsToken : (s : Text) → All IsTokenByte s → All IsToken (flush s)
unfolding flush
flush-IsToken [] h = tt
flush-IsToken (c ∷ s) h = (((λ e. cc), h), tt)

flush-IsRun : (s : Text) → IsRun s → All IsRun (flush s)
unfolding flush
flush-IsRun [] h = tt
flush-IsRun (c ∷ s) h = (h, tt)

words_from-IsRun : (word s : Text) → IsRun word → All IsRun (words_from word s)
unfolding words_from
words_from-IsRun word [] h = flush-IsRun word h
words_from-IsRun word (c ∷ s) h = elim (Bool-cases (is_space c)) [
  | inl space ↦
      rw space (All-append IsRun (flush word) _ (flush-IsRun word h) (words_from-IsRun [] s tt))
  | inr other ↦ rw other (
      words_from-IsRun (word ++ c ∷ []) s
        (All-append (λ c. is_space c ≡ false) word (c ∷ []) h (other, tt)))
]

keep_tokens-IsToken : (l : List Text) → All IsRun l → All IsToken (keep_tokens l)
unfolding keep_tokens
keep_tokens-IsToken [] h = tt
keep_tokens-IsToken (w ∷ l) h =
    All-append IsToken (flush (sanitize w)) _
      (rw (sanitize_run w h.0) (flush-IsToken _ (drop_nul-IsRun w h.0))) (keep_tokens-IsToken l h.1)

-- Every token has a byte, and none of its bytes is white space or NUL.
pub tokenize-IsToken : (s : Text) → All IsToken (tokenize s)
unfolding tokenize
tokenize-IsToken s = keep_tokens-IsToken _ (words_from-IsRun [] s tt)

words_from-append :
    (word s : Text) (c : ℕ) (t : Text)
    → is_space c ≡ true
    → words_from word (s ++ c ∷ t) ≡ words_from word s ++ words_from [] t
unfolding words_from
words_from-append word [] c t h = ground arith
words_from-append word (d ∷ s) c t h = ground (
  arith,
  words_from-append [] s c t h,
  words_from-append (word ++ d ∷ []) s c t h,
  append_assoc (flush word) (words_from [] s) (words_from [] t),
)

keep_tokens-append : (l k : List Text) → keep_tokens (l ++ k) ≡ keep_tokens l ++ keep_tokens k
unfolding keep_tokens
keep_tokens-append [] k = refl
keep_tokens-append (w ∷ l) k = simp (keep_tokens-append l k, append_assoc)

-- The tokens of two texts with a byte of white space between them are those of the first text and
-- then those of the second.
pub tokenize-append :
    (s : Text) (c : ℕ) (t : Text)
    → is_space c ≡ true
    → tokenize (s ++ c ∷ t) ≡ tokenize s ++ tokenize t
unfolding tokenize
tokenize-append s c t h =
    rw (words_from-append [] s c t h) (keep_tokens-append (words_from [] s) (words_from [] t))

words_from_run : (word s : Text) → IsRun s → words_from word s ≡ flush (word ++ s)
unfolding words_from
words_from_run word [] h = rw append-nil
words_from_run word (c ∷ s) h =
    ground (arith, words_from_run (word ++ c ∷ []) s h.1, append_assoc word (c ∷ []) s)

-- A token is its own only token.
pub tokenize_token : (t : Text) → IsToken t → tokenize t ≡ t ∷ []
unfolding tokenize
tokenize_token [] h = absurd (h.0 refl)
tokenize_token (c ∷ s) h =
    ap keep_tokens (words_from_run [] (c ∷ s) (IsRun-of_token (c ∷ s) h.1))
    ∙ (unfold keep_tokens flush in rw (sanitize_token (c ∷ s) h.1))

-- The same for the words of a stream.
pub words-append :
    (s : Text) (c : ℕ) (t : Text) → is_space c ≡ true → words (s ++ c ∷ t) ≡ words s ++ words t
unfolding words
words-append s c t h = words_from-append [] s c t h

pub words_token : (t : Text) → IsToken t → words t ≡ t ∷ []
unfolding words flush
words_token [] h = absurd (h.0 refl)
words_token (c ∷ s) h = words_from_run [] (c ∷ s) (IsRun-of_token (c ∷ s) h.1)
