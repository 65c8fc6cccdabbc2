-- ===== src/Words/Ends.antt =====
-- `trim_whitespace` on a text that has no white space at its ends, and on one with a newline behind.
use p2p_distributed_file_sha.Prelude.{
  ℕ, ◌≡◌, ◌≢◌, refl, ap, sym, append-nil, All-append, Bool-cases, inl, inr, ◌∙◌, true, false, [],
  ◌∷◌, ◌++◌, arith, All,
}
use p2p_distributed_file_sha.Text.{Text}
use p2p_distributed_file_sha.Number.{is_space}
use p2p_distributed_file_sha.Words.{
  is_blank, trim_start, trim_end, trim_whitespace, is_slash, base_from, base_name,
}
use p2p_distributed_file_sha.Words.Tokens.{IsTokenByte, IsToken}

-- Nothing is trimmed at the end, and only the newline where one is put behind.
pub record EndsWell (s : Text) : Type 0 where
  pub some_byte : s ≢ []
  kept : trim_end s ≡ s
  newline_goes : trim_end (s ++ b'\n' ∷ []) ≡ s

trim_end-cons : (c : ℕ) (s t : Text) → s ≢ [] → trim_end t ≡ s → trim_end (c ∷ t) ≡ c ∷ s
unfolding trim_end
trim_end-cons c [] t h e = absurd (h refl)
trim_end-cons c (d ∷ s) t h e = rw e refl

pub EndsWell-cons : (c : ℕ) (s : Text) → EndsWell s → EndsWell (c ∷ s)
EndsWell-cons c s e = record {
  some_byte = λ n. cc;
  kept = trim_end-cons c s s e.some_byte e.kept;
  newline_goes = trim_end-cons c s (s ++ b'\n' ∷ []) e.some_byte e.newline_goes;
}

pub EndsWell-append : (s t : Text) → EndsWell t → EndsWell (s ++ t)
EndsWell-append [] t e = e
EndsWell-append (c ∷ s) t e = EndsWell-cons c (s ++ t) (EndsWell-append s t e)

-- A field of a text of fields.
pub EndsWell-field : (s : Text) (c : ℕ) (t : Text) → EndsWell t → EndsWell (s ++ c ∷ t)
EndsWell-field s c t e = EndsWell-append s (c ∷ t) (EndsWell-cons c t e)

pub token-EndsWell : (t : Text) → IsToken t → EndsWell t
unfolding trim_end is_blank is_space
token-EndsWell [] h = absurd (h.0 refl)
token-EndsWell (c ∷ []) h = record {
  some_byte = λ n. cc;
  kept = ground (arith, h.1.0.0);
  newline_goes = ground (arith, h.1.0.0);
}
token-EndsWell (c ∷ d ∷ s) h = EndsWell-cons c (d ∷ s) (token-EndsWell (d ∷ s) ((λ n. cc), h.1.1))

-- A byte that is not blank at the start.
abbrev pub StartsWell : Text → Type 0
StartsWell [] = false ≡ true
StartsWell (c ∷ s) = is_blank c ≡ false

trim_start_kept : (s t : Text) → StartsWell s → trim_start (s ++ t) ≡ s ++ t
unfolding trim_start
trim_start_kept [] t h = cc
trim_start_kept (c ∷ s) t h = rw h refl

pub token-StartsWell :
    (t : Text) (c : ℕ) (rest : Text)
    → All IsTokenByte t
    → is_blank c ≡ false
    → StartsWell (t ++ c ∷ rest)
unfolding is_blank is_space
token-StartsWell [] c rest h k = k
token-StartsWell (d ∷ t) c rest h k = ground (arith, h.0.0)

module _ (s : Text) (start : StartsWell s) (end : EndsWell s) where
  pub trim_whitespace_kept : trim_whitespace s ≡ s
  unfolding trim_whitespace
  trim_whitespace_kept =
      let e = ap trim_end (trim_start_kept s [] start) in
      ap (λ t. trim_end (trim_start t)) (sym (append-nil s))
      ∙ e
      ∙ ap trim_end (append-nil s)
      ∙ end.kept

  pub trim_whitespace_newline : trim_whitespace (s ++ b'\n' ∷ []) ≡ s
  unfolding trim_whitespace
  trim_whitespace_newline = ap trim_end (trim_start_kept s (b'\n' ∷ []) start) ∙ end.newline_goes

base_from-All {ℓ} :
    (P : ℕ → Type ℓ) (name s : Text) → All P name → All P s → All P (base_from name s)
unfolding base_from
base_from-All P name [] h k = h
base_from-All P name (c ∷ s) h k = elim (Bool-cases (is_slash c)) [
  | inl slash ↦ rw slash (base_from-All P [] s tt k.1)
  | inr other ↦
      rw other (base_from-All P (name ++ c ∷ []) s (All-append P name (c ∷ []) h (k.0, tt)) k.1)
]

-- The bytes of a file's name are bytes of its path.
pub base_name-All {ℓ} : (P : ℕ → Type ℓ) (path : Text) → All P path → All P (base_name path)
unfolding base_name
base_name-All P path h = base_from-All P [] path tt h
